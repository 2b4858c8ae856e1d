-- ===== src/Storage/Tp/Manager/Finish.antt =====
-- The end of a transaction: `finish_transaction` of minigu/storage/src/tp/txn_manager.rs; `abort_at`
-- and `commit_pessimistic` of minigu/storage/src/tp/transaction.rs with what they call.
use mini_gu.Base.{
  ℕ, ◌+◌, leb, if◌then◌else◌, Bool, true, false, Option, none, some, List, [], ◌∷◌, length, ok, err,
}
use mini_gu.Base.Assoc.{insert_sorted, lookup, remove}
use mini_gu.Transaction.Timestamp.{Timestamp}
use mini_gu.Storage.Error.{StorageResult, transaction_already_committed, transaction_not_found}
use mini_gu.Storage.Wal.{commit_transaction, abort_transaction, RedoEntry}
use mini_gu.Storage.Tp.Graph.{MemoryGraph}
use mini_gu.Storage.Tp.Txn.{MemTransaction}
use mini_gu.Storage.Tp.Rollback.{rollback}
use mini_gu.Storage.Tp.Promote.{promote}
use mini_gu.Storage.Tp.Manager.{MemTxnManager, World, update_watermark, append_wal}
use mini_gu.Storage.Tp.Manager.Collect.{garbage_collect}

abbrev pub gc_trigger_threshold : ℕ
gc_trigger_threshold = 50

-- A result, the transaction and the state. What was done before an error stays done.
abbrev pub Ended : Type 0 → Type 0 → Type 0
Ended V A = StorageResult A × MemTransaction V × World V

module _ {V : Type 0} where
  abbrev pub keep_committed :
      Option Timestamp → MemTransaction V → MemTxnManager V → MemTxnManager V
  keep_committed none txn m = m
  keep_committed (some commit_ts) txn m = record m {
    committed_txns = insert_sorted commit_ts txn m.committed_txns;
  }

  abbrev pub collect_if_full : World V → World V
  collect_if_full w =
      if leb gc_trigger_threshold (length w.manager.committed_txns) then garbage_collect w else w

  -- The transaction is no longer active; a committed one is kept.
  unfoldable pub retire : MemTransaction V → MemTxnManager V → MemTxnManager V
  unfolding update_watermark
  retire txn m = update_watermark (
      keep_committed txn.commit_ts txn (record m { active_txns = remove txn.txn_id m.active_txns }))

  abbrev finish_if :
      Option (MemTransaction V) → MemTransaction V → World V → StorageResult (Unit {0}) × World V
  unfolding retire garbage_collect
  finish_if none txn w = (err (transaction_not_found txn.txn_id), w)
  finish_if (some _) txn w = (ok tt, collect_if_full (record w { manager = retire txn w.manager }))

  -- The entry that is found in the map is the transaction itself, as it is now.
  unfoldable pub finish_transaction :
      MemTransaction V → World V → StorageResult (Unit {0}) × World V
  unfolding retire garbage_collect
  finish_transaction txn w = finish_if (lookup txn.txn_id w.manager.active_txns) txn w

  abbrev pub handled : MemTransaction V → MemTransaction V
  handled txn = record txn { is_handled = true }

  abbrev finished :
      {A : Type 0} → A → MemTransaction V → StorageResult (Unit {0}) × World V → Ended V A
  finished a txn (ok _, w) = (ok a, txn, w)
  finished a txn (err e, w) = (err e, txn, w)

  abbrev log_abort : Bool → MemTransaction V → World V → World V
  log_abort true txn w = w
  log_abort false txn w = append_wal abort_transaction txn w

  abbrev pub without_writes : MemTransaction V → MemTransaction V
  without_writes txn = record txn { vertex_writes = []; edge_writes = [] }

  abbrev finished_abort : MemTransaction V → StorageResult (Unit {0}) × World V → Ended V (Unit {0})
  finished_abort txn (ok _, w) = (ok tt, handled txn, w)
  finished_abort txn (err e, w) = (err e, txn, w)

  abbrev abort_with :
      StorageResult (MemoryGraph V) → Bool → MemTransaction V → World V → Ended V (Unit {0})
  unfolding finish_transaction
  abort_with (err e) skip_wal txn w = (err e, txn, w)
  abort_with (ok graph) skip_wal txn w = finished_abort (without_writes txn) (
      finish_transaction (without_writes txn) (log_abort skip_wal txn (record w { graph = graph })))

  unfoldable pub abort_at : Bool → MemTransaction V → World V → Ended V (Unit {0})
  unfolding rollback finish_transaction
  abort_at skip_wal txn w =
      abort_with (rollback txn.txn_id w.graph txn.undo_buffer) skip_wal
        (record txn { undo_buffer = [] }) w

  -- The redo entries with their sequence numbers, one after the other.
  unfoldable pub append_redo : List (RedoEntry V) → World V → World V
  append_redo [] w = w
  append_redo (entry ∷ rest) w =
      append_redo rest
        (record w { next_lsn = w.next_lsn + 1; wal = record entry { lsn = w.next_lsn } ∷ w.wal })

  -- The count towards the next checkpoint is left out.
  unfoldable pub flush_redo_and_commit_wal :
      Timestamp → MemTransaction V → World V → MemTransaction V × World V
  unfolding append_redo
  flush_redo_and_commit_wal commit_ts txn w = (
    record txn { redo_buffer = [] },
    append_wal (commit_transaction commit_ts) txn (append_redo txn.redo_buffer w),
  )

  abbrev log_commit : Bool → Timestamp → MemTransaction V → World V → MemTransaction V × World V
  unfolding flush_redo_and_commit_wal
  log_commit true commit_ts txn w = (txn, w)
  log_commit false commit_ts txn w = flush_redo_and_commit_wal commit_ts txn w

  abbrev publish : Timestamp → World V → World V
  publish commit_ts w = record w { manager = record w.manager { latest_commit_ts = commit_ts } }

  -- Without the automatic checkpoint at its end.
  unfoldable pub finalize_commit_common :
      Timestamp → Bool → MemTransaction V → World V → Ended V Timestamp
  unfolding flush_redo_and_commit_wal finish_transaction
  finalize_commit_common commit_ts skip_wal txn w =
      let (txn', w') = log_commit skip_wal commit_ts txn w in
      finished commit_ts (without_writes txn')
        (finish_transaction (without_writes txn') (publish commit_ts w'))

  abbrev refused_commit : Ended V (Unit {0}) → Ended V Timestamp
  refused_commit (ok _, txn, w) = (err transaction_already_committed, txn, w)
  refused_commit (err e, txn, w) = (err e, txn, w)

  abbrev commit_promoted :
      StorageResult (MemoryGraph V)
      → Timestamp
      → Bool
      → MemTransaction V
      → World V
      → Ended V Timestamp
  unfolding finalize_commit_common
  commit_promoted (err e) commit_ts skip_wal txn w = (err e, txn, w)
  commit_promoted (ok graph) commit_ts skip_wal txn w =
      finalize_commit_common commit_ts skip_wal txn (record w { graph = graph })

  abbrev commit_once :
      Option Timestamp → Timestamp → Bool → MemTransaction V → World V → Ended V Timestamp
  unfolding abort_at promote finalize_commit_common
  commit_once (some _) commit_ts skip_wal txn w = refused_commit (abort_at false txn w)
  commit_once none commit_ts skip_wal txn w =
      commit_promoted (promote w.graph commit_ts txn.undo_buffer) commit_ts skip_wal
        (record txn { commit_ts = some commit_ts }) w

  unfoldable pub commit_pessimistic :
      Timestamp → Bool → MemTransaction V → World V → Ended V Timestamp
  unfolding abort_at promote finalize_commit_common
  commit_pessimistic commit_ts skip_wal txn w = commit_once txn.commit_ts commit_ts skip_wal txn w
