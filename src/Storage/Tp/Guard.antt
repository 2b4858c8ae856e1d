-- ===== src/Storage/Tp/Guard.antt =====
-- The conflict checks at the end of minigu/storage/src/tp/memory_graph.rs.
use mini_gu.Base.{not, ◌&&◌, ltb, ◌==◌, if◌then◌else◌, ok, err}
use mini_gu.Transaction.Timestamp.{Timestamp, is_txn_id, is_commit_ts}
use mini_gu.Transaction.Options.{LockStrategy, pessimistic, optimistic}
use mini_gu.Storage.Error.{StorageResult, write_write_conflict, version_not_visible}
use mini_gu.Storage.Tp.Txn.{MemTransaction}

module _ {V : Type 0} where
  unfoldable pub optimistic_write_guard : Timestamp → MemTransaction V → StorageResult (Unit {0})
  optimistic_write_guard commit_ts txn =
      if is_txn_id commit_ts && not (commit_ts == txn.txn_id)
      then err write_write_conflict
      else ok tt

  unfoldable pub check_write_conflict : Timestamp → MemTransaction V → StorageResult (Unit {0})
  check_write_conflict commit_ts txn =
      if is_txn_id commit_ts && not (commit_ts == txn.txn_id)
      then err write_write_conflict
      else if is_commit_ts commit_ts && ltb txn.start_ts commit_ts
      then err version_not_visible
      else ok tt

  abbrev prewrite : LockStrategy → Timestamp → MemTransaction V → StorageResult (Unit {0})
  prewrite pessimistic commit_ts txn = check_write_conflict commit_ts txn
  prewrite optimistic commit_ts txn = optimistic_write_guard commit_ts txn

  unfoldable pub prewrite_check_vertex : Timestamp → MemTransaction V → StorageResult (Unit {0})
  unfolding optimistic_write_guard check_write_conflict
  prewrite_check_vertex commit_ts txn = prewrite txn.lock_strategy commit_ts txn

  unfoldable pub prewrite_check_edge : Timestamp → MemTransaction V → StorageResult (Unit {0})
  unfolding optimistic_write_guard check_write_conflict
  prewrite_check_edge commit_ts txn = prewrite txn.lock_strategy commit_ts txn
