-- ===== src/Storage/Tp/Manager/Tests.antt =====
-- A state with one active transaction, and an edge whose source another one is deleting.
use mini_gu.Base.{ℕ, ◌+◌, ◌≤◌, ◌≡◌, refl, false, true, none, some, [], ◌∷◌, ok, arith}
use mini_gu.Base.Assoc.{update}
use mini_gu.Transaction.Timestamp.{txn_id_start}
use mini_gu.Transaction.Options.{snapshot, pessimistic}
use mini_gu.Storage.Model.Edge.{Edge}
use mini_gu.Storage.Model.Delta.{dangling}
use mini_gu.Storage.Tp.Graph.{MemoryGraph, VersionedVertex}
use mini_gu.Storage.Tp.Txn.{MemTransaction}
use mini_gu.Storage.Tp.Delete.{deleted_vertex, vertex_deletion_undo}
use mini_gu.Storage.Tp.Rollback.{rollback}
use mini_gu.Storage.Tp.Manager.{World, begin_transaction_at}
use mini_gu.Storage.Tp.Manager.Collect.{cleanup_expired_edge}
use mini_gu.Storage.Tp.Manager.Finish.{finish_transaction}
use mini_gu.Storage.Tp.Manager.Watermark.{IsManaged}
use mini_gu.Storage.Tp.Manager.Ends.{HasEnded, finish_transaction-IsManaged}
use mini_gu.Storage.Error.{StorageResult, transaction_not_found}
use mini_gu.Base.{err, ◌⊎◌}
use mini_gu.Base.Assoc.{lookup}
use mini_gu.Storage.Tp.Manager.Reclaim.{cleanup_expired_edge-rollback}

abbrev running : MemTransaction ℕ
running = record {
  isolation_level = snapshot;
  lock_strategy = pessimistic;
  start_ts = 4;
  commit_ts = none;
  txn_id = txn_id_start + 1;
  vertex_reads = [];
  edge_reads = [];
  vertex_writes = [];
  edge_writes = [];
  undo_buffer = [];
  redo_buffer = [];
  is_handled = false;
}

abbrev no_data : MemoryGraph ℕ
no_data = record { vertices = λ _. none; edges = λ _. none; adjacency_list = λ _. none }

abbrev one_active : World ℕ
one_active = record {
  graph = no_data;
  manager = record {
    active_txns = (txn_id_start + 1, running) ∷ [];
    committed_txns = [];
    latest_commit_ts = 2;
    watermark = 3;
    last_gc_ts = 0;
    default_lock_strategy = pessimistic;
    default_isolation_level = snapshot;
  };
  timestamps = 5;
  ids = txn_id_start + 2;
  next_lsn = 0;
  wal = [];
}

one_active-IsManaged : IsManaged one_active.manager one_active.ids one_active.timestamps
one_active-IsManaged = record {
  ids_u64 = omega arith;
  ids_below = ((omega arith, omega arith), tt);
  rising = (tt, tt);
  watermark_by_starts = (omega arith, tt);
  watermark_below = omega arith;
  latest_below = omega arith;
}

abbrev begun : StorageResult (MemTransaction ℕ) × World ℕ
begun = begin_transaction_at none none snapshot pessimistic false one_active

abbrev ended : StorageResult (Unit {0}) × World ℕ
ended = finish_transaction running one_active

finish_transaction-IsManaged_example :
    IsManaged ended.1.manager ended.1.ids ended.1.timestamps
    × (3 ≤ ended.1.manager.watermark)
    × (((lookup (txn_id_start + 1) one_active.manager.active_txns ≡ none)
          × (ended ≡ (err (transaction_not_found (txn_id_start + 1)), one_active)))
        ⊎ ((found : MemTransaction ℕ) × (lookup (txn_id_start + 1) one_active.manager.active_txns
              ≡ some found)
            × (ended.0 ≡ ok tt)
            × HasEnded one_active.manager ended.1.manager (txn_id_start + 1)))
finish_transaction-IsManaged_example =
    finish_transaction-IsManaged running one_active one_active-IsManaged

abbrev source : VersionedVertex ℕ
source = record {
  current = record {
    item = record { vid = 1; label_id = 1; properties = []; is_tombstone = false };
    commit_ts = 2;
  };
  undo_ptr = dangling;
}

abbrev expired : Edge ℕ
expired = record {
  label_id = 1;
  src_id = 1;
  dst_id = 2;
  eid = 7;
  properties = [];
  is_tombstone = true;
}

abbrev being_deleted : MemoryGraph ℕ
being_deleted = record no_data {
  vertices = update (λ _. none) 1 (some (deleted_vertex source (txn_id_start + 1)));
}

cleanup_expired_edge-rollback_example :
    ((cleanup_expired_edge being_deleted expired).vertices 1 ≡ none)
    × (rollback
          (txn_id_start + 1)
          (cleanup_expired_edge being_deleted expired)
          (vertex_deletion_undo source ∷ [])
        ≡ ok (cleanup_expired_edge being_deleted expired))
cleanup_expired_edge-rollback_example =
    cleanup_expired_edge-rollback being_deleted expired source (txn_id_start + 1) refl refl
