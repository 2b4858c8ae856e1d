-- ===== src/Storage/Tp/Recovery.antt =====
-- The replay of the log, `apply_wal_entries` of minigu/storage/src/tp/memory_graph.rs.
pub mod Serial
pub mod Interleaved
pub mod Live
mod Tests
use mini_gu.Base.{ℕ, ◌+◌, List, [], ◌∷◌, Option, none, some, ok, err, ◌>>=◌}
use mini_gu.Transaction.Timestamp.{Timestamp}
use mini_gu.Transaction.Options.{IsolationLevel}
use mini_gu.Storage.Error.{StorageResult, panicked}
use mini_gu.Storage.Model.Vertex.{Vertex}
use mini_gu.Storage.Model.Edge.{Edge}
use mini_gu.Storage.Model.Delta.{
  DeltaOp, del_vertex, del_edge, create_vertex, create_edge, set_vertex_props, set_edge_props,
  add_label, remove_label,
}
use mini_gu.Storage.Wal.{
  Operation, begin_transaction, commit_transaction, abort_transaction, delta, RedoEntry,
}

-- The calls that the replay makes, on a store of type `S` and with handles of type `T`. Each is told
-- that it runs in a recovery, so none writes to the log.
pub record Engine (V S T : Type 0) : Type 0 where
  pub set_next_lsn : S → ℕ → S
  pub begin_transaction_at : S → Timestamp → Timestamp → IsolationLevel → StorageResult (T × S)
  pub commit_at : T → Timestamp → S → StorageResult S
  pub abort_at : T → S → StorageResult S
  pub create_vertex : T → Vertex V → S → StorageResult S
  pub create_edge : T → Edge V → S → StorageResult S
  pub delete_vertex : T → ℕ → S → StorageResult S
  pub delete_edge : T → ℕ → S → StorageResult S
  pub set_vertex_property : T → ℕ → List ℕ → List V → S → StorageResult S
  pub set_edge_property : T → ℕ → List ℕ → List V → S → StorageResult S

module _ {V S T : Type 0} (engine : Engine V S T) where
  unfoldable pub apply_delta : T → DeltaOp V → S → StorageResult S
  apply_delta txn (create_vertex vertex) s = engine.create_vertex txn vertex s
  apply_delta txn (create_edge edge) s = engine.create_edge txn edge s
  apply_delta txn (del_vertex vid) s = engine.delete_vertex txn vid s
  apply_delta txn (del_edge eid) s = engine.delete_edge txn eid s
  apply_delta txn (set_vertex_props vid op) s =
      engine.set_vertex_property txn vid op.indices op.props s
  apply_delta txn (set_edge_props eid op) s = engine.set_edge_property txn eid op.indices op.props s
  apply_delta txn (add_label _) s = err panicked
  apply_delta txn (remove_label _) s = err panicked

  -- One entry, with the variable `txn` of the loop: the transaction that is open, if any. The
  -- entry's own transaction identifier is read by a begin alone.
  unfoldable pub apply_entry :
      Operation V → RedoEntry V → Option T → S → StorageResult (Option T × S)
  apply_entry (begin_transaction start_ts) entry txn s =
      engine.begin_transaction_at s entry.txn_id start_ts entry.iso_level >>= λ (t, s').
      ok (some t, s')
  apply_entry (commit_transaction commit_ts) entry none s = ok (none, s)
  apply_entry (commit_transaction commit_ts) entry (some t) s =
      engine.commit_at t commit_ts s >>= λ s'. ok (none, s')
  apply_entry abort_transaction entry none s = ok (none, s)
  apply_entry abort_transaction entry (some t) s = engine.abort_at t s >>= λ s'. ok (none, s')
  apply_entry (delta op) entry none s = ok (none, s)
  apply_entry (delta op) entry (some t) s = apply_delta t op s >>= λ s'. ok (some t, s')

  unfoldable pub replay : List (RedoEntry V) → Option T → S → StorageResult S
  replay [] txn s = ok s
  replay (entry ∷ entries) txn s =
      apply_entry entry.op entry txn (engine.set_next_lsn s (entry.lsn + 1)) >>= λ (txn', s').
      replay entries txn' s'

  unfoldable pub apply_wal_entries : List (RedoEntry V) → S → StorageResult S
  apply_wal_entries entries s = replay entries none s
