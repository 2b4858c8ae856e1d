-- ===== src/Storage/Tp/Rollback.antt =====
-- The loop of `abort_at` over the undo buffer, minigu/storage/src/tp/transaction.rs. It goes through
-- the entries from the oldest to the newest.
pub mod Restore
pub mod Deleted
pub mod Repeated
use mini_gu.Base.{
  ℕ, ◌==◌, if◌then◌else◌, true, false, Bool, List, [], ◌∷◌, Option, none, some, ok, err, ◌>>=◌,
}
use mini_gu.Transaction.Timestamp.{Timestamp}
use mini_gu.Storage.Error.{StorageResult, panicked}
use mini_gu.Storage.Model.Vertex
use mini_gu.Storage.Model.Vertex.{Vertex}
use mini_gu.Storage.Model.Edge
use mini_gu.Storage.Model.Edge.{Edge}
use mini_gu.Storage.Model.Delta.{
  DeltaOp, del_vertex, del_edge, create_vertex, create_edge, set_vertex_props, set_edge_props,
  add_label, remove_label, UndoEntry,
}
use mini_gu.Storage.Tp.Graph.{VersionedVertex, VersionedEdge, MemoryGraph}
use mini_gu.Storage.Tp.Store.{put_vertex, put_edge}

module _ {V : Type 0} where
  -- The head gets an older image back, with the entry's timestamp and next pointer.
  abbrev pub restored_vertex : UndoEntry V → Vertex V → VersionedVertex V
  restored_vertex undo image = record {
    current = record { item = image; commit_ts = undo.timestamp };
    undo_ptr = undo.next;
  }

  abbrev pub restored_edge : UndoEntry V → Edge V → VersionedEdge V
  restored_edge undo image = record {
    current = record { item = image; commit_ts = undo.timestamp };
    undo_ptr = undo.next;
  }

  -- Only a head that carries the transaction's stamp is changed; `image` makes the older image.
  abbrev pub rollback_vertex :
      Timestamp
      → MemoryGraph V
      → UndoEntry V
      → ℕ
      → (Vertex V → StorageResult (Vertex V))
      → Option (VersionedVertex V)
      → StorageResult (MemoryGraph V)
  rollback_vertex txn_id graph undo vid image none = ok graph
  rollback_vertex txn_id graph undo vid image (some entry) =
      if entry.current.commit_ts == txn_id
      then (image entry.current.item >>= λ older.
          ok (put_vertex vid (restored_vertex undo older) graph))
      else ok graph

  abbrev pub rollback_edge :
      Timestamp
      → MemoryGraph V
      → UndoEntry V
      → ℕ
      → (Edge V → StorageResult (Edge V))
      → Option (VersionedEdge V)
      → StorageResult (MemoryGraph V)
  rollback_edge txn_id graph undo eid image none = ok graph
  rollback_edge txn_id graph undo eid image (some entry) =
      if entry.current.commit_ts == txn_id
      then (image entry.current.item >>= λ older.
          ok (put_edge eid (restored_edge undo older) graph))
      else ok graph

  abbrev pub rollback_by :
      Timestamp → MemoryGraph V → UndoEntry V → DeltaOp V → StorageResult (MemoryGraph V)
  rollback_by txn_id graph undo (create_vertex vertex) =
      rollback_vertex txn_id graph undo vertex.vid
        (λ _. ok (record vertex { is_tombstone = false })) (graph.vertices vertex.vid)
  rollback_by txn_id graph undo (create_edge edge) =
      rollback_edge txn_id graph undo edge.eid (λ _. ok (record edge { is_tombstone = false }))
        (graph.edges edge.eid)
  rollback_by txn_id graph undo (set_vertex_props vid op) =
      rollback_vertex txn_id graph undo vid (λ item. Vertex.set_props item op.indices op.props)
        (graph.vertices vid)
  rollback_by txn_id graph undo (set_edge_props eid op) =
      rollback_edge txn_id graph undo eid (λ item. Edge.set_props item op.indices op.props)
        (graph.edges eid)
  rollback_by txn_id graph undo (del_vertex vid) =
      rollback_vertex txn_id graph undo vid (λ item. ok (record item { is_tombstone = true }))
        (graph.vertices vid)
  rollback_by txn_id graph undo (del_edge eid) =
      rollback_edge txn_id graph undo eid (λ item. ok (record item { is_tombstone = true }))
        (graph.edges eid)
  rollback_by txn_id graph undo (add_label _) = err panicked
  rollback_by txn_id graph undo (remove_label _) = err panicked

  unfoldable pub rollback_entry :
      Timestamp → MemoryGraph V → UndoEntry V → StorageResult (MemoryGraph V)
  rollback_entry txn_id graph undo = rollback_by txn_id graph undo undo.delta

  unfoldable pub rollback :
      Timestamp → MemoryGraph V → List (UndoEntry V) → StorageResult (MemoryGraph V)
  unfolding rollback_entry
  rollback txn_id graph [] = ok graph
  rollback txn_id graph (undo ∷ rest) =
      rollback_entry txn_id graph undo >>= λ graph'. rollback txn_id graph' rest
