-- ===== src/Storage/Tp/Promote.antt =====
-- The loop of `commit_pessimistic` that puts the commit timestamp on every record of the undo
-- buffer, minigu/storage/src/tp/transaction.rs.
use mini_gu.Base.{ℕ, List, [], ◌∷◌, none, some, ok, err, ◌>>=◌}
use mini_gu.Transaction.Timestamp.{Timestamp}
use mini_gu.Storage.Error.{StorageResult, panicked}
use mini_gu.Storage.Model.Delta.{
  DeltaOp, del_vertex, del_edge, create_vertex, create_edge, set_vertex_props, set_edge_props,
  add_label, remove_label, UndoEntry,
}
use mini_gu.Storage.Tp.Chain.{VersionChain}
use mini_gu.Storage.Tp.Graph.{MemoryGraph}
use mini_gu.Storage.Tp.Store.{put_vertex, put_edge}

module _ {V : Type 0} where
  -- `current.commit_ts = commit_ts`
  abbrev pub stamped : {D : Type 0} → VersionChain V D → Timestamp → VersionChain V D
  stamped entry commit_ts = record entry {
    current = record entry.current { commit_ts = commit_ts };
  }

  -- `get($id).unwrap()`
  abbrev promote_vertex : MemoryGraph V → Timestamp → ℕ → StorageResult (MemoryGraph V)
  promote_vertex graph commit_ts vid = elim (graph.vertices vid) [
    | none ↦ err panicked
    | some entry ↦ ok (put_vertex vid (stamped entry commit_ts) graph)
  ]

  abbrev promote_edge : MemoryGraph V → Timestamp → ℕ → StorageResult (MemoryGraph V)
  promote_edge graph commit_ts eid = elim (graph.edges eid) [
    | none ↦ err panicked
    | some entry ↦ ok (put_edge eid (stamped entry commit_ts) graph)
  ]

  abbrev promote_by : MemoryGraph V → Timestamp → DeltaOp V → StorageResult (MemoryGraph V)
  promote_by graph commit_ts (del_vertex vid) = promote_vertex graph commit_ts vid
  promote_by graph commit_ts (del_edge eid) = promote_edge graph commit_ts eid
  promote_by graph commit_ts (create_vertex vertex) = promote_vertex graph commit_ts vertex.vid
  promote_by graph commit_ts (create_edge edge) = promote_edge graph commit_ts edge.eid
  promote_by graph commit_ts (set_vertex_props vid _) = promote_vertex graph commit_ts vid
  promote_by graph commit_ts (set_edge_props eid _) = promote_edge graph commit_ts eid
  promote_by graph commit_ts (add_label _) = err panicked
  promote_by graph commit_ts (remove_label _) = err panicked

  unfoldable pub promote :
      MemoryGraph V → Timestamp → List (UndoEntry V) → StorageResult (MemoryGraph V)
  promote graph commit_ts [] = ok graph
  promote graph commit_ts (undo ∷ rest) =
      promote_by graph commit_ts undo.delta >>= λ graph'. promote graph' commit_ts rest
