-- ===== src/Storage/Tp/Manager/Reclaim.antt =====
-- What garbage collection removes: `cleanup_expired_edge` of minigu/storage/src/tp/txn_manager.rs
-- tests the head of a vertex for a tombstone, and not by whom it was written.
use mini_gu.Base.{
  ℕ, ◌≡◌, refl, ap, ◌∙◌, ◌==◌, ==_refl, Bool, true, false, Option, none, some, List, [], ◌∷◌, ok,
  Bool-cases, inl, inr,
}
use mini_gu.Base.Assoc.{update}
use mini_gu.Transaction.Timestamp.{Timestamp}
use mini_gu.Storage.Model.Edge.{Edge, Neighbor}
use mini_gu.Storage.Tp.Graph.{VersionedVertex, AdjacencyContainer, MemoryGraph}
use mini_gu.Storage.Tp.Delete.{deleted_vertex, vertex_deletion_undo}
use mini_gu.Storage.Tp.Rollback.{rollback}
use mini_gu.Storage.Tp.Manager.Collect.{
  remove_vertex_and_adjacencies, remove_edge_from_adjacency, cleanup_expired_edge, vertex_tombstone,
  edge_tombstone, remove_if, remove_edge_if, drop_at_sources, drop_at_targets, drop_at_neighbors,
}

module _ {V : Type 0} where
  vertices-drop_at_sources :
      (vid : ℕ) (adjs : List Neighbor) (graph : MemoryGraph V)
      → (drop_at_sources vid adjs graph).vertices ≡ graph.vertices
  vertices-drop_at_sources vid [] graph = refl
  vertices-drop_at_sources vid (adj ∷ rest) graph = vertices-drop_at_sources vid rest _

  vertices-drop_at_targets :
      (vid : ℕ) (adjs : List Neighbor) (graph : MemoryGraph V)
      → (drop_at_targets vid adjs graph).vertices ≡ graph.vertices
  vertices-drop_at_targets vid [] graph = refl
  vertices-drop_at_targets vid (adj ∷ rest) graph = vertices-drop_at_targets vid rest _

  vertices-drop_at_neighbors :
      (vid : ℕ) (adj : Option AdjacencyContainer) (graph : MemoryGraph V)
      → (drop_at_neighbors vid adj graph).vertices ≡ graph.vertices
  vertices-drop_at_neighbors vid none graph = refl
  vertices-drop_at_neighbors vid (some adj) graph =
      vertices-drop_at_targets vid adj.outgoing (drop_at_sources vid adj.incoming graph)
      ∙ vertices-drop_at_sources vid adj.incoming graph

  vertices-remove_vertex_and_adjacencies :
      (graph : MemoryGraph V) (vid : ℕ)
      → (remove_vertex_and_adjacencies graph vid).vertices ≡ update graph.vertices vid none
  unfolding remove_vertex_and_adjacencies
  vertices-remove_vertex_and_adjacencies graph vid =
      vertices-drop_at_neighbors vid (graph.adjacency_list vid) _

  -- A vertex that is gone stays gone.
  none-remove_if :
      (test : Bool) (vid gone : ℕ) (graph : MemoryGraph V)
      → graph.vertices gone ≡ none
      → (remove_if test vid graph).vertices gone ≡ none
  unfolding remove_if
  none-remove_if false vid gone graph h = h
  none-remove_if true vid gone graph h =
      ap (λ f. f gone) (vertices-remove_vertex_and_adjacencies graph vid)
      ∙ elim (Bool-cases (vid == gone)) [ inl same ↦ rw same | inr other ↦ rw other h ]

  vertices-remove_edge_if :
      (test : Bool) (edge : Edge V) (graph : MemoryGraph V)
      → (remove_edge_if test edge graph).vertices ≡ graph.vertices
  unfolding remove_edge_if remove_edge_from_adjacency
  vertices-remove_edge_if false edge graph = refl
  vertices-remove_edge_if true edge graph = refl

  removed_source :
      (graph : MemoryGraph V) (edge : Edge V) (entry : VersionedVertex V)
      → graph.vertices edge.src_id ≡ some entry
      → entry.current.item.is_tombstone ≡ true
      → (remove_if (vertex_tombstone (graph.vertices edge.src_id)) edge.src_id graph).vertices
          edge.src_id
        ≡ none
  unfolding remove_if
  removed_source graph edge entry at_src dead = rw at_src (
      rw dead (
        ap (λ f. f edge.src_id) (vertices-remove_vertex_and_adjacencies graph edge.src_id)
        ∙ rw (==_refl edge.src_id) refl))

  deleted_vertex_dead :
      (before : VersionedVertex V) (txn_id : Timestamp)
      → (deleted_vertex before txn_id).current.item.is_tombstone ≡ true
  unfolding deleted_vertex
  deleted_vertex_dead before txn_id = refl

  cleaned_source :
      (graph : MemoryGraph V) (edge : Edge V) (entry : VersionedVertex V)
      → graph.vertices edge.src_id ≡ some entry
      → entry.current.item.is_tombstone ≡ true
      → (cleanup_expired_edge graph edge).vertices edge.src_id ≡ none
  unfolding cleanup_expired_edge
  cleaned_source graph edge entry at_src dead =
      let source = remove_if (vertex_tombstone (graph.vertices edge.src_id)) edge.src_id graph in
      let target = remove_if (vertex_tombstone (graph.vertices edge.dst_id)) edge.dst_id source in
      ap (λ f. f edge.src_id) {y = target.vertices}
        (vertices-remove_edge_if (edge_tombstone (graph.edges edge.eid)) edge target)
      ∙ none-remove_if (vertex_tombstone (graph.vertices edge.dst_id)) edge.dst_id edge.src_id
          source (removed_source graph edge entry at_src dead)

  rollback_gone :
      (graph : MemoryGraph V) (before : VersionedVertex V) (txn_id : Timestamp)
      → graph.vertices before.current.item.vid ≡ none
      → rollback txn_id graph (vertex_deletion_undo before ∷ []) ≡ ok graph
  unfolding rollback
  rollback_gone graph before txn_id gone = rw gone

  -- While a transaction that deleted a vertex under pessimistic locking still runs, a collection of an
  -- expired edge that begins at the vertex removes the vertex from the graph, since the head is a
  -- tombstone; and if the transaction then aborts, the undo entry of the deletion gives nothing back.
  pub cleanup_expired_edge-rollback :
      (graph : MemoryGraph V) (edge : Edge V) (before : VersionedVertex V) (txn_id : Timestamp)
      → graph.vertices edge.src_id ≡ some (deleted_vertex before txn_id)
      → before.current.item.vid ≡ edge.src_id
      → ((cleanup_expired_edge graph edge).vertices edge.src_id ≡ none)
        × (rollback txn_id (cleanup_expired_edge graph edge) (vertex_deletion_undo before ∷ [])
            ≡ ok (cleanup_expired_edge graph edge))
  cleanup_expired_edge-rollback graph edge before txn_id at_src same =
      let gone =
        cleaned_source graph edge (deleted_vertex before txn_id) at_src
          (deleted_vertex_dead before txn_id) in
      (
        gone,
        rollback_gone (cleanup_expired_edge graph edge) before txn_id
            (ap (cleanup_expired_edge graph edge).vertices same ∙ gone),
      )
