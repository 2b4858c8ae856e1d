-- ===== src/Storage/Tp/Optimistic/Apply.antt =====
-- The second phase of `commit_optimistic`, minigu/storage/src/tp/transaction.rs: the intents are
-- applied under the transaction's stamp. The parameter `differs` stands for `!=` on property values.
use mini_gu.Base.{
  ℕ, ◌+◌, ◌==◌, if◌then◌else◌, Bool, Option, none, some, List, [], ◌∷◌, ◌++◌, ok, err,
}
use mini_gu.Transaction.Timestamp.{Timestamp}
use mini_gu.Storage.Error.{StorageResult, write_write_conflict}
use mini_gu.Storage.Model.Vertex
use mini_gu.Storage.Model.Vertex.{Vertex}
use mini_gu.Storage.Model.Edge
use mini_gu.Storage.Model.Edge.{Edge}
use mini_gu.Storage.Model.Delta.{
  SetPropsOp, DeltaOp, del_vertex, del_edge, create_vertex, create_edge, set_vertex_props,
  set_edge_props, UndoEntry, downgrade,
}
use mini_gu.Storage.Tp.Chain.{VersionChain}
use mini_gu.Storage.Tp.Graph.{VersionedVertex, VersionedEdge, MemoryGraph}
use mini_gu.Storage.Tp.Txn.{
  MemTransaction, insert_vertex, update_vertex, delete_vertex, insert_edge, update_edge,
  delete_edge, WriteIntent, WriteSet,
}
use mini_gu.Storage.Tp.VertexRead
use mini_gu.Storage.Tp.EdgeRead
use mini_gu.Storage.Tp.EdgeWrite.{insert_outgoing, insert_incoming, neighbor}
use mini_gu.Storage.Tp.Store.{put_vertex, put_edge}
use mini_gu.Storage.Tp.Manager.Collect.{drop_outgoing, drop_incoming}

module _ {V : Type 0} (differs : V → V → Bool) where
  -- `compute_prop_delta`, from the index on; the loop ends with the shorter list.
  unfoldable pub prop_delta : ℕ → List V → List V → List ℕ × List V
  prop_delta idx [] after = ([], [])
  prop_delta idx (b ∷ before) [] = ([], [])
  prop_delta idx (b ∷ before) (a ∷ after) =
      let (indices, props) = prop_delta (idx + 1) before after in
      if differs b a then (idx ∷ indices, b ∷ props) else (indices, props)

  abbrev pub update_op : List V → List V → SetPropsOp V
  update_op before after =
      let (indices, props) = prop_delta 0 before after in
      record { indices = indices; props = props }

-- Phase 2: the graph and the undo buffer change together. What was applied before an error stays.
abbrev pub Applied : Type 0 → Type 0
Applied V = StorageResult (Unit {0}) × MemoryGraph V × List (UndoEntry V)

module _ {V : Type 0} where
  abbrev refused : MemoryGraph V × List (UndoEntry V) → Applied V
  refused (graph, undo) = (err write_write_conflict, graph, undo)

  abbrev undo_of : {D : Type 0} → DeltaOp V → VersionChain V D → UndoEntry V
  undo_of delta entry = record {
    delta = delta;
    timestamp = entry.current.commit_ts;
    next = entry.undo_ptr;
  }

  abbrev applied_chain :
      {D : Type 0} → DeltaOp V → VersionChain V D → D → Timestamp → VersionChain V D
  applied_chain delta entry item txn_id = record {
    current = record { item = item; commit_ts = txn_id };
    undo_ptr = downgrade (undo_of delta entry);
  }

  abbrev or_entry : {D : Type 0} → Option (VersionChain V D) → VersionChain V D → VersionChain V D
  or_entry none fresh = fresh
  or_entry (some entry) fresh = entry

  -- `current.data`, `current.commit_ts`, the undo pointer and the undo buffer.
  abbrev put_vertex_version :
      ℕ
      → DeltaOp V
      → VersionedVertex V
      → Vertex V
      → Timestamp
      → MemoryGraph V × List (UndoEntry V)
      → Applied V
  put_vertex_version vid delta entry item txn_id (graph, undo) = (
    ok tt,
    put_vertex vid (applied_chain delta entry item txn_id) graph,
    undo ++ (undo_of delta entry ∷ []),
  )

  abbrev put_edge_version :
      ℕ
      → DeltaOp V
      → VersionedEdge V
      → Edge V
      → Timestamp
      → MemoryGraph V × List (UndoEntry V)
      → Applied V
  put_edge_version eid delta entry item txn_id (graph, undo) = (
    ok tt,
    put_edge eid (applied_chain delta entry item txn_id) graph,
    undo ++ (undo_of delta entry ∷ []),
  )

  abbrev with_graph : (MemoryGraph V → MemoryGraph V) → Applied V → Applied V
  with_graph f (r, graph, undo) = (r, f graph, undo)

  abbrev update_vertex_at :
      Option (VersionedVertex V)
      → ℕ
      → DeltaOp V
      → Vertex V
      → Timestamp
      → MemoryGraph V × List (UndoEntry V)
      → Applied V
  update_vertex_at none vid delta after txn_id s = refused s
  update_vertex_at (some entry) vid delta after txn_id s =
      put_vertex_version vid delta entry after txn_id s

  abbrev delete_vertex_at :
      Option (VersionedVertex V)
      → ℕ
      → Timestamp
      → Vertex V
      → Timestamp
      → MemoryGraph V × List (UndoEntry V)
      → Applied V
  unfolding VertexRead.new Vertex.tombstone
  delete_vertex_at none vid guard_ts before txn_id s =
      if guard_ts == 0
      then put_vertex_version vid (create_vertex before) (VertexRead.new before)
          (Vertex.tombstone before) txn_id s
      else refused s
  delete_vertex_at (some entry) vid guard_ts before txn_id s =
      put_vertex_version vid (create_vertex before) entry (Vertex.tombstone entry.current.item)
        txn_id s

  -- What a deletion takes out of the adjacency lists.
  abbrev forget_edge : ℕ → Edge V → MemoryGraph V → MemoryGraph V
  forget_edge eid edge graph =
      drop_incoming edge.dst_id (neighbor edge.label_id edge.src_id eid)
        (drop_outgoing edge.src_id (neighbor edge.label_id edge.dst_id eid) graph)

  abbrev update_edge_at :
      Option (VersionedEdge V)
      → ℕ
      → DeltaOp V
      → Edge V
      → Timestamp
      → MemoryGraph V × List (UndoEntry V)
      → Applied V
  update_edge_at none eid delta after txn_id s = refused s
  update_edge_at (some entry) eid delta after txn_id s =
      put_edge_version eid delta entry after txn_id s

  abbrev delete_edge_at :
      Option (VersionedEdge V)
      → ℕ
      → Timestamp
      → Edge V
      → Timestamp
      → MemoryGraph V × List (UndoEntry V)
      → Applied V
  unfolding EdgeRead.new Edge.tombstone
  delete_edge_at none eid guard_ts before txn_id s =
      if guard_ts == 0
      then with_graph (forget_edge eid before) (
          put_edge_version eid (create_edge before) (EdgeRead.new before) (Edge.tombstone before)
            txn_id s)
      else refused s
  delete_edge_at (some entry) eid guard_ts before txn_id s =
      with_graph (forget_edge eid entry.current.item) (
        put_edge_version eid (create_edge before) entry (Edge.tombstone entry.current.item) txn_id
          s)

module _ {V : Type 0} (differs : V → V → Bool) where
  abbrev pub apply_vertex :
      Timestamp → ℕ → WriteIntent V → MemoryGraph V × List (UndoEntry V) → Applied V
  unfolding VertexRead.new Vertex.tombstone prop_delta
  apply_vertex txn_id vid intent (graph, undo) = elim intent.kind [
    | insert_vertex new_v ↦
        put_vertex_version vid (del_vertex vid)
          (or_entry (graph.vertices vid) (VertexRead.new new_v)) new_v txn_id (graph, undo)
    | update_vertex before after ↦
        update_vertex_at (graph.vertices vid) vid
          (set_vertex_props vid (update_op differs before.properties after.properties)) after txn_id
          (graph, undo)
    | delete_vertex before ↦
        delete_vertex_at (graph.vertices vid) vid intent.guard_ts before txn_id (graph, undo)
    | _ ↦ (ok tt, graph, undo)
  ]

  abbrev pub apply_edge :
      Timestamp → ℕ → WriteIntent V → MemoryGraph V × List (UndoEntry V) → Applied V
  unfolding EdgeRead.new Edge.tombstone prop_delta
  apply_edge txn_id eid intent (graph, undo) = elim intent.kind [
    | insert_edge new_e ↦
        with_graph
          (λ g.
            insert_incoming new_e.dst_id (neighbor new_e.label_id new_e.src_id eid)
              (insert_outgoing new_e.src_id (neighbor new_e.label_id new_e.dst_id eid) g))
          (put_edge_version eid (del_edge eid) (or_entry (graph.edges eid) (EdgeRead.new new_e))
            new_e txn_id (graph, undo))
    | update_edge before after ↦
        update_edge_at (graph.edges eid) eid
          (set_edge_props eid (update_op differs before.properties after.properties)) after txn_id
          (graph, undo)
    | delete_edge before ↦
        delete_edge_at (graph.edges eid) eid intent.guard_ts before txn_id (graph, undo)
    | _ ↦ (ok tt, graph, undo)
  ]

  abbrev pub apply_each :
      (ℕ → WriteIntent V → MemoryGraph V × List (UndoEntry V) → Applied V)
      → WriteSet V
      → MemoryGraph V × List (UndoEntry V)
      → Applied V
  apply_each f [] (graph, undo) = (ok tt, graph, undo)
  apply_each f ((id, intent) ∷ rest) s =
      let (r, graph, undo) = f id intent s in
      elim r as (λ _. Applied V) [
        | ok _ ↦ apply_each f rest (graph, undo)
        | err e ↦ (err e, graph, undo)
      ]

  unfoldable pub apply_writes : MemTransaction V → MemoryGraph V → Applied V
  unfolding apply_vertex apply_edge
  apply_writes txn graph =
      let (r, graph', undo) =
        apply_each (apply_vertex txn.txn_id) txn.vertex_writes (graph, txn.undo_buffer) in
      elim r as (λ _. Applied V) [
        | ok _ ↦ apply_each (apply_edge txn.txn_id) txn.edge_writes (graph', undo)
        | err e ↦ (err e, graph', undo)
      ]
