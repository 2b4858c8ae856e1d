-- ===== src/Storage/Tp/Delete.antt =====
-- Deletion of edges and vertices, minigu/storage/src/tp/memory_graph.rs.
use mini_gu.Base.{
  ℕ, ◌==◌, ◌||◌, if◌then◌else◌, false, Bool, List, [], ◌∷◌, Option, none, some, ok_or,
}
use mini_gu.Transaction.Timestamp.{Timestamp}
use mini_gu.Transaction.Options.{LockStrategy, pessimistic, optimistic}
use mini_gu.Storage.Error.{vertex_not_found, edge_not_found}
use mini_gu.Storage.Model.Vertex
use mini_gu.Storage.Model.Vertex.{Vertex}
use mini_gu.Storage.Model.Edge
use mini_gu.Storage.Model.Edge.{Edge, Neighbor}
use mini_gu.Storage.Model.Delta.{
  del_vertex, del_edge, create_vertex, create_edge, UndoEntry, downgrade,
}
use mini_gu.Storage.Tp.Graph.{VersionedVertex, VersionedEdge, AdjacencyContainer}
use mini_gu.Storage.Tp.Guard.{prewrite_check_vertex, prewrite_check_edge}
use mini_gu.Storage.Tp.Txn.{
  MemTransaction, WriteKind, insert_vertex, update_vertex, insert_edge, update_edge,
  delete_edge as deletes_edge, WriteIntent, WriteSet, lookup_vertex_write, lookup_edge_write,
}
use mini_gu.Storage.Tp.Txn.Intent.{record_vertex_delete, record_edge_delete}
use mini_gu.Storage.Tp.VertexRead.{snapshot_vertex_with_guard}
use mini_gu.Storage.Tp.EdgeRead.{snapshot_edge_with_guard}
use mini_gu.Storage.Tp.Store.{
  Exec, ◌>>=◌, ◌>>◌, pure, lift, read, on_graph, on_txn, put_vertex, put_edge, push_undo, push_redo,
}

module _ {V : Type 0} where
  -- The undo entry of a deletion keeps the whole image; nothing tests whether that is a tombstone.
  abbrev pub edge_deletion_undo : VersionedEdge V → UndoEntry V
  edge_deletion_undo entry = record {
    delta = create_edge entry.current.item;
    timestamp = entry.current.commit_ts;
    next = entry.undo_ptr;
  }

  abbrev pub vertex_deletion_undo : VersionedVertex V → UndoEntry V
  vertex_deletion_undo entry = record {
    delta = create_vertex entry.current.item;
    timestamp = entry.current.commit_ts;
    next = entry.undo_ptr;
  }

  unfoldable pub deleted_edge : VersionedEdge V → Timestamp → VersionedEdge V
  unfolding Edge.tombstone
  deleted_edge entry txn_id = record {
    current = record { item = Edge.tombstone entry.current.item; commit_ts = txn_id };
    undo_ptr = downgrade (edge_deletion_undo entry);
  }

  unfoldable pub deleted_vertex : VersionedVertex V → Timestamp → VersionedVertex V
  unfolding Vertex.tombstone
  deleted_vertex entry txn_id = record {
    current = record { item = Vertex.tombstone entry.current.item; commit_ts = txn_id };
    undo_ptr = downgrade (vertex_deletion_undo entry);
  }

  abbrev delete_edge_intent : ℕ → Timestamp → Edge V → MemTransaction V → MemTransaction V
  delete_edge_intent eid guard_ts before txn = record txn {
    edge_writes = record_edge_delete txn.edge_writes eid guard_ts before;
  }

  abbrev delete_vertex_intent : ℕ → Timestamp → Vertex V → MemTransaction V → MemTransaction V
  delete_vertex_intent vid guard_ts before txn = record txn {
    vertex_writes = record_vertex_delete txn.vertex_writes vid guard_ts before;
  }

  unfoldable pub delete_edge_pessimistic : ℕ → Exec V (Unit {0})
  unfolding deleted_edge
  delete_edge_pessimistic eid = do
    s ← read
    entry ← lift (ok_or (s.graph.edges eid) (edge_not_found eid))
    lift (prewrite_check_edge entry.current.commit_ts s.txn)
    on_txn (push_undo (edge_deletion_undo entry))
    on_graph (put_edge eid (deleted_edge entry s.txn.txn_id))
    on_txn (push_redo (del_edge eid))

  abbrev delete_edge_from_snapshot : ℕ → Exec V (Unit {0})
  delete_edge_from_snapshot eid = do
    s ← read
    entry ← lift (ok_or (s.graph.edges eid) (edge_not_found eid))
    base ← lift (snapshot_edge_with_guard entry s.txn)
    on_txn (delete_edge_intent eid base.1 base.0)

  abbrev delete_edge_over_intent : Option (WriteIntent V) → ℕ → Exec V (Unit {0})
  delete_edge_over_intent none eid = delete_edge_from_snapshot eid
  delete_edge_over_intent (some intent) eid = elim intent.kind [
    | insert_edge before ↦ on_txn (delete_edge_intent eid 0 before)
    | update_edge before after ↦ on_txn (delete_edge_intent eid intent.guard_ts before)
    | _ ↦ pure tt
  ]

  unfoldable pub record_occ_edge_delete : ℕ → Exec V (Unit {0})
  unfolding lookup_edge_write record_edge_delete
  record_occ_edge_delete eid = do
    s ← read
    delete_edge_over_intent (lookup_edge_write s.txn eid) eid
    on_txn (push_redo (del_edge eid))

  abbrev delete_edge_by : LockStrategy → ℕ → Exec V (Unit {0})
  delete_edge_by pessimistic eid = delete_edge_pessimistic eid
  delete_edge_by optimistic eid = do
    s ← read
    delete_edge_over_intent (lookup_edge_write s.txn eid) eid
    on_txn (push_redo (del_edge eid))

  unfoldable pub delete_edge : ℕ → Exec V (Unit {0})
  unfolding delete_edge_pessimistic lookup_edge_write record_edge_delete
  delete_edge eid = do s ← read; delete_edge_by s.txn.lock_strategy eid

  -- `if self.edges.get(&eid).is_some() { self.delete_edge(txn, eid)? }`
  abbrev delete_if_some : Option (VersionedEdge V) → ℕ → Exec V (Unit {0})
  delete_if_some none eid = pure tt
  delete_if_some (some _) eid = delete_edge eid

  unfoldable pub delete_incident : List Neighbor → Exec V (Unit {0})
  delete_incident [] = pure tt
  delete_incident (adj ∷ rest) = do
    s ← read
    delete_if_some (s.graph.edges adj.eid) adj.eid
    delete_incident rest

  abbrev pub cascade : Option AdjacencyContainer → Exec V (Unit {0})
  cascade none = pure tt
  cascade (some adj) = do delete_incident adj.incoming; delete_incident adj.outgoing

  unfoldable pub delete_vertex_pessimistic : ℕ → Exec V (Unit {0})
  unfolding deleted_vertex
  delete_vertex_pessimistic vid = do
    s ← read
    entry ← lift (ok_or (s.graph.vertices vid) (vertex_not_found vid))
    lift (prewrite_check_vertex entry.current.commit_ts s.txn)
    cascade (s.graph.adjacency_list vid)
    on_txn (push_undo (vertex_deletion_undo entry))
    on_graph (put_vertex vid (deleted_vertex entry s.txn.txn_id))
    on_txn (push_redo (del_vertex vid))

  abbrev delete_vertex_over_intent : Option (WriteIntent V) → ℕ → Exec V (Unit {0})
  delete_vertex_over_intent none vid = do
    s ← read
    entry ← lift (ok_or (s.graph.vertices vid) (vertex_not_found vid))
    base ← lift (snapshot_vertex_with_guard entry s.txn)
    on_txn (delete_vertex_intent vid base.1 base.0)
  delete_vertex_over_intent (some intent) vid = elim intent.kind [
    | insert_vertex before ↦ on_txn (delete_vertex_intent vid 0 before)
    | update_vertex before after ↦ on_txn (delete_vertex_intent vid intent.guard_ts before)
    | _ ↦ pure tt
  ]

  abbrev edge_touches : Edge V → ℕ → Bool
  edge_touches edge vid = edge.src_id == vid || edge.dst_id == vid

  abbrev touches_vertex : WriteKind V → ℕ → Bool
  touches_vertex (insert_edge edge) vid = edge_touches edge vid
  touches_vertex (update_edge before after) vid = edge_touches before vid || edge_touches after vid
  touches_vertex (deletes_edge before) vid = edge_touches before vid
  touches_vertex _ vid = false

  unfoldable pub staged_incident : WriteSet V → ℕ → List ℕ
  staged_incident [] vid = []
  staged_incident ((eid, intent) ∷ writes) vid =
      let rest = staged_incident writes vid in
      if touches_vertex intent.kind vid then eid ∷ rest else rest

  unfoldable pub record_staged : List ℕ → Exec V (Unit {0})
  record_staged [] = pure tt
  record_staged (eid ∷ rest) = do record_occ_edge_delete eid; record_staged rest

-- Membership in the set `edge_deletes`.
abbrev contains : ℕ → List ℕ → Bool
contains eid [] = false
contains eid (e ∷ es) = e == eid || contains eid es

module _ {V : Type 0} where
  -- The loop over the committed neighbours; the set of the edges seen comes back.
  unfoldable pub record_committed : List Neighbor → List ℕ → Exec V (List ℕ)
  record_committed [] seen = pure seen
  record_committed (adj ∷ rest) seen =
      let later : Exec V (List ℕ) = record_committed rest (adj.eid ∷ seen) in
      let skip : Exec V (List ℕ) = record_committed rest seen in
      if contains adj.eid seen then skip else (do record_occ_edge_delete adj.eid; later)

  abbrev record_adjacent : Option AdjacencyContainer → List ℕ → Exec V (Unit {0})
  record_adjacent none seen = pure tt
  record_adjacent (some adj) seen = do
    seen' ← record_committed adj.incoming seen
    _ ← record_committed adj.outgoing seen'
    pure tt

  unfoldable pub delete_vertex_optimistic : ℕ → Exec V (Unit {0})
  unfolding lookup_vertex_write record_vertex_delete staged_incident record_staged record_committed
  delete_vertex_optimistic vid = do
    s ← read
    delete_vertex_over_intent (lookup_vertex_write s.txn vid) vid
    s' ← read
    record_staged (staged_incident s'.txn.edge_writes vid)
    record_adjacent (s'.graph.adjacency_list vid) (staged_incident s'.txn.edge_writes vid)
    on_txn (push_redo (del_vertex vid))

  abbrev pub delete_vertex_by : LockStrategy → ℕ → Exec V (Unit {0})
  delete_vertex_by pessimistic = delete_vertex_pessimistic
  delete_vertex_by optimistic = delete_vertex_optimistic

  unfoldable pub delete_vertex : ℕ → Exec V (Unit {0})
  unfolding delete_vertex_pessimistic delete_vertex_optimistic
  delete_vertex vid = do s ← read; delete_vertex_by s.txn.lock_strategy vid
