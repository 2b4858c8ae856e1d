-- ===== src/Storage/Tp/EdgeWrite.antt =====
-- Creation and update of edges, minigu/storage/src/tp/memory_graph.rs.
use mini_gu.Base.{
  ℕ, ◌==◌, if◌then◌else◌, true, false, Bool, List, [], ◌∷◌, Option, none, some, Result, ok, err,
  ok_or,
}
use mini_gu.Base.Assoc.{lookup, insert, update}
use mini_gu.Base
use mini_gu.Transaction.Timestamp.{Timestamp}
use mini_gu.Transaction.Options.{LockStrategy, pessimistic, optimistic}
use mini_gu.Storage.Error.{StorageResult, edge_not_found, edge_already_exists, write_write_conflict}
use mini_gu.Storage.Model.Props.{old_props}
use mini_gu.Storage.Model.Edge
use mini_gu.Storage.Model.Vertex.{Vertex}
use mini_gu.Storage.Model.Edge.{Edge, Neighbor}
use mini_gu.Storage.Model.Delta.{
  del_edge, create_edge as created, set_edge_props, UndoEntry, downgrade,
}
use mini_gu.Storage.Tp.Graph.{VersionedEdge, AdjacencyContainer, MemoryGraph}
use mini_gu.Storage.Tp.Guard.{check_write_conflict, prewrite_check_edge}
use mini_gu.Storage.Tp.Txn.{
  MemTransaction, insert_edge, update_edge, delete_edge, WriteIntent, lookup_edge_write,
}
use mini_gu.Storage.Tp.Txn.Intent.{record_edge_update}
use mini_gu.Storage.Tp.VertexRead.{get_vertex}
use mini_gu.Storage.Tp.EdgeRead.{with_modified_ts, get_edge, snapshot_edge_with_guard}
use mini_gu.Storage.Tp.Store.{
  Exec, ◌>>=◌, ◌>>◌, pure, raise, lift, read, on_graph, on_txn, put_edge, push_undo, push_redo,
}

-- `.or_insert_with(AdjacencyContainer::new)`
abbrev pub or_new : Option AdjacencyContainer → AdjacencyContainer
or_new none = record { incoming = []; outgoing = [] }
or_new (some adj) = adj

-- `Neighbor::new`
abbrev pub neighbor : ℕ → ℕ → ℕ → Neighbor
neighbor label_id neighbor_id eid = record {
  label_id = label_id;
  neighbor_id = neighbor_id;
  eid = eid;
}

module _ {V : Type 0} where
  -- The undo entry of an update holds the old values.
  unfoldable pub properties_undo : VersionedEdge V → ℕ → List ℕ → List V → UndoEntry V
  properties_undo entry eid indices olds = record {
    delta = set_edge_props eid (record { indices = indices; props = olds });
    timestamp = entry.current.commit_ts;
    next = entry.undo_ptr;
  }

  unfoldable pub updated_chain : UndoEntry V → Edge V → Timestamp → VersionedEdge V
  updated_chain undo changed txn_id = record {
    current = record { item = changed; commit_ts = txn_id };
    undo_ptr = downgrade undo;
  }

  -- The macro `update_properties!`: the new chain and the undo entry. Nothing was written where it
  -- fails: `set_props` runs on the very indices whose old values were read.
  unfoldable pub update_properties :
      VersionedEdge V
      → MemTransaction V
      → ℕ
      → List ℕ
      → List V
      → StorageResult (VersionedEdge V × UndoEntry V)
  update_properties entry txn eid indices props =
      Base.◌>>◌ (prewrite_check_edge entry.current.commit_ts txn) (
        Base.◌>>=◌ (old_props entry.current.item.properties indices) (λ olds.
          Base.◌>>=◌ (Edge.set_props entry.current.item indices props) (λ changed.
            let undo = properties_undo entry eid indices olds in
            ok (updated_chain undo changed txn.txn_id, undo))))

  unfoldable pub set_edge_pessimistic : ℕ → List ℕ → List V → Exec V (Unit {0})
  set_edge_pessimistic eid indices props = do
    s ← read
    entry ← lift (ok_or (s.graph.edges eid) (edge_not_found eid))
    written ← lift (update_properties entry s.txn eid indices props)
    on_graph (put_edge eid written.0)
    on_txn (push_undo written.1)
    on_txn (push_redo (set_edge_props eid (record { indices = indices; props = props })))

  abbrev put_edge_intent : ℕ → WriteIntent V → MemTransaction V → MemTransaction V
  put_edge_intent eid intent txn = record txn { edge_writes = insert eid intent txn.edge_writes }

  abbrev update_edge_intent : ℕ → Timestamp → Edge V → Edge V → MemTransaction V → MemTransaction V
  update_edge_intent eid guard_ts before after txn = record txn {
    edge_writes = record_edge_update txn.edge_writes eid guard_ts before after;
  }

  -- From "No local intent" on.
  abbrev set_from_snapshot : ℕ → List ℕ → List V → Exec V (Unit {0})
  set_from_snapshot eid indices props = do
    s ← read
    entry ← lift (ok_or (s.graph.edges eid) (edge_not_found eid))
    base ← lift (snapshot_edge_with_guard entry s.txn)
    after ← lift (Edge.set_props base.0 indices props)
    on_txn (update_edge_intent eid base.1 base.0 after)
    on_txn (push_redo (set_edge_props eid (record { indices = indices; props = props })))

  abbrev set_over_intent : Option (WriteIntent V) → ℕ → List ℕ → List V → Exec V (Unit {0})
  set_over_intent none eid indices props = set_from_snapshot eid indices props
  set_over_intent (some intent) eid indices props = elim intent.kind [
    | insert_edge existing ↦ do
      after ← lift (Edge.set_props existing indices props)
      on_txn (put_edge_intent eid (record intent { kind = insert_edge after }))
      on_txn (push_redo (set_edge_props eid (record { indices = indices; props = props })))
    | update_edge before after ↦ do
      updated ← lift (Edge.set_props after indices props)
      on_txn (update_edge_intent eid intent.guard_ts before updated)
      on_txn (push_redo (set_edge_props eid (record { indices = indices; props = props })))
    | delete_edge before ↦ raise write_write_conflict
    | _ ↦ set_from_snapshot eid indices props
  ]

  unfoldable pub set_edge_optimistic : ℕ → List ℕ → List V → Exec V (Unit {0})
  unfolding lookup_edge_write record_edge_update
  set_edge_optimistic eid indices props = do
    s ← read
    set_over_intent (lookup_edge_write s.txn eid) eid indices props

  abbrev set_by : LockStrategy → ℕ → List ℕ → List V → Exec V (Unit {0})
  set_by pessimistic = set_edge_pessimistic
  set_by optimistic = set_edge_optimistic

  unfoldable pub set_edge_property : ℕ → List ℕ → List V → Exec V (Unit {0})
  unfolding set_edge_pessimistic set_edge_optimistic
  set_edge_property eid indices props = do s ← read; set_by s.txn.lock_strategy eid indices props

  -- `self.edges.get(&eid)` with a tombstone at its head
  abbrev is_dead : Option (VersionedEdge V) → Bool
  is_dead none = false
  is_dead (some entry) = entry.current.item.is_tombstone

  abbrev or_insert : Option (VersionedEdge V) → VersionedEdge V → VersionedEdge V
  or_insert none fresh = fresh
  or_insert (some entry) fresh = entry

  -- The undo entry of an insertion is a deletion.
  abbrev insertion_undo : VersionedEdge V → ℕ → UndoEntry V
  insertion_undo entry eid = record {
    delta = del_edge eid;
    timestamp = entry.current.commit_ts;
    next = entry.undo_ptr;
  }

  -- A sorted set as a list: what is in it twice is in it.
  abbrev pub insert_outgoing : ℕ → Neighbor → MemoryGraph V → MemoryGraph V
  insert_outgoing vid neighbor graph =
      let adj = or_new (graph.adjacency_list vid) in
      record graph {
        adjacency_list =
            update graph.adjacency_list vid
              (some (record adj { outgoing = neighbor ∷ adj.outgoing }));
      }

  abbrev pub insert_incoming : ℕ → Neighbor → MemoryGraph V → MemoryGraph V
  insert_incoming vid neighbor graph =
      let adj = or_new (graph.adjacency_list vid) in
      record graph {
        adjacency_list =
            update graph.adjacency_list vid
              (some (record adj { incoming = neighbor ∷ adj.incoming }));
      }

  unfoldable pub create_pessimistic : Edge V → Exec V (Unit {0})
  unfolding with_modified_ts
  create_pessimistic edge = do
    s ← read
    let entry = or_insert (s.graph.edges edge.eid) (with_modified_ts edge s.txn.txn_id)
    on_graph (put_edge edge.eid entry)
    lift (check_write_conflict entry.current.commit_ts s.txn)
    on_graph
        (put_edge edge.eid (record entry { undo_ptr = downgrade (insertion_undo entry edge.eid) }))
    on_txn (push_undo (insertion_undo entry edge.eid))
    on_graph (insert_outgoing edge.src_id (neighbor edge.label_id edge.dst_id edge.eid))
    on_graph (insert_incoming edge.dst_id (neighbor edge.label_id edge.src_id edge.eid))

  abbrev inserted : Option (WriteIntent V) → Edge V → WriteIntent V
  inserted none edge = record { guard_ts = 0; kind = insert_edge edge }
  inserted (some intent) edge = record intent { kind = insert_edge edge }

  abbrev create_by : LockStrategy → Edge V → Exec V (Unit {0})
  create_by pessimistic edge = create_pessimistic edge
  create_by optimistic edge = do
    s ← read
    on_txn (put_edge_intent edge.eid (inserted (lookup edge.eid s.txn.edge_writes) edge))

  -- The reads may add to the read sets.
  abbrev find_vertex : ℕ → Exec V (Vertex V)
  find_vertex vid s =
      let (found, txn') = get_vertex s.graph s.txn vid in (found, record s { txn = txn' })

  abbrev find_edge : ℕ → Exec V (StorageResult (Edge V))
  find_edge eid s =
      let (found, txn') = get_edge s.graph s.txn eid in (ok found, record s { txn = txn' })

  abbrev refuse_found : StorageResult (Edge V) → ℕ → Exec V (Unit {0})
  refuse_found (ok _) eid = raise (edge_already_exists eid)
  refuse_found (err _) eid = pure tt

  unfoldable pub create_edge : Edge V → Exec V ℕ
  unfolding create_pessimistic
  create_edge edge = do
    _ ← find_vertex edge.src_id
    _ ← find_vertex edge.dst_id
    s ← read
    if is_dead (s.graph.edges edge.eid) then raise (edge_already_exists edge.eid) else do
      found ← find_edge edge.eid
      refuse_found found edge.eid
      create_by s.txn.lock_strategy edge
      on_txn (push_redo (created edge))
      pure edge.eid
