-- ===== src/Storage/Tp/Tests.antt =====
-- Small stores on which the theorems of this directory are applied.
use mini_gu.Base.{
  ℕ, ◌⊎◌, ◌+◌, ◌^◌, ◌<◌, ◌≡◌, ◌≢◌, refl, Bool, true, false, Option, some, none, List, [], ◌∷◌,
  get_elem?, ok, err, arith,
}
use mini_gu.Base.Assoc.{update}
use mini_gu.Transaction.Timestamp.{Timestamp, txn_id_start, is_txn_id, is_commit_ts}
use mini_gu.Transaction.Options.{snapshot, pessimistic}
use mini_gu.Storage.Model.Props.{set_prop, set_props, old_props}
use mini_gu.Storage.Model.Props.Restore.{contains}
use mini_gu.Storage.Model.Vertex
use mini_gu.Storage.Model.Vertex.{Vertex}
use mini_gu.Storage.Model.Delta.{set_vertex_props, create_edge, UndoPtr, dangling, live, UndoEntry}
use mini_gu.Storage.Tp.Chain.History.{NoneAt, Versions, oldest, older}
use mini_gu.Storage.Tp.Graph.{VersionedVertex, VersionedEdge, MemoryGraph}
use mini_gu.Storage.Tp.Guard.{prewrite_check_vertex}
use mini_gu.Storage.Model.Edge.{Edge}
use mini_gu.Storage.Tp.EdgeRead
use mini_gu.Storage.Tp.EdgeRead.Seen.{get_visible-to_see_at_edge}
use mini_gu.Storage.Tp.Store.{Store, put_vertex}
use mini_gu.Storage.Tp.Txn.{MemTransaction}
use mini_gu.Storage.Tp.VertexRead.{
  lenient_delta, strict_delta, get_visible, unless_tombstone, visible_image,
  snapshot_vertex_with_guard,
}
use mini_gu.Storage.Tp.VertexRead.Snapshot.{
  IsTxn, get_visible-to_see, visible_image-to_see, snapshot_vertex_with_guard-to_see,
}
use mini_gu.Storage.Tp.VertexWrite.{properties_undo, updated_chain, update_properties}
use mini_gu.Storage.Tp.Delete.{delete_vertex}
use mini_gu.Storage.Tp.Promote.{stamped}
use mini_gu.Storage.Tp.Rollback.{rollback}
use mini_gu.Storage.Tp.Rollback.Restore.{rollback-update_properties}
use mini_gu.Storage.Tp.Rollback.Deleted.{rollback-delete_vertex}
use mini_gu.Storage.Tp.Rollback.Repeated.{rollback-two_updates}
use mini_gu.Storage.Error.{version_not_visible}
use mini_gu.Storage.Tp.Isolation.Committed.{Publishes, get_visible-promote}
use mini_gu.Storage.Tp.Isolation.{get_visible-update_properties, get_visible-stamped}

-- A vertex with two properties: the first was 5 from timestamp 3 and is 10 from timestamp 7.
abbrev vertex_at : List ℕ → Vertex ℕ
vertex_at props = record { vid = 1; label_id = 1; properties = props; is_tombstone = false }

abbrev behind : UndoPtr ℕ
behind = live (set_vertex_props 1 (record { indices = 0 ∷ []; props = 5 ∷ [] })) 3 dangling

abbrev set_once : VersionedVertex ℕ
set_once = record {
  current = record { item = vertex_at (10 ∷ 20 ∷ []); commit_ts = 7 };
  undo_ptr = behind;
}

abbrev older_versions : List (Timestamp × Vertex ℕ)
older_versions = (3, vertex_at (5 ∷ 20 ∷ [])) ∷ []

abbrev transaction : ℕ → Timestamp → MemTransaction ℕ
transaction n start = record {
  isolation_level = snapshot;
  lock_strategy = pessimistic;
  start_ts = start;
  commit_ts = none;
  txn_id = txn_id_start + n;
  vertex_reads = [];
  edge_reads = [];
  vertex_writes = [];
  edge_writes = [];
  undo_buffer = [];
  redo_buffer = [];
  is_handled = false;
}

abbrev reader : MemTransaction ℕ
reader = transaction 9 5

abbrev writer : MemTransaction ℕ
writer = transaction 4 8

reader-IsTxn : IsTxn reader
reader-IsTxn = record { id_range = omega arith; id_u64 = omega arith; start_range = omega arith }

writer-IsTxn : IsTxn writer
writer-IsTxn = record { id_range = omega arith; id_u64 = omega arith; start_range = omega arith }

set_once-Versions : Versions lenient_delta set_once.current.item set_once.undo_ptr older_versions
unfolding lenient_delta Vertex.set_props set_props set_prop
set_once-Versions = older refl oldest

set_once_strict : Versions strict_delta set_once.current.item set_once.undo_ptr older_versions
unfolding strict_delta Vertex.set_props set_props set_prop
set_once_strict = older refl oldest

free_of_five : NoneAt reader.start_ts older_versions
free_of_five = (omega arith, tt)

get_visible-to_see_example : get_visible set_once reader ≡ ok (vertex_at (5 ∷ 20 ∷ []))
get_visible-to_see_example =
    get_visible-to_see set_once reader older_versions reader-IsTxn (omega arith) set_once-Versions
      free_of_five refl

visible_image-to_see_example : visible_image set_once reader ≡ ok (vertex_at (5 ∷ 20 ∷ []))
visible_image-to_see_example =
    visible_image-to_see set_once reader older_versions reader-IsTxn (omega arith) set_once_strict
      free_of_five refl

-- Under optimistic locking a reader whose start is before the head's timestamp may plan a write.
abbrev optimist : MemTransaction ℕ
optimist = record reader { lock_strategy = mini_gu.Transaction.Options.optimistic }

optimist-IsTxn : IsTxn optimist
optimist-IsTxn = record { id_range = omega arith; id_u64 = omega arith; start_range = omega arith }

optimist_passes : prewrite_check_vertex set_once.current.commit_ts optimist ≡ ok tt
unfolding prewrite_check_vertex is_txn_id
optimist_passes = refl

snapshot_vertex_with_guard-to_see_example :
    snapshot_vertex_with_guard set_once optimist ≡ ok (vertex_at (5 ∷ 20 ∷ []), 3)
snapshot_vertex_with_guard-to_see_example =
    snapshot_vertex_with_guard-to_see set_once optimist older_versions optimist-IsTxn (omega arith)
      set_once_strict optimist_passes refl

-- The writer sets the second property to 21.
abbrev undo_of_write : UndoEntry ℕ
undo_of_write = record {
  delta = set_vertex_props 1 (record { indices = 1 ∷ []; props = 20 ∷ [] });
  timestamp = 7;
  next = behind;
}

abbrev written : VersionedVertex ℕ
written = record {
  current = record { item = vertex_at (10 ∷ 21 ∷ []); commit_ts = txn_id_start + 4 };
  undo_ptr = live (set_vertex_props 1 (record { indices = 1 ∷ []; props = 20 ∷ [] })) 7 behind;
}

writes_second : update_properties set_once writer 1 (1 ∷ []) (21 ∷ []) ≡ ok (written, undo_of_write)
unfolding update_properties properties_undo updated_chain old_props prewrite_check_vertex is_txn_id
    is_commit_ts Vertex.set_props set_props set_prop
writes_second = refl

get_visible-update_properties_example : get_visible written reader ≡ get_visible set_once reader
get_visible-update_properties_example =
    get_visible-update_properties set_once written undo_of_write writer reader 1 (1 ∷ []) (21 ∷ [])
      older_versions (vertex_at (5 ∷ 20 ∷ [])) writer-IsTxn reader-IsTxn (omega arith) (omega arith)
      set_once-Versions (omega arith, free_of_five) refl writes_second

-- The versions behind the written head.
abbrev versions_behind : List (Timestamp × Vertex ℕ)
versions_behind = (7, vertex_at (10 ∷ 20 ∷ [])) ∷ older_versions

written-Versions : Versions lenient_delta written.current.item written.undo_ptr versions_behind
unfolding lenient_delta Vertex.set_props set_props set_prop
written-Versions = older refl (older refl oldest)

get_visible-stamped_example : get_visible (stamped written 12) reader ≡ get_visible written reader
get_visible-stamped_example =
    get_visible-stamped written reader 12 versions_behind (vertex_at (5 ∷ 20 ∷ [])) reader-IsTxn
      (omega arith) (omega arith) (omega arith) (omega arith) (omega arith) written-Versions
      (omega arith, free_of_five) refl

abbrev late_reader : MemTransaction ℕ
late_reader = transaction 20 12

late_reader-IsTxn : IsTxn late_reader
late_reader-IsTxn = record {
  id_range = omega arith;
  id_u64 = omega arith;
  start_range = omega arith;
}

abbrev graph_with : VersionedVertex ℕ → MemoryGraph ℕ
graph_with entry = record {
  vertices = update (λ _. none) 1 (some entry);
  edges = λ _. none;
  adjacency_list = λ _. none;
}

get_visible-promote_example :
    (changed : Vertex ℕ) × (published : VersionedVertex ℕ) × (Vertex.set_props set_once.current.item
        (1 ∷ [])
        (21 ∷ [])
      ≡ ok changed)
    × Publishes (graph_with set_once) written undo_of_write 1 12 published
    × (get_visible published late_reader ≡ unless_tombstone version_not_visible changed)
get_visible-promote_example =
    get_visible-promote (graph_with set_once) set_once written undo_of_write writer late_reader 1
      (1 ∷ []) (21 ∷ []) 12 older_versions (vertex_at (10 ∷ 20 ∷ [])) writer-IsTxn late_reader-IsTxn
      (omega arith) (omega arith) (omega arith) set_once-Versions (omega arith, (omega arith, tt))
      refl writes_second

writer_passes : prewrite_check_vertex 7 writer ≡ ok tt
unfolding prewrite_check_vertex is_txn_id is_commit_ts
writer_passes = refl

rollback-update_properties_example :
    rollback (txn_id_start + 4) (put_vertex 1 written (graph_with set_once)) (undo_of_write ∷ [])
    ≡ ok (graph_with set_once)
rollback-update_properties_example =
    rollback-update_properties (graph_with set_once) set_once writer 1 (1 ∷ []) (21 ∷ []) written
      undo_of_write refl writes_second

-- A vertex that was deleted at timestamp 7.
abbrev dead : VersionedVertex ℕ
dead = record {
  current = record {
    item = record (vertex_at (10 ∷ 20 ∷ [])) { is_tombstone = mini_gu.Base.true };
    commit_ts = 7;
  };
  undo_ptr = behind;
}

abbrev before : Store ℕ
before = record { graph = graph_with dead; txn = writer }

-- It is deleted once more, and the abort revives it.
rollback-delete_vertex_example :
    ((delete_vertex 1 before).0 ≡ ok tt)
    × (rollback
          (txn_id_start + 4)
          (delete_vertex 1 before).1.graph
          (delete_vertex 1 before).1.txn.undo_buffer
        ≡ ok (put_vertex 1 set_once (graph_with dead)))
rollback-delete_vertex_example =
    rollback-delete_vertex before dead 1 refl refl refl refl refl writer_passes

-- The writer then sets the first property to 11.
abbrev undo_of_second : UndoEntry ℕ
undo_of_second = record {
  delta = set_vertex_props 1 (record { indices = 0 ∷ []; props = 10 ∷ [] });
  timestamp = txn_id_start + 4;
  next = written.undo_ptr;
}

abbrev written_twice : VersionedVertex ℕ
written_twice = record {
  current = record { item = vertex_at (11 ∷ 21 ∷ []); commit_ts = txn_id_start + 4 };
  undo_ptr =
      live (set_vertex_props 1 (record { indices = 0 ∷ []; props = 10 ∷ [] })) (txn_id_start + 4)
        written.undo_ptr;
}

writes_first :
    update_properties written writer 1 (0 ∷ []) (11 ∷ []) ≡ ok (written_twice, undo_of_second)
unfolding update_properties properties_undo updated_chain old_props prewrite_check_vertex is_txn_id
    is_commit_ts Vertex.set_props set_props set_prop
writes_first = refl

rollback-two_updates_example :
    (left : Vertex ℕ) × (rollback
        (txn_id_start + 4)
        (graph_with written_twice)
        (undo_of_write ∷ undo_of_second ∷ [])
      ≡ ok (
          put_vertex 1
            (record { current = record { item = left; commit_ts = 7 }; undo_ptr = behind })
            (graph_with written_twice)))
    × (left ≡ record (vertex_at (11 ∷ 21 ∷ [])) { properties = left.properties })
    × ((j : ℕ)
        → contains j (1 ∷ []) ≡ true
        → get_elem? left.properties j ≡ get_elem? (10 ∷ 20 ∷ []) j)
    × ((j : ℕ)
        → contains j (1 ∷ []) ≡ false
        → get_elem? left.properties j ≡ get_elem? (11 ∷ 21 ∷ []) j)
rollback-two_updates_example =
    rollback-two_updates (graph_with written_twice) set_once writer 1 (1 ∷ []) (0 ∷ []) (21 ∷ [])
      (11 ∷ []) written written_twice undo_of_write undo_of_second (omega arith) writes_second
      writes_first refl

-- An edge that was created at 3 and deleted at 7.
abbrev edge_at : Bool → Edge ℕ
edge_at is_tombstone = record {
  label_id = 1;
  src_id = 1;
  dst_id = 2;
  eid = 9;
  properties = [];
  is_tombstone = is_tombstone;
}

abbrev deleted_at_seven : VersionedEdge ℕ
deleted_at_seven = record {
  current = record { item = edge_at true; commit_ts = 7 };
  undo_ptr = live (create_edge (edge_at false)) 3 dangling;
}

deleted_at_seven-Versions :
    Versions EdgeRead.lenient_delta deleted_at_seven.current.item deleted_at_seven.undo_ptr
      ((3, edge_at false) ∷ [])
unfolding EdgeRead.lenient_delta
deleted_at_seven-Versions = older refl oldest

get_visible-to_see_at_edge_example :
    EdgeRead.get_visible deleted_at_seven reader ≡ ok (edge_at false)
get_visible-to_see_at_edge_example =
    get_visible-to_see_at_edge deleted_at_seven reader ((3, edge_at false) ∷ []) reader-IsTxn
      (omega arith) deleted_at_seven-Versions (omega arith, tt) refl
