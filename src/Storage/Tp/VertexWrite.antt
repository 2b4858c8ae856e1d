-- ===== src/Storage/Tp/VertexWrite.antt =====
-- Creation and update of vertices, minigu/storage/src/tp/memory_graph.rs.
use mini_gu.Base.{
  ℕ, ◌==◌, if◌then◌else◌, true, false, Bool, List, Option, none, some, Result, ok, err, ok_or,
}
use mini_gu.Base.Assoc.{lookup, insert}
use mini_gu.Base
use mini_gu.Transaction.Timestamp.{Timestamp}
use mini_gu.Transaction.Options.{LockStrategy, pessimistic, optimistic}
use mini_gu.Storage.Error.{
  StorageResult, vertex_not_found, vertex_already_exists, write_write_conflict,
}
use mini_gu.Storage.Model.Props.{old_props}
use mini_gu.Storage.Model.Vertex
use mini_gu.Storage.Model.Vertex.{Vertex}
use mini_gu.Storage.Model.Delta.{
  del_vertex, create_vertex as created, set_vertex_props, UndoEntry, downgrade,
}
use mini_gu.Storage.Tp.Graph.{VersionedVertex}
use mini_gu.Storage.Tp.Guard.{check_write_conflict, prewrite_check_vertex}
use mini_gu.Storage.Tp.Txn.{
  MemTransaction, insert_vertex, update_vertex, delete_vertex, WriteIntent, lookup_vertex_write,
}
use mini_gu.Storage.Tp.Txn.Intent.{record_vertex_update}
use mini_gu.Storage.Tp.VertexRead.{with_txn_id, get_vertex, snapshot_vertex_with_guard}
use mini_gu.Storage.Tp.Store.{
  Exec, ◌>>=◌, ◌>>◌, pure, raise, lift, read, on_graph, on_txn, put_vertex, push_undo, push_redo,
}

module _ {V : Type 0} where
  -- The undo entry of an update holds the old values.
  unfoldable pub properties_undo : VersionedVertex V → ℕ → List ℕ → List V → UndoEntry V
  properties_undo entry vid indices olds = record {
    delta = set_vertex_props vid (record { indices = indices; props = olds });
    timestamp = entry.current.commit_ts;
    next = entry.undo_ptr;
  }

  unfoldable pub updated_chain : UndoEntry V → Vertex V → Timestamp → VersionedVertex V
  updated_chain undo changed txn_id = record {
    current = record { item = changed; commit_ts = txn_id };
    undo_ptr = downgrade undo;
  }

  -- The macro `update_properties!`: the new chain and the undo entry. Nothing was written where it
  -- fails: `set_props` runs on the very indices whose old values were read.
  unfoldable pub update_properties :
      VersionedVertex V
      → MemTransaction V
      → ℕ
      → List ℕ
      → List V
      → StorageResult (VersionedVertex V × UndoEntry V)
  update_properties entry txn vid indices props =
      Base.◌>>◌ (prewrite_check_vertex entry.current.commit_ts txn) (
        Base.◌>>=◌ (old_props entry.current.item.properties indices) (λ olds.
          Base.◌>>=◌ (Vertex.set_props entry.current.item indices props) (λ changed.
            let undo = properties_undo entry vid indices olds in
            ok (updated_chain undo changed txn.txn_id, undo))))

  unfoldable pub set_vertex_pessimistic : ℕ → List ℕ → List V → Exec V (Unit {0})
  set_vertex_pessimistic vid indices props = do
    s ← read
    entry ← lift (ok_or (s.graph.vertices vid) (vertex_not_found vid))
    written ← lift (update_properties entry s.txn vid indices props)
    on_graph (put_vertex vid written.0)
    on_txn (push_undo written.1)
    on_txn (push_redo (set_vertex_props vid (record { indices = indices; props = props })))

  abbrev put_vertex_intent : ℕ → WriteIntent V → MemTransaction V → MemTransaction V
  put_vertex_intent vid intent txn = record txn {
    vertex_writes = insert vid intent txn.vertex_writes;
  }

  abbrev update_vertex_intent :
      ℕ → Timestamp → Vertex V → Vertex V → MemTransaction V → MemTransaction V
  update_vertex_intent vid guard_ts before after txn = record txn {
    vertex_writes = record_vertex_update txn.vertex_writes vid guard_ts before after;
  }

  -- From "No local intent" on.
  abbrev set_from_snapshot : ℕ → List ℕ → List V → Exec V (Unit {0})
  set_from_snapshot vid indices props = do
    s ← read
    entry ← lift (ok_or (s.graph.vertices vid) (vertex_not_found vid))
    base ← lift (snapshot_vertex_with_guard entry s.txn)
    after ← lift (Vertex.set_props base.0 indices props)
    on_txn (update_vertex_intent vid base.1 base.0 after)
    on_txn (push_redo (set_vertex_props vid (record { indices = indices; props = props })))

  abbrev set_over_intent : Option (WriteIntent V) → ℕ → List ℕ → List V → Exec V (Unit {0})
  set_over_intent none vid indices props = set_from_snapshot vid indices props
  set_over_intent (some intent) vid indices props = elim intent.kind [
    | insert_vertex existing ↦ do
      after ← lift (Vertex.set_props existing indices props)
      on_txn (put_vertex_intent vid (record intent { kind = insert_vertex after }))
      on_txn (push_redo (set_vertex_props vid (record { indices = indices; props = props })))
    | update_vertex before after ↦ do
      updated ← lift (Vertex.set_props after indices props)
      on_txn (update_vertex_intent vid intent.guard_ts before updated)
      on_txn (push_redo (set_vertex_props vid (record { indices = indices; props = props })))
    | delete_vertex before ↦ raise write_write_conflict
    | _ ↦ set_from_snapshot vid indices props
  ]

  unfoldable pub set_vertex_optimistic : ℕ → List ℕ → List V → Exec V (Unit {0})
  unfolding lookup_vertex_write record_vertex_update
  set_vertex_optimistic vid indices props = do
    s ← read
    set_over_intent (lookup_vertex_write s.txn vid) vid indices props

  abbrev set_by : LockStrategy → ℕ → List ℕ → List V → Exec V (Unit {0})
  set_by pessimistic = set_vertex_pessimistic
  set_by optimistic = set_vertex_optimistic

  unfoldable pub set_vertex_property : ℕ → List ℕ → List V → Exec V (Unit {0})
  unfolding set_vertex_pessimistic set_vertex_optimistic
  set_vertex_property vid indices props = do s ← read; set_by s.txn.lock_strategy vid indices props

  -- `self.vertices.get(&vid)` with a tombstone at its head
  abbrev is_dead : Option (VersionedVertex V) → Bool
  is_dead none = false
  is_dead (some entry) = entry.current.item.is_tombstone

  abbrev or_insert : Option (VersionedVertex V) → VersionedVertex V → VersionedVertex V
  or_insert none fresh = fresh
  or_insert (some entry) fresh = entry

  -- The undo entry of an insertion is a deletion, with timestamp 0 where the head is this
  -- transaction's own.
  abbrev insertion_undo : VersionedVertex V → MemTransaction V → ℕ → UndoEntry V
  insertion_undo entry txn vid = record {
    delta = del_vertex vid;
    timestamp = if entry.current.commit_ts == txn.txn_id then 0 else entry.current.commit_ts;
    next = entry.undo_ptr;
  }

  unfoldable pub create_pessimistic : Vertex V → Exec V (Unit {0})
  unfolding with_txn_id
  create_pessimistic vertex = do
    s ← read
    let entry = or_insert (s.graph.vertices vertex.vid) (with_txn_id vertex s.txn.txn_id)
    on_graph (put_vertex vertex.vid entry)
    lift (check_write_conflict entry.current.commit_ts s.txn)
    on_graph (
        put_vertex vertex.vid
          (record entry { undo_ptr = downgrade (insertion_undo entry s.txn vertex.vid) }))
    on_txn (push_undo (insertion_undo entry s.txn vertex.vid))

  abbrev inserted : Option (WriteIntent V) → Vertex V → WriteIntent V
  inserted none vertex = record { guard_ts = 0; kind = insert_vertex vertex }
  inserted (some intent) vertex = record intent { kind = insert_vertex vertex }

  abbrev create_by : LockStrategy → Vertex V → Exec V (Unit {0})
  create_by pessimistic vertex = create_pessimistic vertex
  create_by optimistic vertex = do
    s ← read
    on_txn (put_vertex_intent vertex.vid (inserted (lookup vertex.vid s.txn.vertex_writes) vertex))

  -- `get_vertex` may add to the read set.
  abbrev find_vertex : ℕ → Exec V (StorageResult (Vertex V))
  find_vertex vid s =
      let (found, txn') = get_vertex s.graph s.txn vid in (ok found, record s { txn = txn' })

  abbrev refuse_found : StorageResult (Vertex V) → ℕ → Exec V (Unit {0})
  refuse_found (ok _) vid = raise (vertex_already_exists vid)
  refuse_found (err _) vid = pure tt

  unfoldable pub create_vertex : Vertex V → Exec V ℕ
  unfolding create_pessimistic
  create_vertex vertex = do
    s ← read
    if is_dead (s.graph.vertices vertex.vid) then raise (vertex_already_exists vertex.vid) else do
      found ← find_vertex vertex.vid
      refuse_found found vertex.vid
      create_by s.txn.lock_strategy vertex
      on_txn (push_redo (created vertex))
      pure vertex.vid
