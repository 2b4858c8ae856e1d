-- ===== src/Storage/Tp/VertexRead.antt =====
-- Reads of vertices under a transaction, minigu/storage/src/tp/memory_graph.rs.
pub mod Snapshot
use mini_gu.Base.{
  ℕ, Bool, true, false, not, ◌&&◌, ◌||◌, Option, none, some, List, ◌∷◌, leb, ltb, ◌==◌,
  if◌then◌else◌, Result, ok, err, ok_or, ◌>>=◌, ◌>>◌,
}
use mini_gu.Transaction.Timestamp.{Timestamp, is_txn_id, is_commit_ts}
use mini_gu.Transaction.Options.{
  IsolationLevel, snapshot, serializable, LockStrategy, pessimistic, optimistic,
}
use mini_gu.Storage.Error.{
  StorageError, StorageResult, vertex_not_found, vertex_tombstone, version_not_visible, panicked,
}
use mini_gu.Storage.Model.Vertex
use mini_gu.Storage.Model.Vertex.{Vertex}
use mini_gu.Storage.Model.Delta.{
  DeltaOp, del_vertex, create_vertex, set_vertex_props, UndoPtr, dangling, live,
}
use mini_gu.Storage.Tp.Chain.{VersionChain, apply_deltas_for_read, head_visible}
use mini_gu.Storage.Tp.Graph.{VersionedVertex, MemoryGraph}
use mini_gu.Storage.Tp.Guard.{prewrite_check_vertex}
use mini_gu.Storage.Tp.Txn.{
  MemTransaction, WriteKind, insert_vertex, update_vertex, delete_vertex, WriteIntent,
  lookup_vertex_write,
}

-- A set of identifiers as a list; what is in it twice is in it.
abbrev pub read_set : IsolationLevel → ℕ → List ℕ → List ℕ
read_set snapshot vid reads = reads
read_set serializable vid reads = vid ∷ reads

module _ {V : Type 0} where
  -- `VersionedVertex::new`
  unfoldable pub new : Vertex V → VersionedVertex V
  new initial = record { current = record { item = initial; commit_ts = 0 }; undo_ptr = dangling }

  unfoldable pub with_txn_id : Vertex V → Timestamp → VersionedVertex V
  with_txn_id initial txn_id = record {
    current = record { item = initial; commit_ts = txn_id };
    undo_ptr = dangling;
  }

  -- The closure `apply_deltas` of `get_visible`; a delta of another kind changes nothing.
  unfoldable pub lenient_delta : DeltaOp V → Vertex V → StorageResult (Vertex V)
  lenient_delta (create_vertex original) vertex = ok original
  lenient_delta (set_vertex_props _ op) vertex = Vertex.set_props vertex op.indices op.props
  lenient_delta (del_vertex _) vertex = ok (record vertex { is_tombstone = true })
  lenient_delta _ vertex = ok vertex

  -- The closure of `get_vertex`, and the loop body of `snapshot_vertex_with_guard`; a delta of
  -- another kind is `unreachable!`.
  unfoldable pub strict_delta : DeltaOp V → Vertex V → StorageResult (Vertex V)
  strict_delta (create_vertex original) vertex = ok original
  strict_delta (set_vertex_props _ op) vertex = Vertex.set_props vertex op.indices op.props
  strict_delta (del_vertex _) vertex = ok (record vertex { is_tombstone = true })
  strict_delta _ vertex = err panicked

  abbrev pub unless_tombstone : StorageError → Vertex V → StorageResult (Vertex V)
  unless_tombstone e vertex = if vertex.is_tombstone then err e else ok vertex

  unfoldable pub get_visible : VersionedVertex V → MemTransaction V → StorageResult (Vertex V)
  unfolding head_visible
  get_visible entry txn =
      if head_visible entry.current.commit_ts txn.txn_id txn.start_ts
      then unless_tombstone version_not_visible entry.current.item
      else (apply_deltas_for_read entry.undo_ptr lenient_delta txn.start_ts entry.current.item
          >>= unless_tombstone version_not_visible)

  -- The closure `apply_deltas` of `is_visible`
  unfoldable pub visibility_delta : DeltaOp V → Bool → StorageResult Bool
  visibility_delta (del_vertex _) visible = ok false
  visibility_delta (create_vertex _) visible = ok true
  visibility_delta _ visible = ok visible

  unfoldable pub is_visible : VersionedVertex V → MemTransaction V → StorageResult Bool
  unfolding head_visible
  is_visible entry txn =
      if head_visible entry.current.commit_ts txn.txn_id txn.start_ts
      then ok (not entry.current.item.is_tombstone)
      else apply_deltas_for_read entry.undo_ptr visibility_delta txn.start_ts
          (not entry.current.item.is_tombstone)

  -- What the transaction's own intent answers, where it has one under optimistic locking.
  abbrev own_write : LockStrategy → Option (WriteIntent V) → ℕ → Option (StorageResult (Vertex V))
  own_write pessimistic intent vid = none
  own_write optimistic none vid = none
  own_write optimistic (some intent) vid = elim intent.kind [
    | insert_vertex v ↦ some (unless_tombstone (vertex_tombstone vid) v)
    | update_vertex before after ↦ some (unless_tombstone (vertex_tombstone vid) after)
    | delete_vertex before ↦ some (err (vertex_tombstone vid))
    | _ ↦ none
  ]

  -- `get_vertex` from its step 2 on.
  unfoldable pub visible_image : VersionedVertex V → MemTransaction V → StorageResult (Vertex V)
  visible_image entry txn =
      let commit_ts = entry.current.commit_ts in
      if (is_txn_id commit_ts && not (commit_ts == txn.txn_id))
        || (is_commit_ts commit_ts && ltb txn.start_ts commit_ts)
      then apply_deltas_for_read entry.undo_ptr strict_delta txn.start_ts entry.current.item
      else ok entry.current.item

  abbrev shared_vertex :
      Option (VersionedVertex V)
      → MemTransaction V
      → ℕ
      → StorageResult (Vertex V) × MemTransaction V
  shared_vertex none txn vid = (err (vertex_not_found vid), txn)
  shared_vertex (some entry) txn vid = (
    visible_image entry txn >>= unless_tombstone (vertex_tombstone vid),
    record txn { vertex_reads = read_set txn.isolation_level vid txn.vertex_reads },
  )

  abbrev own_or_shared :
      Option (StorageResult (Vertex V))
      → MemoryGraph V
      → MemTransaction V
      → ℕ
      → StorageResult (Vertex V) × MemTransaction V
  own_or_shared (some answer) graph txn vid = (answer, txn)
  own_or_shared none graph txn vid = shared_vertex (graph.vertices vid) txn vid

  unfoldable pub get_vertex :
      MemoryGraph V → MemTransaction V → ℕ → StorageResult (Vertex V) × MemTransaction V
  unfolding visible_image lookup_vertex_write
  get_vertex graph txn vid =
      own_or_shared (own_write txn.lock_strategy (lookup_vertex_write txn vid) vid) graph txn vid

  -- The `while let` loop of `snapshot_vertex_with_guard`.
  unfoldable pub snapshot_loop :
      UndoPtr V → Timestamp → Vertex V → Timestamp → StorageResult (Vertex V × Timestamp)
  snapshot_loop dangling start visible guard_ts = ok (visible, guard_ts)
  snapshot_loop (live delta timestamp next) start visible guard_ts =
      strict_delta delta visible >>= λ changed.
      let rest = snapshot_loop next start changed timestamp in
      if leb timestamp start then ok (changed, timestamp) else rest

  unfoldable pub snapshot_vertex_with_guard :
      VersionedVertex V → MemTransaction V → StorageResult (Vertex V × Timestamp)
  unfolding head_visible
  snapshot_vertex_with_guard entry txn =
      let guard_ts = entry.current.commit_ts in
      prewrite_check_vertex guard_ts txn
      >> (if head_visible guard_ts txn.txn_id txn.start_ts
          then (if entry.current.item.is_tombstone
              then err version_not_visible
              else ok (entry.current.item, guard_ts))
          else (snapshot_loop entry.undo_ptr txn.start_ts entry.current.item guard_ts
              >>= λ (visible, guard_ts').
                  if ltb txn.start_ts guard_ts' || visible.is_tombstone
                  then err version_not_visible
                  else ok (visible, guard_ts')))
