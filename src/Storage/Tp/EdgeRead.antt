-- ===== src/Storage/Tp/EdgeRead.antt =====
-- Reads of edges under a transaction, minigu/storage/src/tp/memory_graph.rs.
pub mod Seen
use mini_gu.Base.{
  ℕ, Bool, true, false, not, ◌&&◌, ◌||◌, Option, none, some, leb, ltb, ◌==◌, if◌then◌else◌, ok, err,
  ◌>>=◌, ◌>>◌,
}
use mini_gu.Transaction.Timestamp.{Timestamp, is_txn_id, is_commit_ts}
use mini_gu.Transaction.Options.{LockStrategy, pessimistic, optimistic}
use mini_gu.Storage.Error.{
  StorageError, StorageResult, edge_not_found, edge_tombstone, version_not_visible, panicked,
}
use mini_gu.Storage.Model.Edge
use mini_gu.Storage.Model.Edge.{Edge}
use mini_gu.Storage.Model.Delta.{
  DeltaOp, del_edge, create_edge, set_edge_props, UndoPtr, dangling, live,
}
use mini_gu.Storage.Tp.Chain.{apply_deltas_for_read, head_visible}
use mini_gu.Storage.Tp.VertexRead
use mini_gu.Storage.Tp.VertexRead.{read_set}
use mini_gu.Storage.Tp.Graph.{VersionedVertex, VersionedEdge, MemoryGraph}
use mini_gu.Storage.Tp.Guard.{prewrite_check_edge}
use mini_gu.Storage.Tp.Txn.{
  MemTransaction, insert_edge, update_edge, delete_edge, WriteIntent, lookup_edge_write,
}

module _ {V : Type 0} where
  -- `VersionedEdge::new`
  unfoldable pub new : Edge V → VersionedEdge V
  new initial = record { current = record { item = initial; commit_ts = 0 }; undo_ptr = dangling }

  unfoldable pub with_modified_ts : Edge V → Timestamp → VersionedEdge V
  with_modified_ts initial txn_id = record {
    current = record { item = initial; commit_ts = txn_id };
    undo_ptr = dangling;
  }

  -- The closure `apply_deltas` of `get_visible`; a delta of another kind changes nothing.
  unfoldable pub lenient_delta : DeltaOp V → Edge V → StorageResult (Edge V)
  lenient_delta (create_edge original) edge = ok original
  lenient_delta (set_edge_props _ op) edge = Edge.set_props edge op.indices op.props
  lenient_delta (del_edge _) edge = ok (record edge { is_tombstone = true })
  lenient_delta _ edge = ok edge

  -- The closure of `get_edge`, and the loop body of `snapshot_edge_with_guard`; a delta of
  -- another kind is `unreachable!`.
  unfoldable pub strict_delta : DeltaOp V → Edge V → StorageResult (Edge V)
  strict_delta (create_edge original) edge = ok original
  strict_delta (set_edge_props _ op) edge = Edge.set_props edge op.indices op.props
  strict_delta (del_edge _) edge = ok (record edge { is_tombstone = true })
  strict_delta _ edge = err panicked

  abbrev pub unless_tombstone : StorageError → Edge V → StorageResult (Edge V)
  unless_tombstone e edge = if edge.is_tombstone then err e else ok edge

  unfoldable pub get_visible : VersionedEdge V → MemTransaction V → StorageResult (Edge V)
  unfolding head_visible
  get_visible entry txn =
      if head_visible entry.current.commit_ts txn.txn_id txn.start_ts
      then unless_tombstone version_not_visible entry.current.item
      else (apply_deltas_for_read entry.undo_ptr lenient_delta txn.start_ts entry.current.item
          >>= unless_tombstone version_not_visible)

  -- The closure `apply_deltas` of `is_visible`
  unfoldable pub visibility_delta : DeltaOp V → Bool → StorageResult Bool
  visibility_delta (del_edge _) visible = ok false
  visibility_delta (create_edge _) visible = ok true
  visibility_delta _ visible = ok visible

  abbrev endpoint_visible : Option (VersionedVertex V) → MemTransaction V → StorageResult Bool
  endpoint_visible none txn = ok false
  endpoint_visible (some entry) txn = VertexRead.is_visible entry txn

  -- The second test runs only if the first holds.
  unfoldable pub is_visible :
      MemoryGraph V → VersionedEdge V → MemTransaction V → StorageResult Bool
  unfolding head_visible
  is_visible graph entry txn =
      endpoint_visible (graph.vertices entry.current.item.dst_id) txn >>= λ first.
      (if first then endpoint_visible (graph.vertices entry.current.item.src_id) txn else ok false)
      >>= λ both.
          if both
          then (if head_visible entry.current.commit_ts txn.txn_id txn.start_ts
              then ok (not entry.current.item.is_tombstone)
              else apply_deltas_for_read entry.undo_ptr visibility_delta txn.start_ts
                  (not entry.current.item.is_tombstone))
          else ok false

  -- What the transaction's own intent answers, where it has one under optimistic locking.
  abbrev own_write : LockStrategy → Option (WriteIntent V) → ℕ → Option (StorageResult (Edge V))
  own_write pessimistic intent eid = none
  own_write optimistic none eid = none
  own_write optimistic (some intent) eid = elim intent.kind [
    | insert_edge v ↦ some (unless_tombstone (edge_tombstone eid) v)
    | update_edge before after ↦ some (unless_tombstone (edge_tombstone eid) after)
    | delete_edge before ↦ some (err (edge_tombstone eid))
    | _ ↦ none
  ]

  -- `get_edge` from its step 2 on.
  unfoldable pub visible_image : VersionedEdge V → MemTransaction V → StorageResult (Edge V)
  visible_image entry txn =
      let commit_ts = entry.current.commit_ts in
      if (is_txn_id commit_ts && not (commit_ts == txn.txn_id))
        || (is_commit_ts commit_ts && ltb txn.start_ts commit_ts)
      then apply_deltas_for_read entry.undo_ptr strict_delta txn.start_ts entry.current.item
      else ok entry.current.item

  abbrev shared_edge :
      Option (VersionedEdge V) → MemTransaction V → ℕ → StorageResult (Edge V) × MemTransaction V
  shared_edge none txn eid = (err (edge_not_found eid), txn)
  shared_edge (some entry) txn eid = (
    visible_image entry txn >>= unless_tombstone (edge_tombstone eid),
    record txn { edge_reads = read_set txn.isolation_level eid txn.edge_reads },
  )

  abbrev own_or_shared :
      Option (StorageResult (Edge V))
      → MemoryGraph V
      → MemTransaction V
      → ℕ
      → StorageResult (Edge V) × MemTransaction V
  own_or_shared (some answer) graph txn eid = (answer, txn)
  own_or_shared none graph txn eid = shared_edge (graph.edges eid) txn eid

  unfoldable pub get_edge :
      MemoryGraph V → MemTransaction V → ℕ → StorageResult (Edge V) × MemTransaction V
  unfolding visible_image lookup_edge_write
  get_edge graph txn eid =
      own_or_shared (own_write txn.lock_strategy (lookup_edge_write txn eid) eid) graph txn eid

  -- The `while let` loop of `snapshot_edge_with_guard`.
  unfoldable pub snapshot_loop :
      UndoPtr V → Timestamp → Edge V → Timestamp → StorageResult (Edge V × Timestamp)
  snapshot_loop dangling start visible guard_ts = ok (visible, guard_ts)
  snapshot_loop (live delta timestamp next) start visible guard_ts =
      strict_delta delta visible >>= λ changed.
      let rest = snapshot_loop next start changed timestamp in
      if leb timestamp start then ok (changed, timestamp) else rest

  unfoldable pub snapshot_edge_with_guard :
      VersionedEdge V → MemTransaction V → StorageResult (Edge V × Timestamp)
  unfolding head_visible
  snapshot_edge_with_guard entry txn =
      let guard_ts = entry.current.commit_ts in
      prewrite_check_edge guard_ts txn
      >> (if head_visible guard_ts txn.txn_id txn.start_ts
          then (if entry.current.item.is_tombstone
              then err version_not_visible
              else ok (entry.current.item, guard_ts))
          else (snapshot_loop entry.undo_ptr txn.start_ts entry.current.item guard_ts
              >>= λ (visible, guard_ts').
                  if ltb txn.start_ts guard_ts' || visible.is_tombstone
                  then err version_not_visible
                  else ok (visible, guard_ts')))
