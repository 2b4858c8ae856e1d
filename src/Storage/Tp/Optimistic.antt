-- ===== src/Storage/Tp/Optimistic.antt =====
-- The validation phase of `commit_optimistic`, minigu/storage/src/tp/transaction.rs. The hash maps of
-- the write sets are lists, which give their entries in one order.
pub mod Validate
pub mod Apply
pub mod Publish
pub mod Delta
use mini_gu.Base.{
  ℕ, ◌+◌, not, ◌&&◌, ◌||◌, ◌==◌, if◌then◌else◌, Bool, true, false, Option, none, some, List, [],
  ◌∷◌, ◌++◌, ok, err,
}
use mini_gu.Transaction.Timestamp.{Timestamp, is_txn_id, is_commit_ts}
use mini_gu.Storage.Error.{
  StorageError, StorageResult, write_write_conflict, transaction_already_committed,
}
use mini_gu.Storage.Model.Vertex
use mini_gu.Storage.Model.Vertex.{Vertex}
use mini_gu.Storage.Model.Edge
use mini_gu.Storage.Model.Edge.{Edge}
use mini_gu.Storage.Model.Delta.{
  SetPropsOp, DeltaOp, del_vertex, del_edge, create_vertex, create_edge, set_vertex_props,
  set_edge_props, UndoEntry, downgrade,
}
use mini_gu.Storage.Tp.Chain.{VersionChain}
use mini_gu.Storage.Tp.Graph.{VersionedVertex, VersionedEdge, MemoryGraph}
use mini_gu.Storage.Tp.Txn.{
  MemTransaction, WriteKind, insert_vertex, update_vertex, delete_vertex, insert_edge, update_edge,
  delete_edge, WriteIntent, WriteSet,
}
use mini_gu.Storage.Tp.VertexRead
use mini_gu.Storage.Tp.EdgeRead
use mini_gu.Storage.Tp.EdgeWrite.{insert_outgoing, insert_incoming, neighbor}
use mini_gu.Storage.Tp.Store.{put_vertex, put_edge}
use mini_gu.Storage.Tp.Promote.{stamped}
use mini_gu.Storage.Tp.Manager.{World}
use mini_gu.Storage.Tp.Manager.Collect.{drop_outgoing, drop_incoming}
use mini_gu.Storage.Tp.Manager.Finish.{Ended, abort_at, finalize_commit_common}

-- Phase 1. The tests of a head, by its stamp.
abbrev pub insert_conflict : Timestamp → Timestamp → Option StorageError
insert_conflict cur_ts txn_id =
    if (is_txn_id cur_ts && not (cur_ts == txn_id)) || is_commit_ts cur_ts
    then some write_write_conflict
    else none

abbrev pub base_conflict : Timestamp → Timestamp → Timestamp → Option StorageError
base_conflict cur_ts txn_id guard_ts =
    if is_txn_id cur_ts && not (cur_ts == txn_id)
    then some write_write_conflict
    else if is_commit_ts cur_ts && not (cur_ts == guard_ts)
    then some write_write_conflict
    else none

module _ {V D : Type 0} where
  abbrev pub insert_conflict_at : Option (VersionChain V D) → Timestamp → Option StorageError
  insert_conflict_at none txn_id = none
  insert_conflict_at (some entry) txn_id = insert_conflict entry.current.commit_ts txn_id

  abbrev pub update_conflict_at :
      Option (VersionChain V D) → Timestamp → Timestamp → Option StorageError
  update_conflict_at none txn_id guard_ts = some write_write_conflict
  update_conflict_at (some entry) txn_id guard_ts =
      base_conflict entry.current.commit_ts txn_id guard_ts

  -- A guard of 0 belongs to an item that the transaction itself inserted.
  abbrev pub delete_conflict_at :
      Option (VersionChain V D) → Timestamp → Timestamp → Option StorageError
  delete_conflict_at none txn_id guard_ts =
      if guard_ts == 0 then none else some write_write_conflict
  delete_conflict_at (some entry) txn_id guard_ts =
      base_conflict entry.current.commit_ts txn_id guard_ts

module _ {V : Type 0} where
  abbrev pub vertex_conflict : MemoryGraph V → Timestamp → ℕ → WriteIntent V → Option StorageError
  vertex_conflict graph txn_id vid intent = elim intent.kind [
    | insert_vertex _ ↦ insert_conflict_at (graph.vertices vid) txn_id
    | update_vertex _ _ ↦ update_conflict_at (graph.vertices vid) txn_id intent.guard_ts
    | delete_vertex _ ↦ delete_conflict_at (graph.vertices vid) txn_id intent.guard_ts
    | _ ↦ none
  ]

  abbrev pub edge_conflict : MemoryGraph V → Timestamp → ℕ → WriteIntent V → Option StorageError
  edge_conflict graph txn_id eid intent = elim intent.kind [
    | insert_edge _ ↦ insert_conflict_at (graph.edges eid) txn_id
    | update_edge _ _ ↦ update_conflict_at (graph.edges eid) txn_id intent.guard_ts
    | delete_edge _ ↦ delete_conflict_at (graph.edges eid) txn_id intent.guard_ts
    | _ ↦ none
  ]

  -- The first conflict of the list.
  abbrev pub first_conflict :
      (ℕ → WriteIntent V → Option StorageError) → WriteSet V → Option StorageError
  first_conflict conflict [] = none
  first_conflict conflict ((id, intent) ∷ rest) =
      let more = first_conflict conflict rest in
      elim (conflict id intent) as (λ _. Option StorageError) [ some e ↦ some e | none ↦ more ]

  unfoldable pub validate : MemoryGraph V → MemTransaction V → Option StorageError
  validate graph txn =
      elim (first_conflict (vertex_conflict graph txn.txn_id) txn.vertex_writes)
        as (λ _. Option StorageError) [
          | some e ↦ some e
          | none ↦ first_conflict (edge_conflict graph txn.txn_id) txn.edge_writes
        ]
