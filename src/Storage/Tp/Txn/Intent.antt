-- ===== src/Storage/Tp/Txn/Intent.antt =====
-- How repeated writes of one transaction to one vertex or edge fold into one intent,
-- minigu/storage/src/tp/transaction.rs.
use mini_gu.Base.{ℕ, Option, none, some, ◌==◌, if◌then◌else◌}
use mini_gu.Base.Assoc.{lookup, insert}
use mini_gu.Transaction.Timestamp.{Timestamp}
use mini_gu.Storage.Model.Vertex.{Vertex}
use mini_gu.Storage.Model.Edge.{Edge}
use mini_gu.Storage.Tp.Txn.{
  WriteKind, insert_vertex, update_vertex, delete_vertex, insert_edge, update_edge, delete_edge,
  WriteIntent, WriteSet,
}

-- `if intent.guard_ts.raw() == 0 { intent.guard_ts = guard_ts }`
abbrev pub first_guard : Timestamp → Timestamp → Timestamp
first_guard old new = if old == 0 then new else old

module _ {V : Type 0} where
  -- the closure of `and_modify`
  abbrev vertex_kind_updated : WriteKind V → Vertex V → Vertex V → WriteKind V
  vertex_kind_updated (insert_vertex v) before after = insert_vertex after
  vertex_kind_updated (update_vertex b a) before after = update_vertex b after
  vertex_kind_updated (delete_vertex b) before after = update_vertex before after
  vertex_kind_updated (insert_edge e) before after = insert_edge e
  vertex_kind_updated (update_edge b a) before after = update_edge b a
  vertex_kind_updated (delete_edge b) before after = delete_edge b

  abbrev vertex_updated : Option (WriteIntent V) → Timestamp → Vertex V → Vertex V → WriteIntent V
  vertex_updated none guard_ts before after = record {
    guard_ts = guard_ts;
    kind = update_vertex before after;
  }
  vertex_updated (some intent) guard_ts before after = record {
    guard_ts = first_guard intent.guard_ts guard_ts;
    kind = vertex_kind_updated intent.kind before after;
  }

  unfoldable pub record_vertex_update :
      WriteSet V → ℕ → Timestamp → Vertex V → Vertex V → WriteSet V
  record_vertex_update ws vid guard_ts before new_after =
      insert vid (vertex_updated (lookup vid ws) guard_ts before new_after) ws

  abbrev vertex_deleted : Option (WriteIntent V) → Timestamp → Vertex V → WriteIntent V
  vertex_deleted none guard_ts before = record { guard_ts = guard_ts; kind = delete_vertex before }
  vertex_deleted (some intent) guard_ts before = record {
    guard_ts = first_guard intent.guard_ts guard_ts;
    kind = delete_vertex before;
  }

  unfoldable pub record_vertex_delete : WriteSet V → ℕ → Timestamp → Vertex V → WriteSet V
  record_vertex_delete ws vid guard_ts before =
      insert vid (vertex_deleted (lookup vid ws) guard_ts before) ws

  -- the closure of `and_modify`
  abbrev edge_kind_updated : WriteKind V → Edge V → Edge V → WriteKind V
  edge_kind_updated (insert_edge v) before after = insert_edge after
  edge_kind_updated (update_edge b a) before after = update_edge b after
  edge_kind_updated (delete_edge b) before after = update_edge before after
  edge_kind_updated (insert_vertex e) before after = insert_vertex e
  edge_kind_updated (update_vertex b a) before after = update_vertex b a
  edge_kind_updated (delete_vertex b) before after = delete_vertex b

  abbrev edge_updated : Option (WriteIntent V) → Timestamp → Edge V → Edge V → WriteIntent V
  edge_updated none guard_ts before after = record {
    guard_ts = guard_ts;
    kind = update_edge before after;
  }
  edge_updated (some intent) guard_ts before after = record {
    guard_ts = first_guard intent.guard_ts guard_ts;
    kind = edge_kind_updated intent.kind before after;
  }

  unfoldable pub record_edge_update : WriteSet V → ℕ → Timestamp → Edge V → Edge V → WriteSet V
  record_edge_update ws eid guard_ts before new_after =
      insert eid (edge_updated (lookup eid ws) guard_ts before new_after) ws

  abbrev edge_deleted : Option (WriteIntent V) → Timestamp → Edge V → WriteIntent V
  edge_deleted none guard_ts before = record { guard_ts = guard_ts; kind = delete_edge before }
  edge_deleted (some intent) guard_ts before = record {
    guard_ts = first_guard intent.guard_ts guard_ts;
    kind = delete_edge before;
  }

  unfoldable pub record_edge_delete : WriteSet V → ℕ → Timestamp → Edge V → WriteSet V
  record_edge_delete ws eid guard_ts before =
      insert eid (edge_deleted (lookup eid ws) guard_ts before) ws
