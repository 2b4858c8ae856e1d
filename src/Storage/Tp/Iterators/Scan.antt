-- ===== src/Storage/Tp/Iterators/Scan.antt =====
-- `iter_vertices` and `iter_edges` of minigu/storage/src/tp/iterators.
use mini_gu.Base.{ℕ, Option, none, some, List, [], ◌∷◌, if◌then◌else◌}
use mini_gu.Transaction.Options.{LockStrategy, pessimistic, optimistic}
use mini_gu.Storage.Model.Vertex.{Vertex}
use mini_gu.Storage.Model.Edge.{Edge}
use mini_gu.Storage.Tp.Graph.{MemoryGraph}
use mini_gu.Storage.Tp.Txn.{
  MemTransaction, WriteKind, insert_vertex, update_vertex, delete_vertex, insert_edge, update_edge,
  delete_edge, WriteIntent, lookup_vertex_write, lookup_edge_write,
}
use mini_gu.Storage.Tp.VertexRead
use mini_gu.Storage.Tp.EdgeRead
use mini_gu.Storage.Tp.Checkpoint.{Visited, entries}
use mini_gu.Storage.Tp.Iterators.{Own, no_intent, skipped, own, Kind, ScanIterator}

abbrev pub pending_if : {A D : Type 0} → Option A → Option D → List D → List D
pending_if none (some item) rest = item ∷ rest
pending_if _ _ rest = rest

module _ {V : Type 0} where
  abbrev pub vertex_own : WriteKind V → Own (Vertex V)
  vertex_own (insert_vertex v) = if v.is_tombstone then skipped else own v
  vertex_own (update_vertex before after) = if after.is_tombstone then skipped else own after
  vertex_own (delete_vertex before) = skipped
  vertex_own _ = no_intent

  abbrev edge_own : WriteKind V → Own (Edge V)
  edge_own (insert_edge e) = if e.is_tombstone then skipped else own e
  edge_own (update_edge before after) = if after.is_tombstone then skipped else own after
  edge_own (delete_edge before) = skipped
  edge_own _ = no_intent

  abbrev pub own_by :
      {D : Type 0} → LockStrategy → (WriteKind V → Own D) → Option (WriteIntent V) → Own D
  own_by pessimistic f intent = no_intent
  own_by optimistic f none = no_intent
  own_by optimistic f (some intent) = f intent.kind

  unfoldable pub vertex_kind : Kind V (Vertex V)
  vertex_kind = record {
    id_of = λ v. v.vid;
    own_of = λ txn vid. own_by txn.lock_strategy vertex_own (lookup_vertex_write txn vid);
    get_visible = VertexRead.get_visible;
    mark_read = λ vid txn. record txn { vertex_reads = vid ∷ txn.vertex_reads };
  }

  unfoldable pub edge_kind : Kind V (Edge V)
  edge_kind = record {
    id_of = λ e. e.eid;
    own_of = λ txn eid. own_by txn.lock_strategy edge_own (lookup_edge_write txn eid);
    get_visible = EdgeRead.get_visible;
    mark_read = λ eid txn. record txn { edge_reads = eid ∷ txn.edge_reads };
  }

  -- The inserts of an optimistic transaction that are not in the graph.
  abbrev pub pending_vertex : WriteKind V → Option (Vertex V)
  pending_vertex (insert_vertex v) = some v
  pending_vertex _ = none

  abbrev pending_edge : WriteKind V → Option (Edge V)
  pending_edge (insert_edge e) = some e
  pending_edge _ = none

  unfoldable pub pending_of :
      {A D : Type 0} → (WriteKind V → Option D) → (ℕ → Option A) → List (ℕ × WriteIntent V) → List D
  pending_of f m [] = []
  pending_of f m ((id, intent) ∷ writes) = pending_if (m id) (f intent.kind) (pending_of f m writes)

  abbrev pub pending_by :
      {A D : Type 0}
      → LockStrategy
      → (WriteKind V → Option D)
      → (ℕ → Option A)
      → List (ℕ × WriteIntent V)
      → List D
  pending_by pessimistic f m writes = []
  pending_by optimistic f m writes = pending_of f m writes

  -- The keys are those that the iterator of the map visits.
  unfoldable pub iter_vertices :
      Visited → MemoryGraph V → MemTransaction V → ScanIterator V (Vertex V)
  iter_vertices visited graph txn = record {
    inner = entries visited.vertices (λ chain. chain) graph.vertices;
    txn = txn;
    filters = [];
    current = none;
    pending_inserts = pending_by txn.lock_strategy pending_vertex graph.vertices txn.vertex_writes;
    pending_index = 0;
  }

  unfoldable pub iter_edges : Visited → MemoryGraph V → MemTransaction V → ScanIterator V (Edge V)
  iter_edges visited graph txn = record {
    inner = entries visited.edges (λ chain. chain) graph.edges;
    txn = txn;
    filters = [];
    current = none;
    pending_inserts = pending_by txn.lock_strategy pending_edge graph.edges txn.edge_writes;
    pending_index = 0;
  }
