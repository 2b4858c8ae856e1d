-- ===== src/Storage/Tp/Iterators/Reference.antt =====
-- What a transaction is to see of all vertices, without an iterator: vertex by vertex, by `get_visible`
-- and the transaction's own writes. The scan of minigu/storage/src/tp/iterators/vertex_iterator.rs is
-- compared with it.
use mini_gu.Base.{
  ℕ, ◌≡◌, refl, ap, ◌∙◌, if◌then◌else◌, Option, none, some, List, [], ◌∷◌, ◌++◌, ok, ◌>>=◌,
  Option-cases, Bool-cases, inl, inr,
}
use mini_gu.Transaction.Options.{LockStrategy, pessimistic, optimistic}
use mini_gu.Storage.Error.{StorageResult}
use mini_gu.Storage.Model.Vertex.{Vertex}
use mini_gu.Storage.Tp.Graph.{MemoryGraph, VersionedVertex}
use mini_gu.Storage.Tp.Txn.{
  MemTransaction, WriteKind, insert_vertex, update_vertex, delete_vertex, insert_edge, update_edge,
  delete_edge, WriteIntent, WriteSet, lookup_vertex_write,
}
use mini_gu.Storage.Tp.VertexRead
use mini_gu.Storage.Tp.Checkpoint.{Visited, entries}
use mini_gu.Storage.Tp.Iterators.Scan.{
  vertex_kind, vertex_own, own_by, pending_of, pending_vertex, pending_by, pending_if,
  iter_vertices,
}
use mini_gu.Storage.Tp.Iterators.Whole.{shown, shown_by, scan}

module _ {V : Type 0} where
  abbrev alive : Vertex V → List (Vertex V)
  alive v = if v.is_tombstone then [] else v ∷ []

  -- What an own write makes of a vertex stands in the place of what the graph shows.
  abbrev written : WriteKind V → StorageResult (List (Vertex V)) → StorageResult (List (Vertex V))
  written (insert_vertex v) in_graph = ok (alive v)
  written (update_vertex before after) in_graph = ok (alive after)
  written (delete_vertex before) in_graph = ok []
  written _ in_graph = in_graph

  -- Only an optimistic transaction holds its writes back.
  abbrev seen_by :
      LockStrategy
      → Option (WriteIntent V)
      → StorageResult (List (Vertex V))
      → StorageResult (List (Vertex V))
  seen_by optimistic (some intent) in_graph = written intent.kind in_graph
  seen_by _ _ in_graph = in_graph

  -- The vertices of the graph that the transaction sees, in the order of the keys. A vertex that
  -- `get_visible` refuses is not seen, unless it panics.
  unfoldable pub seen_vertices :
      MemoryGraph V → MemTransaction V → List ℕ → StorageResult (List (Vertex V))
  seen_vertices graph txn [] = ok []
  seen_vertices graph txn (vid ∷ vids) = elim (graph.vertices vid) [
    | none ↦ seen_vertices graph txn vids
    | some entry ↦
        seen_by txn.lock_strategy (lookup_vertex_write txn vid)
          (shown (VertexRead.get_visible entry txn))
        >>= λ items. seen_vertices graph txn vids >>= λ more. ok (items ++ more)
  ]

  abbrev inserted_at : Option (VersionedVertex V) → WriteKind V → List (Vertex V) → List (Vertex V)
  inserted_at none (insert_vertex v) rest = v ∷ rest
  inserted_at _ _ rest = rest

  -- The transaction's own inserts that are not in the graph.
  unfoldable pub own_inserts : MemoryGraph V → LockStrategy → WriteSet V → List (Vertex V)
  own_inserts graph pessimistic writes = []
  own_inserts graph optimistic [] = []
  own_inserts graph optimistic ((vid, intent) ∷ writes) =
      inserted_at (graph.vertices vid) intent.kind (own_inserts graph optimistic writes)

  shown_alive :
      (v : Vertex V) (r : StorageResult (Vertex V))
      → shown_by (vertex_own (insert_vertex v)) r ≡ ok (alive v)
  shown_alive v r = elim (Bool-cases v.is_tombstone) [
    | inl dead ↦ rw dead refl
    | inr lives ↦ rw lives refl
  ]

  shown_by-written :
      (kind : WriteKind V) (r : StorageResult (Vertex V))
      → shown_by (vertex_own kind) r ≡ written kind (shown r)
  shown_by-written (insert_vertex v) r = shown_alive v r
  shown_by-written (update_vertex before after) r = shown_alive after r
  shown_by-written (delete_vertex before) r = refl
  shown_by-written (insert_edge e) r = refl
  shown_by-written (update_edge before after) r = refl
  shown_by-written (delete_edge before) r = refl

  shown_by-seen_by :
      (lock : LockStrategy) (intent : Option (WriteIntent V)) (r : StorageResult (Vertex V))
      → shown_by (own_by lock vertex_own intent) r ≡ seen_by lock intent (shown r)
  shown_by-seen_by pessimistic none r = refl
  shown_by-seen_by pessimistic (some intent) r = refl
  shown_by-seen_by optimistic none r = refl
  shown_by-seen_by optimistic (some intent) r = shown_by-written intent.kind r

  scan-seen_vertices :
      (graph : MemoryGraph V) (txn : MemTransaction V) (vids : List ℕ)
      → scan vertex_kind txn (entries vids (λ chain. chain) graph.vertices)
        ≡ seen_vertices graph txn vids
  unfolding scan seen_vertices entries vertex_kind
  scan-seen_vertices graph txn [] = refl
  scan-seen_vertices graph txn (vid ∷ vids) = elim (Option-cases (graph.vertices vid)) [
    | inl missing ↦ rw (scan, seen_vertices, entries, missing) (scan-seen_vertices graph txn vids)
    | inr (entry, there) ↦
        rw (scan, seen_vertices, entries, there)
          (ap
              (λ r. r >>= λ items.
                scan vertex_kind txn (entries vids (λ chain. chain) graph.vertices) >>= λ more.
                ok (items ++ more))
              (shown_by-seen_by txn.lock_strategy (lookup_vertex_write txn vid)
                (VertexRead.get_visible entry txn))
            ∙ ap
                (λ rest.
                  seen_by txn.lock_strategy (lookup_vertex_write txn vid)
                    (shown (VertexRead.get_visible entry txn))
                  >>= λ items. rest >>= λ more. ok (items ++ more))
                (scan-seen_vertices graph txn vids))
  ]

  pending_if-inserted_at :
      (here : Option (VersionedVertex V)) (kind : WriteKind V) (rest : List (Vertex V))
      → pending_if here (pending_vertex kind) rest ≡ inserted_at here kind rest
  pending_if-inserted_at (some entry) kind rest = refl
  pending_if-inserted_at none (insert_vertex v) rest = refl
  pending_if-inserted_at none (update_vertex before after) rest = refl
  pending_if-inserted_at none (delete_vertex before) rest = refl
  pending_if-inserted_at none (insert_edge e) rest = refl
  pending_if-inserted_at none (update_edge before after) rest = refl
  pending_if-inserted_at none (delete_edge before) rest = refl

  pending_by-own_inserts :
      (graph : MemoryGraph V) (lock : LockStrategy) (writes : WriteSet V)
      → pending_by lock pending_vertex graph.vertices writes ≡ own_inserts graph lock writes
  unfolding pending_of own_inserts
  pending_by-own_inserts graph pessimistic writes = refl
  pending_by-own_inserts graph optimistic [] = refl
  pending_by-own_inserts graph optimistic ((vid, intent) ∷ writes) =
      pending_if-inserted_at (graph.vertices vid) intent.kind _
      ∙ ap (inserted_at (graph.vertices vid) intent.kind)
          (pending_by-own_inserts graph optimistic writes)

  -- The entries that the iterator of vertices is made over show what the transaction is to see, and
  -- the inserts that it holds are the transaction's own.
  pub iter_vertices-seen_vertices :
      (visited : Visited) (graph : MemoryGraph V) (txn : MemTransaction V)
      → (scan vertex_kind txn (iter_vertices visited graph txn).inner
          ≡ seen_vertices graph txn visited.vertices)
        × ((iter_vertices visited graph txn).pending_inserts
            ≡ own_inserts graph txn.lock_strategy txn.vertex_writes)
  unfolding iter_vertices
  iter_vertices-seen_vertices visited graph txn = (
    scan-seen_vertices graph txn visited.vertices,
    pending_by-own_inserts graph txn.lock_strategy txn.vertex_writes,
  )
