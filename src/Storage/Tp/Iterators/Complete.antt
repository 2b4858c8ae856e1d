-- ===== src/Storage/Tp/Iterators/Complete.antt =====
-- `iter_vertices` and `iter_edges` of minigu/storage/src/tp/iterators, run to their end or not.
use mini_gu.Base.{ℕ, ◌≡◌, ◌∙◌, refl, Bool, List, [], ◌∷◌, ◌++◌, take, ok}
use mini_gu.Storage.Model.Vertex.{Vertex}
use mini_gu.Storage.Model.Edge.{Edge}
use mini_gu.Storage.Tp.Graph.{MemoryGraph}
use mini_gu.Storage.Tp.Txn.{MemTransaction, lookup_vertex_write, lookup_edge_write}
use mini_gu.Storage.Tp.VertexRead
use mini_gu.Storage.Tp.EdgeRead
use mini_gu.Storage.Tp.Checkpoint.{Visited}
use mini_gu.Storage.Tp.Iterators.{ScanIterator, filter, take_items}
use mini_gu.Storage.Tp.Iterators.Scan.{vertex_kind, edge_kind, iter_vertices, iter_edges}
use mini_gu.Storage.Tp.Iterators.Reference.{seen_vertices, own_inserts, iter_vertices-seen_vertices}
use mini_gu.Storage.Tp.Iterators.Whole.{IsStable, kept, scan, take_items-remaining}

module _ {V : Type 0} where
  vertex_kind-IsStable : IsStable (vertex_kind {V = V})
  unfolding vertex_kind VertexRead.get_visible lookup_vertex_write
  vertex_kind-IsStable = record { own_of = λ id k txn. refl; get_visible = λ id chain txn. refl }

  edge_kind-IsStable : IsStable (edge_kind {V = V})
  unfolding edge_kind EdgeRead.get_visible lookup_edge_write
  edge_kind-IsStable = record { own_of = λ id k txn. refl; get_visible = λ id chain txn. refl }

  -- The scan of vertices is complete and lazy: the first `n` items that the iterator of a transaction
  -- yields under a predicate are the first `n` of those, satisfying the predicate, that the
  -- transaction is to see: of each vertex of the graph, in the order in which the map visits the keys,
  -- its own write or else what `get_visible` shows of the vertex, and behind them, under optimistic
  -- locking, its own inserts that are not in the graph. No `get_visible` is to panic.
  pub take_items-iter_vertices :
      (visited : Visited) (graph : MemoryGraph V) (txn : MemTransaction V)
      (predicate : Vertex V → Bool) (n : ℕ) (seen : List (Vertex V))
      → seen_vertices graph txn visited.vertices ≡ ok seen
      → (it' : ScanIterator V (Vertex V)) × (take_items vertex_kind n
            (filter vertex_kind (iter_vertices visited graph txn) predicate)
          ≡ ok (
            take n (
                kept
                  (predicate ∷ [])
                  (seen ++ own_inserts graph txn.lock_strategy txn.vertex_writes)),
            it',
          ))
  unfolding filter iter_vertices
  take_items-iter_vertices visited graph txn predicate n seen shows =
      let (entries_show, inserts) = iter_vertices-seen_vertices visited graph txn in
      take_items-remaining vertex_kind vertex_kind-IsStable n
        (filter vertex_kind (iter_vertices visited graph txn) predicate) _
        (rw (entries_show ∙ shows, inserts) refl)

  -- The same of the scan of edges.
  pub take_items-iter_edges :
      (visited : Visited) (graph : MemoryGraph V) (txn : MemTransaction V)
      (predicate : Edge V → Bool) (n : ℕ) (items : List (Edge V))
      → scan edge_kind txn (iter_edges visited graph txn).inner ≡ ok items
      → (it' : ScanIterator V (Edge V)) × (take_items edge_kind n
            (filter edge_kind (iter_edges visited graph txn) predicate)
          ≡ ok (
            take n
                (kept (predicate ∷ []) (items ++ (iter_edges visited graph txn).pending_inserts)),
            it',
          ))
  unfolding filter iter_edges
  take_items-iter_edges visited graph txn predicate n items shows =
      take_items-remaining edge_kind edge_kind-IsStable n
        (filter edge_kind (iter_edges visited graph txn) predicate) _ (rw shows refl)
