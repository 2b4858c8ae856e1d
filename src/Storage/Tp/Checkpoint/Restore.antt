-- ===== src/Storage/Tp/Checkpoint/Restore.antt =====
-- What a restored checkpoint of minigu/storage/src/tp/checkpoint.rs gives.
use mini_gu.Base.{
  ℕ, ◌+◌, ◌≡◌, refl, ap, ◌∙◌, Bool-cases, Option-cases, List, [], ◌∷◌, Option, none, some, map, All,
  ok, inl, inr, ◌==◌,
}
use mini_gu.Base.Assoc.{lookup}
use mini_gu.Storage.Model.Edge.{Neighbor}
use mini_gu.Storage.Model.Delta.{dangling}
use mini_gu.Storage.Tp.Graph.{VersionedEdge, VersionedVertex, AdjacencyContainer, MemoryGraph}
use mini_gu.Storage.Tp.Manager.{World}
use mini_gu.Storage.Tp.Checkpoint.{
  Visited, entries, insert_each, serialize_vertex, serialize_edge, serialize_neighbor,
  serialize_adjacency, new, restore_vertex, restore_edge, restore_neighbors, restore_container,
  restore_adjacency, restore,
}

-- The visited entries, as a map, are those of the map: what a complete iteration gives.
unfoldable pub Visits : {A : Type 0} → List ℕ → (ℕ → Option A) → Type 0
unfolding entries
Visits keys m = (k : ℕ) → lookup k (entries keys (λ a. a) m) ≡ m k

module _ {A B : Type 0} where
  abbrev pub mapped : (A → B) → Option A → Option B
  mapped f none = none
  mapped f (some a) = some (f a)

  lookup-entries :
      (keys : List ℕ) (f : A → B) (m : ℕ → Option A) (k : ℕ)
      → lookup k (entries keys f m) ≡ mapped f (lookup k (entries keys (λ a. a) m))
  unfolding entries
  lookup-entries [] f m k = refl
  lookup-entries (j ∷ keys) f m k = elim (Option-cases (m j)) [
    | inl e ↦ rw (entries, e) (lookup-entries keys f m k)
    | inr (a, e) ↦ elim (Bool-cases (j == k)) [
      | inl here ↦ rw (entries, e, here) refl
      | inr there ↦ rw (entries, e, there) (lookup-entries keys f m k)
    ]
  ]

  insert_each-lookup :
      (es : List (ℕ × A)) (f : A → B) (m : ℕ → Option B) (k : ℕ)
      → m k ≡ none
      → insert_each es f m k ≡ mapped f (lookup k es)
  unfolding insert_each
  insert_each-lookup [] f m k empty = empty
  insert_each-lookup ((j, a) ∷ es) f m k empty = elim (Bool-cases (j == k)) [
    | inl here ↦ rw here refl
    | inr there ↦ rw there (insert_each-lookup es f m k empty)
  ]

mapped-mapped :
    {A B C : Type 0} (f : A → B) (g : B → C) (o : Option A)
    → mapped g (mapped f o) ≡ mapped (λ a. g (f a)) o
mapped-mapped f g none = refl
mapped-mapped f g (some a) = refl

mapped_id : {A : Type 0} (o : Option A) → mapped (λ a. a) o ≡ o
mapped_id none = refl
mapped_id (some a) = refl

-- A map written out by its iterator and put into an empty map.
insert_each-entries :
    {A B C : Type 0} (keys : List ℕ) (f : A → B) (g : B → C) (m : ℕ → Option A) (m' : ℕ → Option C)
    → Visits keys m
    → ((k : ℕ) → m' k ≡ none)
    → (k : ℕ) → insert_each (entries keys f m) g m' k ≡ mapped (λ a. g (f a)) (m k)
unfolding Visits
insert_each-entries keys f g m m' all empty k =
    insert_each-lookup (entries keys f m) g m' k (empty k)
    ∙ ap (mapped g) (lookup-entries keys f m k ∙ ap (mapped f) (all k))
    ∙ mapped-mapped f g (m k)

module _ {V : Type 0} where
  -- The neighbor names an edge of its label that is in the map.
  pub record IsBacked (edges : ℕ → Option (VersionedEdge V)) (n : Neighbor) : Type 0 where
    pub edge : VersionedEdge V
    pub found : edges n.eid ≡ some edge
    pub label : edge.current.item.label_id ≡ n.label_id

  abbrev pub AreBacked : (ℕ → Option (VersionedEdge V)) → AdjacencyContainer → Type 0
  AreBacked edges adj = All (IsBacked edges) adj.incoming × All (IsBacked edges) adj.outgoing

  -- The chain with its newest version alone.
  abbrev pub head_of_edge : VersionedEdge V → VersionedEdge V
  head_of_edge chain = record chain { undo_ptr = dangling }

  abbrev pub head_of_vertex : VersionedVertex V → VersionedVertex V
  head_of_vertex chain = record chain { undo_ptr = dangling }

  restore_neighbors-serialize :
      (edges edges' : ℕ → Option (VersionedEdge V)) (ns : List Neighbor)
      → ((k : ℕ) → edges' k ≡ mapped head_of_edge (edges k))
      → All (IsBacked edges) ns
      → restore_neighbors edges' (map serialize_neighbor ns) ≡ ok ns
  unfolding restore_neighbors
  restore_neighbors-serialize edges edges' [] heads backed = refl
  restore_neighbors-serialize edges edges' (n ∷ ns) heads (b, backed) =
      rw (heads n.eid, b.found, restore_neighbors-serialize edges edges' ns heads backed, b.label)
        refl

  restore_container-serialize :
      (edges edges' : ℕ → Option (VersionedEdge V)) (adj : AdjacencyContainer)
      → ((k : ℕ) → edges' k ≡ mapped head_of_edge (edges k))
      → AreBacked edges adj
      → restore_container edges' (serialize_adjacency adj) ≡ ok adj
  unfolding restore_container
  restore_container-serialize edges edges' adj heads (i, o) =
      rw
        (
          restore_neighbors-serialize edges edges' adj.outgoing heads o,
          restore_neighbors-serialize edges edges' adj.incoming heads i,
        )
        refl

  restore_adjacency-entries :
      (edges edges' : ℕ → Option (VersionedEdge V)) (keys : List ℕ)
      (m m' : ℕ → Option AdjacencyContainer)
      → ((k : ℕ) → edges' k ≡ mapped head_of_edge (edges k))
      → ((k : ℕ) (adj : AdjacencyContainer) → m k ≡ some adj → AreBacked edges adj)
      → restore_adjacency edges' (entries keys serialize_adjacency m) m'
        ≡ ok (insert_each (entries keys (λ a. a) m) (λ a. a) m')
  unfolding entries restore_adjacency insert_each
  restore_adjacency-entries edges edges' [] m m' heads backed = refl
  restore_adjacency-entries edges edges' (j ∷ keys) m m' heads backed =
      let rest = restore_adjacency-entries edges edges' keys m m' heads backed in
      elim (Option-cases (m j)) [
        | inl e ↦ rw (entries, e) rest
        | inr (adj, e) ↦
            rw
              (
                entries,
                e,
                restore_container-serialize edges edges' adj heads (backed j adj e),
                rest,
              )
              refl
      ]

  -- The iterators visit every entry.
  pub record VisitsAll (visited : Visited) (graph : MemoryGraph V) : Type 0 where
    pub vertices : Visits visited.vertices graph.vertices
    pub edges : Visits visited.edges graph.edges
    pub adjacency_list : Visits visited.adjacency_list graph.adjacency_list

  pub record IsEmpty (graph : MemoryGraph V) : Type 0 where
    pub vertices : (k : ℕ) → graph.vertices k ≡ none
    pub edges : (k : ℕ) → graph.edges k ≡ none
    pub adjacency_list : (k : ℕ) → graph.adjacency_list k ≡ none

  -- The graph has the newest versions of the other and nothing else.
  pub record IsRestored (g g' : MemoryGraph V) : Type 0 where
    pub vertices : (k : ℕ) → g'.vertices k ≡ mapped head_of_vertex (g.vertices k)
    pub edges : (k : ℕ) → g'.edges k ≡ mapped head_of_edge (g.edges k)
    pub adjacency_list : (k : ℕ) → g'.adjacency_list k ≡ g.adjacency_list k

  -- The checkpoint round trip: a checkpoint of a store, restored into one whose graph is empty, gives
  -- every vertex and edge its newest version with its commit timestamp and no history, and every
  -- vertex its neighbours; the latest commit is that of the first store and the next LSN one more
  -- than its own, and the generators stay those of the second. The iterators are to visit every
  -- entry, and every neighbour is to name an edge of its label; so `unwrap` does not panic.
  pub restore-new :
      (now : ℕ) (visited : Visited) (w w' : World V)
      → VisitsAll visited w.graph
      → IsEmpty w'.graph
      → ((k : ℕ) (adj : AdjacencyContainer)
          → w.graph.adjacency_list k ≡ some adj
          → AreBacked w.graph.edges adj)
      → (r : World V) × (restore (new now visited w) w' ≡ ok r)
        × IsRestored w.graph r.graph
        × (r.manager.latest_commit_ts ≡ w.manager.latest_commit_ts)
        × (r.next_lsn ≡ w.next_lsn + 1)
        × (r.timestamps ≡ w'.timestamps)
        × (r.ids ≡ w'.ids)
  unfolding restore new restore_vertex restore_edge
  restore-new now visited w w' all empty backed =
      let heads =
        insert_each-entries visited.edges serialize_edge restore_edge w.graph.edges w'.graph.edges
          all.edges empty.edges in
      let vertices =
        insert_each-entries visited.vertices serialize_vertex restore_vertex w.graph.vertices
          w'.graph.vertices all.vertices empty.vertices in
      (
        record w' {
          next_lsn = w.next_lsn + 1;
          manager = record w'.manager { latest_commit_ts = w.manager.latest_commit_ts };
          graph = record {
            vertices =
                insert_each (entries visited.vertices serialize_vertex w.graph.vertices)
                  restore_vertex w'.graph.vertices;
            edges =
                insert_each (entries visited.edges serialize_edge w.graph.edges) restore_edge
                  w'.graph.edges;
            adjacency_list =
                insert_each (entries visited.adjacency_list (λ a. a) w.graph.adjacency_list)
                  (λ a. a) w'.graph.adjacency_list;
          };
        },
        rw
            (restore_adjacency-entries w.graph.edges _ visited.adjacency_list w.graph.adjacency_list
              w'.graph.adjacency_list heads backed)
            refl,
        record {
          vertices = vertices;
          edges = heads;
          adjacency_list = λ k.
              insert_each-entries visited.adjacency_list (λ a. a) (λ a. a) w.graph.adjacency_list
                w'.graph.adjacency_list all.adjacency_list empty.adjacency_list k
              ∙ mapped_id (w.graph.adjacency_list k);
        },
        refl,
        refl,
        refl,
        refl,
      )
