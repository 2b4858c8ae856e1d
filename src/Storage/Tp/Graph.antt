-- ===== src/Storage/Tp/Graph.antt =====
-- The maps of `MemoryGraph`, minigu/storage/src/tp/memory_graph.rs: identifiers to version chains,
-- and vertices to their neighbours. Nothing modelled here iterates over the first two.
use mini_gu.Base.{ℕ, List, Option}
use mini_gu.Storage.Model.Vertex.{Vertex}
use mini_gu.Storage.Model.Edge.{Edge, Neighbor}
use mini_gu.Storage.Tp.Chain.{VersionChain}

abbrev pub VersionedVertex : Type 0 → Type 0
VersionedVertex V = VersionChain V (Vertex V)

abbrev pub VersionedEdge : Type 0 → Type 0
VersionedEdge V = VersionChain V (Edge V)

-- The skip sets of the source are lists here.
pub record AdjacencyContainer : Type 0 where
  pub incoming : List Neighbor
  pub outgoing : List Neighbor

pub record MemoryGraph (V : Type 0) : Type 0 where
  pub vertices : ℕ → Option (VersionedVertex V)
  pub edges : ℕ → Option (VersionedEdge V)
  pub adjacency_list : ℕ → Option AdjacencyContainer
