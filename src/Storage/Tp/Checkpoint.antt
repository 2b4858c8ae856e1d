-- ===== src/Storage/Tp/Checkpoint.antt =====
-- minigu/storage/src/tp/checkpoint.rs: the snapshot of a graph, how it is taken and how it is restored.
pub mod Restart
pub mod Restore
mod Tests
use mini_gu.Base.{ℕ, ◌+◌, List, [], ◌∷◌, Option, none, some, map, ok, ok_or, ◌>>=◌}
use mini_gu.Base.Assoc.{update}
use mini_gu.Transaction.Timestamp.{Timestamp}
use mini_gu.Storage.Error.{StorageResult, panicked}
use mini_gu.Storage.Model.Vertex.{Vertex}
use mini_gu.Storage.Model.Edge.{Edge, Neighbor}
use mini_gu.Storage.Tp.Chain.{VersionChain}
use mini_gu.Storage.Tp.Graph.{VersionedVertex, VersionedEdge, AdjacencyContainer, MemoryGraph}
use mini_gu.Storage.Tp.VertexRead
use mini_gu.Storage.Tp.EdgeRead
use mini_gu.Storage.Tp.Manager.{World}

-- The fields `data` of the source are `item` here.
pub record SerializedVertex (V : Type 0) : Type 0 where
  pub item : Vertex V
  pub commit_ts : Timestamp

pub record SerializedEdge (V : Type 0) : Type 0 where
  pub item : Edge V
  pub commit_ts : Timestamp

-- Edge identifiers with the vertex at the other end.
pub record SerializedAdjacency : Type 0 where
  pub outgoing : List (ℕ × ℕ)
  pub incoming : List (ℕ × ℕ)

pub record CheckpointMetadata : Type 0 where
  pub timestamp : ℕ
  pub lsn : ℕ
  pub latest_commit_ts : ℕ
  pub version : ℕ

-- A hash map is the list of its entries.
pub record GraphCheckpoint (V : Type 0) : Type 0 where
  pub metadata : CheckpointMetadata
  pub vertices : List (ℕ × SerializedVertex V)
  pub edges : List (ℕ × SerializedEdge V)
  pub adjacency_list : List (ℕ × SerializedAdjacency)

-- The keys that the iterators of the concurrent maps visit, in their order.
pub record Visited : Type 0 where
  pub vertices : List ℕ
  pub edges : List ℕ
  pub adjacency_list : List ℕ

module _ {A B : Type 0} where
  -- The loop over a map: an entry for each key that is visited.
  unfoldable pub entries : List ℕ → (A → B) → (ℕ → Option A) → List (ℕ × B)
  entries [] f m = []
  entries (k ∷ keys) f m =
      let rest = entries keys f m in elim (m k) [ none ↦ rest | some a ↦ (k, f a) ∷ rest ]

  -- The loop of inserts. The keys of a hash map are distinct, so the order does not matter.
  unfoldable pub insert_each : List (ℕ × A) → (A → B) → (ℕ → Option B) → ℕ → Option B
  insert_each [] f m = m
  insert_each ((k, a) ∷ rest) f m = update (insert_each rest f m) k (some (f a))

abbrev pub serialize_neighbor : Neighbor → ℕ × ℕ
serialize_neighbor neighbor = (neighbor.eid, neighbor.neighbor_id)

abbrev pub serialize_adjacency : AdjacencyContainer → SerializedAdjacency
serialize_adjacency adj = record {
  outgoing = map serialize_neighbor adj.outgoing;
  incoming = map serialize_neighbor adj.incoming;
}

module _ {V : Type 0} where
  abbrev pub serialize_vertex : VersionedVertex V → SerializedVertex V
  serialize_vertex chain = record { item = chain.current.item; commit_ts = chain.current.commit_ts }

  abbrev pub serialize_edge : VersionedEdge V → SerializedEdge V
  serialize_edge chain = record { item = chain.current.item; commit_ts = chain.current.commit_ts }

  -- `GraphCheckpoint::new`, at the time `now` of the clock. `current_lsn` loads the counter of the
  -- next entry.
  unfoldable pub new : ℕ → Visited → World V → GraphCheckpoint V
  unfolding entries
  new now visited w = record {
    metadata = record {
      timestamp = now;
      lsn = w.next_lsn;
      latest_commit_ts = w.manager.latest_commit_ts;
      version = 1;
    };
    vertices = entries visited.vertices serialize_vertex w.graph.vertices;
    edges = entries visited.edges serialize_edge w.graph.edges;
    adjacency_list = entries visited.adjacency_list serialize_adjacency w.graph.adjacency_list;
  }

  abbrev pub restore_vertex : SerializedVertex V → VersionedVertex V
  unfolding VertexRead.new
  restore_vertex serialized =
      let versioned = VertexRead.new serialized.item in
      record versioned { current = record versioned.current { commit_ts = serialized.commit_ts } }

  abbrev pub restore_edge : SerializedEdge V → VersionedEdge V
  unfolding EdgeRead.new
  restore_edge serialized =
      let versioned = EdgeRead.new serialized.item in
      record versioned { current = record versioned.current { commit_ts = serialized.commit_ts } }

  abbrev neighbor_of : ℕ → ℕ → VersionedEdge V → Neighbor
  neighbor_of edge_id vertex_id edge = record {
    label_id = edge.current.item.label_id;
    neighbor_id = vertex_id;
    eid = edge_id;
  }

  -- The inserts into one skip set; `unwrap` panics on an edge that is not there.
  unfoldable pub restore_neighbors :
      (ℕ → Option (VersionedEdge V)) → List (ℕ × ℕ) → StorageResult (List Neighbor)
  restore_neighbors edges [] = ok []
  restore_neighbors edges ((edge_id, vertex_id) ∷ rest) = ok_or (edges edge_id) panicked >>= λ edge.
      restore_neighbors edges rest >>= λ neighbors.
      ok (neighbor_of edge_id vertex_id edge ∷ neighbors)

  unfoldable pub restore_container :
      (ℕ → Option (VersionedEdge V)) → SerializedAdjacency → StorageResult AdjacencyContainer
  unfolding restore_neighbors
  restore_container edges serialized = restore_neighbors edges serialized.outgoing >>= λ outgoing.
      restore_neighbors edges serialized.incoming >>= λ incoming.
      ok (record { incoming = incoming; outgoing = outgoing })

  unfoldable pub restore_adjacency :
      (ℕ → Option (VersionedEdge V))
      → List (ℕ × SerializedAdjacency)
      → (ℕ → Option AdjacencyContainer)
      → StorageResult (ℕ → Option AdjacencyContainer)
  unfolding restore_container
  restore_adjacency edges [] m = ok m
  restore_adjacency edges ((vid, serialized) ∷ rest) m =
      restore_container edges serialized >>= λ container.
      restore_adjacency edges rest m >>= λ m'. ok (update m' vid (some container))

  unfoldable pub restore : GraphCheckpoint V → World V → StorageResult (World V)
  unfolding insert_each restore_adjacency
  restore checkpoint w =
      let vertices = insert_each checkpoint.vertices restore_vertex w.graph.vertices in
      let edges = insert_each checkpoint.edges restore_edge w.graph.edges in
      restore_adjacency edges checkpoint.adjacency_list w.graph.adjacency_list >>= λ adjacency_list.
      ok (record w {
        next_lsn = checkpoint.metadata.lsn + 1;
        manager = record w.manager { latest_commit_ts = checkpoint.metadata.latest_commit_ts };
        graph = record { vertices = vertices; edges = edges; adjacency_list = adjacency_list };
      })
