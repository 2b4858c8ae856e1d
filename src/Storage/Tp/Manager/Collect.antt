-- ===== src/Storage/Tp/Manager/Collect.antt =====
-- Garbage collection, minigu/storage/src/tp/txn_manager.rs.
use mini_gu.Base.{
  ℕ, leb, ◌==◌, ◌&&◌, Bool, true, false, if◌then◌else◌, Option, none, some, List, [], ◌∷◌, ◌++◌,
}
use mini_gu.Base.Assoc.{insert, remove, update}
use mini_gu.Transaction.Timestamp.{Timestamp}
use mini_gu.Transaction.GlobalTimestamp
use mini_gu.Storage.Model.Edge.{Edge, Neighbor, without_properties}
use mini_gu.Storage.Model.Delta.{DeltaOp, create_edge, del_edge, UndoEntry}
use mini_gu.Storage.Tp.Graph.{VersionedVertex, VersionedEdge, AdjacencyContainer, MemoryGraph}
use mini_gu.Storage.Tp.Txn.{MemTransaction}
use mini_gu.Storage.Tp.EdgeWrite.{neighbor}
use mini_gu.Storage.Tp.Manager.{World}

abbrev same_neighbor : Neighbor → Neighbor → Bool
same_neighbor a b = a.label_id == b.label_id && a.neighbor_id == b.neighbor_id && a.eid == b.eid

abbrev pub drop_neighbor : Neighbor → List Neighbor → List Neighbor
drop_neighbor n [] = []
drop_neighbor n (m ∷ ms) =
    let rest = drop_neighbor n ms in if same_neighbor n m then rest else m ∷ rest

abbrev modified :
    (AdjacencyContainer → AdjacencyContainer)
    → Option AdjacencyContainer
    → Option AdjacencyContainer
modified f none = none
modified f (some adj) = some (f adj)

module _ {V : Type 0} where
  -- `entry(vid).and_modify`
  abbrev modify_adjacency :
      ℕ → (AdjacencyContainer → AdjacencyContainer) → MemoryGraph V → MemoryGraph V
  modify_adjacency vid f graph = record graph {
    adjacency_list = update graph.adjacency_list vid (modified f (graph.adjacency_list vid));
  }

  abbrev pub drop_outgoing : ℕ → Neighbor → MemoryGraph V → MemoryGraph V
  drop_outgoing vid n =
      modify_adjacency vid (λ adj. record adj { outgoing = drop_neighbor n adj.outgoing })

  abbrev pub drop_incoming : ℕ → Neighbor → MemoryGraph V → MemoryGraph V
  drop_incoming vid n =
      modify_adjacency vid (λ adj. record adj { incoming = drop_neighbor n adj.incoming })

  abbrev pub drop_at_sources : ℕ → List Neighbor → MemoryGraph V → MemoryGraph V
  drop_at_sources vid [] graph = graph
  drop_at_sources vid (adj ∷ rest) graph =
      drop_at_sources vid rest
        (drop_outgoing adj.neighbor_id (neighbor adj.label_id vid adj.eid) graph)

  abbrev pub drop_at_targets : ℕ → List Neighbor → MemoryGraph V → MemoryGraph V
  drop_at_targets vid [] graph = graph
  drop_at_targets vid (adj ∷ rest) graph =
      drop_at_targets vid rest
        (drop_incoming adj.neighbor_id (neighbor adj.label_id vid adj.eid) graph)

  abbrev pub drop_at_neighbors : ℕ → Option AdjacencyContainer → MemoryGraph V → MemoryGraph V
  drop_at_neighbors vid none graph = graph
  drop_at_neighbors vid (some adj) graph =
      drop_at_targets vid adj.outgoing (drop_at_sources vid adj.incoming graph)

  abbrev forget_adjacency : ℕ → MemoryGraph V → MemoryGraph V
  forget_adjacency vid graph = record graph {
    adjacency_list = update graph.adjacency_list vid none;
  }

  unfoldable pub remove_vertex_and_adjacencies : MemoryGraph V → ℕ → MemoryGraph V
  remove_vertex_and_adjacencies graph vid = forget_adjacency vid (
      drop_at_neighbors vid (graph.adjacency_list vid)
        (record graph { vertices = update graph.vertices vid none }))

  unfoldable pub remove_edge_from_adjacency : MemoryGraph V → Edge V → MemoryGraph V
  remove_edge_from_adjacency graph edge =
      drop_incoming edge.dst_id (neighbor edge.label_id edge.src_id edge.eid)
        (drop_outgoing edge.src_id (neighbor edge.label_id edge.dst_id edge.eid) graph)

  -- The flag of the head, whatever its stamp.
  abbrev pub vertex_tombstone : Option (VersionedVertex V) → Bool
  vertex_tombstone none = false
  vertex_tombstone (some entry) = entry.current.item.is_tombstone

  abbrev pub edge_tombstone : Option (VersionedEdge V) → Bool
  edge_tombstone none = false
  edge_tombstone (some entry) = entry.current.item.is_tombstone

  unfoldable pub remove_if : Bool → ℕ → MemoryGraph V → MemoryGraph V
  unfolding remove_vertex_and_adjacencies
  remove_if true vid graph = remove_vertex_and_adjacencies graph vid
  remove_if false vid graph = graph

  unfoldable pub remove_edge_if : Bool → Edge V → MemoryGraph V → MemoryGraph V
  unfolding remove_edge_from_adjacency
  remove_edge_if true edge graph =
      remove_edge_from_adjacency (record graph { edges = update graph.edges edge.eid none }) edge
  remove_edge_if false edge graph = graph

  unfoldable pub cleanup_expired_edge : MemoryGraph V → Edge V → MemoryGraph V
  unfolding remove_if remove_edge_if
  cleanup_expired_edge graph edge = remove_edge_if (edge_tombstone (graph.edges edge.eid)) edge (
      remove_if (vertex_tombstone (graph.vertices edge.dst_id)) edge.dst_id
        (remove_if (vertex_tombstone (graph.vertices edge.src_id)) edge.src_id graph))

  abbrev pub expired_by : DeltaOp V → List (ℕ × Edge V) → List (ℕ × Edge V)
  unfolding without_properties
  expired_by (create_edge edge) expired = insert edge.eid (without_properties edge) expired
  expired_by (del_edge eid) expired = remove eid expired
  expired_by _ expired = expired

  unfoldable pub expired_edges : List (UndoEntry V) → List (ℕ × Edge V) → List (ℕ × Edge V)
  expired_edges [] expired = expired
  expired_edges (undo ∷ rest) expired = expired_edges rest (expired_by undo.delta expired)

  unfoldable pub cleanup_each : List (ℕ × Edge V) → MemoryGraph V → MemoryGraph V
  unfolding cleanup_expired_edge
  cleanup_each [] graph = graph
  cleanup_each ((eid, edge) ∷ rest) graph = cleanup_each rest (cleanup_expired_edge graph edge)

  -- The source's hash map gives the edges in some order, the list in one.
  unfoldable pub cleanup_graph_data : MemoryGraph V → List (UndoEntry V) → MemoryGraph V
  unfolding expired_edges cleanup_each
  cleanup_graph_data graph entries = cleanup_each (expired_edges entries []) graph

  -- The first transactions, up to the watermark.
  abbrev pub expired_txns : ℕ → List (ℕ × MemTransaction V) → List (ℕ × MemTransaction V)
  expired_txns min_read_ts [] = []
  expired_txns min_read_ts ((commit_ts, txn) ∷ rest) =
      let more = expired_txns min_read_ts rest in
      if leb commit_ts min_read_ts then (commit_ts, txn) ∷ more else []

  abbrev pub undo_entries : List (ℕ × MemTransaction V) → List (UndoEntry V)
  undo_entries [] = []
  undo_entries ((commit_ts, txn) ∷ rest) = txn.undo_buffer ++ undo_entries rest

  abbrev without_txn : Option Timestamp → List (ℕ × MemTransaction V) → List (ℕ × MemTransaction V)
  without_txn none committed = committed
  without_txn (some ts) committed = remove ts committed

  abbrev without_txns :
      List (ℕ × MemTransaction V) → List (ℕ × MemTransaction V) → List (ℕ × MemTransaction V)
  without_txns [] committed = committed
  without_txns ((commit_ts, txn) ∷ rest) committed =
      without_txns rest (without_txn txn.commit_ts committed)

  -- In the source the undo entries of the expired transactions are freed with them, so that the weak
  -- pointers of the chains to these entries dangle; here the chains keep what they point to.
  unfoldable pub garbage_collect : World V → World V
  unfolding cleanup_graph_data GlobalTimestamp.current
  garbage_collect w =
      let expired = expired_txns w.manager.watermark w.manager.committed_txns in
      record w {
        graph = cleanup_graph_data w.graph (undo_entries expired);
        manager = record w.manager {
          committed_txns = without_txns expired w.manager.committed_txns;
          last_gc_ts = GlobalTimestamp.current w.timestamps;
        };
      }
