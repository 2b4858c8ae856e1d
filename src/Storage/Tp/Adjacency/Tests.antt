-- ===== src/Storage/Tp/Adjacency/Tests.antt =====
-- Neighbours of small graphs, read through minigu/storage/src/tp/iterators/adjacency_iterator.rs.
use mini_gu.Base.{ℕ, ◌+◌, ◌≡◌, refl, Bool, true, false, Option, none, some, [], ◌∷◌, ok}
use mini_gu.Transaction.Timestamp.{txn_id_start}
use mini_gu.Transaction.Options.{snapshot, optimistic}
use mini_gu.Storage.Error.{StorageResult}
use mini_gu.Storage.Model.Edge.{Edge, Neighbor}
use mini_gu.Storage.Tp.Graph.{MemoryGraph}
use mini_gu.Storage.Tp.EdgeWrite.{neighbor}
use mini_gu.Storage.Tp.Txn.{
  MemTransaction, with_memgraph, insert_edge, delete_edge, lookup_edge_write,
}
use mini_gu.Storage.Tp.Adjacency.{
  outgoing, both, adj_list_of, overlay, overlay_write, at_ends, insert, remove, insert_all,
  precedes,
}
use mini_gu.Storage.Tp.Adjacency.Iterator.{
  AdjacencyIterator, load_next_batch, entry_visible, next_in_batch, next_batches, next, new, seek,
}

abbrev edge : ℕ → ℕ → ℕ → Edge ℕ
edge eid src_id dst_id = record {
  label_id = 1;
  src_id = src_id;
  dst_id = dst_id;
  eid = eid;
  properties = [];
  is_tombstone = false;
}

-- At vertex 1 the graph has an edge 5 to vertex 2 alone.
abbrev one_edge : MemoryGraph ℕ
one_edge = record {
  vertices = λ vid. none;
  edges = λ eid. none;
  adjacency_list = λ vid. some (record { incoming = []; outgoing = neighbor 1 2 5 ∷ [] });
}

-- It deletes that edge, and adds one from 1 to 4, one from 3 to 1 and one between others.
abbrev writer : MemTransaction ℕ
unfolding with_memgraph
writer = record (with_memgraph (txn_id_start + 1) 5 snapshot optimistic) {
  edge_writes =
      (9, record { guard_ts = 0; kind = insert_edge (edge 9 1 4) })
      ∷ (5, record { guard_ts = 2; kind = delete_edge (edge 5 1 2) })
      ∷ (7, record { guard_ts = 0; kind = insert_edge (edge 7 3 1) })
      ∷ (8, record { guard_ts = 0; kind = insert_edge (edge 8 3 4) })
      ∷ [];
}

-- Its neighbours come in the order of the skip set.
both_ends : adj_list_of one_edge writer 1 both ≡ some (neighbor 1 3 7 ∷ neighbor 1 4 9 ∷ [])
unfolding adj_list_of writer overlay overlay_write at_ends insert remove insert_all precedes
both_ends = refl

outgoing_end : adj_list_of one_edge writer 1 outgoing ≡ some (neighbor 1 4 9 ∷ [])
unfolding adj_list_of writer overlay overlay_write at_ends insert remove insert_all precedes
outgoing_end = refl

abbrev entry_of :
    Option (StorageResult (Option Neighbor × AdjacencyIterator)) → Option (Option Neighbor)
entry_of (some (ok (entry, it))) = some entry
entry_of _ = none

first_neighbor :
    entry_of (next one_edge writer 2 (new one_edge writer 1 both)) ≡ some (some (neighbor 1 3 7))
unfolding adj_list_of writer overlay overlay_write at_ends insert remove insert_all precedes
    load_next_batch entry_visible next_in_batch next_batches next new lookup_edge_write
first_neighbor = refl

-- The edge 7 comes first, so that a search for 6 stops at it, and one for 8 goes on to 9.
abbrev answer_of : Option (StorageResult (Bool × AdjacencyIterator)) → Option Bool
answer_of (some (ok (found, it))) = some found
answer_of _ = none

seek_nine : answer_of (seek one_edge writer 3 9 (new one_edge writer 1 both)) ≡ some true
unfolding adj_list_of writer overlay overlay_write at_ends insert remove insert_all precedes
    load_next_batch entry_visible next_in_batch next_batches next new lookup_edge_write seek
seek_nine = refl

seek_six : answer_of (seek one_edge writer 3 6 (new one_edge writer 1 both)) ≡ some false
unfolding adj_list_of writer overlay overlay_write at_ends insert remove insert_all precedes
    load_next_batch entry_visible next_in_batch next_batches next new lookup_edge_write seek
seek_six = refl
