-- ===== src/Storage/Tp/Iterators/Tests.antt =====
-- A scan of a small store, minigu/storage/src/tp/iterators.
use mini_gu.Base.{ℕ, ◌+◌, ◌≡◌, refl, Bool, true, false, none, some, [], ◌∷◌, leb, ok, ◌>>=◌}
use mini_gu.Base.Assoc.{update}
use mini_gu.Transaction.Timestamp.{txn_id_start, is_commit_ts, is_txn_id}
use mini_gu.Transaction.Options.{snapshot, optimistic}
use mini_gu.Storage.Model.Vertex.{Vertex}
use mini_gu.Storage.Model.Delta.{dangling}
use mini_gu.Storage.Tp.Chain.{head_visible}
use mini_gu.Storage.Tp.Graph.{VersionedVertex, MemoryGraph}
use mini_gu.Storage.Tp.Txn.{
  MemTransaction, with_memgraph, insert_vertex, update_vertex, lookup_vertex_write,
}
use mini_gu.Storage.Tp.VertexRead
use mini_gu.Storage.Tp.Checkpoint.{Visited, entries}
use mini_gu.Storage.Tp.Iterators.{ScanIterator, filter, take_items, next, next_entry, seek}
use mini_gu.Storage.Tp.Iterators.Scan.{vertex_kind, iter_vertices}
use mini_gu.Storage.Tp.Iterators.Reference.{seen_vertices, own_inserts}
use mini_gu.Storage.Tp.Iterators.Complete.{take_items-iter_vertices}

abbrev vertex : ℕ → ℕ → Bool → Vertex ℕ
vertex vid label_id is_tombstone = record {
  vid = vid;
  label_id = label_id;
  properties = [];
  is_tombstone = is_tombstone;
}

abbrev committed : Vertex ℕ → VersionedVertex ℕ
committed v = record { current = record { item = v; commit_ts = 2 }; undo_ptr = dangling }

-- The vertices 1, 4 and 3, of which 4 is deleted.
abbrev three : MemoryGraph ℕ
three = record {
  vertices =
      update
        (update (update (λ _. none) 3 (some (committed (vertex 3 0 false)))) 4
          (some (committed (vertex 4 0 true))))
        1 (some (committed (vertex 1 7 false)));
  edges = λ _. none;
  adjacency_list = λ _. none;
}

abbrev order : Visited
order = record { vertices = 4 ∷ 3 ∷ 1 ∷ []; edges = []; adjacency_list = [] }

-- It has changed the label of 3 and made 9.
abbrev writer : MemTransaction ℕ
unfolding with_memgraph
writer = record (with_memgraph (txn_id_start + 1) 5 snapshot optimistic) {
  vertex_writes =
      (3, record { guard_ts = 2; kind = update_vertex (vertex 3 0 false) (vertex 3 7 false) })
      ∷ (9, record { guard_ts = 0; kind = insert_vertex (vertex 9 7 false) })
      ∷ [];
}

abbrev labelled : Vertex ℕ → Bool
labelled v = leb 7 v.label_id

writer_sees :
    seen_vertices three writer order.vertices ≡ ok (vertex 3 7 false ∷ vertex 1 7 false ∷ [])
unfolding seen_vertices writer with_memgraph VertexRead.get_visible lookup_vertex_write head_visible
    is_commit_ts is_txn_id
writer_sees = refl

take_items-iter_vertices_example :
    (it' : ScanIterator ℕ (Vertex ℕ)) × (take_items vertex_kind 5
        (filter vertex_kind (iter_vertices order three writer) labelled)
      ≡ ok (vertex 3 7 false ∷ vertex 1 7 false ∷ vertex 9 7 false ∷ [], it'))
unfolding writer with_memgraph own_inserts
take_items-iter_vertices_example =
    take_items-iter_vertices order three writer labelled 5
      (vertex 3 7 false ∷ vertex 1 7 false ∷ []) writer_sees

-- A `seek` for the vertex 1 stops at the vertex 3, which the map visits first.
seek_one :
    (seek vertex_kind 5 1 (iter_vertices order three writer) >>= λ (found, it). ok found)
    ≡ ok (some false)
unfolding seek next next_entry vertex_kind iter_vertices entries writer with_memgraph
    VertexRead.get_visible lookup_vertex_write head_visible is_commit_ts is_txn_id
seek_one = refl
