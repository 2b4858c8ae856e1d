-- ===== src/Storage/Tp/Checkpoint/Tests.antt =====
-- A checkpoint of a small store, minigu/storage/src/tp/checkpoint.rs.
use mini_gu.Base.{
  ℕ, ◌+◌, ◌==◌, Bool-cases, inl, inr, subst, ◌≡◌, refl, arith, true, false, none, some, [], ◌∷◌, ok,
  err,
}
use mini_gu.Base.Assoc.{update}
use mini_gu.Transaction.Timestamp.{txn_id_start, is_commit_ts}
use mini_gu.Transaction.GlobalTimestamp
use mini_gu.Transaction.TransactionId
use mini_gu.Transaction.Options.{snapshot, pessimistic}
use mini_gu.Storage.Error.{version_not_visible}
use mini_gu.Storage.Model.Delta.{dangling}
use mini_gu.Storage.Tp.Graph.{VersionedVertex, VersionedEdge, AdjacencyContainer, MemoryGraph}
use mini_gu.Storage.Tp.Txn.{MemTransaction, with_memgraph}
use mini_gu.Storage.Tp.VertexRead
use mini_gu.Storage.Tp.EdgeRead
use mini_gu.Storage.Tp.VertexWrite.{set_vertex_property}
use mini_gu.Storage.Tp.Manager.{
  World, begin_transaction_at, start_transaction, draw_id, draw_timestamp,
}
use mini_gu.Storage.Tp.Checkpoint.{
  Visited, entries, insert_each, new, restore, restore_adjacency, restore_container,
  restore_neighbors, restore_vertex, restore_edge,
}
use mini_gu.Storage.Tp.Checkpoint.Restore.{
  Visits, VisitsAll, IsEmpty, AreBacked, IsBacked, IsRestored, restore-new,
}
use mini_gu.Storage.Tp.Checkpoint.Restart.{restore-new-refuses_writes}

abbrev no_graph : MemoryGraph ℕ
no_graph = record { vertices = λ _. none; edges = λ _. none; adjacency_list = λ _. none }

abbrev fresh : World ℕ
fresh = record {
  graph = no_graph;
  manager = record {
    active_txns = [];
    committed_txns = [];
    latest_commit_ts = 0;
    watermark = 0;
    last_gc_ts = 0;
    default_lock_strategy = pessimistic;
    default_isolation_level = snapshot;
  };
  timestamps = 1;
  ids = txn_id_start + 1;
  next_lsn = 1;
  wal = [];
}

-- Committed at 50.
abbrev vertex_one : VersionedVertex ℕ
vertex_one = record {
  current = record {
    item = record { vid = 1; label_id = 3; properties = 8 ∷ []; is_tombstone = false };
    commit_ts = 50;
  };
  undo_ptr = dangling;
}

-- A loop at the vertex.
abbrev edge_five : VersionedEdge ℕ
edge_five = record {
  current = record {
    item = record {
      label_id = 4;
      src_id = 1;
      dst_id = 1;
      eid = 5;
      properties = [];
      is_tombstone = false;
    };
    commit_ts = 50;
  };
  undo_ptr = dangling;
}

abbrev neighbors_of_one : AdjacencyContainer
neighbors_of_one = record {
  incoming = record { label_id = 4; neighbor_id = 1; eid = 5 } ∷ [];
  outgoing = record { label_id = 4; neighbor_id = 1; eid = 5 } ∷ [];
}

abbrev used : World ℕ
used = record fresh {
  graph = record {
    vertices = update (λ _. none) 1 (some vertex_one);
    edges = update (λ _. none) 5 (some edge_five);
    adjacency_list = update (λ _. none) 1 (some neighbors_of_one);
  };
  manager = record fresh.manager { latest_commit_ts = 50 };
  timestamps = 60;
  next_lsn = 8;
}

abbrev visited : Visited
visited = record { vertices = 1 ∷ []; edges = 5 ∷ []; adjacency_list = 1 ∷ [] }

visited-VisitsAll : VisitsAll visited used.graph
unfolding entries Visits
visited-VisitsAll = record { vertices = λ k. refl; edges = λ k. refl; adjacency_list = λ k. refl }

one-IsBacked : IsBacked used.graph.edges (record { label_id = 4; neighbor_id = 1; eid = 5 })
one-IsBacked = record { edge = edge_five; found = refl; label = refl }

used-AreBacked :
    (k : ℕ) (adj : AdjacencyContainer)
    → used.graph.adjacency_list k ≡ some adj
    → AreBacked used.graph.edges adj
used-AreBacked k adj found = elim (Bool-cases (1 == k)) [
  | inl here ↦
      let same : neighbors_of_one ≡ adj = cc (found, here) in
      subst (AreBacked used.graph.edges) same ((one-IsBacked, tt), (one-IsBacked, tt))
  | inr there ↦ cc (found, there)
]

fresh-IsEmpty : IsEmpty fresh.graph
fresh-IsEmpty = record { vertices = λ k. refl; edges = λ k. refl; adjacency_list = λ k. refl }

restore-new_example :
    (r : World ℕ) × (restore (new 7 visited used) fresh ≡ ok r)
    × IsRestored used.graph r.graph
    × (r.manager.latest_commit_ts ≡ 50)
    × (r.next_lsn ≡ 8 + 1)
    × (r.timestamps ≡ 1)
    × (r.ids ≡ txn_id_start + 1)
restore-new_example =
    restore-new 7 visited used fresh visited-VisitsAll fresh-IsEmpty used-AreBacked

abbrev restored : World ℕ
restored = record fresh {
  graph = used.graph;
  manager = record fresh.manager { latest_commit_ts = 50 };
  next_lsn = 9;
}

restore-used : restore (new 7 visited used) fresh ≡ ok restored
unfolding restore new entries insert_each restore_adjacency restore_container restore_neighbors
    restore_vertex restore_edge VertexRead.new EdgeRead.new
restore-used = refl

-- It starts at 1.
abbrev first_txn : MemTransaction ℕ
unfolding with_memgraph
first_txn = with_memgraph (txn_id_start + 1) 1 snapshot pessimistic

abbrev begun : World ℕ
unfolding begin_transaction_at
begun = (begin_transaction_at none none snapshot pessimistic true restored).1

begin_first :
    begin_transaction_at none none snapshot pessimistic true restored ≡ (ok first_txn, begun)
unfolding begin_transaction_at start_transaction draw_id draw_timestamp GlobalTimestamp.next
    TransactionId.next begun first_txn with_memgraph
begin_first = refl

restore-new-refuses_writes_example :
    set_vertex_property 1 (0 ∷ []) (9 ∷ []) (record { graph = begun.graph; txn = first_txn })
    ≡ (err version_not_visible, record { graph = begun.graph; txn = first_txn })
restore-new-refuses_writes_example =
    restore-new-refuses_writes 7 visited used fresh visited-VisitsAll fresh-IsEmpty used-AreBacked 1
      vertex_one refl committed (omega arith) restored begun first_txn snapshot true restore-used
      begin_first (0 ∷ []) (9 ∷ [])
  where
    committed : is_commit_ts 50 ≡ true
    committed = unfold is_commit_ts in refl
