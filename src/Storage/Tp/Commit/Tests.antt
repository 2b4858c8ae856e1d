-- ===== src/Storage/Tp/Commit/Tests.antt =====
-- A commit under optimistic locking that updates one vertex, and one that has read it.
use mini_gu.Base.{
  ℕ, ◌+◌, ◌≡◌, refl, not, ◌==◌, Bool, true, false, none, some, List, [], ◌∷◌, All, ok, arith,
}
use mini_gu.Base.Assoc.{update}
use mini_gu.Transaction.Timestamp.{txn_id_start, is_txn_id, is_commit_ts}
use mini_gu.Transaction.Options.{snapshot, optimistic, serializable}
use mini_gu.Storage.Model.Vertex.{Vertex}
use mini_gu.Storage.Model.Props.{set_props}
use mini_gu.Storage.Model.Delta.{dangling}
use mini_gu.Storage.Tp.Txn.{MemTransaction, update_vertex}
use mini_gu.Storage.Tp.Manager.{World, update_watermark, draw_timestamp}
use mini_gu.Storage.Tp.Manager.Finish.{finish_transaction, finalize_commit_common, retire}
use mini_gu.Storage.Tp.Optimistic.{validate}
use mini_gu.Storage.Tp.Commit.{
  commit_at, validate_read_sets, validate_vertices, validate_edges, commit_drawn, commit_if_valid,
  commit_by,
}
use mini_gu.Storage.Tp.Commit.Serializable.{Unmodified, commit_at-Unmodified}
use mini_gu.Transaction.Counter.{fetch_max}
use mini_gu.Transaction.GlobalTimestamp
use mini_gu.Storage.Tp.Optimistic.Apply.{prop_delta, update_op, apply_writes}
use mini_gu.Storage.Tp.Optimistic.Publish.{stamp_vertices, stamp_edges, commit_optimistic}
use mini_gu.Storage.Tp.Optimistic.Validate.{
  VertexDemand, EdgeDemand, commit_optimistic-VertexDemand,
}
use mini_gu.Storage.Tp.Optimistic.Delta.{set_props-update_op}

abbrev differs : ℕ → ℕ → Bool
differs a b = not (a == b)

differs_iff : (b a : ℕ) → differs b a ≡ false → b ≡ a
differs_iff b a h = ground arith

set_props-update_op_example :
    set_props
      (10 ∷ 21 ∷ 30 ∷ [])
      (update_op differs (10 ∷ 20 ∷ 31 ∷ []) (10 ∷ 21 ∷ 30 ∷ [])).indices
      (update_op differs (10 ∷ 20 ∷ 31 ∷ []) (10 ∷ 21 ∷ 30 ∷ [])).props
    ≡ ok (10 ∷ 20 ∷ 31 ∷ [])
set_props-update_op_example =
    set_props-update_op differs differs_iff (10 ∷ 20 ∷ 31 ∷ []) (10 ∷ 21 ∷ 30 ∷ []) refl

abbrev vertex_at : List ℕ → Vertex ℕ
vertex_at props = record { vid = 1; label_id = 1; properties = props; is_tombstone = false }

abbrev planned : MemTransaction ℕ
planned = record {
  isolation_level = snapshot;
  lock_strategy = optimistic;
  start_ts = 8;
  commit_ts = none;
  txn_id = txn_id_start + 1;
  vertex_reads = [];
  edge_reads = [];
  vertex_writes =
      (
        1,
        record {
          guard_ts = 7;
          kind = update_vertex (vertex_at (10 ∷ 20 ∷ [])) (vertex_at (10 ∷ 21 ∷ []));
        },
      )
      ∷ [];
  edge_writes = [];
  undo_buffer = [];
  redo_buffer = [];
  is_handled = false;
}

abbrev before_commit : World ℕ
before_commit = record {
  graph = record {
    vertices =
        update (λ _. none) 1
          (some (record {
            current = record { item = vertex_at (10 ∷ 20 ∷ []); commit_ts = 7 };
            undo_ptr = dangling;
          }));
    edges = λ _. none;
    adjacency_list = λ _. none;
  };
  manager = record {
    active_txns = (txn_id_start + 1, planned) ∷ [];
    committed_txns = [];
    latest_commit_ts = 7;
    watermark = 7;
    last_gc_ts = 0;
    default_lock_strategy = optimistic;
    default_isolation_level = snapshot;
  };
  timestamps = 13;
  ids = txn_id_start + 2;
  next_lsn = 0;
  wal = [];
}

commits : (commit_optimistic differs 12 true planned before_commit).0 ≡ ok 12
unfolding commit_optimistic validate apply_writes prop_delta stamp_vertices stamp_edges
    finalize_commit_common finish_transaction retire update_watermark is_txn_id is_commit_ts
commits = refl

commit_optimistic-VertexDemand_example :
    All
      (λ (vid, i). VertexDemand before_commit.graph planned.txn_id vid i.guard_ts i.kind)
      planned.vertex_writes
    × All
        (λ (eid, i). EdgeDemand before_commit.graph planned.txn_id eid i.guard_ts i.kind)
        planned.edge_writes
commit_optimistic-VertexDemand_example =
    commit_optimistic-VertexDemand differs 12 true planned before_commit commits

-- The transaction under serializable isolation, with the vertex in its read set.
abbrev has_read : MemTransaction ℕ
has_read = record planned { isolation_level = serializable; vertex_reads = 1 ∷ [] }

commits_read : (commit_at differs (some 14) true has_read before_commit).0 ≡ ok 14
unfolding commit_at draw_timestamp validate_read_sets validate_vertices validate_edges
    commit_optimistic validate apply_writes prop_delta stamp_vertices stamp_edges
    finalize_commit_common finish_transaction retire update_watermark is_txn_id is_commit_ts
    fetch_max GlobalTimestamp.update_if_greater commit_drawn commit_if_valid commit_by
commits_read = refl

commit_at-Unmodified_example :
    All (λ vid. Unmodified (before_commit.graph.vertices vid) has_read) (1 ∷ [])
    × All (λ eid. Unmodified (before_commit.graph.edges eid) has_read) []
commit_at-Unmodified_example =
    commit_at-Unmodified differs (some 14) true has_read before_commit refl commits_read
