-- ===== src/Storage/Tp/Recovery/Tests.antt =====
-- A replay on an engine that keeps a journal: the sequence number, and the calls, the last one first.
use mini_gu.Base.{ℕ, ◌+◌, ◌≡◌, Bool, false, not, ◌==◌, none, List, [], ◌∷◌, ok}
use mini_gu.Transaction.Options.{snapshot, pessimistic}
use mini_gu.Transaction.Timestamp.{Timestamp, txn_id_start}
use mini_gu.Storage.Model.Delta.{del_vertex, create_vertex}
use mini_gu.Storage.Tp.Recovery.{Engine, apply_wal_entries, apply_delta}
use mini_gu.Storage.Tp.Recovery.Serial.{Logged, committed_at, aborted, serial_log}
use mini_gu.Storage.Error.{StorageResult}
use mini_gu.Storage.Model.Delta.{live, dangling}
use mini_gu.Storage.Tp.Graph.{VersionedVertex}
use mini_gu.Base.{Option, some, true, refl, ◌>>=◌}
use mini_gu.Storage.Tp.Recovery.Live.{live_engine, recovered}
use mini_gu.Storage.Tp.Recovery.{replay, apply_entry}
use mini_gu.Transaction.TransactionId
use mini_gu.Transaction.GlobalTimestamp
use mini_gu.Transaction.Counter.{fetch_max}
use mini_gu.Transaction.Timestamp.{is_txn_id, is_commit_ts}
use mini_gu.Storage.Tp.Txn.{with_memgraph, lookup_vertex_write}
use mini_gu.Storage.Tp.Manager.{
  begin_transaction_at, draw_id, draw_timestamp, start_transaction, update_watermark,
}
use mini_gu.Storage.Tp.Manager.Finish.{
  commit_pessimistic, finalize_commit_common, finish_transaction, retire, abort_at,
}
use mini_gu.Storage.Tp.Commit.{commit_at}
use mini_gu.Storage.Tp.Promote.{promote}
use mini_gu.Storage.Tp.Rollback.{rollback, rollback_entry}
use mini_gu.Storage.Tp.VertexWrite
use mini_gu.Storage.Tp.VertexRead
use mini_gu.Storage.Tp.Guard.{check_write_conflict}
use mini_gu.Storage.Tp.Manager.{World}
use mini_gu.Storage.Tp.Recovery.Interleaved.{overlapping, apply_wal_entries-overlapping}

data Call : Type 0 where
  began : Timestamp → Timestamp → Call
  committed : Timestamp → Timestamp → Call
  was_aborted : Timestamp → Call
  changed : Timestamp → ℕ → Call

abbrev Journal : Type 0
Journal = ℕ × List Call

abbrev called : Call → Journal → Journal
called c (lsn, calls) = (lsn, c ∷ calls)

abbrev journal : Engine ℕ Journal Timestamp
journal = record {
  set_next_lsn = λ s lsn. (lsn, s.1);
  begin_transaction_at = λ s txn_id start_ts level. ok (txn_id, called (began txn_id start_ts) s);
  commit_at = λ t ts s. ok (called (committed t ts) s);
  abort_at = λ t s. ok (called (was_aborted t) s);
  create_vertex = λ t v s. ok (called (changed t v.vid) s);
  create_edge = λ t e s. ok (called (changed t e.eid) s);
  delete_vertex = λ t vid s. ok (called (changed t vid) s);
  delete_edge = λ t eid s. ok (called (changed t eid) s);
  set_vertex_property = λ t vid is vs s. ok (called (changed t vid) s);
  set_edge_property = λ t eid is vs s. ok (called (changed t eid) s);
}

abbrev first_txn : Logged ℕ
first_txn = record {
  txn_id = 101;
  start_ts = 1;
  iso_level = snapshot;
  begin_lsn = 0;
  changes = (2, del_vertex 7) ∷ [];
  end_lsn = 3;
  ending = aborted;
}

abbrev second_txn : Logged ℕ
second_txn = record {
  txn_id = 102;
  start_ts = 2;
  iso_level = snapshot;
  begin_lsn = 1;
  changes = (4, del_vertex 8) ∷ [];
  end_lsn = 5;
  ending = committed_at 9;
}

-- The second transaction was committed at 9, and the replay aborts it.
apply_wal_entries-overlapping_example :
    apply_wal_entries journal (overlapping first_txn second_txn) (0, [])
    ≡ ok (6, was_aborted 102 ∷ changed 102 7 ∷ began 102 2 ∷ began 101 1 ∷ [])
unfolding apply_delta
apply_wal_entries-overlapping_example =
    apply_wal_entries-overlapping journal first_txn second_txn (0, [])

abbrev differs : ℕ → ℕ → Bool
differs a b = not (a == b)

abbrev empty_store : World ℕ
empty_store = record {
  graph = record { vertices = λ _. none; edges = λ _. none; adjacency_list = λ _. none };
  manager = record {
    active_txns = [];
    committed_txns = [];
    latest_commit_ts = 0;
    watermark = 0;
    last_gc_ts = 0;
    default_lock_strategy = pessimistic;
    default_isolation_level = snapshot;
  };
  timestamps = 1;
  ids = txn_id_start + 1;
  next_lsn = 0;
  wal = [];
}

-- A transaction that creates a vertex and was committed at 9.
abbrev creation : Logged ℕ
creation = record {
  txn_id = txn_id_start + 2;
  start_ts = 2;
  iso_level = snapshot;
  begin_lsn = 4;
  changes =
      (5, create_vertex (record { vid = 1; label_id = 1; properties = []; is_tombstone = false }))
      ∷ [];
  end_lsn = 6;
  ending = committed_at 9;
}

abbrev vertex_after : List (Logged ℕ) → StorageResult (Option (VersionedVertex ℕ))
vertex_after ls = recovered differs (serial_log ls) empty_store >>= λ w. ok (w.graph.vertices 1)

created :
    vertex_after (creation ∷ [])
    ≡ ok (
        some (record {
          current = record {
            item = record { vid = 1; label_id = 1; properties = []; is_tombstone = false };
            commit_ts = 9;
          };
          undo_ptr = live (del_vertex 1) 0 dangling;
        }))
unfolding recovered live_engine apply_wal_entries replay apply_entry apply_delta
    TransactionId.update_if_greater GlobalTimestamp.update_if_greater fetch_max is_txn_id
    is_commit_ts with_memgraph lookup_vertex_write begin_transaction_at draw_id draw_timestamp
    start_transaction update_watermark commit_pessimistic finalize_commit_common finish_transaction
    retire abort_at commit_at promote rollback rollback_entry check_write_conflict
    VertexWrite.create_vertex VertexWrite.create_pessimistic VertexRead.with_txn_id
    VertexRead.get_vertex
created = refl

-- The same transaction, aborted, leaves a tombstone, which the deletion of the undo entry makes.
created_and_aborted :
    vertex_after (record creation { ending = aborted } ∷ [])
    ≡ ok (
        some (record {
          current = record {
            item = record { vid = 1; label_id = 1; properties = []; is_tombstone = true };
            commit_ts = 0;
          };
          undo_ptr = dangling;
        }))
unfolding recovered live_engine apply_wal_entries replay apply_entry apply_delta
    TransactionId.update_if_greater GlobalTimestamp.update_if_greater fetch_max is_txn_id
    is_commit_ts with_memgraph lookup_vertex_write begin_transaction_at draw_id draw_timestamp
    start_transaction update_watermark commit_pessimistic finalize_commit_common finish_transaction
    retire abort_at commit_at promote rollback rollback_entry check_write_conflict
    VertexWrite.create_vertex VertexWrite.create_pessimistic VertexRead.with_txn_id
    VertexRead.get_vertex
created_and_aborted = refl
