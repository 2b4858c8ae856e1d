-- ===== src/Storage/Tp/Commit.antt =====
-- `commit_at` and `validate_read_sets` of minigu/storage/src/tp/transaction.rs.
pub mod Serializable
mod Tests
use mini_gu.Base.{
  ℕ, not, ◌&&◌, ◌==◌, ltb, if◌then◌else◌, Bool, false, Option, none, some, List, [], ◌∷◌, Result,
  ok, err, ◌>>◌,
}
use mini_gu.Transaction.Timestamp.{Timestamp, TimestampError}
use mini_gu.Transaction.Options.{
  IsolationLevel, snapshot, serializable, LockStrategy, pessimistic, optimistic,
}
use mini_gu.Storage.Error.{
  StorageError, StorageResult, vertex_not_found, edge_not_found, read_write_conflict, timestamp,
}
use mini_gu.Storage.Tp.Chain.{VersionChain}
use mini_gu.Storage.Tp.Graph.{MemoryGraph}
use mini_gu.Storage.Tp.Txn.{MemTransaction}
use mini_gu.Storage.Tp.Manager.{World, draw_timestamp}
use mini_gu.Storage.Tp.Manager.Finish.{Ended, handled, abort_at, commit_pessimistic}
use mini_gu.Storage.Tp.Optimistic.Publish.{aborted_with, commit_optimistic}

module _ {V D : Type 0} where
  abbrev pub validate_read :
      StorageError → Option (VersionChain V D) → MemTransaction V → StorageResult (Unit {0})
  validate_read missing none txn = err missing
  validate_read missing (some entry) txn =
      if not (entry.current.commit_ts == txn.txn_id) && ltb txn.start_ts entry.current.commit_ts
      then err read_write_conflict
      else ok tt

module _ {V : Type 0} where
  unfoldable pub validate_vertices :
      MemoryGraph V → MemTransaction V → List ℕ → StorageResult (Unit {0})
  validate_vertices graph txn [] = ok tt
  validate_vertices graph txn (vid ∷ rest) =
      validate_read (vertex_not_found vid) (graph.vertices vid) txn
      >> validate_vertices graph txn rest

  unfoldable pub validate_edges :
      MemoryGraph V → MemTransaction V → List ℕ → StorageResult (Unit {0})
  validate_edges graph txn [] = ok tt
  validate_edges graph txn (eid ∷ rest) =
      validate_read (edge_not_found eid) (graph.edges eid) txn >> validate_edges graph txn rest

  unfoldable pub validate_read_sets : MemoryGraph V → MemTransaction V → StorageResult (Unit {0})
  unfolding validate_vertices validate_edges
  validate_read_sets graph txn =
      validate_vertices graph txn txn.vertex_reads >> validate_edges graph txn txn.edge_reads

  abbrev pub validate_by :
      IsolationLevel → MemoryGraph V → MemTransaction V → StorageResult (Unit {0})
  unfolding validate_read_sets
  validate_by snapshot graph txn = ok tt
  validate_by serializable graph txn = validate_read_sets graph txn

  -- `is_handled` after a commit that succeeded.
  abbrev pub handled_if_ok : Ended V Timestamp → Ended V Timestamp
  handled_if_ok (ok ts, txn, w) = (ok ts, handled txn, w)
  handled_if_ok (err e, txn, w) = (err e, txn, w)

module _ {V : Type 0} (differs : V → V → Bool) where
  abbrev pub commit_by :
      LockStrategy → Timestamp → Bool → MemTransaction V → World V → Ended V Timestamp
  unfolding commit_pessimistic commit_optimistic
  commit_by pessimistic commit_ts skip_wal txn w = commit_pessimistic commit_ts skip_wal txn w
  commit_by optimistic commit_ts skip_wal txn w = commit_optimistic differs commit_ts skip_wal txn w

  abbrev pub commit_if_valid :
      StorageResult (Unit {0}) → Timestamp → Bool → MemTransaction V → World V → Ended V Timestamp
  unfolding abort_at commit_by
  commit_if_valid (err e) commit_ts skip_wal txn w = aborted_with e (abort_at false txn w)
  commit_if_valid (ok _) commit_ts skip_wal txn w =
      handled_if_ok (commit_by txn.lock_strategy commit_ts skip_wal txn w)

  abbrev pub commit_drawn :
      ℕ × Result TimestampError Timestamp → Bool → MemTransaction V → World V → Ended V Timestamp
  unfolding validate_by commit_if_valid
  commit_drawn (g, err e) skip_wal txn w = (err (timestamp e), txn, record w { timestamps = g })
  commit_drawn (g, ok commit_ts) skip_wal txn w =
      commit_if_valid (validate_by txn.isolation_level w.graph txn) commit_ts skip_wal txn
        (record w { timestamps = g })

  -- A given timestamp, which the generator is moved past, or the next one.
  unfoldable pub commit_at :
      Option Timestamp → Bool → MemTransaction V → World V → Ended V Timestamp
  unfolding draw_timestamp commit_drawn
  commit_at commit_ts skip_wal txn w =
      commit_drawn (draw_timestamp commit_ts w.timestamps) skip_wal txn w
