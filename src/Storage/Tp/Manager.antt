-- ===== src/Storage/Tp/Manager.antt =====
-- `MemTxnManager` of minigu/storage/src/tp/txn_manager.rs: its state and the begin of a transaction.
-- The two generators are global in the source, and a part of the state here. The log is the list of
-- what was appended, the last entry first; no append fails.
pub mod Collect
pub mod Finish
pub mod Order
pub mod Begin
pub mod Watermark
pub mod Ends
pub mod Reclaim
mod Tests
use mini_gu.Base.{
  ℕ, ◌+◌, max, Bool, Option, none, some, List, [], ◌∷◌, Result, ok, err, if◌then◌else◌,
}
use mini_gu.Base.Assoc.{insert_sorted}
use mini_gu.Transaction.Timestamp.{Timestamp, TimestampError}
use mini_gu.Transaction.GlobalTimestamp
use mini_gu.Transaction.TransactionId
use mini_gu.Transaction.Options.{IsolationLevel, LockStrategy}
use mini_gu.Storage.Error.{StorageError, StorageResult, timestamp}
use mini_gu.Storage.Wal.{Operation, begin_transaction, RedoEntry}
use mini_gu.Storage.Tp.Graph.{MemoryGraph}
use mini_gu.Storage.Tp.Txn.{MemTransaction, with_memgraph}

-- The skip maps are lists in order of their keys: transaction ids, and commit timestamps.
pub record MemTxnManager (V : Type 0) : Type 0 where
  pub active_txns : List (ℕ × MemTransaction V)
  pub committed_txns : List (ℕ × MemTransaction V)
  pub latest_commit_ts : ℕ
  pub watermark : ℕ
  pub last_gc_ts : ℕ
  pub default_lock_strategy : LockStrategy
  pub default_isolation_level : IsolationLevel

pub record World (V : Type 0) : Type 0 where
  pub graph : MemoryGraph V
  pub manager : MemTxnManager V
  pub timestamps : GlobalTimestamp.Generator
  pub ids : TransactionId.Generator
  pub next_lsn : ℕ
  pub wal : List (RedoEntry V)

abbrev pub from_generator : {A : Type 0} → Result TimestampError A → StorageResult A
from_generator (ok a) = ok a
from_generator (err e) = err (timestamp e)

-- A given value, which the generator is moved past, or the next one.
abbrev given : {A : Type 0} → A → ℕ × Result TimestampError (Unit {0}) → ℕ × Result TimestampError A
given value (g, ok _) = (g, ok value)
given value (g, err e) = (g, err e)

unfoldable pub draw_id :
    Option Timestamp → TransactionId.Generator → ℕ × Result TimestampError Timestamp
unfolding TransactionId.next TransactionId.update_if_greater
draw_id none g = TransactionId.next g
draw_id (some txn_id) g = given txn_id (TransactionId.update_if_greater g txn_id)

unfoldable pub draw_timestamp :
    Option Timestamp → GlobalTimestamp.Generator → ℕ × Result TimestampError Timestamp
unfolding GlobalTimestamp.next GlobalTimestamp.update_if_greater
draw_timestamp none g = GlobalTimestamp.next g
draw_timestamp (some ts) g = given ts (GlobalTimestamp.update_if_greater g ts)

module _ {V : Type 0} where
  -- The start of the active transaction with the smallest id, or the latest commit.
  abbrev pub front_start : List (ℕ × MemTransaction V) → ℕ → ℕ
  front_start [] latest = latest
  front_start ((txn_id, txn) ∷ rest) latest = txn.start_ts

  unfoldable pub update_watermark : MemTxnManager V → MemTxnManager V
  update_watermark m = record m {
    watermark = max (front_start m.active_txns m.latest_commit_ts) m.watermark;
  }

  abbrev pub append_wal : Operation V → MemTransaction V → World V → World V
  append_wal op txn w = record w {
    next_lsn = w.next_lsn + 1;
    wal =
        record { lsn = w.next_lsn; txn_id = txn.txn_id; iso_level = txn.isolation_level; op = op }
        ∷ w.wal;
  }

  -- The part from the creation of the transaction on.
  unfoldable pub start_transaction :
      Timestamp
      → Timestamp
      → IsolationLevel
      → LockStrategy
      → Bool
      → World V
      → MemTransaction V × World V
  unfolding with_memgraph update_watermark
  start_transaction txn_id start_ts level lock skip_wal w =
      let txn = with_memgraph txn_id start_ts level lock in
      let active = record w.manager {
        active_txns = insert_sorted txn_id txn w.manager.active_txns;
      } in
      let w' = record w { manager = update_watermark active } in
      (txn, if skip_wal then w' else append_wal (begin_transaction start_ts) txn w')

  abbrev begin_with_start :
      Timestamp
      → IsolationLevel
      → LockStrategy
      → Bool
      → World V
      → ℕ × Result TimestampError Timestamp
      → StorageResult (MemTransaction V) × World V
  begin_with_start txn_id level lock skip_wal w (g, err e) =
      (err (timestamp e), record w { timestamps = g })
  begin_with_start txn_id level lock skip_wal w (g, ok start_ts) =
      let (txn, w') =
        start_transaction txn_id start_ts level lock skip_wal (record w { timestamps = g }) in
      (ok txn, w')

  abbrev begin_with_id :
      Option Timestamp
      → IsolationLevel
      → LockStrategy
      → Bool
      → World V
      → ℕ × Result TimestampError Timestamp
      → StorageResult (MemTransaction V) × World V
  begin_with_id start_ts level lock skip_wal w (g, err e) =
      (err (timestamp e), record w { ids = g })
  begin_with_id start_ts level lock skip_wal w (g, ok txn_id) =
      begin_with_start txn_id level lock skip_wal (record w { ids = g })
        (draw_timestamp start_ts w.timestamps)

  unfoldable pub begin_transaction_at :
      Option Timestamp
      → Option Timestamp
      → IsolationLevel
      → LockStrategy
      → Bool
      → World V
      → StorageResult (MemTransaction V) × World V
  unfolding start_transaction draw_timestamp
  begin_transaction_at txn_id start_ts level lock skip_wal w =
      begin_with_id start_ts level lock skip_wal w (draw_id txn_id w.ids)
