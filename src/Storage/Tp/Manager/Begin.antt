-- ===== src/Storage/Tp/Manager/Begin.antt =====
-- What `begin_transaction_at` of minigu/storage/src/tp/txn_manager.rs gives to a transaction that it
-- draws the start of.
use mini_gu.Base.{ℕ, ◌≡◌, arith, Bool, true, false, none, Result, ok, err}
use mini_gu.Transaction.Timestamp.{Timestamp, TimestampError}
use mini_gu.Transaction.GlobalTimestamp
use mini_gu.Transaction.Options.{IsolationLevel, LockStrategy}
use mini_gu.Storage.Tp.Txn.{MemTransaction, with_memgraph}
use mini_gu.Storage.Tp.Manager.{
  World, begin_transaction_at, start_transaction, draw_id, draw_timestamp, begin_with_start,
  begin_with_id,
}

module _ {V : Type 0} where
  -- What a begin that got its start from `draw` gave to the transaction.
  begin_with_start_lem :
      (txn_id : Timestamp) (level : IsolationLevel) (lock : LockStrategy) (skip_wal : Bool)
      (w : World V) (draw : ℕ × Result TimestampError Timestamp) {txn : MemTransaction V}
      {w' : World V}
      → begin_with_start txn_id level lock skip_wal w draw ≡ (ok txn, w')
      → (draw.1 ≡ ok txn.start_ts) × (txn.lock_strategy ≡ lock) × (w'.graph ≡ w.graph)
  unfolding start_transaction with_memgraph
  begin_with_start_lem txn_id level lock skip_wal w (g, err e) h = cc
  begin_with_start_lem txn_id level lock true w (g, ok start) {txn} {w'} h = (cc, cc, cc)
  begin_with_start_lem txn_id level lock false w (g, ok start) {txn} {w'} h = (cc, cc, cc)

  begin_with_id_lem :
      (level : IsolationLevel) (lock : LockStrategy) (skip_wal : Bool) (w : World V)
      (draw : ℕ × Result TimestampError Timestamp) {txn : MemTransaction V} {w' : World V}
      → begin_with_id none level lock skip_wal w draw ≡ (ok txn, w')
      → ((draw_timestamp none w.timestamps).1 ≡ ok txn.start_ts)
        × (txn.lock_strategy ≡ lock)
        × (w'.graph ≡ w.graph)
  begin_with_id_lem level lock skip_wal w (g, err e) h = cc
  begin_with_id_lem level lock skip_wal w (g, ok txn_id) {txn} {w'} h =
      begin_with_start_lem txn_id level lock skip_wal (record w { ids = g })
        (draw_timestamp none w.timestamps) {txn = txn} {w' = w'} h

  -- A transaction that begins without a given start starts at the generator's value.
  pub begin_at_generator :
      (level : IsolationLevel) (lock : LockStrategy) (skip_wal : Bool) (w : World V)
      {txn : MemTransaction V} {w' : World V}
      → begin_transaction_at none none level lock skip_wal w ≡ (ok txn, w')
      → (txn.start_ts ≡ w.timestamps) × (txn.lock_strategy ≡ lock) × (w'.graph ≡ w.graph)
  unfolding begin_transaction_at draw_timestamp
  begin_at_generator level lock skip_wal w {txn} {w'} h =
      let (start, locked, kept) =
        begin_with_id_lem level lock skip_wal w (draw_id none w.ids) {txn = txn} {w' = w'} h in
      (ground (arith, start, GlobalTimestamp.next_returns w.timestamps), locked, kept)
