-- ===== src/Storage/Tp/Manager/Watermark.antt =====
-- The watermark of minigu/storage/src/tp/txn_manager.rs, where starts and ids are drawn from the
-- generators in one order, as `begin_transaction` draws them when no other begin comes between.
use mini_gu.Base.{
  ℕ, ◌+◌, ◌≤◌, ◌<◌, ◌≡◌, ◌≢◌, max, refl, Bool, true, false, some, All, All-imp, arith, Bool-cases,
  inl, inr,
}
use mini_gu.Base.Assoc.{insert_sorted, lookup, lookup-insert_sorted}
use mini_gu.Transaction.Timestamp.{IsU64, u64_max}
use mini_gu.Transaction.GlobalTimestamp
use mini_gu.Transaction.TransactionId
use mini_gu.Transaction.Options.{IsolationLevel, LockStrategy}
use mini_gu.Storage.Tp.Txn.{MemTransaction, with_memgraph}
use mini_gu.Storage.Tp.Manager.{
  MemTxnManager, World, update_watermark, front_start, start_transaction,
}
use mini_gu.Storage.Tp.Manager.Order.{
  Rising, All-insert_sorted, Rising-insert_sorted, front_start_le, front_start_lt, All-max,
}

module _ {V : Type 0} where
  pub record IsManaged (m : MemTxnManager V) (ids timestamps : ℕ) : Type 0 where
    pub ids_u64 : IsU64 ids
    pub ids_below : All (λ (id, t). (id < ids) × (t.start_ts < timestamps)) m.active_txns
    pub rising : Rising m.active_txns
    pub watermark_by_starts : All (λ (id, t). m.watermark ≤ t.start_ts) m.active_txns
    pub watermark_below : m.watermark < timestamps
    pub latest_below : m.latest_commit_ts < timestamps

  -- An update of the watermark, where the other parts are in order.
  pub update_watermark-IsManaged :
      (m : MemTxnManager V) (ids timestamps : ℕ)
      → IsManaged m ids timestamps
      → IsManaged (update_watermark m) ids timestamps
        × (m.watermark ≤ (update_watermark m).watermark)
  unfolding update_watermark
  update_watermark-IsManaged m ids timestamps h = (
    record {
      ids_u64 = h.ids_u64;
      ids_below = h.ids_below;
      rising = h.rising;
      watermark_by_starts =
          All-max (front_start m.active_txns m.latest_commit_ts) m.watermark m.active_txns
            (front_start_le m.active_txns m.latest_commit_ts h.rising) h.watermark_by_starts;
      watermark_below =
          let front =
            front_start_lt m.active_txns m.latest_commit_ts timestamps
              (All-imp m.active_txns (λ p b. b.1) h.ids_below) h.latest_below in
          omega (arith, front, h.watermark_below);
      latest_below = h.latest_below;
    },
    omega arith,
  )

  -- A transaction with the next id and the next timestamp.
  joined-IsManaged :
      (m : MemTxnManager V) (txn : MemTransaction V) (ids timestamps : ℕ)
      → txn.start_ts ≡ timestamps
      → ids ≢ u64_max
      → IsManaged m ids timestamps
      → IsManaged
          (record m { active_txns = insert_sorted ids txn m.active_txns })
          (ids + 1)
          (timestamps + 1)
  joined-IsManaged m txn ids timestamps start left h = record {
    ids_u64 = omega (arith, h.ids_u64, left);
    ids_below =
        All-insert_sorted _ ids txn m.active_txns (omega arith, omega arith)
          (All-imp m.active_txns (λ p b. (omega (arith, b.0), omega (arith, b.1))) h.ids_below);
    rising =
        Rising-insert_sorted ids txn m.active_txns
          (All-imp m.active_txns (λ p b. (b.0, omega (arith, b.1))) h.ids_below) h.rising;
    watermark_by_starts =
        All-insert_sorted _ ids txn m.active_txns (omega (arith, h.watermark_below))
          h.watermark_by_starts;
    watermark_below = omega (arith, h.watermark_below);
    latest_below = omega (arith, h.latest_below);
  }

  start_transaction-IsManaged :
      (level : IsolationLevel) (lock : LockStrategy) (skip_wal : Bool) (w : World V)
      (ids timestamps : ℕ)
      → ids ≢ u64_max
      → IsManaged w.manager ids timestamps
      → IsManaged
          (start_transaction ids timestamps level lock skip_wal w).1.manager
          (ids + 1)
          (timestamps + 1)
        × (w.manager.watermark
            ≤ (start_transaction ids timestamps level lock skip_wal w).1.manager.watermark)
  unfolding start_transaction with_memgraph
  start_transaction-IsManaged level lock skip_wal w ids timestamps left h =
      let txn = with_memgraph ids timestamps level lock in
      let after =
        update_watermark-IsManaged
          (record w.manager { active_txns = insert_sorted ids txn w.manager.active_txns }) (ids + 1)
          (timestamps + 1) (joined-IsManaged w.manager txn ids timestamps refl left h) in
      elim (Bool-cases skip_wal) [ inl skip ↦ rw skip after | inr log ↦ rw log after ]

  start_transaction-counters :
      (level : IsolationLevel) (lock : LockStrategy) (skip_wal : Bool) (w : World V)
      (txn_id start_ts : ℕ)
      → ((start_transaction txn_id start_ts level lock skip_wal w).1.ids ≡ w.ids)
        × ((start_transaction txn_id start_ts level lock skip_wal w).1.timestamps ≡ w.timestamps)
  unfolding start_transaction
  start_transaction-counters level lock skip_wal w txn_id start_ts = elim (Bool-cases skip_wal) [
    | inl skip ↦ rw skip (refl, refl)
    | inr log ↦ rw log (refl, refl)
  ]

  -- What a begin that was let through has done: the transaction that it returns is among the active
  -- ones, the watermark is at or below its start, and was raised to the start of the active
  -- transaction with the smallest id if it was below.
  pub record HasBegun (m m' : MemTxnManager V) (ids timestamps : ℕ) (txn : MemTransaction V)
      : Type 0 where
    pub txn_id : txn.txn_id ≡ ids
    pub start_ts : txn.start_ts ≡ timestamps
    pub active : m'.active_txns ≡ insert_sorted ids txn m.active_txns
    pub found : lookup ids m'.active_txns ≡ some txn
    pub below : m'.watermark ≤ timestamps
    pub watermark : m'.watermark ≡ max (front_start m'.active_txns m'.latest_commit_ts) m.watermark

  start_transaction-HasBegun :
      (level : IsolationLevel) (lock : LockStrategy) (skip_wal : Bool) (w : World V)
      (ids timestamps : ℕ)
      → (start_transaction ids timestamps level lock skip_wal w).1.manager.watermark ≤ timestamps
      → let s = start_transaction ids timestamps level lock skip_wal w in
        HasBegun w.manager s.1.manager ids timestamps s.0
  unfolding start_transaction with_memgraph update_watermark
  start_transaction-HasBegun level lock true w ids timestamps below = record {
    txn_id = refl;
    start_ts = refl;
    active = refl;
    found =
        lookup-insert_sorted ids (with_memgraph ids timestamps level lock) w.manager.active_txns;
    below = below;
    watermark = refl;
  }
  start_transaction-HasBegun level lock false w ids timestamps below = record {
    txn_id = refl;
    start_ts = refl;
    active = refl;
    found =
        lookup-insert_sorted ids (with_memgraph ids timestamps level lock) w.manager.active_txns;
    below = below;
    watermark = refl;
  }

  begun :
      (level : IsolationLevel) (lock : LockStrategy) (skip_wal : Bool) (w : World V)
      → w.ids ≢ u64_max
      → IsManaged w.manager w.ids w.timestamps
      → let s =
          start_transaction w.ids w.timestamps level lock skip_wal
            (record w { ids = w.ids + 1; timestamps = w.timestamps + 1 }) in
        IsManaged s.1.manager s.1.ids s.1.timestamps
        × (w.manager.watermark ≤ s.1.manager.watermark)
        × HasBegun w.manager s.1.manager w.ids w.timestamps s.0
  begun level lock skip_wal w left h =
      let w' = record w { ids = w.ids + 1; timestamps = w.timestamps + 1 } in
      let c = start_transaction-counters level lock skip_wal w' w.ids w.timestamps in
      let m = start_transaction-IsManaged level lock skip_wal w' w.ids w.timestamps left h in
      (
        rw (c.0, c.1) (m.0),
        m.1,
        start_transaction-HasBegun level lock skip_wal w' w.ids w.timestamps
            (omega (arith, m.0.watermark_below)),
      )
