-- ===== src/Storage/Tp/Manager/Ends.antt =====
-- The watermark over the end of a transaction, `finish_transaction` of
-- minigu/storage/src/tp/txn_manager.rs.
use mini_gu.Base.{
  ℕ, ◌≤◌, ◌≡◌, max, refl, Option, none, some, List, arith, Bool-cases, Option-cases, leb, length,
  inl, inr, ◌⊎◌, ==_refl, ◌∙◌, ok, err,
}
use mini_gu.Base.Assoc.{insert_sorted, remove, lookup, lookup-remove}
use mini_gu.Storage.Error.{transaction_not_found}
use mini_gu.Transaction.Timestamp.{Timestamp}
use mini_gu.Storage.Tp.Txn.{MemTransaction}
use mini_gu.Storage.Tp.Manager.{MemTxnManager, World, update_watermark, front_start}
use mini_gu.Storage.Tp.Manager.Collect.{garbage_collect}
use mini_gu.Storage.Tp.Manager.Order.{All-remove, Rising-remove}
use mini_gu.Storage.Tp.Manager.Finish.{
  retire, finish_transaction, keep_committed, collect_if_full, gc_trigger_threshold,
}
use mini_gu.Storage.Tp.Manager.Watermark.{IsManaged, update_watermark-IsManaged}

module _ {V : Type 0} where
  left-IsManaged :
      (m : MemTxnManager V) (txn_id : ℕ) (committed : List (ℕ × MemTransaction V))
      (ids timestamps : ℕ)
      → IsManaged m ids timestamps
      → IsManaged
          (record m { active_txns = remove txn_id m.active_txns; committed_txns = committed })
          ids
          timestamps
  left-IsManaged m txn_id committed ids timestamps h = record {
    ids_u64 = h.ids_u64;
    ids_below = All-remove _ txn_id m.active_txns h.ids_below;
    rising = Rising-remove txn_id m.active_txns h.rising;
    watermark_by_starts = All-remove _ txn_id m.active_txns h.watermark_by_starts;
    watermark_below = h.watermark_below;
    latest_below = h.latest_below;
  }

  kept-IsManaged :
      (c : Option Timestamp) (txn : MemTransaction V) (m : MemTxnManager V)
      (txn_id ids timestamps : ℕ)
      → IsManaged m ids timestamps
      → IsManaged
          (update_watermark
            (keep_committed c txn (record m { active_txns = remove txn_id m.active_txns })))
          ids
          timestamps
        × (m.watermark
            ≤ (update_watermark (
                keep_committed c txn
                  (record m { active_txns = remove txn_id m.active_txns }))).watermark)
  kept-IsManaged none txn m txn_id ids timestamps h =
      update_watermark-IsManaged _ ids timestamps
        (left-IsManaged m txn_id m.committed_txns ids timestamps h)
  kept-IsManaged (some c) txn m txn_id ids timestamps h =
      update_watermark-IsManaged _ ids timestamps
        (left-IsManaged m txn_id (insert_sorted c txn m.committed_txns) ids timestamps h)

  retire-IsManaged :
      (txn : MemTransaction V) (m : MemTxnManager V) (ids timestamps : ℕ)
      → IsManaged m ids timestamps
      → IsManaged (retire txn m) ids timestamps × (m.watermark ≤ (retire txn m).watermark)
  unfolding retire
  retire-IsManaged txn m ids timestamps h =
      kept-IsManaged txn.commit_ts txn m txn.txn_id ids timestamps h

  garbage_collect-IsManaged :
      (w : World V)
      → IsManaged w.manager w.ids w.timestamps
      → IsManaged (garbage_collect w).manager (garbage_collect w).ids (garbage_collect w).timestamps
        × (w.manager.watermark ≤ (garbage_collect w).manager.watermark)
  unfolding garbage_collect
  garbage_collect-IsManaged w h = (
    record {
      ids_u64 = h.ids_u64;
      ids_below = h.ids_below;
      rising = h.rising;
      watermark_by_starts = h.watermark_by_starts;
      watermark_below = h.watermark_below;
      latest_below = h.latest_below;
    },
    omega arith,
  )

  collect_if_full-IsManaged :
      (w : World V)
      → IsManaged w.manager w.ids w.timestamps
      → let w' = collect_if_full w in
        IsManaged w'.manager w'.ids w'.timestamps × (w.manager.watermark ≤ w'.manager.watermark)
  collect_if_full-IsManaged w h =
      elim (Bool-cases (leb gc_trigger_threshold (length w.manager.committed_txns))) [
        | inl full ↦ rw full (garbage_collect-IsManaged w h)
        | inr room ↦ rw room (h, omega arith)
      ]

  -- What the end of an active transaction has done: it alone is no longer active, and the watermark
  -- was raised to the start of the active transaction with the smallest id, or to the latest commit
  -- where none is active, if it was below.
  pub record HasEnded (m m' : MemTxnManager V) (txn_id : ℕ) : Type 0 where
    pub active : m'.active_txns ≡ remove txn_id m.active_txns
    pub gone : lookup txn_id m'.active_txns ≡ none
    pub latest : m'.latest_commit_ts ≡ m.latest_commit_ts
    pub watermark : m'.watermark ≡ max (front_start m'.active_txns m'.latest_commit_ts) m.watermark

  kept-HasEnded :
      (c : Option Timestamp) (txn : MemTransaction V) (m : MemTxnManager V) (txn_id : ℕ)
      → HasEnded m
          (update_watermark
            (keep_committed c txn (record m { active_txns = remove txn_id m.active_txns })))
          txn_id
  unfolding update_watermark
  kept-HasEnded none txn m txn_id = record {
    active = refl;
    gone = lookup-remove txn_id txn_id m.active_txns ∙ rw (==_refl txn_id) refl;
    latest = refl;
    watermark = refl;
  }
  kept-HasEnded (some c) txn m txn_id = record {
    active = refl;
    gone = lookup-remove txn_id txn_id m.active_txns ∙ rw (==_refl txn_id) refl;
    latest = refl;
    watermark = refl;
  }

  collect_if_full-HasEnded :
      (m : MemTxnManager V) (w : World V) (txn_id : ℕ)
      → HasEnded m w.manager txn_id
      → HasEnded m (collect_if_full w).manager txn_id
  unfolding garbage_collect
  collect_if_full-HasEnded m w txn_id h =
      elim (Bool-cases (leb gc_trigger_threshold (length w.manager.committed_txns))) [
        | inl full ↦ rw full (record {
          active = h.active;
          gone = h.gone;
          latest = h.latest;
          watermark = h.watermark;
        })
        | inr room ↦ rw room h
      ]

  -- The end of a transaction, a garbage collection included, keeps the watermark at or below the
  -- start of every transaction that is still active, and below the next timestamp; the watermark
  -- does not fall. A transaction that is not active is refused, and nothing at all changes; one that
  -- is active is so no longer, every other active one stays, and the watermark was raised to the
  -- start of the one with the smallest id, or to the latest commit, if it was below that.
  pub finish_transaction-IsManaged :
      (txn : MemTransaction V) (w : World V)
      → IsManaged w.manager w.ids w.timestamps
      → let ended = finish_transaction txn w in
        IsManaged ended.1.manager ended.1.ids ended.1.timestamps
        × (w.manager.watermark ≤ ended.1.manager.watermark)
        × (((lookup txn.txn_id w.manager.active_txns ≡ none)
              × (ended ≡ (err (transaction_not_found txn.txn_id), w)))
            ⊎ ((found : MemTransaction V) × (lookup txn.txn_id w.manager.active_txns ≡ some found)
                × (ended.0 ≡ ok tt)
                × HasEnded w.manager ended.1.manager txn.txn_id))
  unfolding finish_transaction retire
  finish_transaction-IsManaged txn w h =
      elim (Option-cases (lookup txn.txn_id w.manager.active_txns)) [
        | inl unknown ↦ rw unknown (h, omega arith, inl (refl, refl))
        | inr (found, e) ↦ rw e (
            let left = retire-IsManaged txn w.manager w.ids w.timestamps h in
            let after =
              collect_if_full-IsManaged (record w { manager = retire txn w.manager }) left.0 in
            (
              after.0,
              omega (arith, left.1, after.1),
              inr (
                found,
                refl,
                refl,
                collect_if_full-HasEnded w.manager (record w { manager = retire txn w.manager })
                    txn.txn_id (kept-HasEnded txn.commit_ts txn w.manager txn.txn_id),
              ),
            ))
      ]
