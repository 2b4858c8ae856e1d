-- ===== src/Transaction/TransactionId.antt =====
-- `TransactionIdGenerator` of minigu/transaction/src/timestamp.rs; the struct is its counter. One
-- call runs here alone; Counter/Race has the threads.
use mini_gu.Base.{
  ℕ, ◌+◌, ◌≤◌, ◌<◌, ◌≡◌, Bool, true, not, arith, ◌==◌, ◌⊎◌, if◌then◌else◌, Result, ok, err,
}
use mini_gu.Transaction.Timestamp.{
  Timestamp, IsU64, u64_max, txn_id_start, is_txn_id, TimestampError, wrong_domain_txn_id,
  txn_id_overflow,
}
use mini_gu.Transaction.Counter.{Round, overflowed, issued, again, round, fetch_max}

abbrev pub Generator : Type 0
Generator = ℕ

unfoldable pub new : Generator
new = txn_id_start + 1

unfoldable pub with_start : ℕ → Generator
with_start start = start

-- `cur == u64::MAX`
abbrev pub full : ℕ → Bool
full cur = cur == u64_max

abbrev pub outcome : Generator × Round → Generator × Result TimestampError Timestamp
outcome (g, overflowed cur) = (g, err (txn_id_overflow cur))
outcome (g, issued t) = (g, ok t)
outcome (g, again cur) = (g, err (txn_id_overflow cur))

-- A call that no other thread disturbs: the exchange meets the value that was loaded, so the case
-- `again` does not occur (`next_returns`).
unfoldable pub next : Generator → Generator × Result TimestampError Timestamp
unfolding round
next g = outcome (round full g g)

unfoldable pub update_if_greater :
    Generator → Timestamp → Generator × Result TimestampError (Unit {0})
unfolding fetch_max
update_if_greater g ts =
    if not (is_txn_id ts)
    then (g, err (wrong_domain_txn_id ts))
    else if ts == u64_max
    then (g, err (txn_id_overflow ts))
    else (fetch_max g (ts + 1), ok tt)

-- `next` never goes round again: it hands out the counter and moves it on by one, and fails, with
-- the counter as it was, exactly at the maximum of a `u64`.
pub next_returns :
    (g : Generator)
    → IsU64 g
    → next g ≡ (if g == u64_max then (g, err (txn_id_overflow g)) else (g + 1, ok g))
unfolding next
next_returns g u = ground arith

-- From a counter in the range of transaction ids, `next` hands out a transaction id below the new
-- counter, which is in the range again.
pub next-is_txn_id :
    (g : Generator) {t : Timestamp}
    → txn_id_start ≤ g
    → IsU64 g
    → (next g).1 ≡ ok t
    → (is_txn_id t ≡ true) × (t < (next g).0) × (txn_id_start ≤ (next g).0) × IsU64 (next g).0
unfolding next is_txn_id
next-is_txn_id g lo hi h = ground arith

-- After an accepted update the counter is above the id and no lower than before, so that every
-- later id is above it; a refused one leaves the counter.
pub update_if_greater_lem :
    (g : Generator) (ts : Timestamp)
    → IsU64 ts
    → ((is_txn_id ts ≡ true)
        × ((update_if_greater g ts).1 ≡ ok tt)
        × (ts < (update_if_greater g ts).0)
        × (g ≤ (update_if_greater g ts).0))
      ⊎ (((ts < txn_id_start) ⊎ (ts ≡ u64_max)) × ((update_if_greater g ts).0 ≡ g))
unfolding update_if_greater is_txn_id
update_if_greater_lem g ts h = ground arith
