-- ===== src/Transaction/GlobalTimestamp.antt =====
-- `GlobalTimestampGenerator` of minigu/transaction/src/timestamp.rs; the struct is its counter. One
-- call runs here alone; Counter/Race has the threads.
use mini_gu.Base.{
  ℕ, ◌+◌, max, ◌≤◌, ◌<◌, ◌≡◌, Bool, true, not, arith, leb, ◌⊎◌, if◌then◌else◌, Result, ok, err,
}
use mini_gu.Transaction.Timestamp.{
  Timestamp, IsU64, max_commit_ts, is_commit_ts, TimestampError, wrong_domain_commit,
  commit_ts_overflow,
}
use mini_gu.Transaction.Counter.{Round, overflowed, issued, again, round, fetch_max}

abbrev pub Generator : Type 0
Generator = ℕ

unfoldable pub new : Generator
new = 1

unfoldable pub with_start : ℕ → Generator
with_start start = start

-- `cur >= max_commit_ts`
abbrev pub full : ℕ → Bool
full cur = leb max_commit_ts cur

abbrev pub outcome : Generator × Round → Generator × Result TimestampError Timestamp
outcome (g, overflowed cur) = (g, err (commit_ts_overflow cur))
outcome (g, issued t) = (g, ok t)
outcome (g, again cur) = (g, err (commit_ts_overflow cur))

-- A call that no other thread disturbs: the exchange meets the value that was loaded, so the case
-- `again` does not occur (`next_returns`).
unfoldable pub next : Generator → Generator × Result TimestampError Timestamp
unfolding round
next g = outcome (round full g g)

unfoldable pub current : Generator → Timestamp
current g = g

unfoldable pub update_if_greater :
    Generator → Timestamp → Generator × Result TimestampError (Unit {0})
unfolding fetch_max
update_if_greater g ts =
    if not (is_commit_ts ts)
    then (g, err (wrong_domain_commit ts))
    else if leb max_commit_ts ts
    then (g, err (commit_ts_overflow ts))
    else (fetch_max g (ts + 1), ok tt)

-- `next` never goes round again: it hands out the counter and moves it on by one, and fails, with
-- the counter as it was, exactly from the maximum on.
pub next_returns :
    (g : Generator)
    → next g ≡ (if leb max_commit_ts g then (g, err (commit_ts_overflow g)) else (g + 1, ok g))
unfolding next
next_returns g = ground arith

-- What `next` hands out is a commit timestamp below the new counter.
pub next-is_commit_ts :
    (g : Generator) {t : Timestamp}
    → (next g).1 ≡ ok t
    → (is_commit_ts t ≡ true) × (t < max_commit_ts) × (t < (next g).0)
unfolding next is_commit_ts
next-is_commit_ts g h = ground arith

-- Every branch of `update_if_greater`. A timestamp below the maximum is accepted: the counter is then
-- the next one after it or stays, whichever is greater, so that it is above the timestamp and no lower
-- than before. The maximum itself is refused as an overflow, and what is above it as no commit
-- timestamp; a refusal leaves the counter.
pub update_if_greater_lem :
    (g : Generator) (ts : Timestamp)
    → IsU64 ts
    → ((ts < max_commit_ts)
        × ((update_if_greater g ts).1 ≡ ok tt)
        × ((update_if_greater g ts).0 ≡ max g (ts + 1))
        × (ts < (update_if_greater g ts).0)
        × (g ≤ (update_if_greater g ts).0))
      ⊎ ((ts ≡ max_commit_ts) × (update_if_greater g ts ≡ (g, err (commit_ts_overflow ts))))
      ⊎ ((max_commit_ts < ts) × (update_if_greater g ts ≡ (g, err (wrong_domain_commit ts))))
unfolding update_if_greater is_commit_ts
update_if_greater_lem g ts h = ground arith
