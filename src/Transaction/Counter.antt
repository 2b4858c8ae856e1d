-- ===== src/Transaction/Counter.antt =====
-- The loop on `compare_exchange_weak` that both generators of minigu/transaction/src/timestamp.rs
-- run in `next`, and any number of threads that run it against one counter.
pub mod Race
use mini_gu.Base.{ℕ, ◌+◌, ◌%◌, ◌^◌, Bool, leb, ◌==◌, if◌then◌else◌}
use mini_gu.Transaction.Timestamp.{Timestamp}

-- What one round of the loop ends in: `return Err(overflow)`, `return Ok(cur)`, or `cur = actual`.
pub data Round : Type 0 where
  overflowed : ℕ → Round
  issued : Timestamp → Round
  again : ℕ → Round

-- One round with the value `cur` last seen, at the moment when the counter holds `counter`; `full`
-- is the generator's test for overflow. The new value of the counter comes first; the sum wraps around
-- as a `u64` does.
unfoldable pub round : (ℕ → Bool) → ℕ → ℕ → ℕ × Round
round full counter cur =
    if full cur
    then (counter, overflowed cur)
    else if counter == cur
    then ((cur + 1) % 2 ^ 64, issued cur)
    else (counter, again counter)

-- `fetch_max(value)`
unfoldable pub fetch_max : ℕ → ℕ → ℕ
fetch_max counter value = if leb counter value then value else counter
