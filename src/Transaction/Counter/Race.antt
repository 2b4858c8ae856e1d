-- ===== src/Transaction/Counter/Race.antt =====
-- Threads that call `next` and `update_if_greater` on one generator, in every interleaving of the
-- loads and exchanges of minigu/transaction/src/timestamp.rs.
use mini_gu.Base.{
  ℕ, ◌+◌, ◌≤◌, ◌<◌, ◌≡◌, ◌⊎◌, inl, inr, Bool, false, Option, none, some, List, [], ◌∷◌, All,
  All-imp, arith, ◌==◌, if◌then◌else◌,
}
use mini_gu.Transaction.Timestamp.{Timestamp, IsU64, u64_max}
use mini_gu.Transaction.GlobalTimestamp
use mini_gu.Transaction.TransactionId
use mini_gu.Transaction.Counter.{Round, overflowed, issued, again, round, fetch_max}

-- The counter, the value that each thread in the loop last saw (`none` outside the loop), and the
-- timestamps handed out, the last one first.
pub record System : Type 0 where
  pub counter : ℕ
  pub seen : ℕ → Option ℕ
  pub handed_out : List Timestamp

-- A function changed at one argument.
abbrev pub at_thread : (ℕ → Option ℕ) → ℕ → Option ℕ → ℕ → Option ℕ
at_thread f i v j = if i == j then v else f j

-- The state after a round of thread `i`.
unfoldable pub after_round : System → ℕ → ℕ × Round → System
after_round s i (c, overflowed cur) = record s { counter = c; seen = at_thread s.seen i none }
after_round s i (c, issued t) = record {
  counter = c;
  seen = at_thread s.seen i none;
  handed_out = t ∷ s.handed_out;
}
after_round s i (c, again cur) = record s { counter = c; seen = at_thread s.seen i (some cur) }

unfoldable pub start : ℕ → System
start c = record { counter = c; seen = λ _. none; handed_out = [] }

module _ (full : ℕ → Bool) where
  -- A thread loads the counter; runs a round; fails a round though the values agree, as the weak
  -- exchange may; or raises the counter by `fetch_max`.
  pub data Step (s : System) : System → Type 0 where
    load :
        (i : ℕ) → s.seen i ≡ none → Step s (record s { seen = at_thread s.seen i (some s.counter) })
    exchange :
        (i cur : ℕ) → s.seen i ≡ some cur → Step s (after_round s i (round full s.counter cur))
    spurious :
        (i cur : ℕ)
        → s.seen i ≡ some cur
        → full cur ≡ false
        → Step s (record s { seen = at_thread s.seen i (some s.counter) })
    raise : (value : ℕ) → IsU64 value → Step s (record s { counter = fetch_max s.counter value })

  pub data Reach (s : System) : System → Type 0 where
    here : Reach s s
    next : {t u : System} → Reach s t → Step t u → Reach s u

-- Each timestamp of the list is above all that stand behind it.
abbrev pub Falling : List ℕ → Type 0
Falling [] = Unit
Falling (x ∷ xs) = All (λ y. y < x) xs × Falling xs

-- The counter is a `u64`; all that was handed out is below it, and was handed out in rising order.
pub record IsFresh (s : System) : Type 0 where
  pub counter_u64 : IsU64 s.counter
  pub below : All (λ t. t < s.counter) s.handed_out
  pub falling : Falling s.handed_out

below_mono : (a b : ℕ) (ts : List ℕ) → a ≤ b → All (λ t. t < a) ts → All (λ t. t < b) ts
below_mono a b ts h = All-imp ts (λ t p. omega arith)

fetch_max_le : (c v : ℕ) → c ≤ fetch_max c v
unfolding fetch_max
fetch_max_le c v = ground arith

fetch_max-IsU64 : (c v : ℕ) → IsU64 c → IsU64 v → IsU64 (fetch_max c v)
unfolding fetch_max
fetch_max-IsU64 c v hc hv = ground arith

-- The test for overflow stops an addition that would wrap around.
abbrev Guards : (ℕ → Bool) → Type 0
Guards full = (c : ℕ) → IsU64 c → full c ≡ false → c < u64_max

timestamps_guarded : Guards GlobalTimestamp.full
timestamps_guarded c u h = ground arith

ids_guarded : Guards TransactionId.full
ids_guarded c u h = ground arith

module _ (full : ℕ → Bool) (guards : Guards full) where
  round-cases :
      (counter cur : ℕ)
      → IsU64 counter
      → (round full counter cur ≡ (counter, overflowed cur))
        ⊎ ((counter ≡ cur) × (cur < u64_max) × (round full counter cur ≡ (cur + 1, issued cur)))
        ⊎ (round full counter cur ≡ (counter, again counter))
  unfolding round
  round-cases counter cur u = ground (arith, guards cur)

  after_round-IsFresh :
      (s : System) (i cur : ℕ) → IsFresh s → IsFresh (after_round s i (round full s.counter cur))
  unfolding after_round
  after_round-IsFresh s i cur h = elim (round-cases s.counter cur h.counter_u64) [
    | inl over ↦
        rw over (record { counter_u64 = h.counter_u64; below = h.below; falling = h.falling })
    | inr (inl won) ↦ rw (won.2) (record {
      counter_u64 = omega (arith, won.1);
      below =
          (omega arith, below_mono s.counter (cur + 1) s.handed_out (omega (arith, won.0)) h.below);
      falling = (rw (← won.0) h.below, h.falling);
    })
    | inr (inr lost) ↦
        rw lost (record { counter_u64 = h.counter_u64; below = h.below; falling = h.falling })
  ]

  Step-IsFresh : {s t : System} → Step full s t → IsFresh s → IsFresh t
  Step-IsFresh {s} (load i e) h = record {
    counter_u64 = h.counter_u64;
    below = h.below;
    falling = h.falling;
  }
  Step-IsFresh {s} (exchange i cur e) h = after_round-IsFresh s i cur h
  Step-IsFresh {s} (spurious i cur e f) h = record {
    counter_u64 = h.counter_u64;
    below = h.below;
    falling = h.falling;
  }
  Step-IsFresh {s} (raise value u) h = record {
    counter_u64 = fetch_max-IsU64 s.counter value h.counter_u64 u;
    below = below_mono _ _ s.handed_out (fetch_max_le s.counter value) h.below;
    falling = h.falling;
  }

  reached-IsFresh : (c : ℕ) → IsU64 c → {t : System} → Reach full (start c) t → IsFresh t
  unfolding start
  reached-IsFresh c u here = record { counter_u64 = u; below = tt; falling = tt }
  reached-IsFresh c u (next r st) = Step-IsFresh st (reached-IsFresh c u r)

-- However the threads that draw from one of the two generators are interleaved, with updates of the
-- counter between them, what it hands out is pairwise different: each value is above all that were
-- handed out before, and below the counter, which never wraps around as a `u64`. The generator starts
-- at a `u64`.
pub Reach-IsFresh :
    (c : ℕ) {t : System}
    → IsU64 c
    → Reach GlobalTimestamp.full (start c) t ⊎ Reach TransactionId.full (start c) t
    → IsFresh t
Reach-IsFresh c u (inl timestamps) =
    reached-IsFresh GlobalTimestamp.full timestamps_guarded c u timestamps
Reach-IsFresh c u (inr ids) = reached-IsFresh TransactionId.full ids_guarded c u ids
