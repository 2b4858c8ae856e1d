-- ===== src/Transaction/Timestamp.antt =====
-- `Timestamp` of minigu/transaction/src/timestamp.rs. A timestamp is its raw `u64`.
use mini_gu.Base.{ℕ, ◌-◌, ◌/◌, ◌%◌, ◌^◌, ◌≤◌, ◌<◌, ◌≡◌, ◌↔◌, Bool, true, not, arith, ◌==◌}

-- error.rs
pub data TimestampError : Type 0 where
  wrong_domain_commit : ℕ → TimestampError
  wrong_domain_txn_id : ℕ → TimestampError
  commit_ts_overflow : ℕ → TimestampError
  txn_id_overflow : ℕ → TimestampError

abbrev pub Timestamp : Type 0
Timestamp = ℕ

-- The values of a `u64`.
abbrev pub IsU64 : ℕ → Type 0
IsU64 n = n < 2 ^ 64

abbrev pub u64_max : ℕ
u64_max = 2 ^ 64 - 1

abbrev pub txn_id_start : ℕ
txn_id_start = 2 ^ 63

-- `!TXN_ID_START` on a `u64`
abbrev pub max_commit_ts : Timestamp
max_commit_ts = u64_max - txn_id_start

-- `raw & TXN_ID_START != 0`: bit 63 is set.
unfoldable pub is_txn_id : Timestamp → Bool
is_txn_id t = t / txn_id_start % 2 == 1

-- `raw & TXN_ID_START == 0`
unfoldable pub is_commit_ts : Timestamp → Bool
is_commit_ts t = t / txn_id_start % 2 == 0

-- The two tests cut the values of a `u64` in two: commit timestamps are those up to the maximum,
-- each of them below every transaction id, and a value is of one kind exactly when it is not of the
-- other.
pub timestamp_domains :
    (t : Timestamp)
    → IsU64 t
    → ((is_commit_ts t ≡ true) ↔ (t ≤ max_commit_ts))
      × ((is_txn_id t ≡ true) ↔ (max_commit_ts < t))
      × (is_txn_id t ≡ not (is_commit_ts t))
unfolding is_txn_id is_commit_ts
timestamp_domains t h = ground arith

pub is_txn_id_iff : (t : Timestamp) → IsU64 t → (is_txn_id t ≡ true) ↔ (txn_id_start ≤ t)
unfolding is_txn_id
is_txn_id_iff t h = ground arith

pub is_commit_ts_iff : (t : Timestamp) → IsU64 t → (is_commit_ts t ≡ true) ↔ (t < txn_id_start)
unfolding is_commit_ts
is_commit_ts_iff t h = ground arith
