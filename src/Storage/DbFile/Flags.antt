-- ===== src/Storage/DbFile/Flags.antt =====
-- `DbFileFlags` of minigu/storage/src/db_file/header.rs; the struct is its bits.
use Prim.Native.Nat.{bit_and, bit_or}
use mini_gu.Base.{ℕ, zero, suc, ◌-◌, ◌^◌, ◌<◌, ◌≡◌, refl, Bool, true, false, not, ◌==◌, arith}

abbrev pub DbFileFlags : Type 0
DbFileFlags = ℕ

abbrev pub has_checkpoint : ℕ
has_checkpoint = 1

abbrev pub has_wal : ℕ
has_wal = 2

unfoldable pub has : DbFileFlags → ℕ → Bool
has bits flag = not (bit_and bits flag == 0)

unfoldable pub set : DbFileFlags → ℕ → DbFileFlags
set bits flag = bit_or bits flag

-- `!flag` on 32 bits is `2 ^ 32 - 1 - flag`.
unfoldable pub clear : DbFileFlags → ℕ → DbFileFlags
clear bits flag = bit_and bits (2 ^ 32 - 1 - flag)

-- Only the two flags that exist are set.
abbrev pub IsFlags : DbFileFlags → Type 0
IsFlags bits = bits < 4

abbrev pub with_wal : DbFileFlags → DbFileFlags
unfolding set
with_wal bits = set bits has_wal

abbrev pub without_wal : DbFileFlags → DbFileFlags
unfolding clear
without_wal bits = clear bits has_wal

abbrev pub with_checkpoint : DbFileFlags → DbFileFlags
unfolding set
with_checkpoint bits = set bits has_checkpoint

pub with_wal_lem :
    (bits : DbFileFlags)
    → IsFlags bits
    → (has (with_wal bits) has_wal ≡ true)
      × (has (with_wal bits) has_checkpoint ≡ has bits has_checkpoint)
      × IsFlags (with_wal bits)
unfolding has set
with_wal_lem zero h = (refl, refl, omega arith)
with_wal_lem (suc zero) h = (refl, refl, omega arith)
with_wal_lem (suc (suc zero)) h = (refl, refl, omega arith)
with_wal_lem (suc (suc (suc zero))) h = (refl, refl, omega arith)
with_wal_lem (suc (suc (suc (suc n)))) h = absurd (omega arith)

pub without_wal_lem :
    (bits : DbFileFlags)
    → IsFlags bits
    → (has (without_wal bits) has_wal ≡ false)
      × (has (without_wal bits) has_checkpoint ≡ has bits has_checkpoint)
      × IsFlags (without_wal bits)
unfolding has clear
without_wal_lem zero h = (refl, refl, omega arith)
without_wal_lem (suc zero) h = (refl, refl, omega arith)
without_wal_lem (suc (suc zero)) h = (refl, refl, omega arith)
without_wal_lem (suc (suc (suc zero))) h = (refl, refl, omega arith)
without_wal_lem (suc (suc (suc (suc n)))) h = absurd (omega arith)

pub with_checkpoint_lem :
    (bits : DbFileFlags)
    → IsFlags bits
    → (has (with_checkpoint bits) has_checkpoint ≡ true)
      × (has (with_checkpoint bits) has_wal ≡ has bits has_wal)
      × IsFlags (with_checkpoint bits)
unfolding has set
with_checkpoint_lem zero h = (refl, refl, omega arith)
with_checkpoint_lem (suc zero) h = (refl, refl, omega arith)
with_checkpoint_lem (suc (suc zero)) h = (refl, refl, omega arith)
with_checkpoint_lem (suc (suc (suc zero))) h = (refl, refl, omega arith)
with_checkpoint_lem (suc (suc (suc (suc n)))) h = absurd (omega arith)
