-- ===== src/Storage/DbFile/Bytes.antt =====
-- What the file code of minigu/storage/src/db_file uses of the standard library: little-endian bytes,
-- `read_exact` and `write_all`. A file is the list of its bytes, a reader what follows its position.
use mini_gu.Base.{
  ℕ, zero, suc, ◌+◌, ◌-◌, ◌*◌, ◌/◌, ◌%◌, ◌^◌, ◌<◌, ◌≡◌, refl, ap, arith, List, [], ◌∷◌, ◌++◌,
  length, length-append, take, drop, leb, le→leb, if◌then◌else◌, ok, err, ◌>>=◌,
}
use mini_gu.Base.Slices.{take-length, drop-length}
use mini_gu.Storage.DbFile.Error.{DbFileResult, io, unexpected_eof}
use native.Mathlib.Nat.{div-add-mod}

abbrev pub Bytes : Type 0
Bytes = List ℕ

abbrev pub IsU32 : ℕ → Type 0
IsU32 n = n < 2 ^ 32

-- `n as u32`
abbrev pub as_u32 : ℕ → ℕ
as_u32 n = n % 2 ^ 32

-- `a + b` on `u64`, which wraps around in a release build.
abbrev pub add_u64 : ℕ → ℕ → ℕ
add_u64 a b = (a + b) % 2 ^ 64

unfoldable pub to_le_bytes : ℕ → ℕ → Bytes
to_le_bytes zero n = []
to_le_bytes (suc width) n = n % 256 ∷ to_le_bytes width (n / 256)

unfoldable pub from_le_bytes : Bytes → ℕ
from_le_bytes [] = 0
from_le_bytes (b ∷ bs) = b + 256 * from_le_bytes bs

unfoldable pub read_exact : ℕ → Bytes → DbFileResult (Bytes × Bytes)
read_exact n reader =
    if leb n (length reader) then ok (take n reader, drop n reader) else err (io unexpected_eof)

-- `read_exact` into `width` bytes, and `from_le_bytes`.
unfoldable pub read_le : ℕ → Bytes → DbFileResult (ℕ × Bytes)
unfolding read_exact from_le_bytes
read_le width reader = read_exact width reader >>= λ (bytes, rest). ok (from_le_bytes bytes, rest)

abbrev pub zeros : ℕ → Bytes
zeros zero = []
zeros (suc n) = 0 ∷ zeros n

-- `seek` and `write_all`: a gap behind the end of the file is filled with zeros.
unfoldable pub write_at : Bytes → ℕ → Bytes → Bytes
write_at file offset bytes =
    take offset file
    ++ (zeros (offset - length file) ++ (bytes ++ drop (offset + length bytes) file))

pub length-to_le_bytes : (width n : ℕ) → length (to_le_bytes width n) ≡ width
unfolding to_le_bytes
length-to_le_bytes zero n = refl
length-to_le_bytes (suc width) n = ap suc (length-to_le_bytes width (n / 256))

pub from_le_bytes-to_le_bytes :
    (width n : ℕ) → n < 256 ^ width → from_le_bytes (to_le_bytes width n) ≡ n
unfolding to_le_bytes from_le_bytes
from_le_bytes-to_le_bytes zero n h = ground arith
from_le_bytes-to_le_bytes (suc width) n h =
    omega (arith, from_le_bytes-to_le_bytes width (n / 256) (omega arith), div-add-mod n 256)

pub read_exact-append :
    (n : ℕ) (xs rest : Bytes) → length xs ≡ n → read_exact n (xs ++ rest) ≡ ok (xs, rest)
unfolding read_exact
read_exact-append n xs rest h = rw (
  ← h,
  le→leb (length xs) (length (xs ++ rest)) (omega (arith, length-append xs rest)),
  take-length xs rest,
  drop-length xs rest,
)

pub read_le-append :
    (width n : ℕ) (rest : Bytes)
    → n < 256 ^ width
    → read_le width (to_le_bytes width n ++ rest) ≡ ok (n, rest)
unfolding read_le
read_le-append width n rest h = rw (
  read_exact-append width (to_le_bytes width n) rest (length-to_le_bytes width n),
  from_le_bytes-to_le_bytes width n h,
)
