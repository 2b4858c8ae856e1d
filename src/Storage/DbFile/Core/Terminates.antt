-- ===== src/Storage/DbFile/Core/Terminates.antt =====
-- The loop of `read_wal_entries`, minigu/storage/src/db_file/core.rs, ends on every file.
use mini_gu.Base.{
  ℕ, zero, suc, ◌+◌, ◌-◌, ◌^◌, ◌≤◌, ◌<◌, ◌≡◌, ◌≢◌, refl, ap, arith, Bool, true, false, inl, inr,
  Bool-cases, Option, none, some, ◌∷◌, length, drop, leb, leb→le, ltb, ltb→lt, le→ltb, ◌==◌, ok,
  err, ok_or, ◌>>=◌, >>=-eq-ok,
}
use mini_gu.Base.Slices.{length-drop}
use mini_gu.Storage.Wal.{RedoEntry}
use mini_gu.Storage.DbFile.Bytes.{Bytes, add_u64, read_exact, read_le}
use mini_gu.Storage.DbFile.Error.{DbFileResult, out_of_fuel, deserialization, wal_checksum_mismatch}
use mini_gu.Storage.DbFile.Flags.{has, has_wal}
use mini_gu.Storage.DbFile.Core.{
  Formats, DbFile, check_crc, read_entry, read_wal_loop, read_wal_entries, sort_by_lsn,
}

abbrev IsFueled : {A : Type 0} → DbFileResult A → Type 0
IsFueled {A} r = r ≢ err out_of_fuel

module _ {A B : Type 0} where
  >>=-IsFueled :
      (r : DbFileResult A) (f : A → DbFileResult B)
      → IsFueled r
      → ((a : A) → r ≡ ok a → IsFueled (f a))
      → IsFueled (r >>= f)
  >>=-IsFueled (ok a) f hr hf = hf a refl
  >>=-IsFueled (err e) f hr hf = λ h. hr cc

read_exact-IsFueled : (n : ℕ) (reader : Bytes) → IsFueled (read_exact n reader)
unfolding read_exact
read_exact-IsFueled n reader = elim (Bool-cases (leb n (length reader))) [
  | inl enough ↦ λ h. cc (h, enough)
  | inr short ↦ λ h. cc (h, short)
]

read_exact-eq-ok :
    (n : ℕ) (reader : Bytes) {bytes rest : Bytes}
    → read_exact n reader ≡ ok (bytes, rest)
    → length reader ≡ n + length rest
unfolding read_exact
read_exact-eq-ok n reader {bytes} {rest} h = elim (Bool-cases (leb n (length reader))) [
  | inl enough ↦
      let left : drop n reader ≡ rest = cc (h, enough) in
      omega (arith, length-drop n reader, leb→le n (length reader) enough, ap length left)
  | inr short ↦ cc (h, short)
]

read_le-IsFueled : (width : ℕ) (reader : Bytes) → IsFueled (read_le width reader)
unfolding read_le
read_le-IsFueled width reader =
    >>=-IsFueled (read_exact width reader) _ (read_exact-IsFueled width reader) (λ p same h. cc)

read_le-eq-ok :
    (width : ℕ) (reader : Bytes) {n : ℕ} {rest : Bytes}
    → read_le width reader ≡ ok (n, rest)
    → length reader ≡ width + length rest
unfolding read_le
read_le-eq-ok width reader {n} {rest} h =
    let ((bytes, behind), got, same) = >>=-eq-ok (read_exact width reader) _ h in
    let left : behind ≡ rest = cc (same) in
    omega (arith, read_exact-eq-ok width reader {bytes = bytes} {rest = behind} got, ap length left)

module _ {V : Type 0} (formats : Formats V) where
  check_crc-IsFueled :
      (payload : Bytes) (stored offset : ℕ)
      → IsFueled (check_crc formats payload stored (wal_checksum_mismatch offset))
  unfolding check_crc
  check_crc-IsFueled payload stored offset = elim (Bool-cases (formats.crc32 payload == stored)) [
    | inl same ↦ λ h. cc (h, same)
    | inr other ↦ λ h. cc (h, other)
  ]

  ok_or-IsFueled : {A : Type 0} (o : Option A) → IsFueled (ok_or o deserialization)
  ok_or-IsFueled (some a) h = cc
  ok_or-IsFueled none h = cc

  read_entry-IsFueled :
      (len : ℕ) (reader : Bytes) (offset : ℕ) → IsFueled (read_entry formats len reader offset)
  unfolding read_entry
  read_entry-IsFueled len reader offset =
      >>=-IsFueled (read_le 4 reader) _ (read_le-IsFueled 4 reader) (λ p _.
        >>=-IsFueled (read_exact len p.1) _ (read_exact-IsFueled len p.1) (λ q _.
          >>=-IsFueled (check_crc formats q.0 p.0 (wal_checksum_mismatch offset)) _
            (check_crc-IsFueled q.0 p.0 offset)
            (λ _ _. ok_or-IsFueled (formats.entry.from_bytes q.0))))

  read_entry-eq-ok :
      (len : ℕ) (reader : Bytes) (offset : ℕ) {entry : RedoEntry V}
      → read_entry formats len reader offset ≡ ok entry
      → 4 + len ≤ length reader
  unfolding read_entry
  read_entry-eq-ok len reader offset h =
      let ((stored, r2), first, h2) = >>=-eq-ok (read_le 4 reader) _ h in
      let ((payload, r3), second, h3) = >>=-eq-ok (read_exact len r2) _ h2 in
      omega (
        arith,
        read_le-eq-ok 4 reader {n = stored} {rest = r2} first,
        read_exact-eq-ok len r2 {bytes = payload} {rest = r3} second,
      )

  read_wal_loop-IsFueled :
      (fuel : ℕ) (file : Bytes) (wal_end offset : ℕ)
      → length file < 2 ^ 64
      → wal_end - offset ≤ fuel
      → IsFueled (read_wal_loop formats fuel file wal_end offset)
  unfolding read_wal_loop
  read_wal_loop-IsFueled zero file wal_end offset small enough =
      λ h. cc (rw (read_wal_loop, le→ltb offset wal_end (omega (arith, enough))) at h)
  read_wal_loop-IsFueled (suc fuel) file wal_end offset small enough =
      round (ltb offset wal_end) (read_le 4 (drop offset file)) refl refl
        (λ next left. read_wal_loop-IsFueled fuel file wal_end next small left)
    where
      behind :
          (len : ℕ) (reader : Bytes)
          → read_le 4 (drop offset file) ≡ ok (len, reader)
          → ltb offset wal_end ≡ true
          → ((next : ℕ)
              → wal_end - next ≤ fuel
              → IsFueled (read_wal_loop formats fuel file wal_end next))
          → IsFueled (
              read_entry formats len reader offset >>= λ entry.
              read_wal_loop formats fuel file wal_end (add_u64 offset (8 + len)) >>= λ entries.
              ok (entry ∷ entries))
      behind len reader got inside further =
          >>=-IsFueled (read_entry formats len reader offset) _
            (read_entry-IsFueled len reader offset)
            (λ entry read.
              >>=-IsFueled (read_wal_loop formats fuel file wal_end (add_u64 offset (8 + len))) _
                (further (add_u64 offset (8 + len)) (
                  omega (
                    arith,
                    enough,
                    small,
                    read_le-eq-ok 4 (drop offset file) {n = len} {rest = reader} got,
                    read_entry-eq-ok len reader offset {entry = entry} read,
                    length-drop offset file,
                    ltb→lt offset wal_end inside,
                  )))
                (λ entries _ h. cc))

      round :
          (inside : Bool) (r : DbFileResult (ℕ × Bytes))
          → ltb offset wal_end ≡ inside
          → read_le 4 (drop offset file) ≡ r
          → ((next : ℕ)
              → wal_end - next ≤ fuel
              → IsFueled (read_wal_loop formats fuel file wal_end next))
          → IsFueled (read_wal_loop formats (suc fuel) file wal_end offset)
      round false r is_inside is_read further h = cc (rw (read_wal_loop, is_inside) at h)
      round true (err e) is_inside is_read further h =
          cc (rw (read_wal_loop, is_inside, is_read) at h)
      round true (ok (len, reader)) is_inside is_read further h =
          behind len reader is_read is_inside further (rw (read_wal_loop, is_inside, is_read) at h)

  -- Reading a log ends: the loop never lacks fuel, whatever the file and its header say, if the file
  -- has less than 2^64 bytes.
  pub read_wal_entries-IsFueled :
      (f : DbFile) → length f.file < 2 ^ 64 → read_wal_entries formats f ≢ err out_of_fuel
  unfolding read_wal_entries
  read_wal_entries-IsFueled f small = elim (Bool-cases (has f.header.flags has_wal)) [
    | inr unmarked ↦ λ h. cc (rw unmarked at h)
    | inl marked ↦ elim (Bool-cases (f.header.wal_length == 0)) [
      | inl empty ↦ λ h. cc (rw (marked, empty) at h)
      | inr long ↦
          let wal_end = add_u64 f.header.wal_offset f.header.wal_length in
          λ h.
            >>=-IsFueled
              (read_wal_loop formats (wal_end - f.header.wal_offset) f.file wal_end
                f.header.wal_offset)
              (λ entries. ok (sort_by_lsn entries))
              (read_wal_loop-IsFueled (wal_end - f.header.wal_offset) f.file wal_end
                f.header.wal_offset small (omega arith))
              (λ entries _ k. cc) (rw (marked, long) at h)
    ]
  ]
