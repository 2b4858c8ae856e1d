-- ===== src/Storage/DbFile/Core/Damaged.antt =====
-- Files of minigu/storage/src/db_file/core.rs that a crash or a fault left damaged behind the log.
use mini_gu.Base.{
  ℕ, suc, ◌+◌, ◌-◌, ◌^◌, ◌≤◌, ◌<◌, ◌≡◌, ◌≢◌, refl, sym, ap, ◌∙◌, arith, true, inl, inr, Bool-cases,
  List, [], ◌++◌, length, length-append, take, drop, ltb, lt→ltb, ltb→lt, ltb→le, ≢→==, ok, err,
  ◌>>=◌,
}
use mini_gu.Base.Slices.{take-append_le, length-take, drop-length}
use mathlib.Core.List.{append_assoc, append-nil}
use mathlib.Core.Path.{ap₂}
use mini_gu.Storage.Wal.{RedoEntry}
use mini_gu.Storage.DbFile.Bytes.{
  Bytes, IsU32, as_u32, to_le_bytes, length-to_le_bytes, read_exact, read_le, read_le-append,
  read_exact-append,
}
use mini_gu.Storage.DbFile.Error.{DbFileResult, io, unexpected_eof, wal_checksum_mismatch}
use mini_gu.Storage.DbFile.Flags.{has, has_wal}
use mini_gu.Storage.DbFile.Core.{
  Formats, DbFile, record_bytes, check_crc, read_entry, read_wal_loop, read_wal_entries,
  sort_by_lsn,
}
use mini_gu.Storage.DbFile.Core.Shape.{IsLog, IsCrc}
use mini_gu.Storage.DbFile.Core.Record.{IsCodec}
use mini_gu.Storage.DbFile.Core.Read.{read_wal_loop-IsLog, read_wal_some, length-IsLog}

read_exact_short :
    (n : ℕ) (reader : Bytes) → length reader < n → read_exact n reader ≡ err (io unexpected_eof)
unfolding read_exact
read_exact_short n reader short = ground arith

read_le_short :
    (n : ℕ) (reader : Bytes) → length reader < n → read_le n reader ≡ err (io unexpected_eof)
unfolding read_le
read_le_short n reader short = rw (read_exact_short n reader short) refl

module _ {V : Type 0} (formats : Formats V) where
  -- The log, and bytes behind it that the header counts as part of the log.
  pub record Damaged (f : DbFile) (es : List (RedoEntry V)) (behind : Bytes) : Type 0 where
    pub front : Bytes
    pub wal_region : Bytes
    pub shape : f.file ≡ front ++ (wal_region ++ behind)
    pub is_log : IsLog formats es wal_region
    pub start : f.header.wal_offset ≡ length front
    pub longer : length wal_region < f.header.wal_length
    pub no_wrap : f.header.wal_offset + f.header.wal_length < 2 ^ 64
    pub flag : has f.header.flags has_wal ≡ true

  sorted_after :
      (es : List (RedoEntry V)) (r : DbFileResult (List (RedoEntry V)))
      → ((r >>= λ more. ok (es ++ more)) >>= λ entries. ok (sort_by_lsn entries))
        ≡ (r >>= λ more. ok (sort_by_lsn (es ++ more)))
  sorted_after es (ok more) = refl
  sorted_after es (err e) = refl

  -- What the rounds behind the log give decides.
  behind_log :
      IsCrc formats
      → IsCodec formats.entry
      → {f : DbFile} {es : List (RedoEntry V)} {behind : Bytes} (damaged : Damaged f es behind)
      → (result : DbFileResult (List (RedoEntry V)))
      → ((fuel offset : ℕ) (file : Bytes)
          → drop offset file ≡ behind
          → offset ≡ f.header.wal_offset + length damaged.wal_region
          → read_wal_loop formats (suc fuel) file (f.header.wal_offset + f.header.wal_length) offset
            ≡ result)
      → read_wal_entries formats f ≡ (result >>= λ more. ok (sort_by_lsn (es ++ more)))
  behind_log is_crc is_codec {f} {es} {behind} damaged result next =
      let wal_end = f.header.wal_offset + f.header.wal_length in
      let log_end = f.header.wal_offset + length damaged.wal_region in
      let file = damaged.front ++ (damaged.wal_region ++ behind) in
      let k = f.header.wal_length - suc (length es) in
      read_wal_some formats f damaged.flag (ground (arith, damaged.longer)) wal_end
        (omega (arith, damaged.no_wrap))
      ∙ ap (λ r. r >>= λ entries. ok (sort_by_lsn entries))
          (ap₂ (λ (n : ℕ) b. read_wal_loop formats n b wal_end f.header.wal_offset)
              {x = wal_end - f.header.wal_offset} {y = length es + suc k}
              (omega (arith, length-IsLog formats damaged.is_log, damaged.longer)) damaged.shape
            ∙ read_wal_loop-IsLog formats is_crc is_codec damaged.is_log (suc k) damaged.front
                behind wal_end f.header.wal_offset damaged.start (omega (arith, damaged.longer))
                (omega (arith, damaged.no_wrap))
            ∙ ap (λ r. r >>= λ more. ok (es ++ more))
                (next k log_end file
                  (ap₂ drop
                      (omega (arith, damaged.start, length-append damaged.front damaged.wal_region))
                      (sym (append_assoc damaged.front damaged.wal_region behind))
                    ∙ drop-length (damaged.front ++ damaged.wal_region) behind)
                  refl))
      ∙ sorted_after es result

  short_entry :
      IsCrc formats
      → (payload : Bytes) (j offset : ℕ) → j < 4 + length payload
      → read_entry formats
          (length payload)
          (take j (to_le_bytes 4 (formats.crc32 payload) ++ payload))
          offset
        ≡ err (io unexpected_eof)
  unfolding read_entry
  short_entry is_crc payload j offset cut =
      let sum = to_le_bytes 4 (formats.crc32 payload) in
      let four : length sum ≡ 4 = length-to_le_bytes 4 (formats.crc32 payload) in
      elim (Bool-cases (ltb j 4)) [
        | inl early ↦
            rw
              (read_le_short 4 (take j (sum ++ payload)) (
                omega (
                  arith,
                  length-take j (sum ++ payload)
                      (omega (arith, length-append sum payload, ltb→lt j 4 early, four)),
                  ltb→lt j 4 early,
                )))
              refl
        | inr late ↦
            let behind = ltb→le j 4 late in
            rw
              (
                take-append_le j sum payload (omega (arith, behind, four)),
                read_le-append 4 (formats.crc32 payload) (take (j - length sum) payload)
                    (is_crc payload),
                read_exact_short (length payload) (take (j - length sum) payload) (
                    omega (
                      arith,
                      length-take (j - length sum) payload (omega (arith, cut, four)),
                      cut,
                      four,
                      behind,
                    )),
              )
              refl
      ]

  -- The first `k` bytes of a record cannot be read.
  cut_record :
      IsCrc formats
      → (payload : Bytes) (k offset wal_end fuel : ℕ) (file : Bytes) → IsU32 (length payload)
      → k < 8 + length payload
      → offset < wal_end
      → drop offset file ≡ take k (record_bytes formats payload)
      → (k < 4 → read_wal_loop formats (suc fuel) file wal_end offset ≡ ok [])
        × (4 ≤ k → read_wal_loop formats (suc fuel) file wal_end offset ≡ err (io unexpected_eof))
  unfolding read_wal_loop record_bytes
  cut_record is_crc payload k offset wal_end fuel file short cut inside at =
      let size = as_u32 (length payload) in
      let head = to_le_bytes 4 size in
      let tail = to_le_bytes 4 (formats.crc32 payload) ++ payload in
      let four : length head ≡ 4 = length-to_le_bytes 4 size in
      (
        (λ few.
            rw
              (
                read_wal_loop,
                lt→ltb offset wal_end inside,
                at,
                read_le_short 4 (take k (head ++ tail)) (
                    omega (
                      arith,
                      length-take k (head ++ tail)
                          (omega (arith, few, four, length-append head tail)),
                    )),
              )
              refl),
        (λ many.
            rw
              (
                read_wal_loop,
                lt→ltb offset wal_end inside,
                at,
                take-append_le k head tail (omega (arith, four, many)),
                four,
                read_le-append 4 size (take (k - 4) tail) (omega arith),
                whole_size,
                short_entry is_crc payload (k - 4) offset (omega (arith, cut, many)),
              )
              refl),
      )
    where
      whole_size : as_u32 (length payload) ≡ length payload
      whole_size = omega (arith, short)

  -- A log whose last record was cut off, which the header counts in full: if less than its length
  -- field is left, the entries before it are read, in order of their LSN; if the length is there and a
  -- later byte is missing, reading the log fails with an unexpected end of file, and no entry is
  -- given. CRC-32 is to give 32 bits, the serialization to be invertible and the payload to be
  -- shorter than 4 GiB.
  pub read_wal_entries_torn :
      IsCrc formats
      → IsCodec formats.entry
      → (f : DbFile) (es : List (RedoEntry V)) (payload : Bytes) (k : ℕ)
      → Damaged f es (take k (record_bytes formats payload))
      → IsU32 (length payload)
      → k < 8 + length payload
      → (k < 4 → read_wal_entries formats f ≡ ok (sort_by_lsn es))
        × (4 ≤ k → read_wal_entries formats f ≡ err (io unexpected_eof))
  read_wal_entries_torn is_crc is_codec f es payload k damaged short cut = (
    (λ few.
        behind_log is_crc is_codec damaged (ok []) (λ fuel offset file at end.
          (cut_record is_crc payload k offset _ fuel file short cut
              (omega (arith, end, damaged.longer)) at).0
            few)
        ∙ ap (λ l. ok (sort_by_lsn l)) (append-nil es)),
    (λ many.
        behind_log is_crc is_codec damaged (err (io unexpected_eof)) (λ fuel offset file at end.
          (cut_record is_crc payload k offset _ fuel file short cut
              (omega (arith, end, damaged.longer)) at).1
            many)),
  )

  -- A record behind the log whose stored checksum is not that of its payload: reading the log fails
  -- with an error that gives the offset of the record, whatever stands behind it. The stored checksum
  -- is of 32 bits, the payload shorter than 4 GiB, CRC-32 is to give 32 bits and the serialization to
  -- be invertible.
  pub read_wal_entries_corrupt :
      IsCrc formats
      → IsCodec formats.entry
      → (f : DbFile) (es : List (RedoEntry V)) (payload rest : Bytes) (stored : ℕ)
      → (damaged : Damaged f es
          (to_le_bytes 4 (length payload) ++ (to_le_bytes 4 stored ++ (payload ++ rest))))
      → IsU32 (length payload)
      → IsU32 stored
      → formats.crc32 payload ≢ stored
      → read_wal_entries formats f
        ≡ err (wal_checksum_mismatch (f.header.wal_offset + length damaged.wal_region))
  unfolding read_wal_loop read_entry check_crc
  read_wal_entries_corrupt is_crc is_codec f es payload rest stored damaged short fits differ =
      behind_log is_crc is_codec damaged
        (err (wal_checksum_mismatch (f.header.wal_offset + length damaged.wal_region)))
        (λ fuel offset file at end.
          rw
            (
              read_wal_loop,
              lt→ltb offset (f.header.wal_offset + f.header.wal_length)
                  (omega (arith, end, damaged.longer)),
              at,
              read_le-append 4 (length payload) _ short,
              read_le-append 4 stored _ fits,
              read_exact-append (length payload) payload rest refl,
              ≢→== (formats.crc32 payload) stored differ,
            )
            (ap (λ o. err (wal_checksum_mismatch o)) end))
