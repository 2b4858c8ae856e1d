-- ===== src/Storage/DbFile/Core/Read.antt =====
-- `read_wal_entries` over the log of a file of minigu/storage/src/db_file/core.rs holds.
use mini_gu.Base.{
  ℕ, err, zero, suc, ◌+◌, ◌-◌, ◌^◌, ◌≤◌, ◌<◌, ◌≡◌, refl, sym, ap, subst, ◌∙◌, arith, Bool-cases,
  true, false, inl, inr, Option, some, List, [], ◌∷◌, ◌++◌, length, length-append, drop, ok, ◌>>=◌,
  ◌==◌, ==_iff, lt→ltb, le→ltb,
}
use mini_gu.Base.Slices.{drop-length}
use mathlib.Core.Path.{ap₂}
use mathlib.Core.List.{append_assoc, append-nil}
use mini_gu.Storage.Wal.{RedoEntry}
use mini_gu.Storage.Tp.Checkpoint.{GraphCheckpoint}
use mini_gu.Storage.DbFile.Bytes.{Bytes, IsU32, add_u64}
use mini_gu.Storage.DbFile.Error.{DbFileResult}
use mini_gu.Storage.DbFile.Flags.{has, has_wal}
use mini_gu.Storage.DbFile.Header.{header_bytes}
use mini_gu.Storage.DbFile.Core.{
  Formats, DbFile, record_bytes, read_wal_loop, read_wal_entries, sort_by_lsn,
}
use mini_gu.Storage.DbFile.Core.Shape.{
  IsLog, nil, cons, Holds, IsCrc, length-Holds, length-Describes,
}
use mini_gu.Storage.DbFile.Core.Record.{IsCodec, read_length, read_entry-record}
use mini_gu.Storage.DbFile.Core.Appended.{length-record_bytes}

module _ {V : Type 0} (formats : Formats V) where
  >>=-ok : {A : Type 0} (r : DbFileResult A) → (r >>= λ a. ok a) ≡ r
  >>=-ok (ok a) = refl
  >>=-ok (err e) = refl

  then_cons :
      (entry : RedoEntry V) (es : List (RedoEntry V)) (r : DbFileResult (List (RedoEntry V)))
      → ((r >>= λ more. ok (es ++ more)) >>= λ entries. ok (entry ∷ entries))
        ≡ (r >>= λ more. ok (entry ∷ (es ++ more)))
  then_cons entry es (ok more) = refl
  then_cons entry es (err e) = refl

  -- One round over a record.
  read_wal_loop-record :
      IsCrc formats
      → IsCodec formats.entry
      → (fuel : ℕ) (file rest : Bytes) (wal_end offset : ℕ) (entry : RedoEntry V) (payload : Bytes)
      → offset < wal_end
      → drop offset file ≡ record_bytes formats payload ++ rest
      → formats.entry.to_bytes entry ≡ some payload
      → IsU32 (length payload)
      → read_wal_loop formats (suc fuel) file wal_end offset ≡ (
          read_wal_loop formats fuel file wal_end (add_u64 offset (8 + length payload))
          >>= λ entries. ok (entry ∷ entries))
  unfolding read_wal_loop
  read_wal_loop-record is_crc is_codec fuel file rest wal_end offset entry payload inside at encoded
        short =
      rw
        (
          read_wal_loop,
          lt→ltb offset wal_end inside,
          at,
          read_length formats payload rest short,
          read_entry-record formats is_crc is_codec entry payload rest offset encoded,
        )
        refl

  -- The loop over a log with more behind it: the entries, and what the loop gives from there on.
  pub read_wal_loop-IsLog :
      IsCrc formats
      → IsCodec formats.entry
      → {es : List (RedoEntry V)} {bytes : Bytes} → IsLog formats es bytes
      → (fuel : ℕ) (front rest : Bytes) (wal_end offset : ℕ) → offset ≡ length front
      → offset + length bytes ≤ wal_end
      → wal_end < 2 ^ 64
      → read_wal_loop formats (length es + fuel) (front ++ (bytes ++ rest)) wal_end offset ≡ (
          read_wal_loop formats fuel (front ++ (bytes ++ rest)) wal_end (offset + length bytes)
          >>= λ more. ok (es ++ more))
  unfolding read_wal_loop
  read_wal_loop-IsLog is_crc is_codec nil fuel front rest wal_end offset at fits small =
      ap₂ (λ (k : ℕ) (o : ℕ). read_wal_loop formats k (front ++ rest) wal_end o) {x = 0 + fuel}
        (omega arith) (omega arith)
      ∙ sym (>>=-ok _)
  read_wal_loop-IsLog is_crc is_codec (cons {entry} {es} {payload} {bytes} encoded short lsn log)
        fuel front rest wal_end offset at fits small =
      let new = record_bytes formats payload in
      let file = front ++ ((new ++ bytes) ++ rest) in
      let size : length (new ++ bytes) ≡ 8 + length payload + length bytes =
        omega (arith, length-append new bytes, length-record_bytes formats payload) in
      let next : add_u64 offset (8 + length payload) ≡ offset + (8 + length payload) =
        omega (arith, fits, small, size) in
      let same : (front ++ new) ++ (bytes ++ rest) ≡ file = simp append_assoc refl in
      let further =
        subst
          (λ b.
            read_wal_loop formats (length es + fuel) b wal_end (add_u64 offset (8 + length payload))
            ≡ (read_wal_loop formats fuel b wal_end
                  (add_u64 offset (8 + length payload) + length bytes)
                >>= λ more. ok (es ++ more)))
          same
          (read_wal_loop-IsLog is_crc is_codec log fuel (front ++ new) rest wal_end
            (add_u64 offset (8 + length payload))
            (omega (arith, at, next, length-append front new, length-record_bytes formats payload))
            (omega (arith, fits, next, size)) small) in
      ap (λ (k : ℕ). read_wal_loop formats k file wal_end offset) {x = suc (length es) + fuel}
        {y = suc (length es + fuel)} (omega arith)
      ∙ read_wal_loop-record is_crc is_codec (length es + fuel) file (bytes ++ rest) wal_end offset
          entry payload (omega (arith, fits, size))
          (ap₂ drop at (simp append_assoc refl) ∙ drop-length front (new ++ (bytes ++ rest)))
          encoded short
      ∙ ap (λ r. r >>= λ entries. ok (entry ∷ entries)) further
      ∙ then_cons entry es _
      ∙ ap
          (λ (o : ℕ).
            read_wal_loop formats fuel file wal_end o >>= λ more. ok (entry ∷ (es ++ more)))
          (omega (arith, next, size))

  -- At the end of the log the loop stops, whatever fuel is left.
  read_wal_loop_end :
      (fuel : ℕ) (file : Bytes) (wal_end offset : ℕ)
      → wal_end ≤ offset
      → read_wal_loop formats fuel file wal_end offset ≡ ok []
  unfolding read_wal_loop
  read_wal_loop_end zero file wal_end offset past = ground arith
  read_wal_loop_end (suc fuel) file wal_end offset past =
      rw (read_wal_loop, le→ltb offset wal_end past) refl

  pub length-IsLog :
      {es : List (RedoEntry V)} {bytes : Bytes} → IsLog formats es bytes → length es ≤ length bytes
  length-IsLog nil = omega arith
  length-IsLog (cons {payload} {bytes} encoded short lsn log) = omega (
    arith,
    length-IsLog log,
    length-append (record_bytes formats payload) bytes,
    length-record_bytes formats payload,
  )

  read_wal_none : (f : DbFile) → f.header.wal_length ≡ 0 → read_wal_entries formats f ≡ ok []
  unfolding read_wal_entries
  read_wal_none f empty = elim (Bool-cases (has f.header.flags has_wal)) [
    | inl marked ↦ rw (marked, ap (λ k. k == 0) empty) refl
    | inr unmarked ↦ rw unmarked refl
  ]

  pub read_wal_some :
      (f : DbFile)
      → has f.header.flags has_wal ≡ true
      → (f.header.wal_length == 0) ≡ false
      → (wal_end : ℕ) → add_u64 f.header.wal_offset f.header.wal_length ≡ wal_end
      → read_wal_entries formats f ≡ (
          read_wal_loop formats (wal_end - f.header.wal_offset) f.file wal_end f.header.wal_offset
          >>= λ entries. ok (sort_by_lsn entries))
  unfolding read_wal_entries
  read_wal_some f marked long wal_end same = rw (marked, long, same) refl

  IsLog-no_bytes :
      {es : List (RedoEntry V)} {bytes : Bytes}
      → IsLog formats es bytes
      → length bytes ≡ 0
      → es ≡ []
  IsLog-no_bytes nil empty = refl
  IsLog-no_bytes (cons {payload} {bytes} encoded short lsn log) empty = absurd (
      omega (
        arith,
        empty,
        length-append (record_bytes formats payload) bytes,
        length-record_bytes formats payload,
      ))

  IsLog-no_entries :
      {es : List (RedoEntry V)} {bytes : Bytes}
      → IsLog formats es bytes
      → es ≡ []
      → length bytes ≡ 0
  IsLog-no_entries nil none_yet = refl
  IsLog-no_entries (cons encoded short lsn log) none_yet = cc

  read_wal_loop-Holds :
      IsCrc formats
      → IsCodec formats.entry
      → {f : DbFile} {checkpoint : Option (GraphCheckpoint V)} {es : List (RedoEntry V)}
        (h : Holds formats f checkpoint es)
      → (fuel offset wal_end : ℕ) → length es ≤ fuel
      → offset ≡ f.header.wal_offset
      → wal_end ≡ offset + length h.wal_region
      → read_wal_loop formats fuel f.file wal_end offset ≡ ok es
  read_wal_loop-Holds is_crc is_codec {f} {es} h fuel offset wal_end enough start ending =
      let front = header_bytes f.header ++ h.checkpoint_region in
      let file = front ++ (h.wal_region ++ h.rest) in
      ap₂ (λ (k : ℕ) b. read_wal_loop formats k b wal_end offset) {x = fuel}
        {y = length es + (fuel - length es)} (omega arith)
        (h.shape ∙ sym (append_assoc (header_bytes f.header) h.checkpoint_region _))
      ∙ read_wal_loop-IsLog is_crc is_codec h.is_log (fuel - length es) front h.rest wal_end offset
          (omega (
            arith,
            start,
            h.header.wal_offset,
            length-Describes formats h.header,
            length-append (header_bytes f.header) h.checkpoint_region,
          ))
          (omega arith)
          (omega (arith, ending, start, h.header.wal_offset, length-Holds formats h, h.small))
      ∙ ap (λ r. r >>= λ more. ok (es ++ more))
          (read_wal_loop_end (fuel - length es) file wal_end (offset + length h.wal_region)
            (omega arith))
      ∙ ap ok (append-nil es)

  -- The log of a file is read back, sorted by LSN; the fuel is enough.
  pub read_wal_entries-Holds :
      IsCrc formats
      → IsCodec formats.entry
      → {f : DbFile} {checkpoint : Option (GraphCheckpoint V)} {es : List (RedoEntry V)}
      → Holds formats f checkpoint es
      → read_wal_entries formats f ≡ ok (sort_by_lsn es)
  unfolding sort_by_lsn
  read_wal_entries-Holds is_crc is_codec {f} {es} h =
      let d = h.header in
      let wal_end = f.header.wal_offset + f.header.wal_length in
      let no_wrap : add_u64 f.header.wal_offset f.header.wal_length ≡ wal_end =
        omega (arith, d.wal_offset, d.wal_length, length-Holds formats h, h.small) in
      elim (Bool-cases (f.header.wal_length == 0)) [
        | inl empty ↦
            read_wal_none f ((==_iff f.header.wal_length 0).0 empty)
            ∙ ap (λ l. ok (sort_by_lsn l)) {x = []}
                (sym (IsLog-no_bytes h.is_log (ground (arith, empty, d.wal_length))))
        | inr long ↦ elim h.wal_flag [
          | inl marked ↦
              read_wal_some f marked long wal_end no_wrap
              ∙ ap (λ r. r >>= λ entries. ok (sort_by_lsn entries))
                  (read_wal_loop-Holds is_crc is_codec h (wal_end - f.header.wal_offset)
                    f.header.wal_offset wal_end (omega (arith, length-IsLog h.is_log, d.wal_length))
                    refl (omega (arith, d.wal_length)))
          | inr none_yet ↦
              absurd (ground (arith, IsLog-no_entries h.is_log none_yet, d.wal_length, long))
        ]
      ]
