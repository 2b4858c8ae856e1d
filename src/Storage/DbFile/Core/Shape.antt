-- ===== src/Storage/DbFile/Core/Shape.antt =====
-- What a database file of minigu/storage/src/db_file/core.rs consists of.
use mini_gu.Base.{
  ok, ltb, ℕ, zero, suc, ◌+◌, ◌-◌, ◌≡◌, ◌⊎◌, refl, sym, ap, ◌∙◌, arith, true, false, Option, none,
  some, List, [], ◌∷◌, ◌++◌, length, length-append, take, drop,
}
use mini_gu.Base.Slices.{take-length, drop-length, drop-drop}
use mathlib.Core.List.{append_assoc}
use mini_gu.Transaction.Timestamp.{IsU64}
use mini_gu.Storage.Wal.{RedoEntry}
use mini_gu.Storage.Tp.Checkpoint.{GraphCheckpoint}
use mini_gu.Storage.DbFile.Bytes.{Bytes, IsU32, zeros, length-to_le_bytes, write_at}
use mini_gu.Storage.DbFile.Flags.{IsFlags, has, has_checkpoint, has_wal}
use mini_gu.Storage.DbFile.Header.{
  DbFileHeader, magic_bytes, header_size, current_version, compute_crc, fields, header_bytes,
  write_to,
}
use mini_gu.Storage.DbFile.Header.RoundTrip.{Fits, read_from-header_bytes}
use mini_gu.Storage.DbFile.Core.{Formats, DbFile, record_bytes, write_header, open_existing}

pub length-zeros : (n : ℕ) → length (zeros n) ≡ n
length-zeros zero = refl
length-zeros (suc n) = ap suc (length-zeros n)

-- A write at the end of a prefix.
pub write_at-append :
    (xs ys bytes : Bytes) (offset : ℕ)
    → offset ≡ length xs
    → write_at (xs ++ ys) offset bytes ≡ xs ++ (bytes ++ drop (length bytes) ys)
unfolding write_at
write_at-append xs ys bytes offset at =
    let n = length bytes in
    ap
      (λ k.
        take k (xs ++ ys) ++ (zeros (k - length (xs ++ ys)) ++ (bytes ++ drop (k + n) (xs ++ ys))))
      at
    ∙ rw (take-length xs ys, no_gap, sym (drop-drop n (length xs) (xs ++ ys)), drop-length xs ys)
        refl
  where
    no_gap : length xs - length (xs ++ ys) ≡ 0
    no_gap = omega (arith, length-append xs ys)

pub length_regions :
    (header first second rest : Bytes)
    → length (header ++ (first ++ (second ++ rest)))
      ≡ length header + length first + length second + length rest
length_regions header first second rest = simp length-append (omega arith)

-- A write behind three regions, over the fourth.
pub write_at-regions :
    (header first second rest bytes : Bytes) (offset : ℕ)
    → offset ≡ length header + length first + length second
    → write_at (header ++ (first ++ (second ++ rest))) offset bytes
      ≡ header ++ (first ++ ((second ++ bytes) ++ drop (length bytes) rest))
write_at-regions header first second rest bytes offset at =
    ap (λ b. write_at b offset bytes) {x = header ++ (first ++ (second ++ rest))}
      {y = (header ++ (first ++ second)) ++ rest} (simp append_assoc refl)
    ∙ write_at-append (header ++ (first ++ second)) rest bytes offset
        (omega (arith, at, length-append header (first ++ second), length-append first second))
    ∙ simp append_assoc refl

pub length-header_bytes :
    (h : DbFileHeader)
    → length h.magic ≡ 8
    → h.header_size ≡ header_size
    → length (header_bytes h) ≡ 256
unfolding header_bytes fields
length-header_bytes h m s =
    simp (length-append, length-to_le_bytes, length-zeros, m) (omega (arith, s))

write_at_start :
    (xs ys bytes : Bytes) → length bytes ≡ length xs → write_at (xs ++ ys) 0 bytes ≡ bytes ++ ys
unfolding write_at
write_at_start xs ys bytes same =
    rw (no_gap) (ap (λ l. bytes ++ l) (ap (λ k. drop k (xs ++ ys)) along ∙ drop-length xs ys))
  where
    no_gap : 0 - length (xs ++ ys) ≡ 0
    no_gap = omega arith

    along : 0 + length bytes ≡ length xs
    along = omega (arith, same)

-- The header goes over a header.
pub write_header-append :
    (h h' : DbFileHeader) (body : Bytes)
    → length (header_bytes h) ≡ 256
    → length (header_bytes h') ≡ 256
    → h'.header_size ≡ header_size
    → write_header (record { file = header_bytes h ++ body; header = h' })
      ≡ ok (record { file = header_bytes h' ++ body; header = h' })
unfolding write_header write_to
write_header-append h h' body old young size =
    rw (fits, write_at_start (header_bytes h) body (header_bytes h') (omega (arith, old, young)))
      refl
  where
    fits : ltb h'.header_size 72 ≡ false
    fits = ground (arith, size)

module _ {V : Type 0} (formats : Formats V) where
  -- The records of a log, one behind the other; the length of each fits its four bytes.
  pub data IsLog : List (RedoEntry V) → Bytes → Type 0 where
    nil : IsLog [] []
    cons :
        {entry : RedoEntry V} {es : List (RedoEntry V)} {payload bytes : Bytes}
        → formats.entry.to_bytes entry ≡ some payload
        → IsU32 (length payload)
        → IsU64 entry.lsn
        → IsLog es bytes
        → IsLog (entry ∷ es) (record_bytes formats payload ++ bytes)

  pub data IsCheckpoint : Option (GraphCheckpoint V) → Bytes → Type 0 where
    nothing : IsCheckpoint none []
    just :
        {checkpoint : GraphCheckpoint V} {payload : Bytes}
        → formats.checkpoint.to_bytes checkpoint ≡ some payload
        → IsU32 (length payload)
        → IsCheckpoint (some checkpoint) (record_bytes formats payload)

  -- A header of a file with a checkpoint of `c` bytes and a log of `n` bytes.
  pub record Describes (h : DbFileHeader) (c n : ℕ) : Type 0 where
    pub magic : h.magic ≡ magic_bytes
    pub version : h.version ≡ current_version
    pub size : h.header_size ≡ header_size
    pub flags : IsFlags h.flags
    pub checkpoint_offset : h.checkpoint_offset ≡ 256
    pub checkpoint_length : h.checkpoint_length ≡ c
    pub wal_offset : h.wal_offset ≡ 256 + c
    pub wal_length : h.wal_length ≡ n
    pub last_lsn : IsU64 h.last_lsn
    pub last_commit_ts : IsU64 h.last_commit_ts
    pub crc : h.header_crc ≡ compute_crc formats.crc32 h

  -- The file holds the checkpoint and the log; what stands behind the log counts for nothing.
  pub record Holds (f : DbFile) (checkpoint : Option (GraphCheckpoint V)) (es : List (RedoEntry V))
      : Type 0 where
    pub checkpoint_region : Bytes
    pub wal_region : Bytes
    pub rest : Bytes
    pub shape : f.file ≡ header_bytes f.header ++ (checkpoint_region ++ (wal_region ++ rest))
    pub is_checkpoint : IsCheckpoint checkpoint checkpoint_region
    pub is_log : IsLog es wal_region
    pub header : Describes f.header (length checkpoint_region) (length wal_region)
    pub small : IsU64 (length f.file)
    pub checkpoint_flag : (has f.header.flags has_checkpoint ≡ true) ⊎ (checkpoint ≡ none)
    pub wal_flag : (has f.header.flags has_wal ≡ true) ⊎ (es ≡ [])

  pub length-Describes :
      {h : DbFileHeader} {c n : ℕ} → Describes h c n → length (header_bytes h) ≡ 256
  length-Describes {h} d = length-header_bytes h (ap length d.magic) d.size

  -- `crc32fast` gives a `u32`.
  abbrev pub IsCrc : Type 0
  IsCrc = (bytes : Bytes) → IsU32 (formats.crc32 bytes)

  pub length-Holds :
      {f : DbFile} {checkpoint : Option (GraphCheckpoint V)} {es : List (RedoEntry V)}
      (h : Holds f checkpoint es)
      → length f.file ≡ 256 + length h.checkpoint_region + length h.wal_region + length h.rest
  length-Holds {f} h =
      ap length h.shape
      ∙ omega (
        arith,
        length-Describes h.header,
        length_regions (header_bytes f.header) h.checkpoint_region h.wal_region h.rest,
      )

  Fits-Holds :
      IsCrc
      → {f : DbFile} {checkpoint : Option (GraphCheckpoint V)} {es : List (RedoEntry V)}
      → Holds f checkpoint es
      → Fits f.header
  unfolding compute_crc
  Fits-Holds is_crc {f} h =
      let d = h.header in
      let size = length-Holds h in
      record {
        magic = ap length d.magic;
        version = omega (arith, d.version);
        size = omega (arith, d.size);
        flags = omega (arith, d.flags);
        checkpoint_offset = omega (arith, d.checkpoint_offset);
        checkpoint_length = omega (arith, d.checkpoint_length, size, h.small);
        wal_offset = omega (arith, d.wal_offset, size, h.small);
        wal_length = omega (arith, d.wal_length, size, h.small);
        last_lsn = d.last_lsn;
        last_commit_ts = d.last_commit_ts;
        crc = omega (arith, d.crc, is_crc (fields f.header []));
      }

  -- What was written is found again when the file is opened.
  pub open_existing-Holds :
      IsCrc
      → {f : DbFile} {checkpoint : Option (GraphCheckpoint V)} {es : List (RedoEntry V)}
      → Holds f checkpoint es
      → open_existing formats f.file ≡ ok f
  unfolding open_existing
  open_existing-Holds is_crc {f} h =
      ap (open_existing formats) h.shape
      ∙ rw
          (read_from-header_bytes formats.crc32 f.header _ (Fits-Holds is_crc h) h.header.magic
            (omega (arith, h.header.version)) h.header.crc)
          (ap (λ b. ok (record { file = b; header = f.header })) (sym h.shape))
