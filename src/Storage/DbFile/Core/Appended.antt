-- ===== src/Storage/DbFile/Core/Appended.antt =====
-- `append_wal` of minigu/storage/src/db_file/core.rs: the log grows by the entry.
use mini_gu.Base.{
  ℕ, ◌+◌, ◌^◌, ◌≤◌, ◌<◌, ◌≡◌, refl, sym, ap, subst, ◌∙◌, arith, max, inl, inr, Option, some, List,
  [], ◌∷◌, ◌++◌, length, length-append, drop, ok,
}
use mini_gu.Base.Slices.{length-drop}
use mathlib.Core.List.{append_assoc, append-nil}
use mini_gu.Transaction.Timestamp.{IsU64}
use mini_gu.Storage.Wal.{RedoEntry}
use mini_gu.Storage.Tp.Checkpoint.{GraphCheckpoint}
use mini_gu.Storage.DbFile.Bytes.{Bytes, IsU32, add_u64, length-to_le_bytes, write_at}
use mini_gu.Storage.DbFile.Flags.{with_wal_lem, set}
use mini_gu.Storage.DbFile.Header.{DbFileHeader, fields, compute_crc, update_crc, header_bytes}
use mini_gu.Storage.DbFile.Core.{
  Formats, DbFile, record_bytes, write_header, appended_header, append_wal,
}
use mini_gu.Storage.DbFile.Core.Shape.{
  IsLog, nil, cons, Describes, Holds, IsCrc, length-Holds, length_regions, length-Describes,
  write_at-regions, write_header-append,
}

module _ {V : Type 0} (formats : Formats V) where
  pub length-record_bytes :
      (payload : Bytes) → length (record_bytes formats payload) ≡ 8 + length payload
  unfolding record_bytes
  length-record_bytes payload = simp (length-append, length-to_le_bytes) (omega arith)

  pub IsLog-append :
      {es : List (RedoEntry V)} {bytes : Bytes} {entry : RedoEntry V} {payload : Bytes}
      → IsLog formats es bytes
      → formats.entry.to_bytes entry ≡ some payload
      → IsU32 (length payload)
      → IsU64 entry.lsn
      → IsLog formats (es ++ (entry ∷ [])) (bytes ++ record_bytes formats payload)
  IsLog-append {payload} nil e short lsn =
      subst (IsLog formats _) (append-nil (record_bytes formats payload)) (cons e short lsn nil)
  IsLog-append {payload} (cons {payload = first} {bytes} e' short' lsn' rest) e short lsn =
      subst (IsLog formats _)
        (sym (append_assoc (record_bytes formats first) bytes (record_bytes formats payload)))
        (cons e' short' lsn' (IsLog-append rest e short lsn))

  -- The checksum is of the other fields only.
  pub compute_crc-update_crc :
      (h : DbFileHeader)
      → compute_crc formats.crc32 (update_crc formats.crc32 h) ≡ compute_crc formats.crc32 h
  unfolding compute_crc update_crc fields
  compute_crc-update_crc h = refl

  appended-Describes :
      (h : DbFileHeader) (entry : RedoEntry V) (c n size : ℕ)
      → Describes formats h c n
      → IsU64 entry.lsn
      → n + size < 2 ^ 64
      → Describes formats (update_crc formats.crc32 (appended_header h entry size)) c (n + size)
  unfolding update_crc set
  appended-Describes h entry c n size d lsn small = record {
    magic = d.magic;
    version = d.version;
    size = d.size;
    flags = (with_wal_lem h.flags d.flags).2;
    checkpoint_offset = d.checkpoint_offset;
    checkpoint_length = d.checkpoint_length;
    wal_offset = d.wal_offset;
    wal_length = ap (λ k. add_u64 k size) d.wal_length ∙ omega (arith, small);
    last_lsn = lsn;
    last_commit_ts = d.last_commit_ts;
    crc = sym (compute_crc-update_crc (appended_header h entry size));
  }

  -- An append succeeds if the entry can be written and its length fits a `u32` and the file a `u64`.
  -- The file then holds one entry more, and grows at most by it.
  pub append_wal-Holds :
      IsCrc formats
      → {f : DbFile} {checkpoint : Option (GraphCheckpoint V)} {es : List (RedoEntry V)}
        (h : Holds formats f checkpoint es) (entry : RedoEntry V) (payload : Bytes)
      → formats.entry.to_bytes entry ≡ some payload
      → IsU32 (length payload)
      → IsU64 entry.lsn
      → f.header.wal_offset + f.header.wal_length + (8 + length payload) < 2 ^ 64
      → (f' : DbFile) × (append_wal formats f entry ≡ ok f')
        × Holds formats f' checkpoint (es ++ (entry ∷ []))
        × (length f'.file
            ≤ max
                (length f.file)
                (f.header.wal_offset + f.header.wal_length + (8 + length payload)))
        × (f'.header.wal_offset + f'.header.wal_length
            ≡ f.header.wal_offset + f.header.wal_length + (8 + length payload))
  unfolding append_wal update_crc set
  append_wal-Holds is_crc {f} {checkpoint} {es} h entry payload encoded short lsn small =
      let d = h.header in
      let header' =
        update_crc formats.crc32 (appended_header f.header entry (8 + length payload)) in
      let described =
        appended-Describes f.header entry (length h.checkpoint_region) (length h.wal_region)
          (8 + length payload) d lsn (omega (arith, d.wal_offset, d.wal_length)) in
      let new = record_bytes formats payload in
      let file' =
        header_bytes header'
        ++ (h.checkpoint_region ++ ((h.wal_region ++ new) ++ drop (length new) h.rest)) in
      let f' : DbFile = record { file = file'; header = header' } in
      let size : length new ≡ 8 + length payload = length-record_bytes payload in
      let head = length-Describes formats d in
      let total = length-Holds formats h in
      let log_size : length (h.wal_region ++ new) ≡ length h.wal_region + (8 + length payload) =
        omega (arith, size, length-append h.wal_region new) in
      let bound : length f'.file
          ≤ max (length f.file) (f.header.wal_offset + f.header.wal_length + (8 + length payload)) =
        omega (
          arith,
          total,
          d.wal_offset,
          d.wal_length,
          size,
          log_size,
          length-Describes formats described,
          length-drop (length new) h.rest,
          length_regions (header_bytes header') h.checkpoint_region (h.wal_region ++ new)
              (drop (length new) h.rest),
        ) in
      (
        f',
        rw encoded (
            ap (λ b. write_header (record { file = b; header = header' }))
              (ap (λ b. write_at b (add_u64 f.header.wal_offset f.header.wal_length) new) h.shape
                ∙ write_at-regions (header_bytes f.header) h.checkpoint_region h.wal_region h.rest
                    new _ (omega (arith, d.wal_offset, d.wal_length, head, small)))
            ∙ write_header-append f.header header' _ (length-Describes formats d)
                (length-Describes formats described) described.size),
        record {
          checkpoint_region = h.checkpoint_region;
          wal_region = h.wal_region ++ new;
          rest = drop (length new) h.rest;
          shape = refl;
          is_checkpoint = h.is_checkpoint;
          is_log = IsLog-append h.is_log encoded short lsn;
          header = subst (Describes formats header' _) (sym log_size) described;
          small = omega (arith, bound, h.small, small);
          checkpoint_flag = elim h.checkpoint_flag [
            | inl marked ↦ inl ((with_wal_lem f.header.flags d.flags).1 ∙ marked)
            | inr none_yet ↦ inr none_yet
          ];
          wal_flag = inl (with_wal_lem f.header.flags d.flags).0;
        },
        bound,
        omega (arith, d.wal_offset, d.wal_length, described.wal_offset, described.wal_length),
      )
