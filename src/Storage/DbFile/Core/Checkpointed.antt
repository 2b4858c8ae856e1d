-- ===== src/Storage/DbFile/Core/Checkpointed.antt =====
-- `write_checkpoint` and `read_checkpoint` of minigu/storage/src/db_file/core.rs.
use mini_gu.Base.{
  ℕ, ◌+◌, ◌^◌, ◌≤◌, ◌<◌, ◌≡◌, refl, sym, ap, subst, ◌∙◌, arith, max, inl, inr, Option, some, List,
  [], ◌++◌, length, length-append, drop, ok,
}
use mini_gu.Base.Slices.{length-drop}
use mini_gu.Transaction.Timestamp.{IsU64}
use mini_gu.Storage.Wal.{RedoEntry}
use mini_gu.Storage.Tp.Checkpoint.{GraphCheckpoint}
use mini_gu.Storage.DbFile.Bytes.{Bytes, IsU32, add_u64, write_at}
use mini_gu.Storage.DbFile.Flags.{with_checkpoint, with_checkpoint_lem, without_wal_lem, set, clear}
use mini_gu.Storage.DbFile.Header.{DbFileHeader, update_crc, header_bytes}
use mini_gu.Storage.DbFile.Core.{
  Formats, DbFile, record_bytes, write_header, checkpointed_header, write_checkpoint,
}
use mini_gu.Storage.DbFile.Core.Shape.{
  nil, just, Describes, Holds, length-Describes, write_at-append, write_header-append,
}
use mini_gu.Storage.DbFile.Core.Appended.{length-record_bytes, compute_crc-update_crc}

module _ {V : Type 0} (formats : Formats V) where
  checkpointed-Describes :
      (h : DbFileHeader) (checkpoint : GraphCheckpoint V) (c n size : ℕ)
      → Describes formats h c n
      → IsU64 checkpoint.metadata.lsn
      → IsU64 checkpoint.metadata.latest_commit_ts
      → 256 + size < 2 ^ 64
      → Describes formats (update_crc formats.crc32 (checkpointed_header h checkpoint size)) size 0
  unfolding update_crc set clear
  checkpointed-Describes h checkpoint c n size d lsn ts small = record {
    magic = d.magic;
    version = d.version;
    size = d.size;
    flags = (without_wal_lem (with_checkpoint h.flags) (with_checkpoint_lem h.flags d.flags).2).2;
    checkpoint_offset = d.checkpoint_offset;
    checkpoint_length = refl;
    wal_offset = ap (λ k. add_u64 k size) d.checkpoint_offset ∙ omega (arith, small);
    wal_length = refl;
    last_lsn = lsn;
    last_commit_ts = ts;
    crc = sym (compute_crc-update_crc formats (checkpointed_header h checkpoint size));
  }

  -- A checkpoint can be written if it can be encoded and its length fits a `u32` and the file a
  -- `u64`. The file then holds it and an empty log, and grows at most by it.
  pub write_checkpoint-Holds :
      {f : DbFile} {old : Option (GraphCheckpoint V)} {es : List (RedoEntry V)}
      (h : Holds formats f old es) (checkpoint : GraphCheckpoint V) (payload : Bytes)
      → formats.checkpoint.to_bytes checkpoint ≡ some payload
      → IsU32 (length payload)
      → IsU64 checkpoint.metadata.lsn
      → IsU64 checkpoint.metadata.latest_commit_ts
      → (f' : DbFile) × (write_checkpoint formats f checkpoint ≡ ok f')
        × Holds formats f' (some checkpoint) []
        × (length f'.file ≤ max (length f.file) (256 + (8 + length payload)))
  unfolding write_checkpoint update_crc set clear
  write_checkpoint-Holds {f} h checkpoint payload encoded short lsn ts =
      let d = h.header in
      let size = 8 + length payload in
      let header' = update_crc formats.crc32 (checkpointed_header f.header checkpoint size) in
      let described =
        checkpointed-Describes f.header checkpoint (length h.checkpoint_region)
          (length h.wal_region) size d lsn ts (omega (arith, short)) in
      let new = record_bytes formats payload in
      let behind = h.checkpoint_region ++ (h.wal_region ++ h.rest) in
      let file' = header_bytes header' ++ (new ++ drop (length new) behind) in
      let f' : DbFile = record { file = file'; header = header' } in
      let new_size : length new ≡ size = length-record_bytes formats payload in
      let head = length-Describes formats d in
      let bound : length f'.file ≤ max (length f.file) (256 + size) = omega (
        arith,
        ap length h.shape,
        head,
        length-Describes formats described,
        new_size,
        length-append (header_bytes f.header) behind,
        length-append (header_bytes header') (new ++ drop (length new) behind),
        length-append new (drop (length new) behind),
        length-drop (length new) behind,
      ) in
      (
        f',
        rw encoded (
            ap (λ b. write_header (record { file = b; header = header' }))
              (ap (λ b. write_at b f.header.checkpoint_offset new) h.shape
                ∙ write_at-append (header_bytes f.header) behind new _
                    (omega (arith, d.checkpoint_offset, head)))
            ∙ write_header-append f.header header' _ head (length-Describes formats described)
                described.size),
        record {
          checkpoint_region = new;
          wal_region = [];
          rest = drop (length new) behind;
          shape = refl;
          is_checkpoint = just encoded short;
          is_log = nil;
          header = subst (λ c. Describes formats header' c 0) (sym new_size) described;
          small = omega (arith, bound, h.small, short);
          checkpoint_flag = inl (
              (without_wal_lem (with_checkpoint f.header.flags)
                (with_checkpoint_lem f.header.flags d.flags).2).1
              ∙ (with_checkpoint_lem f.header.flags d.flags).0);
          wal_flag = inr refl;
        },
        bound,
      )
