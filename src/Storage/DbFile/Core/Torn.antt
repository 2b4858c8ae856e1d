-- ===== src/Storage/DbFile/Core/Torn.antt =====
-- An append of minigu/storage/src/db_file/core.rs that a crash interrupts.
use mini_gu.Base.{
  ◌+◌, ◌^◌, ◌<◌, ◌≡◌, ap, ◌∙◌, arith, Option, List, ◌++◌, length, length-append, drop, ok,
}
use mini_gu.Base.Slices.{length-drop}
use mathlib.Core.List.{append_assoc}
use mini_gu.Storage.Wal.{RedoEntry}
use mini_gu.Storage.Tp.Checkpoint.{GraphCheckpoint}
use mini_gu.Storage.DbFile.Bytes.{Bytes, write_at}
use mini_gu.Storage.DbFile.Header.{header_bytes}
use mini_gu.Storage.DbFile.Core.{Formats, DbFile, open_existing, read_wal_entries, sort_by_lsn}
use mini_gu.Storage.DbFile.Core.Shape.{
  Holds, IsCrc, write_at-regions, length_regions, length-Holds, length-Describes,
  open_existing-Holds,
}
use mini_gu.Storage.DbFile.Core.Record.{IsCodec}
use mini_gu.Storage.DbFile.Core.Read.{read_wal_entries-Holds}

module _ {V : Type 0} (formats : Formats V) where
  -- An append that a crash interrupts before the header is written loses nothing: whatever bytes
  -- stand behind the log, opening the file gives the header as it was, and the entries read are those
  -- from before. CRC-32 is to give 32 bits, the serialization to be invertible, and the file to have
  -- less than 2^64 bytes.
  pub write_at-read_wal_entries :
      IsCrc formats
      → IsCodec formats.entry
      → {f : DbFile} {checkpoint : Option (GraphCheckpoint V)} {es : List (RedoEntry V)}
      → Holds formats f checkpoint es
      → (bytes : Bytes) → length f.file + length bytes < 2 ^ 64
      → let f' : DbFile = record f {
        file = write_at f.file (f.header.wal_offset + f.header.wal_length) bytes;
      } in
        (open_existing formats f'.file ≡ ok f')
        × (read_wal_entries formats f' ≡ ok (sort_by_lsn es))
  write_at-read_wal_entries is_crc is_codec {f} {checkpoint} {es} h bytes small =
      let d = h.header in
      let file = write_at f.file (f.header.wal_offset + f.header.wal_length) bytes in
      let shape : file
          ≡ header_bytes f.header
            ++ (h.checkpoint_region ++ (h.wal_region ++ (bytes ++ drop (length bytes) h.rest))) =
        ap (λ b. write_at b (f.header.wal_offset + f.header.wal_length) bytes) h.shape
        ∙ write_at-regions (header_bytes f.header) h.checkpoint_region h.wal_region h.rest bytes _
            (omega (arith, d.wal_offset, d.wal_length, length-Describes formats d))
        ∙ ap (λ b. header_bytes f.header ++ (h.checkpoint_region ++ b))
            (append_assoc h.wal_region bytes _) in
      let held : Holds formats (record f { file = file }) checkpoint es = record {
        checkpoint_region = h.checkpoint_region;
        wal_region = h.wal_region;
        rest = bytes ++ drop (length bytes) h.rest;
        shape = shape;
        is_checkpoint = h.is_checkpoint;
        is_log = h.is_log;
        header = d;
        small = omega (
          arith,
          ap length shape,
          length_regions (header_bytes f.header) h.checkpoint_region h.wal_region
              (bytes ++ drop (length bytes) h.rest),
          length-append bytes (drop (length bytes) h.rest),
          length-drop (length bytes) h.rest,
          length-Describes formats d,
          length-Holds formats h,
          small,
        );
        checkpoint_flag = h.checkpoint_flag;
        wal_flag = h.wal_flag;
      } in
      (open_existing-Holds formats is_crc held, read_wal_entries-Holds formats is_crc is_codec held)
