-- ===== src/Storage/DbFile/Core.antt =====
-- `DbFile` of minigu/storage/src/db_file/core.rs. The file is its bytes; paths are left out, and so are
-- the syncs, which change nothing that is read. No write fails.
pub mod Shape
pub mod Checkpointed
pub mod Appended
pub mod Record
pub mod Read
pub mod Sizes
pub mod Truncated
pub mod Contents
pub mod Terminates
pub mod Torn
pub mod Damaged
pub mod Sample
mod Tests
use mini_gu.Base.{
  ℕ, zero, suc, ◌+◌, ◌-◌, Bool, true, false, not, Option, none, some, List, [], ◌∷◌, ◌++◌, length,
  drop, leb, ltb, ◌==◌, if◌then◌else◌, ok, err, ok_or, ◌>>=◌,
}
use mini_gu.Storage.Wal.{RedoEntry}
use mini_gu.Storage.Tp.Checkpoint.{GraphCheckpoint}
use mini_gu.Storage.DbFile.Bytes.{
  Bytes, as_u32, add_u64, to_le_bytes, read_exact, read_le, write_at,
}
use mini_gu.Storage.DbFile.Error.{
  DbFileError, DbFileResult, checkpoint_checksum_mismatch, wal_checksum_mismatch, io,
  already_exists, serialization, deserialization, out_of_fuel,
}
use mini_gu.Storage.DbFile.Flags.{has_checkpoint, has_wal, has, set, clear}
use mini_gu.Storage.DbFile.Header
use mini_gu.Storage.DbFile.Header.{DbFileHeader, update_crc, write_to, read_from}

pub record Codec (A : Type 0) : Type 0 where
  pub to_bytes : A → Option Bytes
  pub from_bytes : Bytes → Option A

-- The third-party code: the CRC-32 of `crc32fast` and the serialization of `postcard`.
pub record Formats (V : Type 0) : Type 0 where
  pub crc32 : Bytes → ℕ
  pub entry : Codec (RedoEntry V)
  pub checkpoint : Codec (GraphCheckpoint V)

pub record DbFile : Type 0 where
  pub file : Bytes
  pub header : DbFileHeader

-- `sort_by_key(|e| e.lsn)`, a stable sort, as insertions.
module _ {V : Type 0} where
  abbrev pub insert_by_lsn : RedoEntry V → List (RedoEntry V) → List (RedoEntry V)
  insert_by_lsn entry [] = entry ∷ []
  insert_by_lsn entry (other ∷ rest) =
      let further = insert_by_lsn entry rest in
      if leb entry.lsn other.lsn then entry ∷ other ∷ rest else other ∷ further

  unfoldable pub sort_by_lsn : List (RedoEntry V) → List (RedoEntry V)
  sort_by_lsn [] = []
  sort_by_lsn (entry ∷ rest) = insert_by_lsn entry (sort_by_lsn rest)

  -- `filter(|e| e.lsn >= min_lsn)`
  unfoldable pub retained : ℕ → List (RedoEntry V) → List (RedoEntry V)
  retained min_lsn [] = []
  retained min_lsn (entry ∷ rest) =
      let further = retained min_lsn rest in
      if leb min_lsn entry.lsn then entry ∷ further else further

-- The headers after a checkpoint, an append and at the start of a truncation.
module _ {V : Type 0} where
  abbrev pub checkpointed_header : DbFileHeader → GraphCheckpoint V → ℕ → DbFileHeader
  checkpointed_header h checkpoint total_size = record h {
    checkpoint_length = total_size;
    flags = clear (set h.flags has_checkpoint) has_wal;
    wal_offset = add_u64 h.checkpoint_offset total_size;
    wal_length = 0;
    last_lsn = checkpoint.metadata.lsn;
    last_commit_ts = checkpoint.metadata.latest_commit_ts;
  }

  abbrev pub appended_header : DbFileHeader → RedoEntry V → ℕ → DbFileHeader
  appended_header h entry entry_size = record h {
    wal_length = add_u64 h.wal_length entry_size;
    flags = set h.flags has_wal;
    last_lsn = entry.lsn;
  }

  abbrev pub is_empty : List (RedoEntry V) → Bool
  is_empty [] = true
  is_empty (entry ∷ rest) = false

  abbrev pub reset_header : DbFileHeader → List (RedoEntry V) → DbFileHeader
  reset_header h kept = record h {
    wal_length = 0;
    flags = if is_empty kept then clear h.flags has_wal else h.flags;
  }

unfoldable pub write_header : DbFile → DbFileResult DbFile
write_header f = write_to f.header f.file >>= λ file. ok (record f { file = file })

module _ {V : Type 0} (formats : Formats V) where
  -- A length, a checksum and the payload.
  unfoldable pub record_bytes : Bytes → Bytes
  record_bytes payload =
      to_le_bytes 4 (as_u32 (length payload)) ++ (to_le_bytes 4 (formats.crc32 payload) ++ payload)

  -- `DbFile::create` on what stands at the path, if anything does.
  unfoldable pub create : Option Bytes → DbFileResult DbFile
  create (some file) = err (io already_exists)
  create none = write_header (record { file = []; header = update_crc formats.crc32 Header.new })

  -- `DbFile::open`
  unfoldable pub open_existing : Bytes → DbFileResult DbFile
  open_existing file =
      read_from formats.crc32 file >>= λ header. ok (record { file = file; header = header })

  unfoldable pub open_or_create : Option Bytes → DbFileResult DbFile
  open_or_create (some file) = open_existing file
  open_or_create none = create none

  unfoldable pub check_crc : Bytes → ℕ → DbFileError → DbFileResult (Unit {0})
  check_crc payload stored e = if not (formats.crc32 payload == stored) then err e else ok tt

  abbrev read_checkpoint_at : Bytes → DbFileResult (Option (GraphCheckpoint V))
  read_checkpoint_at reader = read_le 4 reader >>= λ (len, r1). read_le 4 r1 >>= λ (stored_crc, r2).
      read_exact len r2 >>= λ (payload, r3).
      check_crc payload stored_crc checkpoint_checksum_mismatch >>= λ _.
      ok_or (formats.checkpoint.from_bytes payload) deserialization >>= λ checkpoint.
      ok (some checkpoint)

  unfoldable pub read_checkpoint : DbFile → DbFileResult (Option (GraphCheckpoint V))
  read_checkpoint f =
      if not (has f.header.flags has_checkpoint)
      then ok none
      else if f.header.checkpoint_length == 0
      then ok none
      else read_checkpoint_at (drop f.header.checkpoint_offset f.file)

  unfoldable pub write_checkpoint : DbFile → GraphCheckpoint V → DbFileResult DbFile
  write_checkpoint f checkpoint =
      ok_or (formats.checkpoint.to_bytes checkpoint) serialization >>= λ payload.
      write_header (record {
        file = write_at f.file f.header.checkpoint_offset (record_bytes payload);
        header =
            update_crc formats.crc32 (checkpointed_header f.header checkpoint (8 + length payload));
      })

  unfoldable pub append_wal : DbFile → RedoEntry V → DbFileResult DbFile
  append_wal f entry = ok_or (formats.entry.to_bytes entry) serialization >>= λ payload.
      write_header (record {
        file =
            write_at f.file (add_u64 f.header.wal_offset f.header.wal_length)
              (record_bytes payload);
        header = update_crc formats.crc32 (appended_header f.header entry (8 + length payload));
      })

  -- The rest of one round behind the length: the entry.
  unfoldable pub read_entry : ℕ → Bytes → ℕ → DbFileResult (RedoEntry V)
  read_entry len reader current_offset = read_le 4 reader >>= λ (stored_crc, r2).
      read_exact len r2 >>= λ (payload, r3).
      check_crc payload stored_crc (wal_checksum_mismatch current_offset) >>= λ _.
      ok_or (formats.entry.from_bytes payload) deserialization

  -- The loop of `read_wal_entries`: a length that cannot be read ends it.
  unfoldable pub read_wal_loop : ℕ → Bytes → ℕ → ℕ → DbFileResult (List (RedoEntry V))
  read_wal_loop zero file wal_end current_offset =
      if ltb current_offset wal_end then err out_of_fuel else ok []
  read_wal_loop (suc fuel) file wal_end current_offset = elim (ltb current_offset wal_end) [
    | false ↦ ok []
    | true ↦ elim (read_le 4 (drop current_offset file)) [
      | err _ ↦ ok []
      | ok (len, reader) ↦ read_entry len reader current_offset >>= λ entry.
          read_wal_loop fuel file wal_end (add_u64 current_offset (8 + len)) >>= λ entries.
          ok (entry ∷ entries)
    ]
  ]

  -- Every round moves the offset on by eight bytes at least, so the length is fuel enough.
  unfoldable pub read_wal_entries : DbFile → DbFileResult (List (RedoEntry V))
  read_wal_entries f =
      let h = f.header in
      if not (has h.flags has_wal)
      then ok []
      else if h.wal_length == 0
      then ok []
      else (let wal_end = add_u64 h.wal_offset h.wal_length in
          read_wal_loop (wal_end - h.wal_offset) f.file wal_end h.wal_offset >>= λ entries.
          ok (sort_by_lsn entries))

  unfoldable pub set_last_commit_ts : DbFile → ℕ → DbFileResult DbFile
  set_last_commit_ts f ts =
      write_header
        (record f { header = update_crc formats.crc32 (record f.header { last_commit_ts = ts }) })

  unfoldable pub append_each : DbFile → List (RedoEntry V) → DbFileResult DbFile
  append_each f [] = ok f
  append_each f (entry ∷ rest) = append_wal f entry >>= λ f'. append_each f' rest

  unfoldable pub truncate_wal_until : DbFile → ℕ → DbFileResult (ℕ × DbFile)
  truncate_wal_until f min_lsn = read_wal_entries f >>= λ all_entries.
      let kept = retained min_lsn all_entries in
      let removed_count = length all_entries - length kept in
      if removed_count == 0
      then ok (0, f)
      else (write_header
            (record f { header = update_crc formats.crc32 (reset_header f.header kept) })
          >>= λ f'. append_each f' kept >>= λ f''. ok (removed_count, f''))
