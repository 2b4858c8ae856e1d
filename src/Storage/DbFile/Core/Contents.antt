-- ===== src/Storage/DbFile/Core/Contents.antt =====
-- What a database file of minigu/storage/src/db_file/core.rs promises: a checkpoint and the log since.
use mini_gu.Base.{
  ℕ, ◌+◌, ◌^◌, ◌≤◌, ◌<◌, ◌≡◌, refl, sym, arith, inr, Option, none, some, List, [], ◌∷◌, ◌++◌, All,
  length, length-append, drop, ok, ◌>>=◌,
}
use mini_gu.Base.Slices.{length-drop}
use mini_gu.Transaction.Timestamp.{IsU64}
use mini_gu.Storage.Wal.{RedoEntry}
use mini_gu.Storage.Tp.Checkpoint.{GraphCheckpoint}
use mini_gu.Storage.DbFile.Bytes.{Bytes, IsU32, write_at}
use mini_gu.Storage.DbFile.Error.{DbFileResult}
use mini_gu.Storage.DbFile.Header
use mini_gu.Storage.DbFile.Header.{DbFileHeader, update_crc, header_bytes, write_to}
use mini_gu.Storage.DbFile.Core.{
  Formats, DbFile, create, open_existing, write_header, write_checkpoint, append_wal,
  read_checkpoint, read_wal_entries, sort_by_lsn, truncate_wal_until,
}
use mini_gu.Storage.DbFile.Core.Shape.{
  nil, nothing, Describes, Holds, IsCrc, length-Holds, length-Describes, open_existing-Holds,
}
use mini_gu.Storage.DbFile.Core.Appended.{compute_crc-update_crc, append_wal-Holds}
use mini_gu.Storage.DbFile.Core.Checkpointed.{write_checkpoint-Holds}
use mini_gu.Storage.DbFile.Core.Record.{IsCodec, read_checkpoint-Holds}
use mini_gu.Storage.DbFile.Core.Read.{read_wal_entries-Holds}
use mini_gu.Storage.DbFile.Core.Sizes.{Storable}
use mini_gu.Storage.DbFile.Core.Truncated.{left_over, truncate_wal_until-Holds}

-- `reopen` is the end of the process and a new one that opens the file.
pub data Command (V : Type 0) : Type 0 where
  append : RedoEntry V → Command V
  checkpoint_to : GraphCheckpoint V → Command V
  truncate : ℕ → Command V
  reopen : Command V

pub record Contents (V : Type 0) : Type 0 where
  pub checkpoint : Option (GraphCheckpoint V)
  pub log : List (RedoEntry V)

module _ {V : Type 0} where
  -- What the commands mean.
  unfoldable pub perform : Command V → Contents V → Contents V
  perform (append entry) c = record c { log = c.log ++ (entry ∷ []) }
  perform (checkpoint_to checkpoint) c = record { checkpoint = some checkpoint; log = [] }
  perform (truncate min_lsn) c = record c { log = left_over min_lsn c.log }
  perform reopen c = c

  unfoldable pub perform_all : List (Command V) → Contents V → Contents V
  unfolding perform
  perform_all [] c = c
  perform_all (command ∷ rest) c = perform_all rest (perform command c)

module _ {V : Type 0} (formats : Formats V) where
  -- What they do.
  unfoldable pub execute : Command V → DbFile → DbFileResult DbFile
  execute (append entry) f = append_wal formats f entry
  execute (checkpoint_to checkpoint) f = write_checkpoint formats f checkpoint
  execute (truncate min_lsn) f = truncate_wal_until formats f min_lsn >>= λ (removed, f'). ok f'
  execute reopen f = open_existing formats f.file

  unfoldable pub execute_all : List (Command V) → DbFile → DbFileResult DbFile
  unfolding execute
  execute_all [] f = ok f
  execute_all (command ∷ rest) f = execute command f >>= λ f'. execute_all rest f'

  pub record StorableCheckpoint (checkpoint : GraphCheckpoint V) : Type 0 where
    pub payload : Bytes
    pub encoded : formats.checkpoint.to_bytes checkpoint ≡ some payload
    pub short : IsU32 (length payload)
    pub lsn : IsU64 checkpoint.metadata.lsn
    pub latest_commit_ts : IsU64 checkpoint.metadata.latest_commit_ts

  -- What is stored can be encoded, in less than 4 GiB, and its numbers are 64 bits wide.
  abbrev pub IsStorable : Command V → Type 0
  IsStorable (append entry) = Storable formats entry
  IsStorable (checkpoint_to checkpoint) = StorableCheckpoint checkpoint
  IsStorable (truncate min_lsn) = Unit
  IsStorable reopen = Unit

  -- The bytes by which a command can make the file longer.
  abbrev room : Option Bytes → ℕ
  room none = 0
  room (some payload) = 8 + length payload

  abbrev needs : Command V → ℕ
  needs (append entry) = room (formats.entry.to_bytes entry)
  needs (checkpoint_to checkpoint) = room (formats.checkpoint.to_bytes checkpoint)
  needs (truncate min_lsn) = 0
  needs reopen = 0

  abbrev pub needs_all : List (Command V) → ℕ
  needs_all [] = 0
  needs_all (command ∷ rest) = needs command + needs_all rest

  abbrev HoldsContents : DbFile → Contents V → Type 0
  HoldsContents f c = Holds formats f c.checkpoint c.log

  execute-Holds :
      IsCrc formats
      → IsCodec formats.entry
      → (command : Command V) {f : DbFile} {c : Contents V} → HoldsContents f c
      → IsStorable command
      → length f.file + needs command < 2 ^ 64
      → (f' : DbFile) × (execute command f ≡ ok f')
        × HoldsContents f' (perform command c)
        × (length f'.file ≤ length f.file + needs command)
  unfolding execute perform
  execute-Holds is_crc is_codec (append entry) {f} h s small =
      let size : needs (append entry) ≡ 8 + length s.payload = rw s.encoded refl in
      let d = h.header in
      let total = length-Holds formats h in
      let (f', done, h', bound, _) =
        append_wal-Holds formats is_crc h entry s.payload s.encoded s.short s.lsn
          (omega (arith, d.wal_offset, d.wal_length, total, size, small)) in
      (f', done, h', omega (arith, bound, d.wal_offset, d.wal_length, total, size))
  execute-Holds is_crc is_codec (checkpoint_to checkpoint) {f} h s small =
      let size : needs (checkpoint_to checkpoint) ≡ 8 + length s.payload = rw s.encoded refl in
      let (f', done, h', bound) =
        write_checkpoint-Holds formats h checkpoint s.payload s.encoded s.short s.lsn
          s.latest_commit_ts in
      (f', done, h', omega (arith, bound, length-Holds formats h, size))
  execute-Holds is_crc is_codec (truncate min_lsn) {f} h s small =
      let (f', done, h', bound) = truncate_wal_until-Holds formats is_crc is_codec h min_lsn in
      (f', rw done refl, h', omega (arith, bound))
  execute-Holds is_crc is_codec reopen {f} h s small =
      (f, open_existing-Holds formats is_crc h, h, omega arith)

  execute_all-Holds :
      IsCrc formats
      → IsCodec formats.entry
      → (commands : List (Command V)) {f : DbFile} {c : Contents V} → HoldsContents f c
      → All IsStorable commands
      → length f.file + needs_all commands < 2 ^ 64
      → (f' : DbFile) × (execute_all commands f ≡ ok f') × HoldsContents f' (perform_all commands c)
  unfolding execute_all perform_all
  execute_all-Holds is_crc is_codec [] {f} h all small = (f, refl, h)
  execute_all-Holds is_crc is_codec (command ∷ rest) {f} {c} h (s, all) small =
      let (f', done, h', bound) =
        execute-Holds is_crc is_codec command {c = c} h s (omega (arith, small)) in
      let (f'', more, h'') =
        execute_all-Holds is_crc is_codec rest {c = perform command c} h' all
          (omega (arith, small, bound)) in
      (f'', rw done more, h'')

  create-Holds :
      (f : DbFile) × (create formats none ≡ ok f) × Holds formats f none [] × (length f.file ≡ 256)
  unfolding create write_header write_to write_at update_crc Header.new
  create-Holds =
      let h = update_crc formats.crc32 Header.new in
      let described : Describes formats h 0 0 = record {
        magic = refl;
        version = refl;
        size = refl;
        flags = omega arith;
        checkpoint_offset = refl;
        checkpoint_length = refl;
        wal_offset = refl;
        wal_length = refl;
        last_lsn = omega arith;
        last_commit_ts = omega arith;
        crc = sym (compute_crc-update_crc formats Header.new);
      } in
      let rest = drop {A = ℕ} (0 + length (header_bytes h)) [] in
      let size : length (header_bytes h ++ rest) ≡ 256 = omega (
        arith,
        length-append (header_bytes h) rest,
        length-Describes formats described,
        length-drop {R = ℕ} (0 + length (header_bytes h)) [],
      ) in
      (
        record { file = header_bytes h ++ rest; header = h },
        refl,
        record {
          checkpoint_region = [];
          wal_region = [];
          rest = rest;
          shape = refl;
          is_checkpoint = nothing;
          is_log = nil;
          header = described;
          small = omega (arith, size);
          checkpoint_flag = inr refl;
          wal_flag = inr refl;
        },
        size,
      )

  -- A database file keeps what is stored in it: after any commands on a new file, opening the file
  -- gives the same state again, the checkpoint read is the last one written, and the entries read are,
  -- in order of their LSN, those appended since and not truncated; and every command succeeds. CRC-32
  -- is to give 32 bits and the serialization to be invertible, each entry and checkpoint to be
  -- serialized in less than 4 GiB and to have numbers of 64 bits, and all together to fit a file.
  pub execute_all-perform_all :
      IsCrc formats
      → IsCodec formats.entry
      → IsCodec formats.checkpoint
      → (commands : List (Command V)) → All IsStorable commands
      → 256 + needs_all commands < 2 ^ 64
      → (f : DbFile) × ((create formats none >>= λ f0. execute_all commands f0) ≡ ok f)
        × (open_existing formats f.file ≡ ok f)
        × (read_checkpoint formats f
            ≡ ok (perform_all commands (record { checkpoint = none; log = [] })).checkpoint)
        × (read_wal_entries formats f
            ≡ ok (sort_by_lsn (perform_all commands (record { checkpoint = none; log = [] })).log))
  execute_all-perform_all is_crc is_entry is_checkpoint commands all small =
      let (f0, made, h0, size) = create-Holds in
      let (f, done, h) =
        execute_all-Holds is_crc is_entry commands {c = record { checkpoint = none; log = [] }} h0
          all (omega (arith, size, small)) in
      (
        f,
        rw made done,
        open_existing-Holds formats is_crc h,
        read_checkpoint-Holds formats is_crc is_checkpoint h,
        read_wal_entries-Holds formats is_crc is_entry h,
      )
