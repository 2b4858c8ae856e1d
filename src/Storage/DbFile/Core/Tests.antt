-- ===== src/Storage/DbFile/Core/Tests.antt =====
-- Runs of minigu/storage/src/db_file with a checksum and a serialization that are easy to compute.
use mini_gu.Base.{
  ℕ, ◌+◌, sym, ap, ◌∙◌, ◌<◌, ◌≤◌, ◌≡◌, ◌≢◌, refl, arith, none, List, [], ◌∷◌, ◌++◌, All, inl, inr,
  length, take, ok, err, ◌>>=◌,
}
use mini_gu.Storage.Tp.Checkpoint.{GraphCheckpoint}
use mini_gu.Storage.DbFile.Bytes.{Bytes, to_le_bytes, write_at}
use mini_gu.Storage.DbFile.Error.{io, unexpected_eof, wal_checksum_mismatch, out_of_fuel}
use mini_gu.Storage.DbFile.Flags.{has}
use mini_gu.Storage.DbFile.Header
use mini_gu.Storage.DbFile.Header.{
  DbFileHeader, magic_bytes, current_version, update_crc, compute_crc, fields, header_bytes,
  read_from, write_to,
}
use mini_gu.Storage.DbFile.Core.{
  DbFile, record_bytes, create, open_existing, read_checkpoint, read_wal_entries, sort_by_lsn,
  retained,
}
use mini_gu.Storage.DbFile.Core.Shape.{
  nil, cons, nothing, Describes, Holds, length_regions, length-Describes,
}
use mini_gu.Storage.DbFile.Core.Appended.{compute_crc-update_crc}
use mini_gu.Storage.DbFile.Core.Contents.{
  Command, append, checkpoint_to, truncate, reopen, perform, perform_all, execute_all, IsStorable,
  execute_all-perform_all,
}
use mini_gu.Storage.DbFile.Core.Sizes.{Storable}
use mini_gu.Storage.DbFile.Core.Truncated.{left_over}
use mini_gu.Storage.DbFile.Core.Torn.{write_at-read_wal_entries}
use mini_gu.Storage.DbFile.Core.Damaged.{Damaged, read_wal_entries_torn, read_wal_entries_corrupt}
use mini_gu.Storage.DbFile.Core.Terminates.{read_wal_entries-IsFueled}
use mini_gu.Storage.DbFile.Core.Sample.{
  simple, sum_of, empty_checkpoint, simple-IsCrc, simple_entries, simple_checkpoints, abort_entry,
}

abbrev at_four : GraphCheckpoint ℕ
at_four = empty_checkpoint (record { timestamp = 9; lsn = 4; latest_commit_ts = 2; version = 1 })

abbrev session : List (Command ℕ)
session =
    append (abort_entry 1)
    ∷ checkpoint_to at_four
    ∷ append (abort_entry 6)
    ∷ append (abort_entry 5)
    ∷ append (abort_entry 4)
    ∷ reopen
    ∷ truncate 5
    ∷ []

Storable-abort : (lsn : ℕ) → lsn < 100 → Storable simple (abort_entry lsn)
Storable-abort lsn h = record {
  payload = lsn ∷ 7 ∷ [];
  encoded = refl;
  short = omega arith;
  lsn = omega arith;
}

session-IsStorable : All (IsStorable simple) session
session-IsStorable = (
  Storable-abort 1 (omega arith),
  (
    record {
      payload = 9 ∷ 4 ∷ 2 ∷ 1 ∷ [];
      encoded = refl;
      short = omega arith;
      lsn = omega arith;
      latest_commit_ts = omega arith;
    },
    (
      Storable-abort 6 (omega arith),
      (Storable-abort 5 (omega arith), (Storable-abort 4 (omega arith), (tt, (tt, tt)))),
    ),
  ),
)

-- The entries 5 and 6 are left of the session.
session_log :
    (perform_all session (record { checkpoint = none; log = [] })).log
    ≡ abort_entry 5 ∷ abort_entry 6 ∷ []
unfolding perform_all perform left_over sort_by_lsn retained
session_log = refl

execute_all-perform_all_example :
    (f : DbFile) × ((create simple none >>= λ f0. execute_all simple session f0) ≡ ok f)
    × (open_existing simple f.file ≡ ok f)
    × (read_checkpoint simple f
        ≡ ok (perform_all session (record { checkpoint = none; log = [] })).checkpoint)
    × (read_wal_entries simple f
        ≡ ok (sort_by_lsn (perform_all session (record { checkpoint = none; log = [] })).log))
execute_all-perform_all_example =
    execute_all-perform_all simple simple-IsCrc simple_entries simple_checkpoints session
      session-IsStorable (omega arith)

-- A file with one entry, and three bytes behind it.
abbrev one_entry_header : DbFileHeader
unfolding update_crc Header.new
one_entry_header =
    update_crc sum_of (record Header.new { wal_length = 10; flags = 2; last_lsn = 3 })

abbrev one_entry : DbFile
one_entry = record {
  file = header_bytes one_entry_header ++ (record_bytes simple (3 ∷ 7 ∷ []) ++ (1 ∷ 2 ∷ 3 ∷ []));
  header = one_entry_header;
}

one_entry-Describes : Describes simple one_entry_header 0 10
unfolding one_entry_header update_crc Header.new
one_entry-Describes = record {
  magic = refl;
  version = refl;
  size = refl;
  flags = omega arith;
  checkpoint_offset = refl;
  checkpoint_length = refl;
  wal_offset = refl;
  wal_length = refl;
  last_lsn = omega arith;
  last_commit_ts = omega arith;
  crc = sym (
      compute_crc-update_crc simple
        (record Header.new { wal_length = 10; flags = 2; last_lsn = 3 }));
}

one_entry-size : length one_entry.file ≡ 269
unfolding record_bytes to_le_bytes
one_entry-size =
    length_regions (header_bytes one_entry_header) [] (record_bytes simple (3 ∷ 7 ∷ []))
      (1 ∷ 2 ∷ 3 ∷ [])
    ∙ ap (λ (n : ℕ). n + 0 + 10 + 3) (length-Describes simple one_entry-Describes)

one_entry-Holds : Holds simple one_entry none (abort_entry 3 ∷ [])
unfolding one_entry_header update_crc Header.new has record_bytes to_le_bytes
one_entry-Holds = record {
  checkpoint_region = [];
  wal_region = record_bytes simple (3 ∷ 7 ∷ []);
  rest = 1 ∷ 2 ∷ 3 ∷ [];
  shape = refl;
  is_checkpoint = nothing;
  is_log = cons refl (omega arith) (omega arith) nil;
  header = one_entry-Describes;
  small = omega (arith, one_entry-size);
  checkpoint_flag = inr refl;
  wal_flag = inl refl;
}

-- An append was cut off after five bytes of its record.
abbrev interrupted : DbFile
unfolding one_entry_header
interrupted = record one_entry { file = write_at one_entry.file 266 (2 ∷ 0 ∷ 0 ∷ 0 ∷ 16 ∷ []) }

write_at-read_wal_entries_example :
    (open_existing simple interrupted.file ≡ ok interrupted)
    × (read_wal_entries simple interrupted ≡ ok (sort_by_lsn (abort_entry 3 ∷ [])))
unfolding interrupted one_entry_header update_crc Header.new
write_at-read_wal_entries_example =
    write_at-read_wal_entries simple simple-IsCrc simple_entries one_entry-Holds
      (2 ∷ 0 ∷ 0 ∷ 0 ∷ 16 ∷ []) (omega (arith, one_entry-size))

-- The header counts twenty bytes of log.
abbrev torn : Bytes → DbFile
unfolding Header.new
torn behind = record {
  file = header_bytes Header.new ++ (record_bytes simple (3 ∷ 7 ∷ []) ++ behind);
  header = record Header.new { wal_length = 20; flags = 2 };
}

torn-Damaged : (behind : Bytes) → Damaged simple (torn behind) (abort_entry 3 ∷ []) behind
unfolding torn Header.new has record_bytes to_le_bytes header_bytes fields
torn-Damaged behind = record {
  front = header_bytes Header.new;
  wal_region = record_bytes simple (3 ∷ 7 ∷ []);
  shape = refl;
  is_log = cons refl (omega arith) (omega arith) nil;
  start = refl;
  longer = omega arith;
  no_wrap = omega arith;
  flag = refl;
}

read_wal_entries_torn_example :
    (5 < 4
      → read_wal_entries simple (torn (take 5 (record_bytes simple (8 ∷ 8 ∷ []))))
        ≡ ok (sort_by_lsn (abort_entry 3 ∷ [])))
    × (4 ≤ 5
        → read_wal_entries simple (torn (take 5 (record_bytes simple (8 ∷ 8 ∷ []))))
          ≡ err (io unexpected_eof))
read_wal_entries_torn_example =
    read_wal_entries_torn simple simple-IsCrc simple_entries
      (torn (take 5 (record_bytes simple (8 ∷ 8 ∷ [])))) (abort_entry 3 ∷ []) (8 ∷ 8 ∷ []) 5
      (torn-Damaged (take 5 (record_bytes simple (8 ∷ 8 ∷ [])))) (omega arith) (omega arith)

-- The checksum of 8 and 8 is 16, and 17 is stored.
abbrev corrupt : Bytes
corrupt = to_le_bytes 4 2 ++ (to_le_bytes 4 17 ++ ((8 ∷ 8 ∷ []) ++ []))

read_wal_entries_corrupt_example :
    read_wal_entries simple (torn corrupt) ≡ err (wal_checksum_mismatch (256 + 10))
unfolding torn Header.new record_bytes to_le_bytes torn-Damaged
read_wal_entries_corrupt_example =
    read_wal_entries_corrupt simple simple-IsCrc simple_entries (torn corrupt) (abort_entry 3 ∷ [])
      (8 ∷ 8 ∷ []) [] 17 (torn-Damaged corrupt) (omega arith) (omega arith)
      (λ same. omega (arith, same))

read_wal_entries-IsFueled_example : read_wal_entries simple one_entry ≢ err out_of_fuel
read_wal_entries-IsFueled_example =
    read_wal_entries-IsFueled simple one_entry (omega (arith, one_entry-size))
