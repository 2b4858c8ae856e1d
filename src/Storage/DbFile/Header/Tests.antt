-- ===== src/Storage/DbFile/Header/Tests.antt =====
-- Headers of minigu/storage/src/db_file/header.rs, read and refused.
use mini_gu.Base.{ℕ, ◌<◌, ◌≤◌, ◌≡◌, ◌≢◌, refl, arith, [], ◌∷◌, ◌++◌, ok, err}
use mini_gu.Storage.DbFile.Bytes.{Bytes}
use mini_gu.Storage.DbFile.Error.{invalid_magic, unsupported_version, header_checksum_mismatch}
use mini_gu.Storage.DbFile.Header
use mini_gu.Storage.DbFile.Header.{
  DbFileHeader, magic_bytes, current_version, update_crc, compute_crc, fields, header_bytes,
  read_from, write_to,
}
use mini_gu.Storage.DbFile.Header.RoundTrip.{Fits, read_from-header_bytes, read_from_refuses}
use mini_gu.Storage.DbFile.Core.Sample.{sum_of}

abbrev wrong_magic : DbFileHeader
unfolding Header.new
wrong_magic = record Header.new { magic = 73 ∷ 78 ∷ 86 ∷ 65 ∷ 76 ∷ 73 ∷ 68 ∷ 0 ∷ [] }

wrong_magic-Fits : Fits wrong_magic
unfolding wrong_magic Header.new
wrong_magic-Fits = record {
  magic = refl;
  version = omega arith;
  size = omega arith;
  flags = omega arith;
  checkpoint_offset = omega arith;
  checkpoint_length = omega arith;
  wal_offset = omega arith;
  wal_length = omega arith;
  last_lsn = omega arith;
  last_commit_ts = omega arith;
  crc = omega arith;
}

read_from_refuses_example :
    (wrong_magic.magic ≢ magic_bytes
      → read_from sum_of (header_bytes wrong_magic ++ []) ≡ err invalid_magic)
    × (wrong_magic.magic ≡ magic_bytes
        → current_version < wrong_magic.version
        → read_from sum_of (header_bytes wrong_magic ++ [])
          ≡ err (unsupported_version wrong_magic.version current_version))
    × (wrong_magic.magic ≡ magic_bytes
        → wrong_magic.version ≤ current_version
        → wrong_magic.header_crc ≢ compute_crc sum_of wrong_magic
        → read_from sum_of (header_bytes wrong_magic ++ [])
          ≡ err (header_checksum_mismatch wrong_magic.header_crc (compute_crc sum_of wrong_magic)))
read_from_refuses_example = read_from_refuses sum_of wrong_magic [] wrong_magic-Fits

abbrev zero_sum : Bytes → ℕ
zero_sum bytes = 0

new-Fits : Fits Header.new
unfolding Header.new
new-Fits = record {
  magic = refl;
  version = omega arith;
  size = omega arith;
  flags = omega arith;
  checkpoint_offset = omega arith;
  checkpoint_length = omega arith;
  wal_offset = omega arith;
  wal_length = omega arith;
  last_lsn = omega arith;
  last_commit_ts = omega arith;
  crc = omega arith;
}

read_from-header_bytes_example :
    read_from zero_sum (header_bytes Header.new ++ (5 ∷ [])) ≡ ok Header.new
unfolding Header.new compute_crc
read_from-header_bytes_example =
    read_from-header_bytes zero_sum Header.new (5 ∷ []) new-Fits refl (omega arith) refl
