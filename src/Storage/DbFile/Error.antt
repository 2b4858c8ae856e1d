-- ===== src/Storage/DbFile/Error.antt =====
-- minigu/storage/src/db_file/error.rs. Messages are left out, and of the errors of the operating
-- system those that do not come from the file's contents or its existence.
use mini_gu.Base.{ℕ, Result}

pub data IoError : Type 0 where
  unexpected_eof already_exists not_found : IoError

-- `panicked` is no error of the source: it is a panic of the thread. `out_of_fuel` is none either:
-- the loop of `read_wal_entries` did not end in the rounds that it was given.
pub data DbFileError : Type 0 where
  invalid_magic : DbFileError
  unsupported_version : ℕ → ℕ → DbFileError
  header_checksum_mismatch : ℕ → ℕ → DbFileError
  checkpoint_checksum_mismatch : DbFileError
  wal_checksum_mismatch : ℕ → DbFileError
  io : IoError → DbFileError
  serialization : DbFileError
  deserialization : DbFileError
  invalid_file : DbFileError
  panicked : DbFileError
  out_of_fuel : DbFileError

abbrev pub DbFileResult {ℓ} : Type ℓ → Type ℓ
DbFileResult A = Result DbFileError A
