-- ===== src/Storage/Error.antt =====
-- The errors of minigu/storage/src/error.rs that the modelled code returns. Their messages are left
-- out.
use mini_gu.Base.{ℕ, Result}
use mini_gu.Storage.DbFile.Error.{DbFileError}
use mini_gu.Transaction.Timestamp.{Timestamp, TimestampError}

-- `panicked` is no error of the source: it is a panic of the thread, by an index out of range, by
-- `unwrap` on `None` or by `unreachable!`.
pub data StorageError : Type 0 where
  vertex_not_found : ℕ → StorageError
  vertex_tombstone : ℕ → StorageError
  vertex_already_exists : ℕ → StorageError
  edge_not_found : ℕ → StorageError
  edge_tombstone : ℕ → StorageError
  edge_already_exists : ℕ → StorageError
  write_write_conflict : StorageError
  read_write_conflict : StorageError
  version_not_visible : StorageError
  transaction_already_committed : StorageError
  transaction_not_found : Timestamp → StorageError
  timestamp : TimestampError → StorageError
  db_file : DbFileError → StorageError
  panicked : StorageError

abbrev pub StorageResult {ℓ} : Type ℓ → Type ℓ
StorageResult A = Result StorageError A
