-- ===== src/Storage/DbFile.antt =====
-- The crate's single-file format, minigu/storage/src/db_file.
pub mod Error
pub mod Bytes
pub mod Flags
pub mod Header
pub mod Core
