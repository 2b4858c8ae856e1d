-- ===== src/Storage.antt =====
-- The crate minigu/storage: the data model, the transactional store, the log and the file.
pub mod DbFile
pub mod Error
pub mod Model
pub mod Tp
pub mod Wal
