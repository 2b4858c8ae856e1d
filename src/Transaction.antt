-- ===== src/Transaction.antt =====
-- The crate minigu/transaction: timestamps, their generators, and what threads see of them.
pub mod Timestamp
pub mod GlobalTimestamp
pub mod TransactionId
pub mod Counter
pub mod Options
mod Tests
