-- ===== src/Executor.antt =====
-- Executors of minigu/gql/execution/src/executor and the chunks that they pass on.
pub mod Chunk
pub mod Limit
pub mod Offset
mod Tests
