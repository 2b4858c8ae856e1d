-- ===== src/Storage/Tp.antt =====
-- The transactional store of minigu/storage/src/tp.
pub mod Chain
pub mod Txn
pub mod Graph
pub mod Guard
pub mod VertexRead
pub mod EdgeRead
pub mod Store
pub mod VertexWrite
pub mod EdgeWrite
pub mod Delete
pub mod Rollback
pub mod Persistence
pub mod Promote
pub mod Isolation
pub mod Iterators
pub mod Adjacency
pub mod Manager
pub mod Optimistic
pub mod Checkpoint
pub mod Commit
pub mod Recovery
mod Tests
