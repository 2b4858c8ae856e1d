-- ===== src/Storage/Model.antt =====
-- Vertices, edges and deltas of minigu/storage/src/common.
pub mod Props
pub mod Vertex
pub mod Edge
pub mod Delta
mod Tests
