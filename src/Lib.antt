-- ===== src/Lib.antt =====
-- The transactional core of the graph database in this repository: timestamps, the multi-version
-- store with its transactions and its recovery, and executors that cut a result.
--
-- Parts and files (paths from the repository's root):
--
-- Transaction: minigu/transaction/src. Timestamp has the `u64` timestamps, whose bit 63 tells
--   transaction ids from commit timestamps; GlobalTimestamp and TransactionId the two generators,
--   one definition per method, their state the counter; Counter the compare-exchange loop they share
--   and Counter/Race threads that run it, a step for each load, exchange and `fetch_max`; Options the
--   isolation levels and lock strategies.
-- Storage/Model: minigu/storage/src/common. Vertices, edges, property records and deltas; an index
--   out of range, which panics in the source, is the error `panicked`. Storage/Wal has the redo
--   entries, Storage/Error the errors without their messages.
-- Storage/Tp: minigu/storage/src/tp. Graph has the maps of `MemoryGraph`, Chain the version chains and
--   the walk along one, Txn the state of a transaction, Txn/Intent its write intents, Guard the
--   conflict checks. VertexRead and EdgeRead are the reads; VertexWrite, EdgeWrite and Delete the
--   writes, over a store of the graph and the running transaction (Store), each under both lock
--   strategies. Promote and Rollback are the loops of a commit and of an abort over the undo buffer,
--   with Rollback/Restore, Rollback/Deleted and Rollback/Repeated about what an abort leaves;
--   Isolation and Isolation/Committed are about what other transactions read meanwhile. Recovery is
--   the replay of the log, over an interface of the calls that it makes, which Recovery/Live fills
--   with the modelled operations. Manager is the transaction manager (txn_manager.rs), its state and
--   the begin, with Manager/Collect for garbage collection and Manager/Finish for the ends of a
--   transaction, `finish_transaction`, `abort_at` and `commit_pessimistic`; Manager/Watermark and
--   Manager/Ends are about begins and ends. Optimistic is the first phase of `commit_optimistic`,
--   Optimistic/Apply and Optimistic/Publish are the others; Commit is `commit_at`, which chooses
--   between the two commits, and `validate_read_sets`. Iterators has the scans of vertices and edges
--   (iterators/), one definition for both, over the keys in the order in which the concurrent map
--   visits them; Iterators/Whole, Iterators/Reference and Iterators/Complete compare them with a scan
--   that is no iterator. Adjacency has the set of neighbours that an adjacency iterator runs over,
--   with the transaction's own writes, and Adjacency/Iterator its batches, with one unit of fuel for
--   each; Adjacency/Batches is about that fuel. Checkpoint is checkpoint.rs: Checkpoint/Restore and
--   Checkpoint/Restart are about what a restored checkpoint gives. Persistence is the interface of
--   the providers, the one in memory and the one on a database file, and the operations of
--   `MemoryGraph` that write a checkpoint and recover from one; Persistence/Restored puts both
--   together.
-- Storage/DbFile: minigu/storage/src/db_file. Bytes has the little-endian numbers and the reads and
--   writes at an offset, Flags and Header the header (header.rs), Core the operations of `DbFile`
--   (core.rs). Core/Shape says what a file consists of; Core/Appended, Core/Checkpointed, Core/Sizes
--   and Core/Truncated are about the writes, Core/Record and Core/Read about the reads,
--   Core/Contents about sequences of commands, Core/Torn, Core/Damaged and Core/Terminates about
--   files that a crash or a fault left.
-- Executor: minigu/gql/execution/src/executor/limit.rs and offset.rs, over the chunks of
--   minigu/common/src/data_chunk/mod.rs.
--
-- How they interact: a write checks the head's stamp (Guard), puts the transaction's id on the head
-- and an inverse delta behind it; a read takes the head if its stamp is the transaction's own or a
-- timestamp by its start, and walks the deltas otherwise; a commit puts a timestamp in place of the
-- id; an abort applies the inverse deltas.
--
-- Representation. Identifiers, timestamps and indices are numbers; where a bound of `u64` matters it
-- is a hypothesis. A property value is of a type `V`, which the store only moves, and compares by a
-- parameter `differs` in a commit under optimistic locking. The concurrent maps are functions or
-- association lists, the skip sets lists. A weak pointer to an undo entry is what it points to
-- (Storage/Model/Delta), since entries never change; that garbage collection frees the entries of
-- expired transactions, so that the pointers to them dangle, is left out. Each operation runs alone,
-- as under the locks that the source holds; threads are modelled for the generators only. Recursion is
-- structural but for two loops: the one that reads the log of a file, whose fuel is the length of the
-- log, since every round takes eight bytes at least, and the one over the batches of an adjacency
-- iterator, for which one unit more than there are entries left to load is enough.
--
-- A file is the list of its bytes. CRC-32 (crc32fast) and the serialization (postcard) are parameters,
-- of which the theorems ask that the first gives 32 bits and the second can be inverted. Writes do not
-- fail; a crash is a file on which only a part of the writes was done.
--
-- Not modelled: the vector index and its third-party library, the
-- catalog, parser, planner, other executors, shells.
mod Base
pub mod Transaction
pub mod Storage
pub mod Executor
