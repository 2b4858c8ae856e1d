-- ===== src/Storage/Tp/Persistence/Restored.antt =====
-- A checkpoint written to a database file and the recovery from it: `create_checkpoint` and
-- `with_db_file` of minigu/storage/src/tp/memory_graph.rs over `DbFilePersistence`.
use mini_gu.Base.{ℕ, ◌+◌, ◌≡◌, refl, sym, ap, subst, ◌∙◌, Bool, Option, some, List, [], ok}
use mini_gu.Storage.Wal.{RedoEntry}
use mini_gu.Storage.DbFile.Core.{
  Formats, DbFile, write_checkpoint, truncate_wal_until, sort_by_lsn, retained,
}
use mini_gu.Storage.DbFile.Core.Shape.{Holds, IsCrc, open_existing-Holds}
use mini_gu.Storage.DbFile.Core.Checkpointed.{write_checkpoint-Holds}
use mini_gu.Storage.DbFile.Core.Record.{IsCodec, read_checkpoint-Holds}
use mini_gu.Storage.DbFile.Core.Read.{read_wal_entries-Holds}
use mini_gu.Storage.DbFile.Core.Truncated.{left_over, truncate_wal_until-Holds}
use mini_gu.Storage.DbFile.Core.Contents.{StorableCheckpoint}
use mini_gu.Storage.Tp.Graph.{AdjacencyContainer}
use mini_gu.Storage.Tp.Manager.{World}
use mini_gu.Storage.Tp.Checkpoint.{GraphCheckpoint, Visited, new, restore}
use mini_gu.Storage.Tp.Checkpoint.Restore.{VisitsAll, IsEmpty, AreBacked, IsRestored, restore-new}
use mini_gu.Storage.Tp.Recovery.{apply_wal_entries, replay}
use mini_gu.Storage.Tp.Recovery.Live.{recovered}
use mini_gu.Storage.Tp.Persistence.{
  DbFilePersistence, PersistedGraph, db_file_persistence, open_manager, open_persistence,
  create_checkpoint, recover, with_db_file,
}

module _ {V : Type 0} (formats : Formats V) where
  recovered_nothing : (differs : V → V → Bool) (w : World V) → recovered differs [] w ≡ ok w
  unfolding recovered apply_wal_entries replay
  recovered_nothing differs w = refl

  -- The file after a checkpoint holds it and no entry.
  written :
      IsCrc formats
      → IsCodec formats.entry
      → {f : DbFile} {old : Option (GraphCheckpoint V)} {es : List (RedoEntry V)}
      → Holds formats f old es
      → (checkpoint : GraphCheckpoint V) → StorableCheckpoint formats checkpoint
      → (min_lsn : ℕ)
      → (f1 f2 : DbFile) × (write_checkpoint formats f checkpoint ≡ ok f1)
        × (truncate_wal_until formats f1 min_lsn ≡ ok (0, f2))
        × Holds formats f2 (some checkpoint) []
  unfolding left_over sort_by_lsn retained
  written is_crc is_codec h checkpoint s min_lsn =
      let (f1, done, h1, _) =
        write_checkpoint-Holds formats h checkpoint s.payload s.encoded s.short s.lsn
          s.latest_commit_ts in
      let (f2, cut, h2, _) = truncate_wal_until-Holds formats is_crc is_codec h1 min_lsn in
      (f1, f2, done, cut, h2)

  -- Recovery from a file that holds a checkpoint and no entry.
  reopened :
      IsCrc formats
      → IsCodec formats.entry
      → IsCodec formats.checkpoint
      → (differs : V → V → Bool) (threshold : ℕ) (fresh : World V) (f : DbFile)
        (checkpoint : GraphCheckpoint V)
      → Holds formats f (some checkpoint) []
      → (w : World V)
      → restore checkpoint (record fresh { next_lsn = f.header.last_lsn + 1 }) ≡ ok w
      → (r : PersistedGraph V DbFilePersistence) × (with_db_file formats differs threshold fresh
            (some f.file)
          ≡ ok r)
        × (r.world ≡ w)
        × (r.persistence.next_lsn ≡ w.next_lsn)
  unfolding with_db_file open_persistence open_manager recover db_file_persistence sort_by_lsn
  reopened is_crc is_entry is_checkpoint differs threshold fresh f checkpoint h w restored = (
    record {
      world = w;
      persistence = record {
        manager = record { db_file = f; auto_checkpoint_entries = 0; entries_since_checkpoint = 0 };
        next_lsn = w.next_lsn;
      };
      wal_threshold = threshold;
      wal_entries_since_checkpoint = 0;
    },
    rw
        (
          open_existing-Holds formats is_crc h,
          read_checkpoint-Holds formats is_crc is_checkpoint h,
          restored,
          read_wal_entries-Holds formats is_crc is_entry h,
          recovered_nothing differs w,
        )
        refl,
    refl,
    refl,
  )

  -- A checkpoint survives a restart: a graph that writes a checkpoint to its database file while no
  -- transaction is active, and whose file is opened by a new process with an empty graph, comes back
  -- with the newest version of every vertex and edge, their commit timestamps, the neighbours and the
  -- latest commit, and no log is left to replay. The file is to hold some checkpoint and log before;
  -- CRC-32 is to give 32 bits, the serialization to be invertible, the checkpoint to be serialized in
  -- less than 4 GiB with numbers of 64 bits, the iterators to visit every entry, and every neighbour to
  -- name an edge of its label.
  pub create_checkpoint-with_db_file :
      IsCrc formats
      → IsCodec formats.entry
      → IsCodec formats.checkpoint
      → (differs : V → V → Bool) (threshold now : ℕ) (visited : Visited)
        (g : PersistedGraph V DbFilePersistence) (old : Option (GraphCheckpoint V))
        (es : List (RedoEntry V))
      → Holds formats g.persistence.manager.db_file old es
      → g.world.manager.active_txns ≡ []
      → StorableCheckpoint formats
          (new now visited (record g.world { next_lsn = g.persistence.next_lsn }))
      → VisitsAll visited g.world.graph
      → ((k : ℕ) (adj : AdjacencyContainer)
          → g.world.graph.adjacency_list k ≡ some adj
          → AreBacked g.world.graph.edges adj)
      → (fresh : World V) → IsEmpty fresh.graph
      → (g' r : PersistedGraph V DbFilePersistence) × (create_checkpoint
            (db_file_persistence formats)
            now
            visited
            g
          ≡ some (ok (g.persistence.next_lsn, g')))
        × (with_db_file formats differs threshold fresh (some g'.persistence.manager.db_file.file)
            ≡ ok r)
        × IsRestored g.world.graph r.world.graph
        × (r.world.manager.latest_commit_ts ≡ g.world.manager.latest_commit_ts)
        × (r.persistence.next_lsn ≡ g.persistence.next_lsn + 1)
  unfolding create_checkpoint db_file_persistence new
  create_checkpoint-with_db_file is_crc is_entry is_checkpoint differs threshold now visited g old
        es h idle s all backed fresh empty =
      let lsn = g.persistence.next_lsn in
      let checkpoint = new now visited (record g.world { next_lsn = lsn }) in
      let (f1, f2, done, cut, h2) = written is_crc is_entry h checkpoint s lsn in
      let start = record fresh { next_lsn = f2.header.last_lsn + 1 } in
      let (w, restored, same, latest, next, _, _) =
        restore-new now visited (record g.world { next_lsn = lsn }) start
          (record {
            vertices = all.vertices;
            edges = all.edges;
            adjacency_list = all.adjacency_list;
          })
          (record {
            vertices = empty.vertices;
            edges = empty.edges;
            adjacency_list = empty.adjacency_list;
          })
          backed in
      let (r, opened, world, counter) =
        reopened is_crc is_entry is_checkpoint differs threshold fresh f2 checkpoint h2 w
          restored in
      let g' : PersistedGraph V DbFilePersistence = record g {
        persistence = record g.persistence {
          manager = record g.persistence.manager { db_file = f2; entries_since_checkpoint = 0 };
        };
        wal_entries_since_checkpoint = 0;
      } in
      (
        g',
        r,
        rw (idle, done, cut) refl,
        opened,
        subst (λ (u : World V). IsRestored g.world.graph u.graph) (sym world) same,
        ap (λ (u : World V). u.manager.latest_commit_ts) world ∙ latest,
        counter ∙ next,
      )
