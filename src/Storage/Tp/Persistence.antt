-- ===== src/Storage/Tp/Persistence.antt =====
-- minigu/storage/src/tp/persistence.rs and its two providers (in_memory_persistence.rs,
-- db_file_persistence.rs over db_file/single_file_manager.rs); the operations of
-- minigu/storage/src/tp/memory_graph.rs that use a provider. Flushes and syncs change nothing here.
pub mod Restored
mod Tests
use mini_gu.Base.{
  ℕ, ◌+◌, ◌-◌, Bool, true, false, ◌&&◌, Option, none, some, List, [], ◌∷◌, ◌++◌, length, leb, ltb,
  ◌==◌, if◌then◌else◌, Result, ok, err, ◌>>=◌,
}
use mini_gu.Storage.Error.{StorageError, StorageResult, db_file, panicked}
use mini_gu.Storage.Wal.{RedoEntry}
use mini_gu.Storage.DbFile.Bytes.{Bytes}
use mini_gu.Storage.DbFile.Error
use mini_gu.Storage.DbFile.Error.{DbFileError, DbFileResult, invalid_file}
use mini_gu.Storage.DbFile.Flags
use mini_gu.Storage.DbFile.Flags.{has}
use mini_gu.Storage.DbFile.Core
use mini_gu.Storage.DbFile.Core.{Formats, DbFile, create, open_existing, retained}
use mini_gu.Storage.Tp.Checkpoint
use mini_gu.Storage.Tp.Checkpoint.{GraphCheckpoint, Visited}
use mini_gu.Storage.Tp.Manager.{World}
use mini_gu.Storage.Tp.Recovery.Live.{recovered}

-- The trait; `S` is the provider's state.
pub record PersistenceProvider (V S : Type 0) : Type 0 where
  pub next_lsn : S → ℕ × S
  pub set_next_lsn : S → ℕ → S
  pub current_lsn : S → ℕ
  pub append_wal : S → RedoEntry V → StorageResult S
  pub read_wal_entries : S → StorageResult (List (RedoEntry V))
  pub truncate_wal_until : S → ℕ → StorageResult (ℕ × S)
  pub write_checkpoint : S → GraphCheckpoint V → StorageResult S
  pub read_checkpoint : S → StorageResult (Option (GraphCheckpoint V))
  pub has_checkpoint : S → Bool

pub record InMemoryPersistence (V : Type 0) : Type 0 where
  pub next_lsn : ℕ
  pub wal_entries : List (RedoEntry V)
  pub checkpoint : Option (GraphCheckpoint V)

abbrev is_some : {A : Type 0} → Option A → Bool
is_some none = false
is_some (some a) = true

unfoldable pub in_memory : {V : Type 0} → PersistenceProvider V (InMemoryPersistence V)
in_memory = record {
  next_lsn = λ s. (s.next_lsn, record s { next_lsn = s.next_lsn + 1 });
  set_next_lsn = λ s lsn. record s { next_lsn = lsn };
  current_lsn = λ s. s.next_lsn;
  append_wal = λ s entry. ok (record s { wal_entries = s.wal_entries ++ (entry ∷ []) });
  read_wal_entries = λ s. ok s.wal_entries;
  truncate_wal_until = λ s min_lsn.
      let kept = retained min_lsn s.wal_entries in
      ok (length s.wal_entries - length kept, record s { wal_entries = kept });
  write_checkpoint = λ s checkpoint. ok (record s { checkpoint = some checkpoint });
  read_checkpoint = λ s. ok s.checkpoint;
  has_checkpoint = λ s. is_some s.checkpoint;
}

-- The path is left out of the configuration.
pub record SingleFileManager : Type 0 where
  pub db_file : DbFile
  pub auto_checkpoint_entries : ℕ
  pub entries_since_checkpoint : ℕ

pub record DbFilePersistence : Type 0 where
  pub manager : SingleFileManager
  pub next_lsn : ℕ

-- `#[from] DbFileError`
abbrev pub from_db_file : {A : Type 0} → DbFileResult A → StorageResult A
from_db_file (ok a) = ok a
from_db_file (err Error.panicked) = err panicked
from_db_file (err e) = err (db_file e)

unfoldable pub should_auto_checkpoint : SingleFileManager → Bool
should_auto_checkpoint m =
    ltb 0 m.auto_checkpoint_entries && leb m.auto_checkpoint_entries m.entries_since_checkpoint

-- `DbFilePersistence::new`
abbrev pub new_persistence : SingleFileManager → DbFilePersistence
new_persistence m = record { manager = m; next_lsn = m.db_file.header.last_lsn + 1 }

module _ {V : Type 0} (formats : Formats V) where
  -- `SingleFileManager::open` on what stands at the path.
  unfoldable pub open_manager : Bool → ℕ → Option Bytes → DbFileResult SingleFileManager
  open_manager create_if_missing auto_checkpoint_entries found =
      elim found [
        | some file ↦ open_existing formats file
        | none ↦ if create_if_missing then create formats none else err invalid_file
      ]
      >>= λ f. ok (record {
        db_file = f;
        auto_checkpoint_entries = auto_checkpoint_entries;
        entries_since_checkpoint = 0;
      })

  -- `DbFilePersistence::open`
  unfoldable pub open_persistence : Option Bytes → StorageResult DbFilePersistence
  open_persistence found = from_db_file (open_manager true 0 found) >>= λ m. ok (new_persistence m)

  abbrev with_file : DbFilePersistence → DbFile → ℕ → DbFilePersistence
  with_file s f since = record s {
    manager = record s.manager { db_file = f; entries_since_checkpoint = since };
  }

  unfoldable pub db_file_persistence : PersistenceProvider V DbFilePersistence
  db_file_persistence = record {
    next_lsn = λ s. (s.next_lsn, record s { next_lsn = s.next_lsn + 1 });
    set_next_lsn = λ s lsn. record s { next_lsn = lsn };
    current_lsn = λ s. s.next_lsn;
    append_wal = λ s entry. from_db_file (Core.append_wal formats s.manager.db_file entry) >>= λ f.
        ok (with_file s f (s.manager.entries_since_checkpoint + 1));
    read_wal_entries = λ s. from_db_file (Core.read_wal_entries formats s.manager.db_file);
    truncate_wal_until = λ s min_lsn.
        from_db_file (Core.truncate_wal_until formats s.manager.db_file min_lsn) >>= λ (count, f).
        ok (count, with_file s f s.manager.entries_since_checkpoint);
    write_checkpoint = λ s checkpoint.
        from_db_file (Core.write_checkpoint formats s.manager.db_file checkpoint) >>= λ f.
        ok (with_file s f 0);
    read_checkpoint = λ s. from_db_file (Core.read_checkpoint formats s.manager.db_file);
    has_checkpoint = λ s. has s.manager.db_file.header.flags Flags.has_checkpoint;
  }

-- A graph with its provider. The counter of the next LSN is the provider's.
pub record PersistedGraph (V S : Type 0) : Type 0 where
  pub world : World V
  pub persistence : S
  pub wal_threshold : ℕ
  pub wal_entries_since_checkpoint : ℕ

module _ {V S : Type 0} (provider : PersistenceProvider V S) where
  -- `create_checkpoint` waits until no transaction is active: nothing comes back while one is.
  unfoldable pub create_checkpoint :
      ℕ → Visited → PersistedGraph V S → Option (StorageResult (ℕ × PersistedGraph V S))
  create_checkpoint now visited g = elim g.world.manager.active_txns [
    | (active ∷ _) ↦ none
    | [] ↦
        let checkpoint =
          Checkpoint.new now visited
            (record g.world { next_lsn = provider.current_lsn g.persistence }) in
        some (
          provider.write_checkpoint g.persistence checkpoint >>= λ written.
          provider.truncate_wal_until written checkpoint.metadata.lsn >>= λ (removed, truncated).
          ok (
            checkpoint.metadata.lsn,
            record g { persistence = truncated; wal_entries_since_checkpoint = 0 },
          ))
  ]

  unfoldable pub check_auto_checkpoint :
      ℕ → Visited → PersistedGraph V S → Option (StorageResult (Option ℕ × PersistedGraph V S))
  check_auto_checkpoint now visited g =
      if g.wal_threshold == 0
      then some (ok (none, g))
      else if leb g.wal_threshold g.wal_entries_since_checkpoint
      then elim (create_checkpoint now visited g) [
        | none ↦ none
        | some result ↦ some (result >>= λ (lsn, g'). ok (some lsn, g'))
      ]
      else some (ok (none, g))

  unfoldable pub recover : (V → V → Bool) → PersistedGraph V S → StorageResult (PersistedGraph V S)
  recover differs g =
      let start = record g.world { next_lsn = provider.current_lsn g.persistence } in
      provider.read_checkpoint g.persistence >>= λ found.
      elim found [ none ↦ ok start | some checkpoint ↦ Checkpoint.restore checkpoint start ]
      >>= λ restored. provider.read_wal_entries g.persistence >>= λ entries.
          recovered differs entries restored >>= λ world. ok (record g {
            world = world;
            persistence = provider.set_next_lsn g.persistence world.next_lsn;
          })

-- `with_db_file_and_config`, in a process whose state is `fresh`.
unfoldable pub with_db_file :
    {V : Type 0}
    → Formats V
    → (V → V → Bool)
    → ℕ
    → World V
    → Option Bytes
    → StorageResult (PersistedGraph V DbFilePersistence)
with_db_file formats differs wal_threshold fresh found = open_persistence formats found >>= λ s.
    recover (db_file_persistence formats) differs (record {
      world = fresh;
      persistence = s;
      wal_threshold = wal_threshold;
      wal_entries_since_checkpoint = 0;
    })
