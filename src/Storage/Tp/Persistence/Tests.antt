-- ===== src/Storage/Tp/Persistence/Tests.antt =====
-- A store of one vertex is written to a database file and comes back: minigu/storage/src/tp and
-- db_file, with a serialization that writes such checkpoints alone.
use mini_gu.Base.{
  ℕ, ◌+◌, ◌≡◌, refl, arith, Bool, true, false, Option, none, some, List, [], ◌∷◌, ◌++◌, inr, ok,
}
use mini_gu.Base.Assoc.{update}
use mini_gu.Transaction.Timestamp.{txn_id_start}
use mini_gu.Transaction.Options.{snapshot, pessimistic}
use mini_gu.Storage.Model.Vertex.{Vertex}
use mini_gu.Storage.Model.Delta.{dangling}
use mini_gu.Storage.DbFile.Bytes.{Bytes}
use mini_gu.Storage.DbFile.Header
use mini_gu.Storage.DbFile.Header.{header_bytes, compute_crc}
use mini_gu.Storage.DbFile.Core.{Formats, DbFile}
use mini_gu.Storage.DbFile.Core.Shape.{
  nil, nothing, Describes, Holds, IsCrc, length_regions, length-Describes,
}
use mini_gu.Storage.DbFile.Core.Record.{IsCodec}
use mini_gu.Storage.DbFile.Core.Contents.{StorableCheckpoint}
use mini_gu.Storage.Tp.Graph.{AdjacencyContainer}
use mini_gu.Storage.Tp.Manager.{World}
use mini_gu.Storage.Tp.Checkpoint.{
  GraphCheckpoint, CheckpointMetadata, SerializedVertex, SerializedEdge, SerializedAdjacency,
  Visited, entries, new,
}
use mini_gu.Storage.Tp.Checkpoint.Restore.{Visits, VisitsAll, IsEmpty, AreBacked, IsRestored}
use mini_gu.Storage.Tp.Persistence.{
  DbFilePersistence, PersistedGraph, db_file_persistence, create_checkpoint, with_db_file,
}
use mini_gu.Storage.Tp.Persistence.Restored.{create_checkpoint-with_db_file}

abbrev vertex_bytes : CheckpointMetadata → ℕ → Vertex ℕ → ℕ → List ℕ → Bool → Option Bytes
vertex_bytes m k v commit_ts [] false =
    some (
      m.timestamp ∷ m.lsn ∷ m.latest_commit_ts ∷ m.version ∷ k ∷ v.vid ∷ v.label_id ∷ commit_ts
      ∷ [])
vertex_bytes m k v commit_ts _ _ = none

-- One vertex, without properties.
abbrev one_vertex_bytes :
    CheckpointMetadata
    → List (ℕ × SerializedVertex ℕ)
    → List (ℕ × SerializedEdge ℕ)
    → List (ℕ × SerializedAdjacency)
    → Option Bytes
one_vertex_bytes m ((k, s) ∷ []) [] [] =
    vertex_bytes m k s.item s.commit_ts s.item.properties s.item.is_tombstone
one_vertex_bytes m _ _ _ = none

abbrev one_vertex_from : Bytes → Option (GraphCheckpoint ℕ)
one_vertex_from (timestamp ∷ lsn ∷ latest ∷ version ∷ k ∷ vid ∷ label_id ∷ commit_ts ∷ []) =
    some (record {
      metadata = record {
        timestamp = timestamp;
        lsn = lsn;
        latest_commit_ts = latest;
        version = version;
      };
      vertices =
          (
            k,
            record {
              item = record {
                vid = vid;
                label_id = label_id;
                properties = [];
                is_tombstone = false;
              };
              commit_ts = commit_ts;
            },
          )
          ∷ [];
      edges = [];
      adjacency_list = [];
    })
one_vertex_from _ = none

-- No entry is written here.
abbrev one_vertex : Formats ℕ
one_vertex = record {
  crc32 = λ bytes. 0;
  entry = record { to_bytes = λ e. none; from_bytes = λ bytes. none };
  checkpoint = record {
    to_bytes = λ c. one_vertex_bytes c.metadata c.vertices c.edges c.adjacency_list;
    from_bytes = one_vertex_from;
  };
}

one_vertex-IsCrc : IsCrc one_vertex
one_vertex-IsCrc bytes = omega arith

no_entries : IsCodec one_vertex.entry
no_entries e bytes h = cc h

vertex_returns :
    (m : CheckpointMetadata) (k vid label_id commit_ts : ℕ) (properties : List ℕ)
    (is_tombstone : Bool) (bytes : Bytes)
    → vertex_bytes m k
        (record {
          vid = vid;
          label_id = label_id;
          properties = properties;
          is_tombstone = is_tombstone;
        })
        commit_ts
        properties
        is_tombstone
      ≡ some bytes
    → one_vertex_from bytes
      ≡ some (record {
        metadata = m;
        vertices =
            (
              k,
              record {
                item = record {
                  vid = vid;
                  label_id = label_id;
                  properties = properties;
                  is_tombstone = is_tombstone;
                };
                commit_ts = commit_ts;
              },
            )
            ∷ [];
        edges = [];
        adjacency_list = [];
      })
vertex_returns m k vid label_id commit_ts [] false bytes h = cc h
vertex_returns m k vid label_id commit_ts [] true bytes h = cc h
vertex_returns m k vid label_id commit_ts (p ∷ ps) is_tombstone bytes h = cc h

checkpoint_returns :
    (m : CheckpointMetadata) (vertices : List (ℕ × SerializedVertex ℕ))
    (edges : List (ℕ × SerializedEdge ℕ)) (adjacency_list : List (ℕ × SerializedAdjacency))
    (bytes : Bytes)
    → one_vertex_bytes m vertices edges adjacency_list ≡ some bytes
    → one_vertex_from bytes
      ≡ some (record {
        metadata = m;
        vertices = vertices;
        edges = edges;
        adjacency_list = adjacency_list;
      })
checkpoint_returns m [] edges adjacency_list bytes h = cc h
checkpoint_returns m ((k, s) ∷ []) [] [] bytes h =
    vertex_returns m k s.item.vid s.item.label_id s.commit_ts s.item.properties s.item.is_tombstone
      bytes h
checkpoint_returns m ((k, s) ∷ []) [] (a ∷ as_) bytes h = cc h
checkpoint_returns m ((k, s) ∷ []) (e ∷ es) adjacency_list bytes h = cc h
checkpoint_returns m ((k, s) ∷ t ∷ ts) edges adjacency_list bytes h = cc h

checkpoints : IsCodec one_vertex.checkpoint
checkpoints c bytes h = checkpoint_returns c.metadata c.vertices c.edges c.adjacency_list bytes h

abbrev blank : DbFile
unfolding Header.new
blank = record { file = header_bytes Header.new ++ ([] ++ ([] ++ [])); header = Header.new }

blank-Describes : Describes one_vertex Header.new 0 0
unfolding Header.new compute_crc
blank-Describes = record {
  magic = refl;
  version = refl;
  size = refl;
  flags = omega arith;
  checkpoint_offset = refl;
  checkpoint_length = refl;
  wal_offset = refl;
  wal_length = refl;
  last_lsn = omega arith;
  last_commit_ts = omega arith;
  crc = refl;
}

blank-Holds : Holds one_vertex blank none []
unfolding blank Header.new
blank-Holds = record {
  checkpoint_region = [];
  wal_region = [];
  rest = [];
  shape = refl;
  is_checkpoint = nothing;
  is_log = nil;
  header = blank-Describes;
  small = omega (
    arith,
    length_regions (header_bytes Header.new) [] [] [],
    length-Describes one_vertex blank-Describes,
  );
  checkpoint_flag = inr refl;
  wal_flag = inr refl;
}

abbrev fresh : World ℕ
fresh = record {
  graph = record { vertices = λ _. none; edges = λ _. none; adjacency_list = λ _. none };
  manager = record {
    active_txns = [];
    committed_txns = [];
    latest_commit_ts = 0;
    watermark = 0;
    last_gc_ts = 0;
    default_lock_strategy = pessimistic;
    default_isolation_level = snapshot;
  };
  timestamps = 1;
  ids = txn_id_start + 1;
  next_lsn = 1;
  wal = [];
}

abbrev saved : PersistedGraph ℕ DbFilePersistence
unfolding blank
saved = record {
  world = record fresh {
    graph = record fresh.graph {
      vertices =
          update (λ _. none) 1
            (some (record {
              current = record {
                item = record { vid = 1; label_id = 3; properties = []; is_tombstone = false };
                commit_ts = 5;
              };
              undo_ptr = dangling;
            }));
    };
    manager = record fresh.manager { latest_commit_ts = 5 };
  };
  persistence = record {
    manager = record { db_file = blank; auto_checkpoint_entries = 0; entries_since_checkpoint = 4 };
    next_lsn = 5;
  };
  wal_threshold = 4;
  wal_entries_since_checkpoint = 4;
}

abbrev visited : Visited
visited = record { vertices = 1 ∷ []; edges = []; adjacency_list = [] }

saved-VisitsAll : VisitsAll visited saved.world.graph
unfolding entries Visits saved
saved-VisitsAll = record { vertices = λ k. refl; edges = λ k. refl; adjacency_list = λ k. refl }

saved-StorableCheckpoint :
    StorableCheckpoint one_vertex (new 7 visited (record saved.world { next_lsn = 5 }))
unfolding new entries saved
saved-StorableCheckpoint = record {
  payload = 7 ∷ 5 ∷ 5 ∷ 1 ∷ 1 ∷ 1 ∷ 3 ∷ 5 ∷ [];
  encoded = refl;
  short = omega arith;
  lsn = omega arith;
  latest_commit_ts = omega arith;
}

fresh-IsEmpty : IsEmpty fresh.graph
fresh-IsEmpty = record { vertices = λ k. refl; edges = λ k. refl; adjacency_list = λ k. refl }

saved_neighbors :
    (k : ℕ) (adj : AdjacencyContainer)
    → saved.world.graph.adjacency_list k ≡ some adj
    → AreBacked saved.world.graph.edges adj
unfolding saved
saved_neighbors k adj found = cc found

create_checkpoint-with_db_file_example :
    (g' r : PersistedGraph ℕ DbFilePersistence) × (create_checkpoint
        (db_file_persistence one_vertex)
        7
        visited
        saved
      ≡ some (ok (5, g')))
    × (with_db_file one_vertex (λ a b. true) 4 fresh (some g'.persistence.manager.db_file.file)
        ≡ ok r)
    × IsRestored saved.world.graph r.world.graph
    × (r.world.manager.latest_commit_ts ≡ 5)
    × (r.persistence.next_lsn ≡ 5 + 1)
unfolding saved
create_checkpoint-with_db_file_example =
    create_checkpoint-with_db_file one_vertex one_vertex-IsCrc no_entries checkpoints (λ a b. true)
      4 7 visited saved none [] blank-Holds refl saved-StorableCheckpoint saved-VisitsAll
      saved_neighbors fresh fresh-IsEmpty
