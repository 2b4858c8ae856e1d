-- ===== src/Storage/Tp/Isolation.antt =====
-- What other transactions read while one writes and after it commits: minigu/storage/src/tp.
pub mod Committed
use mini_gu.Base.{ℕ, ◌≡◌, ◌≢◌, ◌≤◌, ◌<◌, ◌⊎◌, sym, ap, ◌∙◌, subst, List, some, ok, arith}
use mini_gu.Transaction.Timestamp.{Timestamp, IsU64, txn_id_start, is_txn_id, is_commit_ts}
use mini_gu.Storage.Error.{version_not_visible}
use mini_gu.Storage.Model.Vertex.{Vertex}
use mini_gu.Storage.Tp.Chain.History.{NoneAt, Versions, older}
use mini_gu.Storage.Tp.Graph.{VersionedVertex}
use mini_gu.Storage.Tp.Guard.{prewrite_check_vertex}
use mini_gu.Storage.Tp.Txn.{MemTransaction}
use mini_gu.Storage.Tp.VertexRead.{lenient_delta, get_visible, unless_tombstone}
use mini_gu.Storage.Tp.VertexRead.Snapshot.{IsTxn, all_versions, to_see, get_visible-to_see}
use mini_gu.Storage.Tp.VertexWrite.{properties_undo, updated_chain, update_properties}
use mini_gu.Storage.Tp.Rollback.Restore.{update_properties-Updated, vertex_set_props-old_props}
use mini_gu.Storage.Tp.Promote.{stamped}
use mini_gu.Storage.Model.Delta.{UndoEntry}

module _ {V : Type 0} where
  -- A chain that stands for its versions still does after an update: the version that was the head
  -- is the newest of the older ones.
  pub update_properties-Versions :
      (entry : VersionedVertex V) (txn : MemTransaction V) (vid : ℕ) (indices : List ℕ)
      (props : List V) (written : VersionedVertex V) (undo : UndoEntry V)
      (versions : List (Timestamp × Vertex V))
      → update_properties entry txn vid indices props ≡ ok (written, undo)
      → Versions lenient_delta entry.current.item entry.undo_ptr versions
      → Versions lenient_delta written.current.item written.undo_ptr (all_versions entry versions)
  unfolding properties_undo updated_chain lenient_delta
  update_properties-Versions entry txn vid indices props written undo versions done v =
      let u = update_properties-Updated entry txn vid indices props written undo done in
      subst (λ w. Versions lenient_delta w.current.item w.undo_ptr (all_versions entry versions))
        (sym u.written_made)
        (older
          (vertex_set_props-old_props entry.current.item indices props u.olds u.olds_read
            u.changed_set)
          v)

  -- A head that passes the check is the transaction's own or committed.
  prewrite_check_vertex-own :
      (stamp : Timestamp) (txn : MemTransaction V)
      → IsU64 stamp
      → prewrite_check_vertex stamp txn ≡ ok tt
      → (stamp ≡ txn.txn_id) ⊎ (stamp < txn_id_start)
  unfolding prewrite_check_vertex is_txn_id is_commit_ts
  prewrite_check_vertex-own stamp txn u h = ground arith

  -- What a reader is to see does not change by the update of another transaction.
  to_see-written :
      (entry written : VersionedVertex V) (txn reader : MemTransaction V)
      (versions : List (Timestamp × Vertex V))
      → IsTxn txn
      → IsTxn reader
      → reader.txn_id ≢ txn.txn_id
      → IsU64 entry.current.commit_ts
      → prewrite_check_vertex entry.current.commit_ts txn ≡ ok tt
      → written.current.commit_ts ≡ txn.txn_id
      → to_see written (all_versions entry versions) reader ≡ to_see entry versions reader
  to_see-written entry written txn reader versions t r ne u passed own =
      ground (arith, prewrite_check_vertex-own entry.current.commit_ts txn u passed)

  -- No dirty read, and the version before an update stays readable: while a transaction's update of
  -- a vertex is not committed, `get_visible` returns to every other transaction what it returned
  -- before the update, be that a vertex or the error for a tombstone. The chain stood for its
  -- versions, the reader had one to see, and none was committed exactly at its start.
  pub get_visible-update_properties :
      (entry written : VersionedVertex V) (undo : UndoEntry V) (txn reader : MemTransaction V)
      (vid : ℕ) (indices : List ℕ) (props : List V) (versions : List (Timestamp × Vertex V))
      (vertex : Vertex V)
      → IsTxn txn
      → IsTxn reader
      → reader.txn_id ≢ txn.txn_id
      → IsU64 entry.current.commit_ts
      → Versions lenient_delta entry.current.item entry.undo_ptr versions
      → NoneAt reader.start_ts (all_versions entry versions)
      → to_see entry versions reader ≡ some vertex
      → update_properties entry txn vid indices props ≡ ok (written, undo)
      → get_visible written reader ≡ get_visible entry reader
  unfolding updated_chain
  get_visible-update_properties entry written undo txn reader vid indices props versions vertex t r
        ne u v n e done =
      let up = update_properties-Updated entry txn vid indices props written undo done in
      let own : written.current.commit_ts ≡ txn.txn_id =
        ap (λ w. w.current.commit_ts) up.written_made in
      get_visible-to_see written reader (all_versions entry versions) r
        (subst IsU64 (sym own) t.id_u64)
        (update_properties-Versions entry txn vid indices props written undo versions done v) n
        (to_see-written entry written txn reader versions t r ne u up.passed own ∙ e)
      ∙ sym (get_visible-to_see entry reader versions r u v n.1 e)

  to_see-stamped :
      (entry : VersionedVertex V) (reader : MemTransaction V) (commit_ts : Timestamp)
      (versions : List (Timestamp × Vertex V))
      → IsTxn reader
      → txn_id_start ≤ entry.current.commit_ts
      → entry.current.commit_ts ≢ reader.txn_id
      → commit_ts < txn_id_start
      → reader.start_ts < commit_ts
      → to_see (stamped entry commit_ts) versions reader ≡ to_see entry versions reader
  to_see-stamped entry reader commit_ts versions r lo ne hi later = ground arith

  -- Repeatable read: when the owner of a head commits at a timestamp after a reader's start, what
  -- `get_visible` returns to the reader stays. The chain stands for its versions, the reader has one
  -- to see, and no older one was committed exactly at its start.
  pub get_visible-stamped :
      (entry : VersionedVertex V) (reader : MemTransaction V) (commit_ts : Timestamp)
      (versions : List (Timestamp × Vertex V)) (vertex : Vertex V)
      → IsTxn reader
      → IsU64 entry.current.commit_ts
      → txn_id_start ≤ entry.current.commit_ts
      → entry.current.commit_ts ≢ reader.txn_id
      → commit_ts < txn_id_start
      → reader.start_ts < commit_ts
      → Versions lenient_delta entry.current.item entry.undo_ptr versions
      → NoneAt reader.start_ts versions
      → to_see entry versions reader ≡ some vertex
      → get_visible (stamped entry commit_ts) reader ≡ get_visible entry reader
  get_visible-stamped entry reader commit_ts versions vertex r u lo ne hi later v n e =
      get_visible-to_see (stamped entry commit_ts) reader versions r (omega arith) v n
        (to_see-stamped entry reader commit_ts versions r lo ne hi later ∙ e)
      ∙ sym (get_visible-to_see entry reader versions r u v n e)

  to_see-stamped_by_start :
      (entry : VersionedVertex V) (reader : MemTransaction V) (commit_ts : Timestamp)
      (versions : List (Timestamp × Vertex V))
      → commit_ts ≤ reader.start_ts
      → to_see (stamped entry commit_ts) versions reader ≡ some entry.current.item
  to_see-stamped_by_start entry reader commit_ts versions by_start = ground arith

  -- A reader that starts at or after the commit sees what the owner wrote, or the error for a
  -- tombstone. The chain stands for its versions, and none behind the head was committed exactly at
  -- the reader's start.
  pub get_visible-stamped_by_start :
      (entry : VersionedVertex V) (reader : MemTransaction V) (commit_ts : Timestamp)
      (versions : List (Timestamp × Vertex V))
      → IsTxn reader
      → commit_ts ≤ reader.start_ts
      → Versions lenient_delta entry.current.item entry.undo_ptr versions
      → NoneAt reader.start_ts versions
      → get_visible (stamped entry commit_ts) reader
        ≡ unless_tombstone version_not_visible entry.current.item
  get_visible-stamped_by_start entry reader commit_ts versions r by_start v n =
      get_visible-to_see (stamped entry commit_ts) reader versions r
        (omega (arith, by_start, r.start_range)) v n
        (to_see-stamped_by_start entry reader commit_ts versions by_start)
