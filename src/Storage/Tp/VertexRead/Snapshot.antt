-- ===== src/Storage/Tp/VertexRead/Snapshot.antt =====
-- The reads of VertexRead against the version that snapshot isolation promises.
use mini_gu.Base.{
  ◌≤◌, ◌<◌, ◌≡◌, ◌⊎◌, inl, inr, true, false, not, ◌&&◌, ◌||◌, Option, some, List, ◌∷◌, arith, leb,
  ltb, ◌==◌, if◌then◌else◌, ok, err, Bool-cases,
}
use mini_gu.Transaction.Timestamp.{Timestamp, IsU64, txn_id_start, is_txn_id, is_commit_ts}
use mini_gu.Storage.Error.{version_not_visible}
use mini_gu.Storage.Model.Vertex.{Vertex}
use mini_gu.Storage.Model.Delta.{UndoPtr}
use mini_gu.Storage.Tp.Chain.{VersionChain, head_visible}
use mini_gu.Storage.Tp.Chain.History.{
  latest_at, stamp_at, NoneAt, Versions, oldest, older, walk-latest_at,
}
use mini_gu.Storage.Tp.Graph.{VersionedVertex}
use mini_gu.Storage.Tp.Guard.{prewrite_check_vertex}
use mini_gu.Storage.Tp.Txn.{MemTransaction}
use mini_gu.Storage.Tp.VertexRead.{
  strict_delta, lenient_delta, get_visible, visible_image, snapshot_loop,
  snapshot_vertex_with_guard, unless_tombstone,
}

module _ {V D : Type 0} where
  -- The versions of an item: that of the head, under its stamp, and the older ones.
  abbrev pub all_versions : VersionChain V D → List (Timestamp × D) → List (Timestamp × D)
  all_versions entry versions = (entry.current.commit_ts, entry.current.item) ∷ versions

  -- What a transaction is to see: its own write at the head, or else the newest version that was
  -- committed by its start.
  abbrev pub to_see : VersionChain V D → List (Timestamp × D) → MemTransaction V → Option D
  to_see entry versions txn =
      if entry.current.commit_ts == txn.txn_id
      then some entry.current.item
      else latest_at txn.start_ts (all_versions entry versions)

module _ {V : Type 0} where
  -- The transaction's identifier and start lie in their ranges.
  pub record IsTxn (txn : MemTransaction V) : Type 0 where
    pub id_range : txn_id_start ≤ txn.txn_id
    pub id_u64 : IsU64 txn.txn_id
    pub start_range : txn.start_ts < txn_id_start

  head_visible_iff :
      (stamp : Timestamp) (txn : MemTransaction V)
      → IsTxn txn
      → IsU64 stamp
      → head_visible stamp txn.txn_id txn.start_ts ≡ (stamp == txn.txn_id || leb stamp txn.start_ts)
  unfolding head_visible is_txn_id is_commit_ts
  head_visible_iff stamp txn h u = ground arith

module _ {V D : Type 0} where
  -- Where the version to see stands: at a head that is visible, or behind one that is not.
  pub to_see-cases :
      (entry : VersionChain V D) (txn : MemTransaction V) (versions : List (Timestamp × D))
      {item : D}
      → IsTxn txn
      → IsU64 entry.current.commit_ts
      → to_see entry versions txn ≡ some item
      → ((head_visible entry.current.commit_ts txn.txn_id txn.start_ts ≡ true)
          × (entry.current.item ≡ item))
        ⊎ ((head_visible entry.current.commit_ts txn.txn_id txn.start_ts ≡ false)
            × (latest_at txn.start_ts versions ≡ some item))
  to_see-cases entry txn versions t u e =
      ground (arith, head_visible_iff entry.current.commit_ts txn t u)

module _ {V : Type 0} where
  -- `get_visible` returns the version that the transaction is to see, and the error
  -- `version_not_visible` where that version is a tombstone. The chain stands for the list of
  -- versions, the version to see exists, and no older version was committed exactly at the start.
  pub get_visible-to_see :
      (entry : VersionedVertex V) (txn : MemTransaction V) (versions : List (Timestamp × Vertex V))
      {vertex : Vertex V}
      → IsTxn txn
      → IsU64 entry.current.commit_ts
      → Versions lenient_delta entry.current.item entry.undo_ptr versions
      → NoneAt txn.start_ts versions
      → to_see entry versions txn ≡ some vertex
      → get_visible entry txn ≡ unless_tombstone version_not_visible vertex
  unfolding get_visible
  get_visible-to_see entry txn versions t u v n e = elim (to_see-cases entry txn versions t u e) [
    | inl (head, same) ↦ rw (head, same)
    | inr (hidden, found) ↦ rw (hidden, walk-latest_at lenient_delta txn.start_ts v n found)
  ]

  visible_image_test :
      (stamp : Timestamp) (txn : MemTransaction V)
      → IsU64 stamp
      → (is_txn_id stamp && not (stamp == txn.txn_id))
          || (is_commit_ts stamp && ltb txn.start_ts stamp)
        ≡ not (head_visible stamp txn.txn_id txn.start_ts)
  unfolding head_visible is_txn_id is_commit_ts
  visible_image_test stamp txn u = ground arith

  -- The image that `get_vertex` tests for a tombstone is the version to see, under the same
  -- conditions; no `unreachable!` is met.
  pub visible_image-to_see :
      (entry : VersionedVertex V) (txn : MemTransaction V) (versions : List (Timestamp × Vertex V))
      {vertex : Vertex V}
      → IsTxn txn
      → IsU64 entry.current.commit_ts
      → Versions strict_delta entry.current.item entry.undo_ptr versions
      → NoneAt txn.start_ts versions
      → to_see entry versions txn ≡ some vertex
      → visible_image entry txn ≡ ok vertex
  unfolding visible_image
  visible_image-to_see entry txn versions t u v n e =
      rw (visible_image_test entry.current.commit_ts txn u)
        (elim (to_see-cases entry txn versions t u e) [
          | inl (head, same) ↦ rw (head, same)
          | inr (hidden, found) ↦ rw (hidden, walk-latest_at strict_delta txn.start_ts v n found)
        ])

  snapshot_loop-latest_at :
      (start guard : Timestamp) {item found : Vertex V} {undo_ptr : UndoPtr V}
      {versions : List (Timestamp × Vertex V)}
      → Versions strict_delta item undo_ptr versions
      → latest_at start versions ≡ some found
      → (snapshot_loop undo_ptr start item guard ≡ ok (found, stamp_at start versions guard))
        × (stamp_at start versions guard ≤ start)
  unfolding snapshot_loop
  snapshot_loop-latest_at start guard oldest h = cc
  snapshot_loop-latest_at start guard (older {timestamp = ts} e vs) h =
      elim (Bool-cases (leb ts start)) [
        | inl by_start ↦ (rw e (rw by_start (ground arith)), rw by_start (ground arith))
        | inr later ↦
            let (p, q) = snapshot_loop-latest_at start ts vs (ground arith) in
            (rw e (rw later p), rw later q)
      ]

  -- The timestamp of the version to see.
  abbrev pub guard_of :
      VersionedVertex V → List (Timestamp × Vertex V) → MemTransaction V → Timestamp
  guard_of entry versions txn =
      if entry.current.commit_ts == txn.txn_id || leb entry.current.commit_ts txn.start_ts
      then entry.current.commit_ts
      else stamp_at txn.start_ts versions entry.current.commit_ts

  guard_of_hidden :
      (entry : VersionedVertex V) (txn : MemTransaction V) (versions : List (Timestamp × Vertex V))
      → IsTxn txn
      → IsU64 entry.current.commit_ts
      → guard_of entry versions txn ≡ (
          if head_visible entry.current.commit_ts txn.txn_id txn.start_ts
          then entry.current.commit_ts
          else stamp_at txn.start_ts versions entry.current.commit_ts)
  guard_of_hidden entry txn versions t u = rw (head_visible_iff entry.current.commit_ts txn t u)

  -- Where the check for conflicts passes, `snapshot_vertex_with_guard` returns the version to see,
  -- with the very timestamp at which that version was committed, or stamped by the transaction; a
  -- tombstone gives `version_not_visible`. A version committed exactly at the start counts.
  pub snapshot_vertex_with_guard-to_see :
      (entry : VersionedVertex V) (txn : MemTransaction V) (versions : List (Timestamp × Vertex V))
      {vertex : Vertex V}
      → IsTxn txn
      → IsU64 entry.current.commit_ts
      → Versions strict_delta entry.current.item entry.undo_ptr versions
      → prewrite_check_vertex entry.current.commit_ts txn ≡ ok tt
      → to_see entry versions txn ≡ some vertex
      → snapshot_vertex_with_guard entry txn ≡ (
          if vertex.is_tombstone
          then err version_not_visible
          else ok (vertex, guard_of entry versions txn))
  unfolding snapshot_vertex_with_guard
  snapshot_vertex_with_guard-to_see entry txn versions t u v passed e =
      rw (guard_of_hidden entry txn versions t u) (
        rw passed (elim (to_see-cases entry txn versions t u e) [
          | inl (head, same) ↦ rw (head, same)
          | inr (hidden, found) ↦
              let (p, q) = snapshot_loop-latest_at txn.start_ts entry.current.commit_ts v found in
              rw (hidden, p) (ground (arith, q))
        ]))
