-- ===== src/Storage/Tp/Chain/History.antt =====
-- What a version chain stands for: the list of the item's older versions, each with the timestamp at
-- which it was committed, the newest first; and what the walk along the chain finds in it.
use mini_gu.Base.{
  ◌≡◌, ◌≢◌, Option, none, some, List, [], ◌∷◌, arith, ltb, leb, if◌then◌else◌, ok, Bool-cases, inl,
  inr,
}
use mini_gu.Transaction.Timestamp.{Timestamp}
use mini_gu.Storage.Error.{StorageResult}
use mini_gu.Storage.Model.Delta.{DeltaOp, UndoPtr, dangling, live}
use mini_gu.Storage.Tp.Chain.{apply_deltas_for_read}

-- The newest version that was committed by `start`. This is what snapshot isolation promises.
abbrev pub latest_at {ℓ} : {D : Type ℓ} → Timestamp → List (Timestamp × D) → Option D
latest_at start [] = none
latest_at start ((timestamp, item) ∷ older) =
    if leb timestamp start then some item else latest_at start older

-- The timestamp of that version; where there is none, that of the oldest, or `last` for no version.
abbrev pub stamp_at {ℓ} : {D : Type ℓ} → Timestamp → List (Timestamp × D) → Timestamp → Timestamp
stamp_at start [] last = last
stamp_at start ((timestamp, item) ∷ versions) last =
    if leb timestamp start then timestamp else stamp_at start versions timestamp

-- No version was committed exactly at `start`.
abbrev pub NoneAt {ℓ} : {D : Type ℓ} → Timestamp → List (Timestamp × D) → Type 0
NoneAt start [] = Unit
NoneAt start ((timestamp, item) ∷ older) = (timestamp ≢ start) × NoneAt start older

module _ {V D : Type 0} (callback : DeltaOp V → D → StorageResult D) where
  -- `Versions item undo_ptr older`: undoing the deltas of the chain one by one, from `item`, gives
  -- the versions of the list, and each entry carries its version's timestamp.
  pub data Versions : D → UndoPtr V → List (Timestamp × D) → Type 0 where
    oldest : {item : D} → Versions item dangling []
    older :
        {item before : D} {delta : DeltaOp V} {timestamp : Timestamp} {next : UndoPtr V}
        {versions : List (Timestamp × D)}
        → callback delta item ≡ ok before
        → Versions before next versions
        → Versions item (live delta timestamp next) ((timestamp, before) ∷ versions)

  -- One round of the walk, where the delta applies.
  walk_round :
      (start timestamp : Timestamp) (delta : DeltaOp V) (next : UndoPtr V) (item before : D)
      → callback delta item ≡ ok before
      → apply_deltas_for_read (live delta timestamp next) callback start item ≡ (
          if ltb timestamp start
          then ok before
          else apply_deltas_for_read next callback start before)
  unfolding apply_deltas_for_read
  walk_round start timestamp delta next item before h = rw h

  -- The walk stops at the newest version that was committed before the transaction's start, if there
  -- is one and none was committed at the very start.
  pub walk-latest_at :
      (start : Timestamp) {item found : D} {undo_ptr : UndoPtr V} {versions : List (Timestamp × D)}
      → Versions item undo_ptr versions
      → NoneAt start versions
      → latest_at start versions ≡ some found
      → apply_deltas_for_read undo_ptr callback start item ≡ ok found
  walk-latest_at start oldest n h = cc
  walk-latest_at start (older {item = i} {before = b} {delta = d} {timestamp = t} {next = p} e vs) n
        h =
      rw (walk_round start t d p i b e) (elim (Bool-cases (ltb t start)) [
        | inl before ↦ rw before (ground arith)
        | inr after ↦ rw after (walk-latest_at start vs n.1 (ground arith))
      ])
