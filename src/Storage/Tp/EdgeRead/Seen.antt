-- ===== src/Storage/Tp/EdgeRead/Seen.antt =====
-- `VersionedEdge::get_visible` against the version that snapshot isolation promises.
use mini_gu.Base.{◌≡◌, inl, inr, some, List}
use mini_gu.Transaction.Timestamp.{Timestamp, IsU64}
use mini_gu.Storage.Error.{version_not_visible}
use mini_gu.Storage.Model.Edge.{Edge}
use mini_gu.Storage.Tp.Chain.History.{NoneAt, Versions, walk-latest_at}
use mini_gu.Storage.Tp.Graph.{VersionedEdge}
use mini_gu.Storage.Tp.Txn.{MemTransaction}
use mini_gu.Storage.Tp.VertexRead.Snapshot.{IsTxn, to_see, to_see-cases}
use mini_gu.Storage.Tp.EdgeRead.{lenient_delta, get_visible, unless_tombstone}

module _ {V : Type 0} where
  -- For an edge too, `get_visible` returns the version that the transaction is to see, and the error
  -- `version_not_visible` where that version is a tombstone. The chain stands for the list of
  -- versions, the version to see exists, and no older version was committed exactly at the start.
  pub get_visible-to_see_at_edge :
      (entry : VersionedEdge V) (txn : MemTransaction V) (versions : List (Timestamp × Edge V))
      {edge : Edge V}
      → IsTxn txn
      → IsU64 entry.current.commit_ts
      → Versions lenient_delta entry.current.item entry.undo_ptr versions
      → NoneAt txn.start_ts versions
      → to_see entry versions txn ≡ some edge
      → get_visible entry txn ≡ unless_tombstone version_not_visible edge
  unfolding get_visible
  get_visible-to_see_at_edge entry txn versions t u v n e =
      elim (to_see-cases entry txn versions t u e) [
        | inl (head, same) ↦ rw (head, same)
        | inr (hidden, found) ↦ rw (hidden, walk-latest_at lenient_delta txn.start_ts v n found)
      ]
