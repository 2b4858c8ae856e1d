-- ===== src/Storage/Tp/Iterators.antt =====
-- minigu/storage/src/tp/iterators: the scans of vertices and of edges, which are the same code for two
-- types (vertex_iterator.rs, edge_iterator.rs).
pub mod Scan
pub mod Whole
pub mod Reference
pub mod Complete
mod Tests
use mini_gu.Base.{
  ℕ, zero, suc, ◌+◌, Bool, true, false, ◌++◌, ◌&&◌, Option, none, some, List, [], ◌∷◌, drop, leb,
  ltb, ◌==◌, if◌then◌else◌, ok, err, ◌>>=◌,
}
use mini_gu.Storage.Error.{StorageError, StorageResult, panicked}
use mini_gu.Storage.Tp.Chain.{VersionChain}
use mini_gu.Storage.Tp.Txn.{MemTransaction}

-- What the transaction's own intent says of an item: there is none, the item is gone, or it is this.
pub data Own (D : Type 0) : Type 0 where
  no_intent skipped : Own D
  own : D → Own D

-- The calls of a scan, and the insert into the read set.
pub record Kind (V D : Type 0) : Type 0 where
  pub id_of : D → ℕ
  pub own_of : MemTransaction V → ℕ → Own D
  pub get_visible : VersionChain V D → MemTransaction V → StorageResult D
  pub mark_read : ℕ → MemTransaction V → MemTransaction V

-- `inner` has the entries that are left.
pub record ScanIterator (V D : Type 0) : Type 0 where
  pub inner : List (ℕ × VersionChain V D)
  pub txn : MemTransaction V
  pub filters : List (D → Bool)
  pub current : Option D
  pub pending_inserts : List D
  pub pending_index : ℕ

-- A panic is no error that the loop could skip.
abbrev pub is_panic : StorageError → Bool
is_panic panicked = true
is_panic _ = false

-- `filters.iter().all(|f| f(item))`
abbrev pub passes : {D : Type 0} → List (D → Bool) → D → Bool
passes [] item = true
passes (f ∷ filters) item = f item && passes filters item

module _ {V D : Type 0} (kind : Kind V D) where
  -- The loop over the inserts that are not in the graph, from the index on.
  unfoldable pub next_pending : List D → ScanIterator V D → Option D × ScanIterator V D
  next_pending [] it = (none, record it { current = none })
  next_pending (item ∷ rest) it =
      let it' = record it { pending_index = it.pending_index + 1 } in
      elim (passes it.filters item) [
        | true ↦ (some item, record it' { current = some item })
        | false ↦ next_pending rest it'
      ]

  -- The loop over the entries of the graph. An error of `get_visible` goes on to the next entry.
  unfoldable pub next_entry :
      List (ℕ × VersionChain V D) → ScanIterator V D → StorageResult (Option D × ScanIterator V D)
  next_entry [] it =
      ok (next_pending (drop it.pending_index it.pending_inserts) (record it { inner = [] }))
  next_entry ((id, chain) ∷ rest) it = elim (kind.own_of it.txn id) [
    | skipped ↦ next_entry rest it
    | own item ↦ elim (passes it.filters item) [
      | true ↦ ok (some item, record it { inner = rest; current = some item })
      | false ↦ next_entry rest it
    ]
    | no_intent ↦ elim (kind.get_visible chain it.txn) [
      | err e ↦ elim (is_panic e) [ true ↦ err e | false ↦ next_entry rest it ]
      | ok item ↦ elim (passes it.filters item) [
        | true ↦ ok (
          some item,
          record it { inner = rest; txn = kind.mark_read id it.txn; current = some item },
        )
        | false ↦ next_entry rest it
      ]
    ]
  ]

  unfoldable pub next : ScanIterator V D → StorageResult (Option D × ScanIterator V D)
  next it = next_entry it.inner it

  unfoldable pub filter : ScanIterator V D → (D → Bool) → ScanIterator V D
  filter it predicate = record it { filters = it.filters ++ (predicate ∷ []) }

  -- `iter.by_ref().take(n).collect()`
  unfoldable pub take_items : ℕ → ScanIterator V D → StorageResult (List D × ScanIterator V D)
  take_items zero it = ok ([], it)
  take_items (suc n) it = next it >>= λ (found, it'). elim found [
    | none ↦ ok ([], it')
    | some item ↦ take_items n it' >>= λ (items, it''). ok (item ∷ items, it'')
  ]

  -- The loop of `seek`, at most `n` times.
  unfoldable pub seek : ℕ → ℕ → ScanIterator V D → StorageResult (Option Bool × ScanIterator V D)
  seek zero id it = ok (none, it)
  seek (suc n) id it = next it >>= λ (found, it'). elim found [
    | none ↦ ok (some false, it')
    | some item ↦ elim (kind.id_of item == id) [
      | true ↦ ok (some true, it')
      | false ↦ elim (ltb id (kind.id_of item)) [
        | true ↦ ok (some false, it')
        | false ↦ seek n id it'
      ]
    ]
  ]
