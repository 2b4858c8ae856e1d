-- ===== src/Executor/Chunk.antt =====
-- `DataChunk` of minigu/common/src/data_chunk/mod.rs by its rows: columns of one length are the list
-- of their rows, and an Arrow array is the list of its values, `none` for null. `cur_idx`, which
-- the factorized executors read, is left out.
pub mod Visible
use mini_gu.Base.{
  ℕ, suc, Bool, true, false, List, [], ◌∷◌, Option, none, some, length, take, drop, Result, ok, err,
}

-- A `BooleanArray`
abbrev pub Mask : Type 0
Mask = List (Option Bool)

abbrev pub true_count : Mask → ℕ
true_count [] = 0
true_count (some true ∷ mask) = suc (true_count mask)
true_count (some false ∷ mask) = true_count mask
true_count (none ∷ mask) = true_count mask

-- The rows that the mask selects: Arrow's filter kernel.
abbrev pub select {ℓ} : {R : Type ℓ} → List R → Mask → List R
select [] mask = []
select (row ∷ rows) [] = []
select (row ∷ rows) (some true ∷ mask) = row ∷ select rows mask
select (row ∷ rows) (some false ∷ mask) = select rows mask
select (row ∷ rows) (none ∷ mask) = select rows mask

pub record DataChunk (R : Type 0) : Type 0 where
  pub all_rows : List R
  pub filter : Option Mask

module _ {R : Type 0} where
  abbrev pub new : List R → DataChunk R
  new rows = record { all_rows = rows; filter = none }

  -- The source asserts that the mask has the chunk's length.
  abbrev pub with_filter : DataChunk R → Mask → DataChunk R
  with_filter chunk mask = record chunk { filter = some mask }

  abbrev pub unfiltered : DataChunk R → DataChunk R
  unfiltered chunk = record chunk { filter = none }

  -- The rows of the columns, those that the filter hides included.
  abbrev pub len : DataChunk R → ℕ
  len chunk = length chunk.all_rows

  abbrev cardinality_by : Option Mask → List R → ℕ
  cardinality_by none rows = length rows
  cardinality_by (some mask) rows = true_count mask

  unfoldable pub cardinality : DataChunk R → ℕ
  cardinality chunk = cardinality_by chunk.filter chunk.all_rows

  -- In bounds, as it is called below: `offset + length` is at most the chunk's length.
  unfoldable pub slice : DataChunk R → ℕ → ℕ → DataChunk R
  slice chunk offset count = record {
    all_rows = take count (drop offset chunk.all_rows);
    filter = elim chunk.filter [ none ↦ none | some mask ↦ some (take count (drop offset mask)) ];
  }

  abbrev visible_by : Option Mask → List R → List R
  visible_by none rows = rows
  visible_by (some mask) rows = select rows mask

  -- `rows`: what a client of the chunk sees.
  unfoldable pub visible : DataChunk R → List R
  visible chunk = visible_by chunk.filter chunk.all_rows

  -- `compact`
  unfoldable pub compact : DataChunk R → DataChunk R
  compact chunk = record { all_rows = visible_by chunk.filter chunk.all_rows; filter = none }

-- What an executor yields: chunks, and an error at the end if there is one.
abbrev pub Stream : Type 0 → Type 0 → Type 0
Stream E R = List (Result E (DataChunk R))
