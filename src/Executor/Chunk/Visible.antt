-- ===== src/Executor/Chunk/Visible.antt =====
-- The rows of chunks and streams.
use mini_gu.Base.{
  suc, ◌≡◌, refl, ap, true, false, List, [], ◌∷◌, ◌++◌, none, some, length, ok, err, arith,
}
pub use mini_gu.Base.Slices.{
  take_none, take_nil, drop_none, drop_nil, take_whole, length-drop, append_nil, take-append_le,
  take-append_lt, drop-append_le, drop-append_lt,
}
use mini_gu.Executor.Chunk.{Mask, true_count, select, DataChunk, visible, Stream}

module _ {E R : Type 0} where
  -- All rows of the chunks of a stream, hidden ones included.
  abbrev pub stored_rows : Stream E R → List R
  stored_rows [] = []
  stored_rows (ok chunk ∷ rest) = chunk.all_rows ++ stored_rows rest
  stored_rows (err e ∷ rest) = stored_rows rest

  -- The rows that a client sees.
  abbrev pub visible_rows : Stream E R → List R
  visible_rows [] = []
  visible_rows (ok chunk ∷ rest) = visible chunk ++ visible_rows rest
  visible_rows (err e ∷ rest) = visible_rows rest

  -- No chunk has a filter, and there is no error.
  abbrev pub IsPlain : Stream E R → Type 0
  IsPlain [] = Unit
  IsPlain (ok chunk ∷ rest) = (chunk.filter ≡ none) × IsPlain rest
  IsPlain (err e ∷ rest) = ⊥

module _ {R : Type 0} where
  pub visible_plain : (chunk : DataChunk R) → chunk.filter ≡ none → visible chunk ≡ chunk.all_rows
  unfolding visible
  visible_plain chunk h = rw h

  pub length-visible :
      (rows : List R) (mask : Mask)
      → length rows ≡ length mask
      → length (select rows mask) ≡ true_count mask
  length-visible [] [] h = refl
  length-visible [] (b ∷ mask) h = absurd (omega arith)
  length-visible (r ∷ rows) [] h = absurd (omega arith)
  length-visible (r ∷ rows) (some true ∷ mask) h = ap suc (length-visible rows mask (omega arith))
  length-visible (r ∷ rows) (some false ∷ mask) h = length-visible rows mask (omega arith)
  length-visible (r ∷ rows) (none ∷ mask) h = length-visible rows mask (omega arith)

module _ {E R : Type 0} where
  -- A stream without filters hides no row.
  pub visible_rows_plain :
      (stream : Stream E R) → IsPlain stream → visible_rows stream ≡ stored_rows stream
  visible_rows_plain [] p = refl
  visible_rows_plain (err e ∷ rest) p = elim p [ ]
  visible_rows_plain (ok chunk ∷ rest) p =
      rw (visible_plain chunk p.0, visible_rows_plain rest p.1) refl
