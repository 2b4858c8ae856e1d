-- ===== src/Executor/Tests.antt =====
-- Chunks of three rows, as in the tests of minigu/gql/execution/src/executor/limit.rs.
use mini_gu.Base.{ℕ, ◌≡◌, refl, [], ◌∷◌, true, false, some, ok}
use mini_gu.Executor.Chunk.{new, with_filter, slice, visible, Stream}
use mini_gu.Executor.Chunk.Visible.{visible_rows, IsPlain}
use mini_gu.Executor.Limit.{limit, limit_loop, limit-visible_rows}
use mini_gu.Executor.Offset.{offset, offset-visible_rows, limit-offset}

abbrev three_chunks : Stream ℕ ℕ
three_chunks =
    ok (new (1 ∷ 2 ∷ 3 ∷ [])) ∷ ok (new (4 ∷ 5 ∷ 6 ∷ [])) ∷ ok (new (7 ∷ 8 ∷ 9 ∷ [])) ∷ []

three_chunks-IsPlain : IsPlain three_chunks
three_chunks-IsPlain = (refl, (refl, (refl, tt)))

limit-visible_rows_example :
    (visible_rows (limit 5 three_chunks) ≡ 1 ∷ 2 ∷ 3 ∷ 4 ∷ 5 ∷ []) × IsPlain (limit 5 three_chunks)
unfolding visible
limit-visible_rows_example = limit-visible_rows 5 three_chunks three_chunks-IsPlain

offset-visible_rows_example :
    (visible_rows (offset 4 three_chunks) ≡ 5 ∷ 6 ∷ 7 ∷ 8 ∷ 9 ∷ [])
    × IsPlain (offset 4 three_chunks)
unfolding visible
offset-visible_rows_example = offset-visible_rows 4 three_chunks three_chunks-IsPlain

limit-offset_example : visible_rows (limit 3 (offset 2 three_chunks)) ≡ 3 ∷ 4 ∷ 5 ∷ []
unfolding visible
limit-offset_example = limit-offset 3 2 three_chunks three_chunks-IsPlain

-- A chunk as the lazy filter passes it on: its first two rows are hidden.
abbrev filtered : Stream ℕ ℕ
filtered = ok (with_filter (new (1 ∷ 2 ∷ 3 ∷ [])) (some false ∷ some false ∷ some true ∷ [])) ∷ []

-- LIMIT 1 over it yields no row, though a row is visible: it counts hidden rows.
limit_counts_hidden_rows : visible_rows (limit 1 filtered) ≡ []
unfolding limit limit_loop slice visible
limit_counts_hidden_rows = refl
