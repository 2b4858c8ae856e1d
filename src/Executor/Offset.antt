-- ===== src/Executor/Offset.antt =====
-- `OffsetBuilder` of minigu/gql/execution/src/executor/offset.rs, and OFFSET below LIMIT.
use mini_gu.Base.{
  ℕ, ◌+◌, ◌-◌, ◌≡◌, sym, ap, ◌∙◌, [], ◌∷◌, ◌++◌, none, some, take, drop, ltb, ltb→le, leb, leb→le,
  leb→lt, if◌then◌else◌, ok, err, arith, Bool-cases, inl, inr,
}
use mini_gu.Executor.Chunk.{len, slice, Stream}
use mini_gu.Executor.Chunk.Visible.{
  stored_rows, visible_rows, IsPlain, visible_rows_plain, drop-append_le, drop-append_lt, drop_nil,
  drop_none, take_whole, length-drop,
}
use mini_gu.Executor.Limit.{limit, limit-visible_rows}

module _ {E R : Type 0} where
  -- The loop; `skipped` counts the rows that were left out. What a `let` binds waits.
  unfoldable offset_loop : ℕ → ℕ → Stream E R → Stream E R
  offset_loop offset skipped [] = []
  offset_loop offset skipped (err e ∷ rest) = err e ∷ []
  offset_loop offset skipped (ok chunk ∷ rest) =
      let skip : Stream E R = offset_loop offset (skipped + len chunk) rest in
      let cut : Stream E R = offset_loop offset offset rest in
      let pass : Stream E R = offset_loop offset skipped rest in
      if ltb skipped offset
      then (if leb (len chunk) (offset - skipped)
          then skip
          else ok (slice chunk (offset - skipped) (len chunk - (offset - skipped))) ∷ cut)
      else ok chunk ∷ pass

  unfoldable pub offset : ℕ → Stream E R → Stream E R
  unfolding offset_loop
  offset n child = offset_loop n 0 child

  offset_loop-stored :
      (n skipped : ℕ) (child : Stream E R)
      → IsPlain child
      → (stored_rows (offset_loop n skipped child) ≡ drop (n - skipped) (stored_rows child))
        × IsPlain (offset_loop n skipped child)
  unfolding offset_loop slice
  offset_loop-stored n skipped [] p = (sym (drop_nil (n - skipped)), tt)
  offset_loop-stored n skipped (err e ∷ rest) p = elim p [ ]
  offset_loop-stored n skipped (ok chunk ∷ rest) p =
      let rows = chunk.all_rows in
      let left = n - skipped in
      let skip = offset_loop-stored n (skipped + len chunk) rest p.1 in
      let cut = offset_loop-stored n n rest p.1 in
      let pass = offset_loop-stored n skipped rest p.1 in
      elim (Bool-cases (ltb skipped n)) [
        | inl more ↦ elim (Bool-cases (leb (len chunk) (n - skipped))) [
          | inl hidden ↦
              rw (more, hidden)
                (
                  skip.0
                      ∙ ap (λ k. drop k (stored_rows rest)) {x = n - (skipped + len chunk)}
                          (omega arith)
                      ∙ sym (
                          drop-append_le (n - skipped) rows (stored_rows rest)
                            (leb→le (len chunk) (n - skipped) hidden)),
                  skip.1,
                )
          | inr cuts ↦
              rw (more, cuts)
                (
                  ap (λ l. l ++ stored_rows (offset_loop n n rest))
                        (take_whole (len chunk - (n - skipped)) (drop (n - skipped) rows)
                          (omega (arith, length-drop (n - skipped) rows)))
                      ∙ ap (λ l. drop (n - skipped) rows ++ l)
                          (cut.0 ∙ drop_none (n - n) (stored_rows rest) (omega arith))
                      ∙ sym (
                          drop-append_lt (n - skipped) rows (stored_rows rest)
                            (omega (arith, leb→lt (len chunk) (n - skipped) cuts))),
                  (
                    ap
                        (λ f. elim f [
                          | none ↦ none
                          | some mask ↦
                              some (take (len chunk - (n - skipped)) (drop (n - skipped) mask))
                        ])
                        {x = chunk.filter} p.0,
                    cut.1,
                  ),
                )
        ]
        | inr done ↦ rw done (
          ap (λ l. rows ++ l)
                (pass.0
                  ∙ drop_none (n - skipped) (stored_rows rest)
                      (omega (arith, ltb→le skipped n done)))
              ∙ sym (
                  drop_none (n - skipped) (rows ++ stored_rows rest)
                    (omega (arith, ltb→le skipped n done))),
          (p.0, pass.1),
        )
      ]

  -- OFFSET: if no chunk of the child has a filter and the child has no error, the rows that OFFSET
  -- yields are those of the child after the first `n`, and the yielded chunks have no filter.
  pub offset-visible_rows :
      (n : ℕ) (child : Stream E R)
      → IsPlain child
      → (visible_rows (offset n child) ≡ drop n (visible_rows child)) × IsPlain (offset n child)
  unfolding offset
  offset-visible_rows n child p =
      let yielded = offset_loop-stored n 0 child p in
      (
        visible_rows_plain (offset_loop n 0 child) yielded.1
            ∙ yielded.0
            ∙ ap (λ k. drop k (stored_rows child)) {x = n - 0} (omega arith)
            ∙ ap (λ l. drop n l) (sym (visible_rows_plain child p)),
        yielded.1,
      )

  -- A page: OFFSET `k` under LIMIT `n` yields rows `k` to `k + n` of the child, if no chunk of the
  -- child has a filter and the child has no error.
  pub limit-offset :
      (n k : ℕ) (child : Stream E R)
      → IsPlain child
      → visible_rows (limit n (offset k child)) ≡ take n (drop k (visible_rows child))
  limit-offset n k child p =
      let skipped = offset-visible_rows k child p in
      (limit-visible_rows n (offset k child) skipped.1).0 ∙ ap (λ l. take n l) skipped.0
