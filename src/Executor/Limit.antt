-- ===== src/Executor/Limit.antt =====
-- `LimitBuilder` of minigu/gql/execution/src/executor/limit.rs.
use mini_gu.Base.{
  ℕ, ◌+◌, ◌-◌, ◌≡◌, ap, ◌∙◌, [], ◌∷◌, ◌++◌, none, some, take, drop, leb, leb→le, leb→lt, sym,
  if◌then◌else◌, ok, err, arith, Bool-cases, inl, inr,
}
use mini_gu.Executor.Chunk.{len, slice, Stream}
use mini_gu.Executor.Chunk.Visible.{
  stored_rows, visible_rows, IsPlain, visible_rows_plain, take-append_le, take-append_lt, take_nil,
  take_none, append_nil,
}

module _ {E R : Type 0} where
  -- The loop; `count` is what was yielded. What a `let` binds waits.
  unfoldable pub limit_loop : ℕ → ℕ → Stream E R → Stream E R
  limit_loop limit count [] = []
  limit_loop limit count (err e ∷ rest) = err e ∷ []
  limit_loop limit count (ok chunk ∷ rest) =
      let whole : Stream E R = ok chunk ∷ limit_loop limit (count + len chunk) rest in
      if leb limit count
      then []
      else if leb (len chunk) (limit - count)
      then whole
      else ok (slice chunk 0 (limit - count)) ∷ []

  unfoldable pub limit : ℕ → Stream E R → Stream E R
  unfolding limit_loop
  limit n child = limit_loop n 0 child

  limit_loop-stored :
      (n count : ℕ) (child : Stream E R)
      → IsPlain child
      → (stored_rows (limit_loop n count child) ≡ take (n - count) (stored_rows child))
        × IsPlain (limit_loop n count child)
  unfolding limit_loop slice
  limit_loop-stored n count [] p = (sym (take_nil (n - count)), tt)
  limit_loop-stored n count (err e ∷ rest) p = elim p [ ]
  limit_loop-stored n count (ok chunk ∷ rest) p =
      let rows = chunk.all_rows in
      let yielded = limit_loop-stored n (count + len chunk) rest p.1 in
      elim (Bool-cases (leb n count)) [
        | inl full ↦ rw full (
          sym (
              take_none (n - count) (rows ++ stored_rows rest)
                (omega (arith, leb→le n count full))),
          tt,
        )
        | inr more ↦ elim (Bool-cases (leb (len chunk) (n - count))) [
          | inl fits ↦
              rw (more, fits)
                (
                  ap (λ l. rows ++ l) yielded.0
                      ∙ ap (λ k. rows ++ take k (stored_rows rest)) {x = n - (count + len chunk)}
                          (omega arith)
                      ∙ sym (
                          take-append_le (n - count) rows (stored_rows rest)
                            (leb→le (len chunk) (n - count) fits)),
                  (p.0, yielded.1),
                )
          | inr cuts ↦
              rw (more, cuts)
                (
                  append_nil (take (n - count) rows)
                      ∙ sym (
                          take-append_lt (n - count) rows (stored_rows rest)
                            (omega (arith, leb→lt (len chunk) (n - count) cuts))),
                  (
                    ap
                        (λ f. elim f [
                          | none ↦ none
                          | some mask ↦ some (take (n - count) (drop 0 mask))
                        ])
                        {x = chunk.filter} p.0,
                    tt,
                  ),
                )
        ]
      ]

  -- LIMIT: if no chunk of the child has a filter and the child has no error, the rows that LIMIT
  -- yields are the first `n` rows of the child, and the yielded chunks have no filter.
  pub limit-visible_rows :
      (n : ℕ) (child : Stream E R)
      → IsPlain child
      → (visible_rows (limit n child) ≡ take n (visible_rows child)) × IsPlain (limit n child)
  unfolding limit
  limit-visible_rows n child p =
      let yielded = limit_loop-stored n 0 child p in
      (
        visible_rows_plain (limit_loop n 0 child) yielded.1
            ∙ yielded.0
            ∙ ap (λ k. take k (stored_rows child)) {x = n - 0} (omega arith)
            ∙ ap (λ l. take n l) (sym (visible_rows_plain child p)),
        yielded.1,
      )
