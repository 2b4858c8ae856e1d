-- ===== src/Storage/Tp/Optimistic/Delta.antt =====
-- The undo delta of an update under optimistic locking, `compute_prop_delta` of
-- minigu/storage/src/tp/transaction.rs.
use mini_gu.Base.{
  ◌+◌, ◌≡◌, refl, ap, Bool, false, List, [], ◌∷◌, ◌++◌, length, set, ok, arith, Bool-cases, inl,
  inr, lt→ltb, length-append,
}
use mathlib.Core.List.{append_assoc}
use mini_gu.Storage.Model.Props.{set_prop, set_props}
use mini_gu.Storage.Tp.Optimistic.Apply.{prop_delta, update_op}

module _ {V : Type 0} where
  set-append :
      (xs : List V) (y z : V) (ys : List V) → set (xs ++ (y ∷ ys)) (length xs) z ≡ xs ++ (z ∷ ys)
  set-append [] y z ys = refl
  set-append (x ∷ xs) y z ys = ap (λ l. x ∷ l) (set-append xs y z ys)

module _ {V : Type 0} (differs : V → V → Bool)
    (same : (b a : V) → differs b a ≡ false → b ≡ a) where
  one_more :
      (done : List V) (b : V) (before after : List V)
      → set_props
          ((done ++ (b ∷ [])) ++ after)
          (prop_delta differs (length (done ++ (b ∷ []))) before after).0
          (prop_delta differs (length (done ++ (b ∷ []))) before after).1
        ≡ ok ((done ++ (b ∷ [])) ++ before)
      → set_props
          (done ++ (b ∷ after))
          (prop_delta differs (length done + 1) before after).0
          (prop_delta differs (length done + 1) before after).1
        ≡ ok (done ++ (b ∷ before))
  one_more done b before after h =
      let old : (done ++ (b ∷ [])) ++ after ≡ done ++ (b ∷ after) =
        append_assoc done (b ∷ []) after in
      let new : (done ++ (b ∷ [])) ++ before ≡ done ++ (b ∷ before) =
        append_assoc done (b ∷ []) before in
      let len : length (done ++ (b ∷ [])) ≡ length done + 1 = length-append done (b ∷ []) in
      rw (← old, ← new, ← len) h

  -- From an index on, where the values before it are in place.
  set_props-prop_delta :
      (done before after : List V)
      → length before ≡ length after
      → set_props
          (done ++ after)
          (prop_delta differs (length done) before after).0
          (prop_delta differs (length done) before after).1
        ≡ ok (done ++ before)
  unfolding prop_delta set_props set_prop
  set_props-prop_delta done [] [] h = refl
  set_props-prop_delta done [] (a ∷ after) h = absurd (omega arith)
  set_props-prop_delta done (b ∷ before) [] h = absurd (omega arith)
  set_props-prop_delta done (b ∷ before) (a ∷ after) h = elim (Bool-cases (differs b a)) [
    | inl changed ↦ rw changed (
        rw
          (lt→ltb (length done) (length (done ++ (a ∷ after)))
            (omega (arith, length-append done (a ∷ after))))
          (rw (set-append done a b after) (
            one_more done b before after
              (set_props-prop_delta (done ++ (b ∷ [])) before after (omega arith)))))
    | inr kept ↦ rw kept (
        rw (← same b a kept) (
          one_more done b before after
            (set_props-prop_delta (done ++ (b ∷ [])) before after (omega arith))))
  ]

  -- Applied to the properties after an update, the operation that `compute_prop_delta` makes gives
  -- the properties before it, if the two records have one length and values that do not differ are
  -- equal.
  pub set_props-update_op :
      (before after : List V)
      → length before ≡ length after
      → set_props after
          (update_op differs before after).indices
          (update_op differs before after).props
        ≡ ok before
  set_props-update_op before after h = set_props-prop_delta [] before after h
