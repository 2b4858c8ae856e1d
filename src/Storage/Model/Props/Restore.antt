-- ===== src/Storage/Model/Props/Restore.antt =====
-- Writes of properties and of the old values at the same indices, of which one may stand twice.
use mini_gu.Base.{
  ℕ, zero, suc, ◌<◌, ◌≡◌, ◌≢◌, inl, inr, refl, sym, ap, subst, ◌∙◌, Bool, true, false, ◌||◌, List,
  [], ◌∷◌, some, arith, lt→ltb, ◌==◌, ==_iff, length, get_elem?, set, ok, ok_or, ◌>>=◌, Bool-cases,
  >>=-eq-ok, ok_or-eq-ok, length-set, All, All-imp,
}
use mini_gu.Storage.Error.{panicked}
use mini_gu.Storage.Model.Props.{set_prop, set_props, old_props}

abbrev pub contains : ℕ → List ℕ → Bool
contains j [] = false
contains j (i ∷ is) = i == j || contains j is

module _ {V : Type 0} where
  get-set_self : (xs : List V) (i : ℕ) (v : V) → i < length xs → get_elem? (set xs i v) i ≡ some v
  get-set_self [] i v h = elim h [ ]
  get-set_self (x ∷ xs) zero v h = refl
  get-set_self (x ∷ xs) (suc i) v h = get-set_self xs i v (omega arith)

  get-set_ne : (xs : List V) (i j : ℕ) (v : V) → i ≢ j → get_elem? (set xs i v) j ≡ get_elem? xs j
  get-set_ne [] i j v h = refl
  get-set_ne (x ∷ xs) zero zero v h = absurd (h refl)
  get-set_ne (x ∷ xs) zero (suc j) v h = refl
  get-set_ne (x ∷ xs) (suc i) zero v h = refl
  get-set_ne (x ∷ xs) (suc i) (suc j) v h = get-set_ne xs i j v (λ e. h (ap suc e))

  get-lt-length : (xs : List V) (i : ℕ) {v : V} → get_elem? xs i ≡ some v → i < length xs
  get-lt-length [] i h = cc
  get-lt-length (x ∷ xs) zero h = omega arith
  get-lt-length (x ∷ xs) (suc i) h = omega (arith, get-lt-length xs i h)

  list_ext :
      (xs ys : List V)
      → length xs ≡ length ys
      → ((j : ℕ) → get_elem? xs j ≡ get_elem? ys j)
      → xs ≡ ys
  list_ext [] [] l h = refl
  list_ext [] (y ∷ ys) l h = absurd (omega arith)
  list_ext (x ∷ xs) [] l h = absurd (omega arith)
  list_ext (x ∷ xs) (y ∷ ys) l h = cc (h 0, list_ext xs ys (omega arith) (λ j. h (suc j)))

  set_prop-eq-ok :
      (ps : List V) (i : ℕ) (v : V) {qs : List V}
      → set_prop ps i v ≡ ok qs
      → (i < length ps) × (qs ≡ set ps i v)
  unfolding set_prop
  set_prop-eq-ok ps i v h = ground arith

  -- One round of the loop, from its success.
  set_props-eq-ok :
      (ps : List V) (i : ℕ) (is : List ℕ) (v : V) (vs : List V) {qs : List V}
      → set_props ps (i ∷ is) (v ∷ vs) ≡ ok qs
      → (i < length ps) × (set_props (set ps i v) is vs ≡ ok qs)
  unfolding set_props
  set_props-eq-ok ps i is v vs h =
      let (mid, first, rest) = >>=-eq-ok (set_prop ps i v) (λ c. set_props c is vs) h in
      let (lt, eq) = set_prop-eq-ok ps i v first in (lt, rw (← eq) rest)

  set_props_round :
      (ps : List V) (i : ℕ) (is : List ℕ) (v : V) (vs : List V)
      → i < length ps
      → set_props ps (i ∷ is) (v ∷ vs) ≡ set_props (set ps i v) is vs
  unfolding set_props set_prop
  set_props_round ps i is v vs h = rw (lt→ltb i (length ps) h)

  pub length-set_props :
      (ps : List V) (is : List ℕ) (vs : List V) {qs : List V}
      → set_props ps is vs ≡ ok qs
      → length qs ≡ length ps
  unfolding set_props
  length-set_props ps [] vs h = ap length (cc)
  length-set_props ps (i ∷ is) [] h = ap length (cc)
  length-set_props ps (i ∷ is) (v ∷ vs) h =
      length-set_props (set ps i v) is vs (set_props-eq-ok ps i is v vs h).1 ∙ length-set ps i v

  -- The loop changes nothing at an index that is not listed.
  pub get-set_props_ne :
      (ps : List V) (is : List ℕ) (vs : List V) (j : ℕ) {qs : List V}
      → set_props ps is vs ≡ ok qs
      → contains j is ≡ false
      → get_elem? qs j ≡ get_elem? ps j
  unfolding set_props
  get-set_props_ne ps [] vs j h n = ap (λ l. get_elem? l j) (cc)
  get-set_props_ne ps (i ∷ is) [] j h n = ap (λ l. get_elem? l j) (cc)
  get-set_props_ne ps (i ∷ is) (v ∷ vs) j h n =
      get-set_props_ne (set ps i v) is vs j (set_props-eq-ok ps i is v vs h).1 (ground arith)
      ∙ get-set_ne ps i j v (ground arith)

  old_props-eq-ok :
      (ps : List V) (i : ℕ) (is : List ℕ) {olds : List V}
      → old_props ps (i ∷ is) ≡ ok olds
      → (o : V) × (os : List V) × (get_elem? ps i ≡ some o)
        × (old_props ps is ≡ ok os)
        × (olds ≡ o ∷ os)
  unfolding old_props
  old_props-eq-ok ps i is h =
      let (o, e, rest) =
        >>=-eq-ok (ok_or (get_elem? ps i) panicked)
          (λ old. old_props ps is >>= λ olds. ok (old ∷ olds)) h in
      let (os, q, r) = >>=-eq-ok (old_props ps is) (λ olds. ok (o ∷ olds)) rest in
      (o, os, ok_or-eq-ok (get_elem? ps i) panicked e, q, cc r)

  agree_after :
      (ps qs : List V) (i : ℕ) (is : List ℕ) (o : V)
      → get_elem? ps i ≡ some o
      → i < length qs
      → ((j : ℕ) → contains j (i ∷ is) ≡ false → get_elem? qs j ≡ get_elem? ps j)
      → (j : ℕ) → contains j is ≡ false
      → get_elem? (set qs i o) j ≡ get_elem? ps j
  agree_after ps qs i is o e b agree j n = elim (Bool-cases (i == j)) [
    | inl same ↦
        let p : i ≡ j = (==_iff i j).0 same in
        subst (λ k. get_elem? (set qs i o) k ≡ get_elem? ps k) p (get-set_self qs i o b ∙ sym e)
    | inr other ↦ get-set_ne qs i j o (ground arith) ∙ agree j (rw (other, n) refl)
  ]

  -- Where `qs` agrees with `ps` but at listed indices, writing the old values gives `ps`.
  restore_agreeing :
      (ps qs : List V) (is : List ℕ) (olds : List V)
      → old_props ps is ≡ ok olds
      → length qs ≡ length ps
      → ((j : ℕ) → contains j is ≡ false → get_elem? qs j ≡ get_elem? ps j)
      → set_props qs is olds ≡ ok ps
  unfolding set_props
  restore_agreeing ps qs [] olds h l agree = ap ok (list_ext qs ps l (λ j. agree j refl))
  restore_agreeing ps qs (i ∷ is) [] h l agree =
      let (o, os, e, q, r) = old_props-eq-ok ps i is h in absurd (cc r)
  restore_agreeing ps qs (i ∷ is) (o' ∷ os') h l agree =
      let (o, os, e, q, r) = old_props-eq-ok ps i is h in
      let bound : i < length qs = omega (arith, l, get-lt-length ps i e) in
      let same : o' ≡ o = cc r in
      let tail_ : os' ≡ os = cc r in
      set_props_round qs i is o' os' bound
      ∙ restore_agreeing ps (set qs i o') is os' (cc (q, tail_)) (length-set qs i o' ∙ l)
          (λ j n. agree_after ps qs i is o' (cc (e, same)) bound agree j n)

  -- The old values that were read at `is` undo a write of any values at `is`.
  pub set_props-old_props :
      (ps : List V) (is : List ℕ) (news olds : List V) {qs : List V}
      → old_props ps is ≡ ok olds
      → set_props ps is news ≡ ok qs
      → set_props qs is olds ≡ ok ps
  set_props-old_props ps is news olds {qs} o s =
      restore_agreeing ps qs is olds o (length-set_props ps is news s)
        (λ j n. get-set_props_ne ps is news j s n)

  -- At a listed index the old values are there again, whatever stood there.
  pub get-set_props_old :
      (ps qs : List V) (is : List ℕ) (olds : List V) (j : ℕ) {rs : List V}
      → old_props ps is ≡ ok olds
      → set_props qs is olds ≡ ok rs
      → contains j is ≡ true
      → get_elem? rs j ≡ get_elem? ps j
  get-set_props_old ps qs [] olds j o s listed = cc listed
  get-set_props_old ps qs (i ∷ is) [] j o s listed =
      let (v, vs, e, q, r) = old_props-eq-ok ps i is o in absurd (cc r)
  get-set_props_old ps qs (i ∷ is) (v' ∷ vs') j {rs} o s listed =
      let (v, vs, e, q, r) = old_props-eq-ok ps i is o in
      let first : v' ≡ v = cc r in
      let others : vs' ≡ vs = cc r in
      let (inside, rest) = set_props-eq-ok qs i is v' vs' s in
      elim (Bool-cases (contains j is)) [
        | inl again ↦ get-set_props_old ps (set qs i v') is vs' j (cc (q, others)) rest again
        | inr last ↦
            let at : i ≡ j = (==_iff i j).0 (ground (arith, listed, last)) in
            get-set_props_ne (set qs i v') is vs' j rest last
            ∙ subst (λ k. get_elem? (set qs i v') k ≡ get_elem? ps k) at
                (get-set_self qs i v' inside ∙ cc (e, first))
      ]

  pub indices_inside :
      (ps : List V) (is : List ℕ) {olds : List V}
      → old_props ps is ≡ ok olds
      → All (λ i. i < length ps) is
  indices_inside ps [] h = tt
  indices_inside ps (i ∷ is) h =
      let (o, os, e, q, r) = old_props-eq-ok ps i is h in
      (get-lt-length ps i e, indices_inside ps is q)

  pub set_props_inside :
      (ps : List V) (is : List ℕ) (vs : List V)
      → All (λ i. i < length ps) is
      → (qs : List V) × (set_props ps is vs ≡ ok qs)
  unfolding set_props
  set_props_inside ps [] vs h = (ps, refl)
  set_props_inside ps (i ∷ is) [] h = (ps, refl)
  set_props_inside ps (i ∷ is) (v ∷ vs) h =
      let (qs, e) =
        set_props_inside (set ps i v) is vs
          (All-imp is (λ k lt. omega (arith, length-set ps i v)) h.1) in
      (qs, set_props_round ps i is v vs h.0 ∙ e)

  -- Where the old values could be read, the write succeeds: no index is out of range.
  pub set_props_total :
      (ps : List V) (is : List ℕ) (vs olds : List V)
      → old_props ps is ≡ ok olds
      → (qs : List V) × (set_props ps is vs ≡ ok qs)
  set_props_total ps is vs olds h = set_props_inside ps is vs (indices_inside ps is h)
