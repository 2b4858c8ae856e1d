-- ===== src/Base/Results.antt =====
-- `Result<A, E>` with the `?` operator as bind.
use mathlib.Core.Path.{◌≡◌, refl}
use mathlib.Core.Option.{Option, none, some}
use mathlib.Core.Logic.{◌⊎◌, inl, inr}

pub data Result {ℓ κ} (E : Type κ) (A : Type ℓ) : Type (ℓ ⊔ κ) where
  err : E → Result E A
  ok : A → Result E A

module _ {ℓ κ} {E : Type κ} {A : Type ℓ} where
  -- `Option::ok_or`
  abbrev pub ok_or : Option A → E → Result E A
  ok_or (some x) failure = ok x
  ok_or none failure = err failure

  pub ok-injective : {x y : A} → ◌≡◌ {A = Result E A} (ok x) (ok y) → x ≡ y
  ok-injective same = cc

  pub Result-cases : (r : Result E A) → ((x : A) × (r ≡ ok x)) ⊎ ((failure : E) × (r ≡ err failure))
  Result-cases (err failure) = inr (failure, refl)
  Result-cases (ok x) = inl (x, refl)

  pub ok_or-eq-ok : (o : Option A) (failure : E) {x : A} → ok_or o failure ≡ ok x → o ≡ some x
  ok_or-eq-ok (some y) failure got = cc
  ok_or-eq-ok none failure got = cc

module _ {ℓ μ κ} {E : Type κ} {A : Type ℓ} {B : Type μ} where
  infixl 5 ◌>>=◌
  abbrev pub ◌>>=◌ : Result E A → (A → Result E B) → Result E B
  err failure >>= rest = err failure
  ok x >>= rest = rest x

  -- A chain that succeeded: its first part did, and the rest did on its value.
  pub >>=-eq-ok :
      (part : Result E A) (rest : A → Result E B) {y : B}
      → (part >>= rest) ≡ ok y
      → (x : A) × (part ≡ ok x) × (rest x ≡ ok y)
  >>=-eq-ok (err failure) rest got = cc
  >>=-eq-ok (ok x) rest got = (x, refl, got)

module _ {μ κ} {E : Type κ} {B : Type μ} where
  infixl 5 ◌>>◌
  abbrev pub ◌>>◌ : Result E (Unit {0}) → Result E B → Result E B
  check >> rest = check >>= λ _. rest

-- A chain of a check and two steps that succeeded, in parts.
pub chain-eq-ok {ℓ μ ν κ} :
    {E : Type κ} {A : Type ℓ} {B : Type μ} {C : Type ν} (check : Result E (Unit {0}))
    (first : Result E A) (second : Result E B) (f : A → B → C) {c : C}
    → (check >> (first >>= λ a. second >>= λ b. ok (f a b))) ≡ ok c
    → (a : A) × (b : B) × (check ≡ ok tt) × (first ≡ ok a) × (second ≡ ok b) × (f a b ≡ c)
chain-eq-ok (ok tt) (ok a) (ok b) f h = (a, b, refl, refl, refl, cc)
chain-eq-ok (ok u) (ok a) (err e) f h = cc
chain-eq-ok (ok u) (err e) second f h = cc
chain-eq-ok (err e) first second f h = cc
