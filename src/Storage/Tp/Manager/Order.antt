-- ===== src/Storage/Tp/Manager/Order.antt =====
-- The active transactions in order of their ids, with starts that do not fall.
use mini_gu.Base.{
  ℕ, ◌≤◌, ◌<◌, max, List, [], ◌∷◌, All, All-imp, arith, ltb, ltb→lt, ==_iff, ◌==◌, Bool-cases, inl,
  inr,
}
use mini_gu.Base.Assoc.{insert_sorted, remove}
use mini_gu.Storage.Tp.Txn.{MemTransaction}
use mini_gu.Storage.Tp.Manager.{front_start}

module _ {V : Type 0} where
  -- Smaller ids have starts that are no later.
  abbrev pub Rising : List (ℕ × MemTransaction V) → Type 0
  Rising [] = Unit
  Rising ((txn_id, txn) ∷ rest) =
      All (λ (id, t). (txn_id < id) × (txn.start_ts ≤ t.start_ts)) rest × Rising rest

  pub All-insert_sorted :
      (P : ℕ × MemTransaction V → Type 0) (txn_id : ℕ) (txn : MemTransaction V)
      (active : List (ℕ × MemTransaction V))
      → P (txn_id, txn)
      → All P active
      → All P (insert_sorted txn_id txn active)
  All-insert_sorted P txn_id txn [] p ps = (p, tt)
  All-insert_sorted P txn_id txn ((j, t) ∷ rest) p ps = elim (Bool-cases (ltb txn_id j)) [
    | inl before ↦ rw before (p, ps)
    | inr after ↦ elim (Bool-cases (j == txn_id)) [
      | inl same ↦ rw (after, same) (p, ps.1)
      | inr other ↦ rw (after, other) (ps.0, All-insert_sorted P txn_id txn rest p ps.1)
    ]
  ]

  pub All-remove :
      (P : ℕ × MemTransaction V → Type 0) (txn_id : ℕ) (active : List (ℕ × MemTransaction V))
      → All P active
      → All P (remove txn_id active)
  All-remove P txn_id [] ps = tt
  All-remove P txn_id ((j, t) ∷ rest) ps = elim (Bool-cases (j == txn_id)) [
    | inl same ↦ rw same (All-remove P txn_id rest ps.1)
    | inr other ↦ rw other (ps.0, All-remove P txn_id rest ps.1)
  ]

  pub Rising-remove :
      (txn_id : ℕ) (active : List (ℕ × MemTransaction V))
      → Rising active
      → Rising (remove txn_id active)
  Rising-remove txn_id [] r = tt
  Rising-remove txn_id ((j, t) ∷ rest) r = elim (Bool-cases (j == txn_id)) [
    | inl same ↦ rw same (Rising-remove txn_id rest r.1)
    | inr other ↦ rw other (All-remove _ txn_id rest r.0, Rising-remove txn_id rest r.1)
  ]

  -- A transaction with the largest id and the latest start goes to the end.
  pub Rising-insert_sorted :
      (txn_id : ℕ) (txn : MemTransaction V) (active : List (ℕ × MemTransaction V))
      → All (λ (id, t). (id < txn_id) × (t.start_ts ≤ txn.start_ts)) active
      → Rising active
      → Rising (insert_sorted txn_id txn active)
  Rising-insert_sorted txn_id txn [] below r = (tt, tt)
  Rising-insert_sorted txn_id txn ((j, t) ∷ rest) below r = elim (Bool-cases (ltb txn_id j)) [
    | inl before ↦ absurd (omega (arith, below.0.0, ltb→lt txn_id j before))
    | inr after ↦ elim (Bool-cases (j == txn_id)) [
      | inl same ↦ absurd (omega (arith, below.0.0, (==_iff j txn_id).0 same))
      | inr other ↦
          rw (after, other)
            (
              All-insert_sorted _ txn_id txn rest below.0 r.0,
              Rising-insert_sorted txn_id txn rest below.1 r.1,
            )
    ]
  ]

  pub front_start_le :
      (active : List (ℕ × MemTransaction V)) (latest : ℕ)
      → Rising active
      → All (λ (id, t). front_start active latest ≤ t.start_ts) active
  front_start_le [] latest r = tt
  front_start_le ((j, t) ∷ rest) latest r = (omega arith, All-imp rest (λ p h. h.1) r.0)

  pub front_start_lt :
      (active : List (ℕ × MemTransaction V)) (latest bound : ℕ)
      → All (λ (id, t). t.start_ts < bound) active
      → latest < bound
      → front_start active latest < bound
  front_start_lt [] latest bound ps h = h
  front_start_lt ((j, t) ∷ rest) latest bound ps h = ps.0

  pub All-max :
      (a b : ℕ) (active : List (ℕ × MemTransaction V))
      → All (λ (id, t). a ≤ t.start_ts) active
      → All (λ (id, t). b ≤ t.start_ts) active
      → All (λ (id, t). max a b ≤ t.start_ts) active
  All-max a b [] ps qs = tt
  All-max a b ((j, t) ∷ rest) ps qs = (omega (arith, ps.0, qs.0), All-max a b rest ps.1 qs.1)
