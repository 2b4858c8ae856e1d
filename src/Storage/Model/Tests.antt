-- ===== src/Storage/Model/Tests.antt =====
-- The loop of `set_props` on concrete properties.
use mini_gu.Base.{ℕ, ◌≡◌, refl, [], ◌∷◌, ok}
use mini_gu.Storage.Model.Props.{set_prop, set_props, old_props}
use mini_gu.Storage.Model.Props.Restore.{set_props-old_props}

-- Index 1 stands twice, and the last value for it counts.
written_twice : set_props {V = ℕ} (5 ∷ 6 ∷ []) (1 ∷ 1 ∷ []) (8 ∷ 9 ∷ []) ≡ ok (5 ∷ 9 ∷ [])
unfolding set_props set_prop
written_twice = refl

read_twice : old_props {V = ℕ} (5 ∷ 6 ∷ []) (1 ∷ 1 ∷ []) ≡ ok (6 ∷ 6 ∷ [])
unfolding old_props
read_twice = refl

set_props-old_props_example :
    set_props {V = ℕ} (5 ∷ 9 ∷ []) (1 ∷ 1 ∷ []) (6 ∷ 6 ∷ []) ≡ ok (5 ∷ 6 ∷ [])
set_props-old_props_example =
    set_props-old_props (5 ∷ 6 ∷ []) (1 ∷ 1 ∷ []) (8 ∷ 9 ∷ []) (6 ∷ 6 ∷ []) read_twice written_twice
