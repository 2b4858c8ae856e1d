-- ===== src/Storage/Model/Props.antt =====
-- `PropertyRecord` of minigu/storage/src/common/model/properties.rs, and the loop of `set_props`.
pub mod Restore
use mini_gu.Base.{
  ℕ, List, [], ◌∷◌, Option, none, some, ltb, if◌then◌else◌, length, get_elem?, set, ok, err, ok_or,
  ◌>>=◌,
}
use mini_gu.Storage.Error.{StorageError, StorageResult, panicked}

module _ {V : Type 0} where
  -- `self.0[index] = prop`
  unfoldable pub set_prop : List V → ℕ → V → StorageResult (List V)
  set_prop props index prop =
      if ltb index (length props) then ok (set props index prop) else err panicked

  -- `for (&index, prop) in indices.iter().zip(props)`: the loop ends with the shorter list.
  unfoldable pub set_props : List V → List ℕ → List V → StorageResult (List V)
  set_props record_ [] props = ok record_
  set_props record_ (index ∷ indices) [] = ok record_
  set_props record_ (index ∷ indices) (prop ∷ props) =
      set_prop record_ index prop >>= λ changed. set_props changed indices props

  -- `indices.iter().map(|i| properties.get(*i).unwrap().clone()).collect()`
  unfoldable pub old_props : List V → List ℕ → StorageResult (List V)
  old_props record_ [] = ok []
  old_props record_ (index ∷ indices) = ok_or (get_elem? record_ index) panicked >>= λ old.
      old_props record_ indices >>= λ olds. ok (old ∷ olds)
