-- ===== src/Storage/Model/Vertex.antt =====
-- minigu/storage/src/common/model/vertex.rs. The type `V` stands for the property values
-- (`ScalarValue`), which the store only moves and compares.
use mini_gu.Base.{ℕ, Bool, true, false, List, ok, ◌>>=◌}
use mini_gu.Storage.Error.{StorageResult}
use mini_gu.Storage.Model.Props

pub record Vertex (V : Type 0) : Type 0 where
  pub vid : ℕ
  pub label_id : ℕ
  pub properties : List V
  pub is_tombstone : Bool

module _ {V : Type 0} where
  unfoldable pub new : ℕ → ℕ → List V → Vertex V
  new vid label_id properties = record {
    vid = vid;
    label_id = label_id;
    properties = properties;
    is_tombstone = false;
  }

  unfoldable pub tombstone : Vertex V → Vertex V
  tombstone vertex = record {
    vid = vertex.vid;
    label_id = vertex.label_id;
    properties = vertex.properties;
    is_tombstone = true;
  }

  unfoldable pub set_props : Vertex V → List ℕ → List V → StorageResult (Vertex V)
  set_props vertex indices props = Props.set_props vertex.properties indices props >>= λ changed.
      ok (record vertex { properties = changed })
