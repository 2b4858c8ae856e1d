-- ===== src/Storage/Model/Edge.antt =====
-- minigu/storage/src/common/model/edge.rs. The type `V` stands for the property values
-- (`ScalarValue`), which the store only moves and compares.
use mini_gu.Base.{ℕ, Bool, true, false, List, [], ok, ◌>>=◌}
use mini_gu.Storage.Error.{StorageResult}
use mini_gu.Storage.Model.Props

pub record Edge (V : Type 0) : Type 0 where
  pub label_id : ℕ
  pub src_id : ℕ
  pub dst_id : ℕ
  pub eid : ℕ
  pub properties : List V
  pub is_tombstone : Bool

-- An entry of an adjacency list.
pub record Neighbor : Type 0 where
  pub label_id : ℕ
  pub neighbor_id : ℕ
  pub eid : ℕ

module _ {V : Type 0} where
  unfoldable pub new : ℕ → ℕ → ℕ → ℕ → List V → Edge V
  new eid src_id dst_id label_id properties = record {
    label_id = label_id;
    src_id = src_id;
    dst_id = dst_id;
    eid = eid;
    properties = properties;
    is_tombstone = false;
  }

  unfoldable pub tombstone : Edge V → Edge V
  tombstone edge = record {
    label_id = edge.label_id;
    src_id = edge.src_id;
    dst_id = edge.dst_id;
    eid = edge.eid;
    properties = edge.properties;
    is_tombstone = true;
  }

  unfoldable pub set_props : Edge V → List ℕ → List V → StorageResult (Edge V)
  set_props edge indices props = Props.set_props edge.properties indices props >>= λ changed.
      ok (record edge { properties = changed })

  unfoldable pub without_properties : Edge V → Edge V
  without_properties edge = record edge { properties = [] }
