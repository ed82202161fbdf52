-- ===== src/GraphStore/Tests.antt =====
-- A store with one rel table, whose edges are the number 7.
use ladybug_python.Base.{ℕ, ◌≡◌, refl, false, some, none, [], ◌∷◌, ◌==◌, ◌&&◌, not, if◌then◌else◌}
use ladybug_python.Outcome.{ok}
use ladybug_python.Text.{codes}
use ladybug_python.GraphStore.{
  EdgeType, coo, csc, layout_eq, EdgeAttr, Store, put_edge_index, get_edge_index, remove_edge_index,
  populate_edge_attrs,
}
use ladybug_python.GraphStore.PutGet.{get_edge_index-put_edge_index}

abbrev follows : EdgeType
follows = (codes "User", (codes "Follows", codes "User"))

abbrev store : Store ℕ
store = populate_edge_attrs (λ l. 3) (follows ∷ []) []

abbrev unsorted : EdgeAttr
unsorted = record { edge_type = follows; layout = coo; is_sorted = false; size = none }

abbrev columns_first : EdgeAttr
columns_first = record { edge_type = follows; layout = csc; is_sorted = false; size = none }

-- The index 9 that was put is not what is given.
put_is_lost : (get_edge_index (λ t. 7) unsorted (put_edge_index 9 unsorted store)).0 ≡ ok (some 7)
unfolding get_edge_index populate_edge_attrs put_edge_index
put_is_lost = refl

removed :
    (get_edge_index
      (λ t. 7)
      columns_first
      (remove_edge_index columns_first (put_edge_index 9 columns_first store))).0
    ≡ ok none
unfolding get_edge_index populate_edge_attrs put_edge_index remove_edge_index
removed = refl

get_edge_index-put_edge_index_example :
    (get_edge_index (λ t. 7) columns_first (put_edge_index 9 columns_first store)).0 ≡ (
      if columns_first.layout == coo && not columns_first.is_sorted
      then (get_edge_index (λ t. 7) columns_first store).0
      else ok (some 9))
get_edge_index-put_edge_index_example = get_edge_index-put_edge_index (λ t. 7) columns_first 9 store
