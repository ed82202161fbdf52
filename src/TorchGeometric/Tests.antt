-- ===== src/TorchGeometric/Tests.antt =====
-- A result of two persons, one of them twice, whose lists of scores have different lengths.
use ladybug_python.Base.{ℕ, ◌≡◌, refl, Bool, true, false, none, some, List, [], ◌∷◌, length}
use ladybug_python.Outcome.{Result, ok, err, value_error, type_error}
use ladybug_python.Dict.{lookup}
use ladybug_python.Text.{Text, text_eq, codes}
use ladybug_python.TorchGeometric.{Node, Cell, node, rel, empty_converter}
use ladybug_python.TorchGeometric.Column.{Kind, int64, plain, Torch, uncaught}
use ladybug_python.TorchGeometric.Nodes.{Schema, populate_nodes}
use ladybug_python.TorchGeometric.Edges.{homogeneous, get_as_torch_geometric}
use ladybug_python.TorchGeometric.Views.{view}
use ladybug_python.TorchGeometric.Aligned.{columns_follow_nodes}
use ladybug_python.TorchGeometric.Aligned.Distinct.{all_complete, distinct, places, values_at}

data Value : Type 0 where
  null : Value
  number : ℕ → Value
  numbers : List ℕ → Value

abbrev shape : Kind → Value → Result (List ℕ)
shape k (numbers xs) = ok (length xs ∷ [])
shape k _ = err (value_error "expected sequence")

shape-caught : (k : Kind) (v : Value) → uncaught (shape k v) ≡ none
shape-caught k (numbers xs) = refl
shape-caught k null = refl
shape-caught k (number n) = refl

abbrev is_null : Value → Bool
is_null null = true
is_null _ = false

abbrev plain_lists : Torch Value
plain_lists = record { is_none = is_null; to_tensor = shape; to_list = λ v. v }

abbrev person : Text
person = codes "Person"

abbrev age : Text
age = codes "age"

abbrev scores : Text
scores = codes "scores"

abbrev schema : Text → Schema
schema l =
    (age, record { kind = int64; dimension = 0; is_primary_key = true })
    ∷ (scores, record { kind = int64; dimension = 1; is_primary_key = false })
    ∷ []

abbrev ada : Node Value
ada = record {
  id = (0, 0);
  label = person;
  props = (age, number 36) ∷ (scores, numbers (1 ∷ 2 ∷ [])) ∷ [];
}

abbrev bob : Node Value
bob = record {
  id = (0, 1);
  label = person;
  props = (age, number 40) ∷ (scores, numbers (3 ∷ [])) ∷ [];
}

abbrev cells : List (Cell Value)
cells = node ada ∷ node ada ∷ node bob ∷ rel (record { ends = ((0, 1), (0, 0)); props = [] }) ∷ []

columns_follow_nodes_example :
    ((populate_nodes plain_lists schema cells (empty_converter Value)).0 ≡ ok tt)
    × ((populate_nodes plain_lists schema cells (empty_converter Value)).1.id_to_pos
        ≡ places (λ _. 0) (distinct [] cells))
    × (view
          (λ v. v)
          person
          scores
          (populate_nodes plain_lists schema cells (empty_converter Value)).1.columns
        ≡ values_at (λ v. v) person scores (distinct [] cells))
unfolding lookup all_complete
columns_follow_nodes_example =
    columns_follow_nodes plain_lists (λ v. v) (λ v. refl) shape-caught schema
      (λ l. (refl, (refl, tt))) cells person scores refl refl

-- A list with a `None` in it: torch raises a TypeError, which ends the loop.
abbrev strict : Torch Value
strict = record {
  is_none = is_null;
  to_tensor = λ k v. err (type_error "an integer is required");
  to_list = λ v. v;
}

not_caught :
    (populate_nodes strict schema cells (empty_converter Value)).0
    ≡ err (type_error "an integer is required")
unfolding populate_nodes
not_caught = refl

distinct_cells : distinct [] cells ≡ ada ∷ bob ∷ []
unfolding distinct
distinct_cells = refl

converted :
    (get_as_torch_geometric plain_lists schema cells (empty_converter Value)).0
    ≡ ok (
        homogeneous
          ((age, plain (number 36) ∷ plain (number 40) ∷ []) ∷ [])
          (some ((some 1, some 0) ∷ []))
          ((some 0, number 36) ∷ (some 1, number 40) ∷ [])
          ((scores, numbers (1 ∷ 2 ∷ []) ∷ numbers (3 ∷ []) ∷ []) ∷ [])
          [])
unfolding get_as_torch_geometric
converted = refl
