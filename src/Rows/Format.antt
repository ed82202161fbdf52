-- ===== src/Rows/Format.antt =====
-- `_row_to_dict` and the two forms of a row.
use ladybug_python.Base.{
  ◌≡◌, ◌≢◌, refl, Bool, true, false, Option, none, some, String, List, [], ◌∷◌, length, arith,
  nat_beq, string_eq, ◌==◌, if◌then◌else◌,
}
use ladybug_python.Outcome.{Result, ok, err, PyError, runtime_error}
use ladybug_python.Dict.{Dict, lookup, insert, lookup-insert}

pub data Row (Cell : Type 0) : Type 0 where
  plain : List Cell → Row Cell
  named : Dict String Cell → Row Cell

module _ {Cell : Type 0} where
  abbrev pub zip : List String → List Cell → List (String × Cell)
  zip [] vs = []
  zip (k ∷ ks) [] = []
  zip (k ∷ ks) (v ∷ vs) = (k, v) ∷ zip ks vs

  -- `dict(pairs)`, on top of the entries that are there.
  unfoldable pub add_pairs : List (String × Cell) → Dict String Cell → Dict String Cell
  add_pairs [] d = d
  add_pairs ((k, v) ∷ ps) d = add_pairs ps (insert k v d)

  -- `_row_to_dict`
  unfoldable pub row_to_dict : List String → List Cell → Result (Dict String Cell)
  unfolding add_pairs
  row_to_dict columns row =
      if nat_beq (length columns) (length row)
      then ok (add_pairs (zip columns row) [])
      else err (runtime_error "Number of columns in output row does not match number of columns")

  unfoldable pub format_row : Bool → List String → List Cell → Result (Row Cell)
  unfolding row_to_dict
  format_row false columns row = ok (plain row)
  format_row true columns row = elim (row_to_dict columns row) [
    | ok d ↦ ok (named d)
    | err e ↦ err e
  ]

  -- The value under the last pair with the key.
  abbrev pub last_of : String → List (String × Cell) → Option Cell
  last_of k [] = none
  last_of k ((j, v) ∷ ps) = elim (last_of k ps) [
    | some u ↦ some u
    | none ↦ (if j == k then some v else none)
  ]

  lookup-add_pairs :
      (k : String) (ps : List (String × Cell)) (d : Dict String Cell)
      → lookup k (add_pairs ps d) ≡ (elim (last_of k ps) [ some u ↦ some u | none ↦ lookup k d ])
  unfolding add_pairs
  lookup-add_pairs k [] d = refl
  lookup-add_pairs k ((j, v) ∷ ps) d =
      ground (arith, lookup-add_pairs k ps (insert j v d), lookup-insert j k v d)

-- A row becomes a dict exactly when it has one value for each column, and then each name leads to
-- the value of the last column of that name.
row_to_dict_lem :
    {Cell : Type 0} (columns : List String) (row : List Cell)
    → (length columns ≢ length row → (e : PyError) × (row_to_dict columns row ≡ err e))
      × (length columns ≡ length row
          → (d : Dict String Cell) × (row_to_dict columns row ≡ ok d)
            × ((k : String) → lookup k d ≡ last_of k (zip columns row)))
unfolding row_to_dict lookup
row_to_dict_lem columns row = (
  λ h. (
    runtime_error "Number of columns in output row does not match number of columns",
    ground arith,
  ),
  λ h. (
    add_pairs (zip columns row) [],
    ground arith,
    λ k. ground (arith, lookup-add_pairs k (zip columns row) []),
  ),
)
