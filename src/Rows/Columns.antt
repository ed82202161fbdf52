-- ===== src/Rows/Columns.antt =====
-- The columns of a result, `rows_as_dict` and `reset_iterator`. The native names and types are
-- parameters.
use ladybug_python.Base.{◌≡◌, refl, Bool, true, false, List, [], String, string_eq, arith}
use ladybug_python.Outcome.{Result, ok, Exec, gets, modify, ◌>>=◌, ◌>>◌}
use ladybug_python.Dict.{Dict}
use ladybug_python.Rows.{QueryResult, check_open, get_next}
use ladybug_python.Rows.Format.{format_row, zip, add_pairs}
use ladybug_python.Rows.Reading.{IsOpen}

module _ {Cursor : Type 0} (native_names : Cursor → List String) where
  unfoldable pub get_column_names : Exec (QueryResult Cursor) (List String)
  unfolding check_open
  get_column_names = do check_open; gets (λ q. native_names q.cursor)

  unfoldable pub get_schema :
      (Cursor → List String) → Exec (QueryResult Cursor) (Dict String String)
  unfolding check_open add_pairs
  get_schema native_types = do
    check_open
    gets (λ q. add_pairs (zip (native_names q.cursor) (native_types q.cursor)) [])

  -- `as_dict` is set before the names are asked for.
  unfoldable pub rows_as_dict : Bool → Exec (QueryResult Cursor) Unit
  unfolding get_column_names
  rows_as_dict false = modify (λ q. record q { as_dict = false })
  rows_as_dict true = do
    modify (λ q. record q { as_dict = true })
    names ← get_column_names
    modify (λ q. record q { columns = names })

unfoldable pub reset_iterator :
    {Cursor : Type 0} → (Cursor → Cursor) → Exec (QueryResult Cursor) Unit
unfolding check_open
reset_iterator native_reset = do
  check_open
  modify (λ q. record q { cursor = native_reset q.cursor })

-- On an open result whose cursor hands out a row next: after `rows_as_dict` the row is read with the
-- column names as keys, or plain, as was asked.
rows_as_dict-get_next :
    {Cursor Cell : Type 0} (native_names : Cursor → List String) (native_has_next : Cursor → Bool)
    (native_get_next : Cursor → Result (List Cell) × Cursor) (q : QueryResult Cursor) (state : Bool)
    (row : List Cell) (c : Cursor)
    → IsOpen q
    → native_get_next q.cursor ≡ (ok row, c)
    → let (r, s) = rows_as_dict native_names state q in
      (r ≡ ok tt)
      × ((get_next native_has_next native_get_next s).0
          ≡ format_row state (native_names q.cursor) row)
unfolding rows_as_dict get_next format_row
rows_as_dict-get_next native_names native_has_next native_get_next q true row c o e =
    (ground (arith, o), ground (arith, o, e))
rows_as_dict-get_next native_names native_has_next native_get_next q false row c o e =
    (refl, ground (arith, o, e))
