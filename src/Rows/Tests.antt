-- ===== src/Rows/Tests.antt =====
-- A result of three rows with the columns "a" and "b", its cursor the list of what is left.
use ladybug_python.Base.{
  ℕ, suc, ◌*◌, ◌≡◌, ◌≤◌, ◌<◌, ◌⊎◌, refl, Bool, true, false, none, String, List, [], ◌∷◌, arith,
  string_eq,
}
use ladybug_python.Outcome.{Result, ok, err, stop_iteration}
use ladybug_python.Rows.{QueryResult, create, close, get_next, get_all, get_n}
use ladybug_python.Rows.Format.{Row, plain, format_row}
use ladybug_python.Rows.Reading.{take, drop, IsOpen, get_n_then_get_all}
use ladybug_python.Rows.Close.{closes, conn_closes, db_closes, history, close_releases_once}
use ladybug_python.Rows.Columns.{rows_as_dict}
use ladybug_python.Rows.Arrow.{target_n_elems, chunk_rows, adaptive_chunk}

abbrev Left : Type 0
Left = List (List ℕ)

abbrev rows_left : Left → Bool
rows_left [] = false
rows_left (r ∷ rs) = true

abbrev take_row : Left → Result (List ℕ) × Left
take_row [] = (err (stop_iteration "no more rows"), [])
take_row (r ∷ rs) = (ok r, rs)

abbrev three : Left
three = (1 ∷ 2 ∷ []) ∷ (3 ∷ 4 ∷ []) ∷ (5 ∷ 6 ∷ []) ∷ []

abbrev outs : List (Row ℕ)
outs = plain (1 ∷ 2 ∷ []) ∷ plain (3 ∷ 4 ∷ []) ∷ plain (5 ∷ 6 ∷ []) ∷ []

abbrev fresh : QueryResult Left
fresh = create three

fresh-IsOpen : IsOpen fresh
unfolding create
fresh-IsOpen = record { result = refl; connected = refl; database = refl; connection = refl }

get_n_then_get_all_example :
    (d e : Left) × (get_n rows_left take_row 2 fresh
      ≡ (ok (take 2 outs), record fresh { cursor = d }))
    × (get_all rows_left take_row 4 (record fresh { cursor = d })
        ≡ (ok (drop 2 outs), record fresh { cursor = e }))
unfolding create format_row
get_n_then_get_all_example =
    get_n_then_get_all rows_left take_row 2 4 fresh three outs fresh-IsOpen
      (
        (3 ∷ 4 ∷ []) ∷ (5 ∷ 6 ∷ []) ∷ [],
        refl,
        refl,
        ((5 ∷ 6 ∷ []) ∷ [], refl, refl, ([], refl, refl, refl)),
      )
      (refl, (refl, (refl, tt))) (omega arith)

abbrev gone : QueryResult Left
gone = history (conn_closes ∷ closes ∷ db_closes ∷ closes ∷ []) fresh

close_releases_once_example :
    (gone.native_closes ≤ 1)
    × (gone.is_closed ≡ true
        → (gone.registered ≡ false)
          × ((gone.native_closes ≡ 1) ⊎ (gone.db_closed ≡ true))
          × (close gone ≡ gone))
close_releases_once_example =
    close_releases_once three (conn_closes ∷ closes ∷ db_closes ∷ closes ∷ [])

-- Two columns of one name: the last one wins.
abbrev names : List String
names = "a" ∷ "b" ∷ "a" ∷ []

abbrev values : List ℕ
values = 1 ∷ 2 ∷ 3 ∷ []

adaptive_chunk_example :
    (n : ℕ) × (chunk_rows none 3 100 ≡ ok n)
    × (10 ≤ n)
    × ((n * 3 ≤ target_n_elems) ⊎ (n ≡ 10))
    × (target_n_elems < suc n * 3)
adaptive_chunk_example = adaptive_chunk 3 100 (omega arith)

rows_as_dicts :
    let (r, s) = rows_as_dict (λ c. "a" ∷ "b" ∷ []) true fresh in
    (r ≡ ok tt)
    × ((get_next rows_left take_row s).0 ≡ format_row true ("a" ∷ "b" ∷ []) (1 ∷ 2 ∷ []))
unfolding create rows_as_dict get_next format_row
rows_as_dicts = (refl, refl)
