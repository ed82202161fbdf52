-- ===== src/Features/Tests.antt =====
-- Slices of a table of ten rows.
use ladybug_python.Base.{◌≡◌, refl, true, none, some, [], ◌∷◌, member, arith}
use ladybug_python.Outcome.{err, value_error, index_error}
use ladybug_python.Features.{
  bool, float, Attribute, by_scan, is_listed, way_of, scan_node_table, flat_dim_of, slice,
  arange_on, scanned, queried,
}
use ladybug_python.Features.Slices.{scan_reads_what_query_selects}

every_third : scanned 10 (slice 1 9 (some 3)) ≡ 1 ∷ 4 ∷ 7 ∷ []
unfolding scanned arange_on
every_third = refl

scan_reads_what_query_selects_example :
    member 5 (scanned 10 (slice 1 9 (some 3))) ≡ queried (slice 1 9 (some 3)) 5
scan_reads_what_query_selects_example =
    scan_reads_what_query_selects 10 (slice 1 9 (some 3)) 5 (omega arith)
      (λ start stop step e. ground (arith, e))

abbrev flag : Attribute
flag = record { kind = bool; dimension = 0; shape = none }

-- A column of booleans is listed, read by a scan, and refused there.
flag_refused :
    (is_listed flag ≡ true)
    × (way_of flag ≡ by_scan)
    × (scan_node_table flag.kind ≡ err (value_error "Unsupported property type: BOOL"))
unfolding is_listed way_of scan_node_table
flag_refused = (refl, refl, refl)

-- A list of lists of which only the inner ones have a size is listed, read by a scan, and raises there.
abbrev rows_of_three : Attribute
rows_of_three = record { kind = float; dimension = 2; shape = some (3 ∷ []) }

listed_and_not_read :
    (is_listed rows_of_three ≡ true)
    × (way_of rows_of_three ≡ by_scan)
    × (flat_dim_of rows_of_three ≡ err (index_error "tuple index out of range"))
unfolding is_listed way_of flat_dim_of
listed_and_not_read = (refl, refl, refl)
