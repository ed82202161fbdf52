-- ===== src/Csr/Tests.antt =====
-- Edges 7, 8 and 9 from the nodes 2, 0 and 2.
use ladybug_python.Base.{ℕ, ◌≡◌, refl, true, some, List, [], ◌∷◌}
use ladybug_python.Outcome.{ok, err, runtime_error}
use ladybug_python.Text.{Text, codes}
use ladybug_python.Csr.{Arrays, get_csr, has_edge_ids}
use ladybug_python.Csr.Slices.{slice}
use ladybug_python.Csr.Rows.{cells, slice_edges, get_csr-cells}

abbrev names : List Text
names = codes "a.rowid" ∷ codes "e.rowid" ∷ codes "b.rowid" ∷ []

abbrev rows : List (List ℕ)
rows = (2 ∷ 7 ∷ 1 ∷ []) ∷ (0 ∷ 8 ∷ 2 ∷ []) ∷ (2 ∷ 9 ∷ 0 ∷ []) ∷ []

three_edges :
    get_csr names rows
    ≡ ok (record {
      indptr = 0 ∷ 1 ∷ 1 ∷ 3 ∷ [];
      indices = 2 ∷ 1 ∷ 0 ∷ [];
      edge_ids = some (8 ∷ 7 ∷ 9 ∷ []);
    })
unfolding get_csr
three_edges = refl

other_columns :
    get_csr (codes "a.name" ∷ codes "b.rowid" ∷ []) []
    ≡ err (runtime_error "CSR export is only supported for rowid projections")
unfolding get_csr
other_columns = refl

get_csr-cells_example :
    (a : Arrays) × (get_csr names rows ≡ ok a)
    × (slice 2 a.indptr a.indices ≡ cells 2 2 rows)
    × (slice_edges 2 a ≡ some (cells 2 1 rows))
unfolding has_edge_ids
get_csr-cells_example = get_csr-cells names true rows 2 refl (refl, (refl, (refl, tt)))
