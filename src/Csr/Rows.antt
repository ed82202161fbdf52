-- ===== src/Csr/Rows.antt =====
-- getCSR of the rows of a result.
use ladybug_python.Base.{
  ℕ, zero, suc, ◌≤◌, ◌≡◌, refl, ap, ◌∙◌, arith, Bool, true, false, Option, none, some, List, [],
  ◌∷◌, ◌++◌, length, All, nat_eq, ◌==◌, if◌then◌else◌,
}
use ladybug_python.Outcome.{ok}
use ladybug_python.Text.{Text}
use ladybug_python.Csr.{
  Entry, Arrays, arrays_of, has_edge_ids, entry_of, entries_of, csr_of, get_csr,
}
use ladybug_python.Csr.Slices.{slice}
use ladybug_python.Csr.Groups.{of_source}
use ladybug_python.Csr.Neighbours.{destinations, edges, HasEdges, slice-destinations, slice-edges}

abbrev pub cell : List ℕ → ℕ → ℕ
cell [] n = 0
cell (x ∷ xs) zero = x
cell (x ∷ xs) (suc n) = cell xs n

-- The cells of one column in the rows of one source, in order.
unfoldable pub cells : ℕ → ℕ → List (List ℕ) → List ℕ
cells i n [] = []
cells i n (row ∷ rows) = (if cell row 0 == i then cell row n ∷ [] else []) ++ cells i n rows

abbrev entry_at : Bool → List ℕ → ℕ × Entry
entry_at true row = (cell row 0, (some (cell row 1), cell row 2))
entry_at false row = (cell row 0, (none, cell row 1))

abbrev entries_at : Bool → List (List ℕ) → List (ℕ × Entry)
entries_at h [] = []
entries_at h (row ∷ rows) = entry_at h row ∷ entries_at h rows

abbrev columns : Bool → ℕ
columns true = 3
columns false = 2

columns-has_edge_ids :
    (names : List Text) (h : Bool) → has_edge_ids names ≡ some h → columns h ≤ length names
unfolding has_edge_ids
columns-has_edge_ids [] h e = absurd (ground arith)
columns-has_edge_ids (a ∷ []) h e = absurd (ground arith)
columns-has_edge_ids (a ∷ b ∷ []) h e = ground (arith, e)
columns-has_edge_ids (a ∷ b ∷ c ∷ names) h e = ground (arith, e)

entry_of-wide :
    (h : Bool) (row : List ℕ) → columns h ≤ length row → entry_of h row ≡ ok (entry_at h row)
unfolding entry_of
entry_of-wide true (a ∷ b ∷ c ∷ row) l = refl
entry_of-wide true [] l = absurd (omega arith)
entry_of-wide true (a ∷ []) l = absurd (omega arith)
entry_of-wide true (a ∷ b ∷ []) l = absurd (omega arith)
entry_of-wide false (a ∷ b ∷ row) l = refl
entry_of-wide false [] l = absurd (omega arith)
entry_of-wide false (a ∷ []) l = absurd (omega arith)

entries_of-wide :
    (h : Bool) (n : ℕ) (rows : List (List ℕ))
    → columns h ≤ n
    → All (λ row. length row ≡ n) rows
    → entries_of h rows ≡ ok (entries_at h rows)
unfolding entries_of
entries_of-wide h n [] l w = refl
entries_of-wide h n (row ∷ rows) l (w, ws) =
    rw (entry_of-wide h row (omega (arith, l, w)), entries_of-wide h n rows l ws)

entries_at-HasEdges : (rows : List (List ℕ)) → HasEdges (entries_at true rows)
entries_at-HasEdges [] = tt
entries_at-HasEdges (row ∷ rows) = entries_at-HasEdges rows

destinations-cells :
    (h : Bool) (i : ℕ) (rows : List (List ℕ))
    → destinations (of_source i (entries_at h rows)) ≡ cells i (if h then 2 else 1) rows
unfolding of_source cells
destinations-cells h i [] = refl
destinations-cells true i (row ∷ rows) = ground (arith, destinations-cells true i rows)
destinations-cells false i (row ∷ rows) = ground (arith, destinations-cells false i rows)

edges-cells :
    (i : ℕ) (rows : List (List ℕ)) → edges (of_source i (entries_at true rows)) ≡ cells i 1 rows
unfolding of_source cells
edges-cells i [] = refl
edges-cells i (row ∷ rows) = ground (arith, edges-cells i rows)

-- The ids of the edges from a source, if there are any ids.
abbrev pub slice_edges : ℕ → Arrays → Option (List ℕ)
slice_edges i a = elim a.edge_ids [ none ↦ none | some ids ↦ some (slice i a.indptr ids) ]

slice_edges-cells :
    (h : Bool) (i : ℕ) (rows : List (List ℕ))
    → slice_edges i (arrays_of h (csr_of (entries_at h rows)))
      ≡ (if h then some (cells i 1 rows) else none)
slice_edges-cells true i rows =
    ap some (slice-edges (entries_at true rows) i (entries_at-HasEdges rows) ∙ edges-cells i rows)
slice_edges-cells false i rows = refl

-- For a projection of row ids, and rows as wide as it, `getCSR` succeeds, and its arrays say of each
-- source, whether it is in a row or not, the destinations and the edges of its rows, in their order:
-- they lie between the end of the source before it and its own. Ids of edges are given exactly where
-- the projection has three columns of row ids.
pub get_csr-cells :
    (names : List Text) (h : Bool) (rows : List (List ℕ)) (i : ℕ)
    → has_edge_ids names ≡ some h
    → All (λ row. length row ≡ length names) rows
    → (a : Arrays) × (get_csr names rows ≡ ok a)
      × (slice i a.indptr a.indices ≡ cells i (if h then 2 else 1) rows)
      × (slice_edges i a ≡ (if h then some (cells i 1 rows) else none))
unfolding get_csr
get_csr-cells names h rows i e w =
    let es = entries_at h rows in
    let wide = entries_of-wide h (length names) rows (columns-has_edge_ids names h e) w in
    (
      arrays_of h (csr_of es),
      ground (arith, e, wide),
      slice-destinations es i ∙ destinations-cells h i rows,
      slice_edges-cells h i rows,
    )
