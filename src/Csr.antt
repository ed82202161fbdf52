-- ===== src/Csr.antt =====
-- src_py/_lbug_capi.py, `QueryResult.getCSR`: the edges of a projection of row ids in compressed rows.
-- A cell is the number that `int` reads of it; pyarrow's arrays are the lists that they are made of.
pub mod Slices
pub mod Groups
pub mod Neighbours
pub mod Rows
mod Tests
use ladybug_python.Base.{
  ℕ, zero, suc, ◌+◌, max, Bool, true, false, ◌&&◌, Option, none, some, List, [], ◌∷◌, ◌++◌, length,
  get_elem?, set, replicate, leb, nat_eq, ◌==◌, if◌then◌else◌,
}
use ladybug_python.Outcome.{Result, ok, err, PyError, runtime_error, index_error, bind_result}
use ladybug_python.Text.{Text, codes, is_suffix}

-- `name.endswith(".rowid")` of each
abbrev pub all_rowids : List Text → Bool
all_rowids [] = true
all_rowids (name ∷ names) = is_suffix (codes ".rowid") name && all_rowids names

-- Whether there are ids of edges between the sources and the destinations.
unfoldable pub has_edge_ids : List Text → Option Bool
has_edge_ids (src ∷ dst ∷ []) = if all_rowids (src ∷ dst ∷ []) then some false else none
has_edge_ids (src ∷ edge ∷ dst ∷ names) =
    if all_rowids (src ∷ edge ∷ dst ∷ []) then some true else none
has_edge_ids _ = none

-- The edge, if edges have ids, and the destination.
abbrev pub Entry : Type 0
Entry = Option ℕ × ℕ

-- `row[i]`
abbrev pub item : ℕ → List ℕ → Result ℕ
item i row = elim (get_elem? row i) [
  | none ↦ err (index_error "list index out of range")
  | some v ↦ ok v
]

unfoldable pub entry_of : Bool → List ℕ → Result (ℕ × Entry)
entry_of true row = bind_result (item 0 row) λ src.
    bind_result (item 1 row) λ edge. bind_result (item 2 row) λ dst. ok (src, (some edge, dst))
entry_of false row =
    bind_result (item 0 row) λ src. bind_result (item 1 row) λ dst. ok (src, (none, dst))

unfoldable pub entries_of : Bool → List (List ℕ) → Result (List (ℕ × Entry))
unfolding entry_of
entries_of edges [] = ok []
entries_of edges (row ∷ rows) =
    bind_result (entry_of edges row) λ e. bind_result (entries_of edges rows) λ es. ok (e ∷ es)

-- `max_src + 1`
unfoldable pub width : List (ℕ × Entry) → ℕ
width [] = 0
width ((src, e) ∷ es) = max (suc src) (width es)

-- `grouped[src].append(...)`
unfoldable pub append_at : ℕ → Entry → List (List Entry) → List (List Entry)
append_at i e [] = []
append_at zero e (g ∷ gs) = (g ++ e ∷ []) ∷ gs
append_at (suc i) e (g ∷ gs) = g ∷ append_at i e gs

unfoldable pub group : List (ℕ × Entry) → List (List Entry) → List (List Entry)
unfolding append_at
group [] gs = gs
group ((src, e) ∷ es) gs = group es (append_at src e gs)

pub record Csr : Type 0 where
  pub indptr : List ℕ
  pub indices : List ℕ
  pub edge_ids : List ℕ

abbrev pub append_edge : Option ℕ → List ℕ → List ℕ
append_edge none ids = ids
append_edge (some e) ids = ids ++ e ∷ []

-- The two loops that write the arrays.
unfoldable pub write_entries : List Entry → Csr → Csr
write_entries [] c = c
write_entries ((edge, dst) ∷ es) c =
    write_entries es
      (record c { indices = c.indices ++ dst ∷ []; edge_ids = append_edge edge c.edge_ids })

abbrev pub end_group : Csr → Csr
end_group c = record c { indptr = c.indptr ++ length c.indices ∷ [] }

unfoldable pub write_groups : List (List Entry) → Csr → Csr
unfolding write_entries
write_groups [] c = c
write_groups (g ∷ gs) c = write_groups gs (end_group (write_entries g c))

abbrev pub no_rows : Csr
no_rows = record { indptr = 0 ∷ []; indices = []; edge_ids = [] }

unfoldable pub csr_of : List (ℕ × Entry) → Csr
unfolding group width write_groups
csr_of es = write_groups (group es (replicate (width es) [])) no_rows

-- What is given out: ids of edges only where the projection has them.
pub record Arrays : Type 0 where
  pub indptr : List ℕ
  pub indices : List ℕ
  pub edge_ids : Option (List ℕ)

abbrev pub arrays_of : Bool → Csr → Arrays
arrays_of edges c = record {
  indptr = c.indptr;
  indices = c.indices;
  edge_ids = if edges then some c.edge_ids else none;
}

-- `getCSR` of the names and all rows.
unfoldable pub get_csr : List Text → List (List ℕ) → Result Arrays
unfolding has_edge_ids entries_of csr_of
get_csr names rows = elim (has_edge_ids names) [
  | none ↦ err (runtime_error "CSR export is only supported for rowid projections")
  | some edges ↦ bind_result (entries_of edges rows) λ es. ok (arrays_of edges (csr_of es))
]
