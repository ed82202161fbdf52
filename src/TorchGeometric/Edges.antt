-- ===== src/TorchGeometric/Edges.antt =====
-- src_py/torch_geometric_result_converter.py: the edges, and the data that is given out.
use ladybug_python.Base.{
  ℕ, Bool, ◌||◌, Option, none, some, List, [], ◌∷◌, ◌++◌, nat_eq, option_eq, pair_eq, if◌then◌else◌,
}
use ladybug_python.Outcome.{
  Result, ok, err, key_error, Exec, pure, raise, gets, modify, ◌>>=◌, ◌>>◌,
}
use ladybug_python.Dict.{Dict, lookup, insert, values}
use ladybug_python.Text.{Text, text_eq, text_beq, codes}
use ladybug_python.TorchGeometric.{Rel, Cell, Converter}
use ladybug_python.TorchGeometric.Tables.{Table, column, put_column}
use ladybug_python.TorchGeometric.Column.{Stored, Torch}
use ladybug_python.TorchGeometric.Nodes.{Schema, found_or, populate_nodes}

abbrev pub Edge : Type 0
Edge = Option ℕ × Option ℕ

-- `d[key]`
abbrev pub item : {S : Type 0} {A : Type 0} → Option A → Exec S A
item none = raise (key_error "id")
item (some a) = pure a

abbrev pub is_end : Text → Bool
is_end p = (text_beq p (codes "_SRC") || text_beq p (codes "_DST")) || text_beq p (codes "_ID")

module _ {V : Type 0} where
  -- `edges_properties[src_label, dst_label][prop_name].append(value)`
  abbrev pub add_value : Text → V → Dict Text (List V) → Dict Text (List V)
  add_value p v d = insert p (found_or (lookup p d) ++ v ∷ []) d

  unfoldable pub add_values : Dict Text V → Dict Text (List V) → Dict Text (List V)
  unfolding insert lookup
  add_values [] d = d
  add_values ((p, v) ∷ props) d = add_values props (if is_end p then d else add_value p v d)

  abbrev pub columns_of : Option (Dict Text (List V)) → Dict Text (List V)
  columns_of none = []
  columns_of (some d) = d

  -- The writes for a rel, once its ends are found.
  unfoldable pub put_edge : Text × Text → Edge → Dict Text V → Converter V → Converter V
  unfolding column put_column insert lookup add_values
  put_edge (src, dst) e props s = record s {
    edges = put_column src dst (found_or (column src dst s.edges) ++ e ∷ []) s.edges;
    edges_properties =
        insert (src, dst) (add_values props (columns_of (lookup (src, dst) s.edges_properties)))
          s.edges_properties;
  }

  -- The body of the loop over `rels`.
  unfoldable pub add_edge : Rel V → Exec (Converter V) Unit
  unfolding lookup put_edge
  add_edge r = do
    id_to_pos ← gets (λ s. s.id_to_pos)
    table_to_label ← gets (λ s. s.table_to_label)
    src_pos ← item (lookup r.ends.0 id_to_pos)
    dst_pos ← item (lookup r.ends.1 id_to_pos)
    src_label ← item (lookup r.ends.0.0 table_to_label)
    dst_label ← item (lookup r.ends.1.0 table_to_label)
    modify (put_edge (src_label, dst_label) (src_pos, dst_pos) r.props)

  unfoldable pub add_edges : List (Rel V) → Exec (Converter V) Unit
  unfolding add_edge
  add_edges [] = pure tt
  add_edges (r ∷ rs) = do add_edge r; add_edges rs

  -- `__populate_edges_dict`
  unfoldable pub populate_edges : Exec (Converter V) Unit
  unfolding add_edges
  populate_edges = do rels ← gets (λ s. s.rels); add_edges (values rels)

module _ (V : Type 0) where
  -- What is given out: each tensor is the list that it is made from.
  pub data Converted : Type 0 where
    hetero :
        Table (Stored V)
        → Table Edge
        → Dict Text (Dict (Option ℕ) V)
        → Table V
        → Dict (Text × Text) (Dict Text (List V))
        → Converted
    homogeneous :
        Dict Text (List (Stored V))
        → Option (List Edge)
        → Dict (Option ℕ) V
        → Dict Text (List V)
        → Dict Text (List V)
        → Converted

-- The value that the last assignment leaves, or the one of the first key.
abbrev pub last_or {ℓ} : {K A : Type ℓ} → Option A → Dict K A → Option A
last_or a [] = a
last_or a ((k, b) ∷ d) = last_or (some b) d

unfoldable pub last_edges : Option (List Edge) → Table Edge → Option (List Edge)
last_edges e [] = e
last_edges e ((l, d) ∷ t) = last_edges (last_or e d) t

abbrev pub first_columns {ℓ κ} :
    {K : Type ℓ} {A : Type κ} → Dict K (Dict Text (List A)) → Dict Text (List A)
first_columns [] = []
first_columns ((k, d) ∷ t) = d

module _ {V : Type 0} where
  abbrev pub as_hetero : Converter V → Converted V
  as_hetero s =
      hetero s.columns.nodes s.edges s.primary_keys s.columns.unconverted s.edges_properties

  -- `__convert_to_torch_geometric`: with one label of nodes each assignment of `edge_index` replaces
  -- the one before.
  unfoldable pub convert_to_torch_geometric : Table (Stored V) → Converter V → Result (Converted V)
  unfolding lookup last_edges
  convert_to_torch_geometric [] s = ok (as_hetero s)
  convert_to_torch_geometric ((l, cols) ∷ []) s = elim (lookup l s.primary_keys) [
    | none ↦ err (key_error "label")
    | some keys ↦ ok (
        homogeneous cols (last_edges none s.edges) keys (first_columns s.columns.unconverted)
          (first_columns s.edges_properties))
  ]
  convert_to_torch_geometric (x ∷ y ∷ d) s = ok (as_hetero s)

  -- `get_as_torch_geometric`, of the cells of the node and rel columns, row by row.
  unfoldable pub get_as_torch_geometric :
      Torch V → (Text → Schema) → List (Cell V) → Exec (Converter V) (Converted V)
  unfolding populate_nodes populate_edges convert_to_torch_geometric
  get_as_torch_geometric torch schema cells = do
    populate_nodes torch schema cells
    populate_edges
    data_ ← λ s. (convert_to_torch_geometric s.columns.nodes s, s)
    pure data_
