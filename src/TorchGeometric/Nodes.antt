-- ===== src/TorchGeometric/Nodes.antt =====
-- src_py/torch_geometric_result_converter.py: the loop over the rows of the result.
use ladybug_python.Base.{
  ℕ, Bool, true, false, Option, none, some, List, [], ◌∷◌, ◌++◌, length, nat_eq, option_eq, pair_eq,
  if◌then◌else◌,
}
use ladybug_python.Outcome.{
  ok, err, PyError, key_error, name_error, type_error, Exec, pure, raise, gets, modify, ◌>>=◌, ◌>>◌,
}
use ladybug_python.Dict.{Dict, lookup, insert, contains}
use ladybug_python.Text.{Text, text_eq}
use ladybug_python.TorchGeometric.{Node, Cell, node, rel, empty, Columns, Converter}
use ladybug_python.TorchGeometric.Tables.{column, put_column, drop_column}
use ladybug_python.TorchGeometric.Column.{
  PropertyInfo, Stored, Torch, convert_one, tensor_error, given_back,
}

-- `_get_node_property_names` of a label, which is asked for once and kept.
abbrev pub Schema : Type 0
Schema = List (Text × PropertyInfo)

abbrev pub found_or {ℓ} : {A : Type ℓ} → Option (List A) → List A
found_or none = []
found_or (some xs) = xs

module _ {V : Type 0} (torch : Torch V) where
  -- `__mark_property_unconverted`
  unfoldable pub mark_unconverted : Text → Text → Columns V → Columns V
  unfolding column put_column drop_column
  mark_unconverted l p c = elim (column l p c.unconverted) [
    | some xs ↦ c
    | none ↦ elim (column l p c.nodes) [
      | some xs ↦ record c {
        nodes = drop_column l p c.nodes;
        unconverted = put_column l p (given_back torch xs) c.unconverted;
      }
      | none ↦ record c { unconverted = put_column l p [] c.unconverted }
    ]
  ]

  -- `__add_unconverted_property`: the position of the value, and the columns with it.
  unfoldable pub add_unconverted : Text → Text → V → Columns V → ℕ × Columns V
  unfolding column put_column
  add_unconverted l p v c =
      let xs = found_or (column l p c.unconverted) in
      (length xs, record c { unconverted = put_column l p (xs ++ v ∷ []) c.unconverted })

  unfoldable pub add_converted : Text → Text → Stored V → Columns V → ℕ × Columns V
  unfolding column put_column
  add_converted l p x c =
      let xs = found_or (column l p c.nodes) in
      (length xs, record c { nodes = put_column l p (xs ++ x ∷ []) c.nodes })

  -- The body of the loop over the properties.
  unfoldable pub extract_one : Text → Text → PropertyInfo → V → Columns V → ℕ × Columns V
  unfolding column convert_one mark_unconverted add_unconverted add_converted
  extract_one l p info v c = elim (column l p c.unconverted) [
    | some xs ↦ add_unconverted l p v c
    | none ↦ elim (convert_one torch info v (column l p c.nodes)) [
      | none ↦ add_unconverted l p v (mark_unconverted l p c)
      | some x ↦ add_converted l p x c
    ]
  ]

  -- The error of a value whose column is not unconverted yet.
  abbrev pub error_of : Text → Text → PropertyInfo → V → Columns V → Option PyError
  error_of l p info v c = elim (column l p c.unconverted) [
    | some xs ↦ none
    | none ↦ tensor_error torch info v
  ]

  -- The loop, with `pos` and `primary_key`: a key that was never set is an `UnboundLocalError`.
  unfoldable pub extract_each :
      Text → Dict Text V → Schema → Option ℕ → Option V → Exec (Columns V) (Option ℕ × V)
  unfolding lookup extract_one column tensor_error
  extract_each l props [] pos none c = (err (name_error "primary_key"), c)
  extract_each l props [] pos (some key) c = (ok (pos, key), c)
  extract_each l props ((p, info) ∷ ps) pos key c = elim (lookup p props) [
    | none ↦ (err (key_error "property"), c)
    | some v ↦
        let (i, c') = extract_one l p info v c in
        elim (error_of l p info v c) [
          | some e ↦ (err e, c)
          | none ↦ extract_each l props ps (some i) (if info.is_primary_key then some v else key) c'
        ]
  ]

  -- `__extract_properties_from_node`
  unfoldable pub extract_node : Schema → Node V → Exec (Converter V) (Option ℕ × V)
  unfolding extract_each
  extract_node ps n s =
      let (r, c) = extract_each n.label n.props ps none none s.columns in
      (r, record s { columns = c })

  abbrev pub keys_of : Option (Dict (Option ℕ) V) → Dict (Option ℕ) V
  keys_of none = []
  keys_of (some d) = d

  -- What is kept of a node that is new, under its id and its label.
  unfoldable pub place : Node V → Option ℕ × V → Converter V → Converter V
  unfolding insert lookup
  place n (pos, key) s = record s {
    id_to_pos = insert n.id pos s.id_to_pos;
    primary_keys =
        insert n.label (insert pos key (keys_of (lookup n.label s.primary_keys))) s.primary_keys;
  }

  module _ (schema : Text → Schema) where
    abbrev pub unless_seen : Bool → Node V → Exec (Converter V) Unit
    unless_seen true n = pure tt
    unless_seen false n = do found ← extract_node (schema n.label) n; modify (place n found)

    -- A node of a row.
    unfoldable pub visit_node : Node V → Exec (Converter V) Unit
    unfolding insert contains extract_node place
    visit_node n = do
      modify (λ s. record s { table_to_label = insert n.id.0 n.label s.table_to_label })
      seen ← gets (λ s. contains n.id s.id_to_pos)
      unless_seen seen n

    -- A cell of a row: `None["_LABEL"]` is a `TypeError`.
    unfoldable pub visit : Cell V → Exec (Converter V) Unit
    unfolding visit_node insert
    visit (node n) = visit_node n
    visit (rel r) = modify (λ s. record s { rels = insert r.ends r s.rels })
    visit empty = raise (type_error "NoneType")

    -- `__populate_nodes_dict_and_deduplicte_edges`
    unfoldable pub populate_nodes : List (Cell V) → Exec (Converter V) Unit
    unfolding visit
    populate_nodes [] = pure tt
    populate_nodes (c ∷ cs) = do visit c; populate_nodes cs
