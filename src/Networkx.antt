-- ===== src/Networkx.antt =====
-- src_py/query_result.py, `get_as_networkx`: the nodes and rels of a result as a graph. The graph is
-- the sequence of calls of `add_node` and `add_edge`; a value of a node is kept as its `str`.
pub mod Names
mod Tests
use ladybug_python.Base.{
  ℕ, ◌≡◌, refl, Bool, true, false, Option, none, some, List, [], ◌∷◌, ◌++◌, ◌==◌, nat_eq, pair_eq,
  String, if◌then◌else◌,
}
use ladybug_python.Outcome.{
  Result, ok, err, PyError, key_error, Exec, pure, raise, lift, modify, gets, ◌>>=◌, ◌>>◌,
}
use ladybug_python.Dict.{Dict, lookup, insert, contains, values}
use ladybug_python.Text.{Text, text_eq, codes}

-- `_ID`: the table and the offset.
abbrev pub NodeId : Type 0
NodeId = ℕ × ℕ

pub record Node : Type 0 where
  pub id : NodeId
  pub label : Text
  pub props : Dict Text Text

pub record Rel : Type 0 where
  pub id : NodeId
  pub src : NodeId
  pub dst : NodeId

-- A cell of a column of type NODE, REL or RECURSIVE_REL, or of another type.
pub data Cell : Type 0 where
  empty ignored : Cell
  node : Node → Cell
  rel : Rel → Cell
  recursive_rel : List Node → List Rel → Cell

-- `keys` is `table_primary_key_dict`; `added` and `edges` are the calls on the graph, the last first.
pub record Graph : Type 0 where
  pub nodes : Dict NodeId Node
  pub rels : Dict NodeId Rel
  pub keys : Dict Text Text
  pub added : List Text
  pub edges : List (Text × Text)

abbrev pub empty_graph : Graph
empty_graph = record { nodes = []; rels = []; keys = []; added = []; edges = [] }

unfoldable pub put_nodes : List Node → Graph → Graph
unfolding insert
put_nodes [] g = g
put_nodes (n ∷ ns) g = put_nodes ns (record g { nodes = insert n.id n g.nodes })

unfoldable pub put_rels : List Rel → Graph → Graph
unfolding insert
put_rels [] g = g
put_rels (r ∷ rs) g = put_rels rs (record g { rels = insert r.id r g.rels })

-- The body of the loop over the columns.
unfoldable pub collect_cell : Cell → Graph → Graph
unfolding put_nodes put_rels
collect_cell empty g = g
collect_cell ignored g = g
collect_cell (node n) g = put_nodes (n ∷ []) g
collect_cell (rel r) g = put_rels (r ∷ []) g
collect_cell (recursive_rel ns rs) g = put_rels rs (put_nodes ns g)

unfoldable pub collect_cells : List Cell → Graph → Graph
unfolding collect_cell
collect_cells [] g = g
collect_cells (c ∷ cs) g = collect_cells cs (collect_cell c g)

-- `encode_node_id`
unfoldable pub encode_node_id : Node → Dict Text Text → Result Text
unfolding lookup
encode_node_id n keys = elim (lookup n.label keys) [
  | none ↦ err (key_error "label")
  | some key ↦ elim (lookup key n.props) [
    | none ↦ err (key_error "property")
    | some value ↦ ok (n.label ++ codes "_" ++ value)
  ]
]

-- The first property that is a primary key.
abbrev pub first_key : List (Text × Bool) → Option Text
first_key [] = none
first_key ((name, true) ∷ props) = some name
first_key ((name, false) ∷ props) = first_key props

abbrev pub learn : Text → Option Text → Dict Text Text → Dict Text Text
learn label none keys = keys
learn label (some key) keys = insert label key keys

-- The part of `table_primary_key_dict`: only a label that is not there is looked up.
unfoldable pub learn_key : (Text → List (Text × Bool)) → Text → Dict Text Text → Dict Text Text
unfolding contains insert
learn_key property_names label keys =
    if contains label keys then keys else learn label (first_key (property_names label)) keys

-- `node[node[LABEL]] = True`, which writes to the node that `nodes` holds.
abbrev pub mark : Node → Node
mark n = record n { props = insert n.label (codes "True") n.props }

unfoldable pub add_node : (Text → List (Text × Bool)) → Node → Exec Graph Unit
unfolding learn_key encode_node_id insert
add_node property_names n = do
  modify (λ g. record g { keys = learn_key property_names n.label g.keys })
  keys ← gets (λ g. g.keys)
  name ← lift (encode_node_id n keys)
  modify (λ g. record g { nodes = insert n.id (mark n) g.nodes; added = name ∷ g.added })

unfoldable pub add_nodes : (Text → List (Text × Bool)) → List Node → Exec Graph Unit
unfolding add_node
add_nodes property_names [] = pure tt
add_nodes property_names (n ∷ ns) = do add_node property_names n; add_nodes property_names ns

-- `nodes[table, offset]`
abbrev pub node_at : Option Node → Exec Graph Node
node_at none = raise (key_error "node")
node_at (some n) = pure n

unfoldable pub add_rel : Rel → Exec Graph Unit
unfolding encode_node_id lookup
add_rel r = do
  nodes ← gets (λ g. g.nodes)
  keys ← gets (λ g. g.keys)
  src_node ← node_at (lookup r.src nodes)
  dst_node ← node_at (lookup r.dst nodes)
  src_id ← lift (encode_node_id src_node keys)
  dst_id ← lift (encode_node_id dst_node keys)
  modify (λ g. record g { edges = (src_id, dst_id) ∷ g.edges })

unfoldable pub add_rels : List Rel → Exec Graph Unit
unfolding add_rel
add_rels [] = pure tt
add_rels (r ∷ rs) = do add_rel r; add_rels rs

-- `get_as_networkx`, of the cells of the node and rel columns, row by row.
unfoldable pub get_as_networkx : (Text → List (Text × Bool)) → List Cell → Exec Graph Unit
unfolding collect_cells add_nodes add_rels
get_as_networkx property_names cells = do
  modify (collect_cells cells)
  nodes ← gets (λ g. g.nodes)
  add_nodes property_names (values nodes)
  rels ← gets (λ g. g.rels)
  add_rels (values rels)
