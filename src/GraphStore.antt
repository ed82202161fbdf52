-- ===== src/GraphStore.antt =====
-- src_py/torch_geometric_graph_store.py, `LbugGraphStore`: the edge indices of rel tables, read from
-- the database when they are first asked for. Tensors are a parameter.
pub mod PutGet
mod Tests
use ladybug_python.Base.{
  ℕ, suc, ◌≡◌, ◌↔◌, refl, arith, String, Bool, true, false, ◌&&◌, ◌||◌, not, Option, none, some,
  List, [], ◌∷◌, Eq, ◌==◌, nat_eq, pair_eq, if◌then◌else◌,
}
use ladybug_python.Outcome.{Result, ok, err, value_error, Exec, pure, raise}
use ladybug_python.Dict.{Dict, lookup, insert, without, contains}
use ladybug_python.Text.{Text, text_eq}

-- The labels of the ends, around the name of the rel table.
abbrev pub EdgeType : Type 0
EdgeType = Text × (Text × Text)

pub data Layout : Type 0 where
  coo csc csr : Layout

abbrev pub layout_beq : Layout → Layout → Bool
layout_beq coo coo = true
layout_beq csc csc = true
layout_beq csr csr = true
layout_beq _ _ = false

pub layout_beq_iff : (a b : Layout) → (layout_beq a b ≡ true) ↔ (a ≡ b)
layout_beq_iff coo coo = ground arith
layout_beq_iff coo csc = ground arith
layout_beq_iff coo csr = ground arith
layout_beq_iff csc coo = ground arith
layout_beq_iff csc csc = ground arith
layout_beq_iff csc csr = ground arith
layout_beq_iff csr coo = ground arith
layout_beq_iff csr csc = ground arith
layout_beq_iff csr csr = ground arith

instance abbrev pub layout_eq : Eq Layout
layout_eq = record { beq = layout_beq; beq_iff = layout_beq_iff }

abbrev pub bool_beq : Bool → Bool → Bool
bool_beq true b = b
bool_beq false b = not b

pub bool_beq_iff : (a b : Bool) → (bool_beq a b ≡ true) ↔ (a ≡ b)
bool_beq_iff true true = ground arith
bool_beq_iff true false = ground arith
bool_beq_iff false true = ground arith
bool_beq_iff false false = ground arith

instance abbrev pub bool_eq : Eq Bool
bool_eq = record { beq = bool_beq; beq_iff = bool_beq_iff }

abbrev pub Size : Type 0
Size = Option (ℕ × ℕ)

pub record EdgeAttr : Type 0 where
  pub edge_type : EdgeType
  pub layout : Layout
  pub is_sorted : Bool
  pub size : Size

abbrev pub StoreKey : Type 0
StoreKey = EdgeType × (Layout × Bool)

-- `LbugGraphStore.key`
abbrev pub key : EdgeAttr → StoreKey
key a = (a.edge_type, (a.layout, a.is_sorted))

-- The request that is made in place of one for an unsorted COO index.
abbrev pub sorted_request : EdgeAttr → EdgeAttr
sorted_request a = record a { is_sorted = a.is_sorted || a.layout == coo }

module _ (E : Type 0) where
  pub record Rel : Type 0 where
    pub edge_type : EdgeType
    pub layout : Layout
    pub is_sorted : Bool
    pub size : Size
    pub materialized : Bool
    pub edge_index : Option E

  abbrev pub Store : Type 0
  Store = Dict StoreKey Rel

module _ {E : Type 0} where
  abbrev pub stored : EdgeAttr → E → Option (Rel E) → Rel E
  stored a e none = record {
    edge_type = a.edge_type;
    layout = a.layout;
    is_sorted = a.is_sorted;
    size = a.size;
    materialized = true;
    edge_index = some e;
  }
  stored a e (some r) = record r { edge_index = some e; materialized = true; size = a.size }

  -- `_put_edge_index`
  unfoldable pub put_edge_index : E → EdgeAttr → Store E → Store E
  unfolding lookup insert
  put_edge_index e a s = insert (key a) (stored a e (lookup (key a) s)) s

  -- `_remove_edge_index`
  unfoldable pub remove_edge_index : EdgeAttr → Store E → Store E
  unfolding without
  remove_edge_index a s = without (key a) s

  -- `__get_edge_coo_from_database`, for a rel that is stored with the layout COO.
  abbrev pub read_rel : (EdgeType → E) → Rel E → Rel E
  read_rel edges_of r =
      if r.materialized
      then r
      else record r { edge_index = some (edges_of r.edge_type); materialized = true }

  abbrev pub give : (EdgeType → E) → StoreKey → Rel E → Exec (Store E) (Option E)
  give edges_of k r s =
      if r.layout == coo
      then (ok (read_rel edges_of r).edge_index, insert k (read_rel edges_of r) s)
      else if r.materialized
      then (ok r.edge_index, s)
      else (err (value_error "Only COO layout is supported"), s)

  -- `_get_edge_index`, with the edges of the database as a parameter.
  unfoldable pub get_edge_index : (EdgeType → E) → EdgeAttr → Exec (Store E) (Option E)
  unfolding lookup insert
  get_edge_index edges_of a s = elim (lookup (key (sorted_request a)) s) [
    | none ↦ (ok none, s)
    | some r ↦ give edges_of (key (sorted_request a)) r s
  ]

  abbrev pub attr_of : Rel E → EdgeAttr
  attr_of r = record {
    edge_type = r.edge_type;
    layout = r.layout;
    is_sorted = r.is_sorted;
    size = r.size;
  }

  -- `get_all_edge_attrs`
  unfoldable pub get_all_edge_attrs : Store E → List EdgeAttr
  get_all_edge_attrs [] = []
  get_all_edge_attrs ((k, r) ∷ s) = attr_of r ∷ get_all_edge_attrs s

  -- The rel of a table that was not read yet.
  abbrev pub unread_rel : EdgeType → ℕ × ℕ → Rel E
  unread_rel t size = record {
    edge_type = t;
    layout = coo;
    is_sorted = true;
    size = some size;
    materialized = false;
    edge_index = none;
  }

  -- `__populate_edge_attrs`, with the number of the nodes of a label as a parameter.
  unfoldable pub populate_edge_attrs : (Text → ℕ) → List EdgeType → Store E → Store E
  unfolding insert
  populate_edge_attrs num_nodes [] s = s
  populate_edge_attrs num_nodes ((src, (name, dst)) ∷ ts) s = populate_edge_attrs num_nodes ts (
      insert ((src, (name, dst)), (coo, true))
        (unread_rel (src, (name, dst)) (num_nodes src, num_nodes dst)) s)
