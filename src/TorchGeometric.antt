-- ===== src/TorchGeometric.antt =====
-- src_py/torch_geometric_result_converter.py, `TorchGeometricResultConverter`: the nodes and edges of
-- a result, column by column. Values and tensors are parameters; warnings are left out.
pub mod Tables
pub mod Column
pub mod Nodes
pub mod Edges
pub mod Views
pub mod Aligned
mod Tests
use ladybug_python.Base.{
  ℕ, suc, ◌+◌, Bool, true, false, ◌&&◌, ◌||◌, not, Option, none, some, List, [], ◌∷◌, ◌++◌, length,
  nat_eq, pair_eq, ◌==◌, if◌then◌else◌, map,
}
use ladybug_python.Dict.{Dict}
use ladybug_python.Text.{Text, text_eq}
use Tables.{Table}
use Column.{Stored}

-- An internal id: the table and the offset.
abbrev pub NodeId : Type 0
NodeId = ℕ × ℕ

-- The source and the destination of a rel, by which `rels` is keyed.
abbrev pub Ends : Type 0
Ends = NodeId × NodeId

module _ (V : Type 0) where
  pub record Node : Type 0 where
    pub id : NodeId
    pub label : Text
    pub props : Dict Text V

  pub record Rel : Type 0 where
    pub ends : Ends
    pub props : Dict Text V

  -- A cell of a column of nodes, of one of rels, or `None` in either.
  pub data Cell : Type 0 where
    node : Node → Cell
    rel : Rel → Cell
    empty : Cell

  -- `nodes_dict` and `unconverted_properties`
  pub record Columns : Type 0 where
    pub nodes : Table (Stored V)
    pub unconverted : Table V

  -- The other attributes of the converter, in their order.
  pub record Converter : Type 0 where
    pub columns : Columns
    pub edges : Table (Option ℕ × Option ℕ)
    pub edges_properties : Dict (Text × Text) (Dict Text (List V))
    pub rels : Dict Ends Rel
    pub table_to_label : Dict ℕ Text
    pub id_to_pos : Dict NodeId (Option ℕ)
    pub primary_keys : Dict Text (Dict (Option ℕ) V)

  abbrev pub empty_converter : Converter
  empty_converter = record {
    columns = record { nodes = []; unconverted = [] };
    edges = [];
    edges_properties = [];
    rels = [];
    table_to_label = [];
    id_to_pos = [];
    primary_keys = [];
  }
