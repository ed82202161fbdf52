-- ===== src/Convert/Typed/Tests.antt =====
-- A map from texts to lists of nodes.
use ladybug_python.Base.{◌≡◌, refl, none, some}
use ladybug_python.Base.Int.{pos}
use ladybug_python.Outcome.{ok}
use ladybug_python.Text.{codes}
use ladybug_python.Convert.{Cell, convert_value}
use ladybug_python.Convert.Rendered.{Python, Parsers}
use ladybug_python.Convert.Types.{LogicalType, HasType, IsOf}
use ladybug_python.Convert.Typed.{converted_value_conforms}
use ladybug_python.Convert
use ladybug_python.Convert.Types

abbrev no_parsers : Parsers
no_parsers = record { literal_eval = λ t. none; to_float = λ t. none; to_int = λ t. none }

abbrev id_cell : Cell
id_cell = Convert.internal_id 0 7

abbrev label_cell : Cell
label_cell = Convert.string (codes "User")

abbrev props_cell : Convert.Props
props_cell =
    Convert.prop (codes "born") none (Convert.date (pos 7)) (codes "")
      (Convert.prop (codes "for") (some (pos 1, pos 2, pos 3)) Convert.null (codes "") Convert.last)

abbrev node_cell : Cell
node_cell = Convert.node id_cell label_cell props_cell

abbrev map_cell : Cell
map_cell = Convert.map (
    Convert.pair (Convert.string (codes "a")) (Convert.list (Convert.cons node_cell Convert.nil))
      Convert.done)

abbrev node_type : LogicalType
node_type = LogicalType.map LogicalType.string (LogicalType.list LogicalType.node)

node-HasType : HasType LogicalType.node node_cell
node-HasType =
    Types.node id_cell label_cell props_cell (Types.internal_id 0 7) (Types.string (codes "User")) (
      Types.prop (codes "born") (Convert.date (pos 7)) (codes "") _ (Types.date (pos 7) refl) (
        Types.probed (codes "for") (pos 1) (pos 2) (pos 3) Convert.null (codes "") Convert.last refl
          Types.last))

map-HasType : HasType node_type map_cell
map-HasType = Types.map _ refl (
    Types.pair _ _ _ (Types.string (codes "a"))
      (Types.list _ (Types.cons _ _ node-HasType Types.nil)) Types.done)

converted_value_conforms_example :
    (v : Python) × (convert_value no_parsers map_cell ≡ ok v) × IsOf node_type v
converted_value_conforms_example =
    converted_value_conforms no_parsers node_type map_cell map-HasType
