-- ===== src/Convert/Reader/Tests.antt =====
-- A row with a path and a map, a call that fails, and a result that is closed.
use ladybug_python.Base.{ℕ, ◌≡◌, refl, true, false, none, List, [], ◌∷◌, ◌+◌}
use ladybug_python.Base.Int.{pos}
use ladybug_python.Outcome.{ok}
use ladybug_python.Text.{codes}
use ladybug_python.Convert.{Cell, Cells}
use ladybug_python.Convert.Rendered.{Parsers}
use ladybug_python.Convert.Reader.{
  Memory, read_value, ◌>>=◌, scoped, adopt, obtain, pure, lift, raise,
}
use ladybug_python.Convert.Reader.Results.{
  Answer, row, no_row, names, types, named, list_of, array_of, no_child, no_size, texts, reply,
  opened, asked, close,
}
use ladybug_python.Convert.Reader.Kept.{EachHasValues}
use ladybug_python.Convert.Reader.Ends.{close_destroys_each}
use ladybug_python.Binding.Balance.{times, within}
use ladybug_python.Convert

abbrev no_parsers : Parsers
no_parsers = record { literal_eval = λ t. none; to_float = λ t. none; to_int = λ t. none }

-- A map from a text to a list whose second element cannot be read.
abbrev half_read : Cell
half_read = Convert.map (
    Convert.pair (Convert.string (codes "a"))
      (Convert.list (Convert.cons (Convert.int (pos 1)) (Convert.no_element "broken")))
      Convert.done)

abbrev a_node : Cell
a_node =
    Convert.node (Convert.internal_id 0 7) (Convert.string (codes "User"))
      (Convert.prop (codes "age") none (Convert.int (pos 30)) (codes "30") Convert.last)

abbrev asks : List Answer
asks =
    names (codes "n" ∷ codes "m" ∷ []) none
    ∷ row (Convert.cons a_node (Convert.cons half_read Convert.nil))
    ∷ row (Convert.cons a_node Convert.nil)
    ∷ types (list_of (array_of (named (codes "INT64")) (codes "3")) ∷ no_child "gone" ∷ []) none
    ∷ no_row "no more"
    ∷ []

abbrev new_memory : Memory
new_memory = record { made = 0; destroyed = []; owned = [] }

close_destroys_each_example :
    let q = close true (asked no_parsers asks (opened 3 (2 ∷ []))) in
    (q.memory.owned ≡ [])
    × (close false q ≡ q)
    × ((h : ℕ) → times h q.memory.destroyed ≡ times h (2 ∷ []) + within 3 q.memory.made h)
unfolding EachHasValues
close_destroys_each_example = close_destroys_each no_parsers asks 3 (2 ∷ []) false (
  tt,
  (
    ((tt, tt, (tt, tt)), ((tt, (tt, tt), tt), tt)),
    (((tt, tt, (tt, tt)), tt), ((tt, (tt, tt)), (tt, tt))),
  ),
)

-- Where the library gives a key and not its value, the key is not destroyed, and not owned.
lost_key :
    (read_value no_parsers (Convert.map (Convert.no_value "gone")) new_memory).1
    ≡ record { made = 2; destroyed = 0 ∷ []; owned = [] }
unfolding read_value ◌>>=◌ scoped obtain raise
lost_key = refl

-- Where it gives the child type of an ARRAY and not its size, the child type is not destroyed.
lost_child :
    (reply no_parsers (types (no_size "gone" ∷ []) none) new_memory).1
    ≡ record { made = 2; destroyed = 0 ∷ []; owned = [] }
unfolding reply ◌>>=◌ scoped obtain raise
lost_child = refl

data_types :
    (reply no_parsers
      (types (list_of (array_of (named (codes "INT64")) (codes "3")) ∷ []) none)
      new_memory).0
    ≡ ok (texts (codes "INT64[3][]" ∷ []))
unfolding reply ◌>>=◌ scoped pure
data_types = refl

-- The texts of a node are owned, the id, the label, the types, the tuple and the values destroyed.
node_row :
    (reply no_parsers (row (Convert.cons a_node Convert.nil)) new_memory).1.owned ≡ 8 ∷ 7 ∷ []
unfolding reply read_value ◌>>=◌ scoped adopt pure lift Convert.convert_value
node_row = refl
