-- ===== src/Networkx/Tests.antt =====
-- Two nodes of a table "user" with the key "id", and a node of a table "id" with the key "id".
use ladybug_python.Base.{
  ℕ, ◌≡◌, ◌≢◌, refl, arith, Bool, true, false, some, List, [], ◌∷◌, nat_eq, pair_eq,
}
use ladybug_python.Outcome.{ok}
use ladybug_python.Dict.{lookup, insert, contains}
use ladybug_python.Text.{Text, text_eq, codes}
use ladybug_python.Networkx.{
  Node, Rel, node, rel, empty_graph, encode_node_id, learn_key, add_node, add_nodes, add_rel,
  add_rels, collect_cells, collect_cell, put_nodes, put_rels, get_as_networkx,
}
use ladybug_python.Networkx.Names.{added_name}

abbrev property_names : Text → List (Text × Bool)
property_names label = (codes "age", false) ∷ (codes "id", true) ∷ []

abbrev a_node : Text → ℕ → Text → Node
a_node label offset key = record { id = (0, offset); label = label; props = (codes "id", key) ∷ [] }

abbrev loop : ℕ → Rel
loop n = record { id = (1, 0); src = (0, n); dst = (0, n) }

-- A node that comes twice is added once.
users :
    (get_as_networkx property_names
      (node (a_node (codes "user") 0 (codes "7"))
        ∷ rel (loop 0)
        ∷ node (a_node (codes "user") 0 (codes "7"))
        ∷ [])
      empty_graph).1.added
    ≡ codes "user_7" ∷ []
unfolding get_as_networkx add_node add_nodes add_rel add_rels collect_cells collect_cell put_nodes
    put_rels learn_key encode_node_id lookup insert contains
users = refl

-- The rel of the node of the table "id" joins other names than that of the node.
loose_edge :
    let (_, g) =
      get_as_networkx property_names
        (node (a_node (codes "id") 0 (codes "7")) ∷ rel (loop 0) ∷ [])
        empty_graph in
    (g.added ≡ codes "id_7" ∷ []) × (g.edges ≡ (codes "id_True", codes "id_True") ∷ [])
unfolding get_as_networkx add_node add_nodes add_rel add_rels collect_cells collect_cell put_nodes
    put_rels learn_key encode_node_id lookup insert contains
loose_edge = (refl, refl)

abbrev user : Node
user = a_node (codes "user") 0 (codes "7")

added_name_example :
    let h =
      (add_nodes property_names (user ∷ a_node (codes "id") 1 (codes "7") ∷ []) empty_graph).1 in
    ((add_node property_names user empty_graph).1.added ≡ codes "user_7" ∷ [])
    × ((m : Node) × (lookup user.id h.nodes ≡ some m)
        × (codes "id" ≢ codes "user" → encode_node_id m h.keys ≡ ok (codes "user_7"))
        × (codes "id" ≡ codes "user" → encode_node_id m h.keys ≡ ok (codes "user_True")))
unfolding learn_key lookup insert contains
added_name_example =
    added_name property_names user (a_node (codes "id") 1 (codes "7") ∷ []) empty_graph (codes "id")
      (codes "7") refl refl ((λ e. absurd (ground (arith, e))), tt)
