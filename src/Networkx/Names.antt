-- ===== src/Networkx/Names.antt =====
-- The name of a node: where it is added, and where its rels look it up.
use ladybug_python.Base.{
  ◌≡◌, ◌≢◌, sym, ap, ◌∙◌, Bool, false, Option, none, some, Bool-cases, inl, inr, List, [], ◌∷◌,
  ◌++◌, All, nat_eq, pair_eq, arith,
}
use ladybug_python.Outcome.{ok, continue_both}
use ladybug_python.Dict.{Dict, lookup, insert, contains, lookup-insert_self, lookup-insert_ne}
use ladybug_python.Text.{Text, text_eq, codes}
use ladybug_python.Networkx.{
  Node, Graph, encode_node_id, first_key, learn, learn_key, mark, add_node, add_nodes,
}

encode-ok :
    (n : Node) (keys : Dict Text Text) (key value : Text)
    → lookup n.label keys ≡ some key
    → lookup key n.props ≡ some value
    → encode_node_id n keys ≡ ok (n.label ++ codes "_" ++ value)
unfolding encode_node_id
encode-ok n keys key value known there = ground (arith, known, there)

add_node-ok :
    (property_names : Text → List (Text × Bool)) (n : Node) (g : Graph) (name : Text)
    → encode_node_id n (learn_key property_names n.label g.keys) ≡ ok name
    → add_node property_names n g ≡ (
      ok tt,
      record g {
        keys = learn_key property_names n.label g.keys;
        nodes = insert n.id (mark n) g.nodes;
        added = name ∷ g.added;
      },
    )
unfolding add_node
add_node-ok property_names n g name e = rw e

-- The graph holds a node, and the key of its label.
abbrev Holds : Node → Text → Graph → Type 0
Holds m key g = (lookup m.id g.nodes ≡ some m) × (lookup m.label g.keys ≡ some key)

learn-lookup :
    (new : Option Text) (label other key : Text) (keys : Dict Text Text)
    → lookup other keys ≡ some key
    → (label ≡ other → ⊥)
    → lookup other (learn label new keys) ≡ some key
learn-lookup none label other key keys h ne = h
learn-lookup (some k) label other key keys h ne = lookup-insert_ne label other k keys ne ∙ h

not_contained :
    (label other key : Text) (keys : Dict Text Text)
    → contains label keys ≡ false
    → lookup other keys ≡ some key
    → label ≡ other
    → ⊥
unfolding contains
not_contained label other key keys e h same =
    absurd (ground (arith, h, e, ap (λ l. lookup l keys) same))

-- A label whose key is known keeps it.
learn_key-lookup :
    (property_names : Text → List (Text × Bool)) (label other key : Text) (keys : Dict Text Text)
    → lookup other keys ≡ some key
    → lookup other (learn_key property_names label keys) ≡ some key
unfolding learn_key
learn_key-lookup property_names label other key keys h = elim (Bool-cases (contains label keys)) [
  | inl e ↦ rw e h
  | inr e ↦ rw e (
      learn-lookup (first_key (property_names label)) label other key keys h
        (not_contained label other key keys e h))
]

add_node-Holds :
    (property_names : Text → List (Text × Bool)) (n m : Node) (key : Text) (g : Graph)
    → n.id ≢ m.id
    → Holds m key g
    → Holds m key (add_node property_names n g).1
unfolding add_node
add_node-Holds property_names n m key g ne (there, known) =
    let k = learn_key-lookup property_names n.label m.label key g.keys known in
    continue_both (Holds m key) (encode_node_id n (learn_key property_names n.label g.keys)) _ _
      (there, k) λ name. (lookup-insert_ne n.id m.id (mark n) g.nodes ne ∙ there, k)

add_nodes-Holds :
    (property_names : Text → List (Text × Bool)) (ns : List Node) (m : Node) (key : Text)
    (g : Graph)
    → All (λ n. n.id ≢ m.id) ns
    → Holds m key g
    → Holds m key (add_nodes property_names ns g).1
unfolding add_nodes
add_nodes-Holds property_names [] m key g ne h = h
add_nodes-Holds property_names (n ∷ ns) m key g (ne, others) h =
    let one = add_node-Holds property_names n m key g ne h in
    continue_both (Holds m key) (add_node property_names n g).0 _ _ one
      λ _. add_nodes-Holds property_names ns m key _ others one

-- A node whose key is known and has a value is added under its label and this value. Then, whatever
-- nodes with other ids are added after it, and whether or not one of them raises: the graph has it
-- under its id, and `encode_node_id`, which its rels call, gives it that name again if its label is
-- not the name of its primary key, and its label with "_True" if it is.
pub added_name :
    (property_names : Text → List (Text × Bool)) (n : Node) (others : List Node) (g : Graph)
    (key value : Text)
    → lookup n.label (learn_key property_names n.label g.keys) ≡ some key
    → lookup key n.props ≡ some value
    → All (λ m. m.id ≢ n.id) others
    → let h = (add_nodes property_names (n ∷ others) g).1 in
      ((add_node property_names n g).1.added ≡ (n.label ++ codes "_" ++ value) ∷ g.added)
      × ((m : Node) × (lookup n.id h.nodes ≡ some m)
          × (key ≢ n.label → encode_node_id m h.keys ≡ ok (n.label ++ codes "_" ++ value))
          × (key ≡ n.label → encode_node_id m h.keys ≡ ok (n.label ++ codes "_" ++ codes "True")))
unfolding add_nodes
added_name property_names n others g key value known there apart =
    let e =
      add_node-ok property_names n g (n.label ++ codes "_" ++ value)
        (encode-ok n (learn_key property_names n.label g.keys) key value known there) in
    let first : Holds (mark n) key (add_node property_names n g).1 = (
      ap (λ r. lookup n.id r.1.nodes) e ∙ lookup-insert_self n.id (mark n) g.nodes,
      ap (λ r. lookup n.label r.1.keys) e ∙ known,
    ) in
    let last : Holds (mark n) key (add_nodes property_names (n ∷ others) g).1 =
      continue_both (Holds (mark n) key) (add_node property_names n g).0 _ _ first
        λ _. add_nodes-Holds property_names others (mark n) key _ apart first in
    (
      ap (λ r. r.1.added) e,
      (
        mark n,
        last.0,
        λ other. encode-ok (mark n) _ key value last.1 (
            lookup-insert_ne n.label key (codes "True") n.props (λ same. other (sym same)) ∙ there),
        λ same. encode-ok (mark n) _ key (codes "True") last.1 (
            ap (λ k. lookup k (mark n).props) same
            ∙ lookup-insert_self n.label (codes "True") n.props),
      ),
    )
