-- ===== src/TorchGeometric/Aligned/Distinct.antt =====
-- src_py/torch_geometric_result_converter.py: the distinct nodes of a result, with what their columns
-- and positions should be.
use ladybug_python.Base.{
  ℕ, suc, ◌≡◌, refl, arith, Bool, true, false, Option, none, some, List, [], ◌∷◌, ◌++◌, length,
  nat_eq, pair_eq, option_eq, ◌==◌, ◌&&◌, ◌||◌, if◌then◌else◌,
}
use ladybug_python.Dict.{Dict, lookup, insert, contains}
use ladybug_python.Text.{Text, text_eq, text_beq_iff}
use ladybug_python.TorchGeometric.{NodeId, Node, Cell, node, rel, empty}
use ladybug_python.TorchGeometric.Nodes.{Schema}
use ladybug_python.TorchGeometric.Aligned.Reading.{position_after, has_key, all_in, value_list}

abbrev pub is_in : NodeId → List NodeId → Bool
is_in i [] = false
is_in i (j ∷ js) = j == i || is_in i js

-- One more at one label.
abbrev pub bump : Text → (Text → ℕ) → Text → ℕ
bump l count l' = if l == l' then suc (count l') else count l'

module _ {V : Type 0} where
  -- The nodes of the cells, each where it comes first.
  unfoldable pub distinct : List NodeId → List (Cell V) → List (Node V)
  distinct seen [] = []
  distinct seen (node n ∷ cs) =
      let again = distinct seen cs in
      let first = n ∷ distinct (n.id ∷ seen) cs in if is_in n.id seen then again else first
  distinct seen (rel r ∷ cs) = distinct seen cs
  distinct seen (empty ∷ cs) = distinct seen cs

  -- Each node with its number among those of its label.
  unfoldable pub places : (Text → ℕ) → List (Node V) → Dict NodeId (Option ℕ)
  places count [] = []
  places count (n ∷ ns) = (n.id, some (count n.label)) ∷ places (bump n.label count) ns

  -- What the nodes of a label have at a property.
  unfoldable pub values_at : (V → V) → Text → Text → List (Node V) → List V
  unfolding lookup
  values_at norm l p [] = []
  values_at norm l p (n ∷ ns) =
      (if n.label == l then value_list norm (lookup p n.props) else []) ++ values_at norm l p ns

  -- No cell is `None`, and each node has the properties of its label, with a primary key.
  unfoldable pub all_complete : (Text → Schema) → List (Cell V) → Bool
  unfolding all_in
  all_complete schema [] = true
  all_complete schema (node n ∷ cs) =
      (has_key (schema n.label) && all_in (schema n.label) n.props) && all_complete schema cs
  all_complete schema (rel r ∷ cs) = all_complete schema cs
  all_complete schema (empty ∷ cs) = false

pub insert-end :
    (k : NodeId) (v : Option ℕ) (d : Dict NodeId (Option ℕ))
    → contains k d ≡ false
    → insert k v d ≡ d ++ (k, v) ∷ []
unfolding insert contains lookup
insert-end k v [] h = refl
insert-end k v ((j, w) ∷ d) h = ground (arith, insert-end k v d)

pub contains-end :
    (k i : NodeId) (v : Option ℕ) (d : Dict NodeId (Option ℕ))
    → contains i (d ++ (k, v) ∷ []) ≡ (k == i || contains i d)
unfolding contains lookup
contains-end k i v [] = ground arith
contains-end k i v ((j, w) ∷ d) = ground (arith, contains-end k i v d)

pub lookup-all_in :
    {V : Type 0} (ps : Schema) (props : Dict Text V) (p : Text)
    → all_in ps props ≡ true
    → contains p ps ≡ true
    → length (value_list (λ v. v) (lookup p props)) ≡ 1
unfolding all_in contains lookup
lookup-all_in [] props p all h = absurd (ground arith)
lookup-all_in ((q, info) ∷ ps) props p all h =
    ground (arith, all, h, text_beq_iff q p, lookup-all_in ps props p)

pub position_after-key :
    (n : ℕ) (ps : Schema) → has_key ps ≡ true → position_after none n ps ≡ some n
position_after-key n [] h = absurd (ground arith)
position_after-key n (p ∷ ps) h = refl
