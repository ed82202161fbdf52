-- ===== src/TorchGeometric/Aligned.antt =====
-- src_py/torch_geometric_result_converter.py: the columns of the nodes that a result has.
pub mod Reading
pub mod Distinct
use ladybug_python.Base.{
  ℕ, zero, suc, ◌+◌, ◌≡◌, refl, sym, ap, ◌∙◌, arith, Bool, true, false, Option, none, some, List,
  [], ◌∷◌, ◌++◌, length, nat_eq, pair_eq, option_eq, ◌==◌, ◌&&◌, ◌||◌, if◌then◌else◌, Bool-cases,
  Option-cases, inl, inr, length-append, append_assoc, append_nil,
}
use ladybug_python.Outcome.{Result, ok, err}
use ladybug_python.Dict.{Dict, lookup, insert, contains}
use ladybug_python.Dict.Unique.{IsUnique}
use ladybug_python.Text.{Text, text_eq, text_beq, text_beq_iff}
use ladybug_python.TorchGeometric.{
  NodeId, Node, Rel, Cell, node, rel, empty, Columns, Converter, empty_converter,
}
use ladybug_python.TorchGeometric.Column.{Kind, PropertyInfo, Torch, uncaught}
use ladybug_python.TorchGeometric.Nodes.{
  Schema, extract_each, extract_node, place, unless_seen, visit_node, visit, populate_nodes,
}
use ladybug_python.TorchGeometric.Views.{view, view_of}
use Reading.{position_after, has_key, all_in, value_list, Added, extract_each_adds}
use Distinct.{
  is_in, bump, distinct, places, values_at, all_complete, insert-end, contains-end, lookup-all_in,
  position_after-key,
}

module _ {V : Type 0} (torch : Torch V) (norm : V → V)
    (law : (v : V) → norm (torch.to_list v) ≡ norm v)
    (caught : (k : Kind) (v : V) → uncaught (torch.to_tensor k v) ≡ none) (schema : Text → Schema)
    (unique : (l : Text) → IsUnique (schema l)) where
  -- A node that is new gets the next position, and its values the ends of the columns.
  new_node_adds :
      (n : Node V) (k : ℕ) (s : Converter V)
      → contains n.id s.id_to_pos ≡ false
      → has_key (schema n.label) ≡ true
      → all_in (schema n.label) n.props ≡ true
      → ((p : Text)
          → contains p (schema n.label) ≡ true
          → length (view norm n.label p s.columns) ≡ k)
      → (s' : Converter V) × (visit_node torch schema n s ≡ (ok tt, s'))
        × (s'.id_to_pos ≡ s.id_to_pos ++ (n.id, some k) ∷ [])
        × Added torch norm law caught n.label n.props (schema n.label) s.columns s'.columns
  unfolding visit_node extract_node place
  new_node_adds n k s new keyed all even =
      let (key, c', run, added) =
        extract_each_adds torch norm law caught n.label n.props k (schema n.label) none none
          s.columns (unique n.label) all keyed even in
      let at_ = position_after-key k (schema n.label) keyed in
      let t = record s { table_to_label = insert n.id.0 n.label s.table_to_label } in
      (
        place torch n (some k, key) (record t { columns = c' }),
        rw (new, run, at_),
        insert-end n.id (some k) s.id_to_pos new,
        added,
      )

  -- The part of the node in the columns of any label.
  abbrev part : Node V → Text → Text → List V
  part n l p = if n.label == l then value_list norm (lookup p n.props) else []

  part_grows :
      (n : Node V) (c c' : Columns V)
      → Added torch norm law caught n.label n.props (schema n.label) c c'
      → (l p : Text) → contains p (schema l) ≡ true
      → view norm l p c' ≡ view norm l p c ++ part n l p
  part_grows n c c' added l p h =
      ground (arith, added l p, h, text_beq_iff n.label l, append_nil (view norm l p c))

  length-part :
      (n : Node V) (l p : Text)
      → all_in (schema n.label) n.props ≡ true
      → contains p (schema l) ≡ true
      → length (part n l p) ≡ (if n.label == l then 1 else 0)
  length-part n l p all h =
      ground (arith, h, text_beq_iff n.label l, lookup-all_in (schema n.label) n.props p all)

  pub populate_adds :
      (cs : List (Cell V)) (seen : List NodeId) (count : Text → ℕ) (s : Converter V)
      → all_complete schema cs ≡ true
      → ((i : NodeId) → contains i s.id_to_pos ≡ is_in i seen)
      → ((l p : Text) → contains p (schema l) ≡ true → length (view norm l p s.columns) ≡ count l)
      → (s' : Converter V) × (populate_nodes torch schema cs s ≡ (ok tt, s'))
        × (s'.id_to_pos ≡ s.id_to_pos ++ places count (distinct seen cs))
        × ((l p : Text)
            → contains p (schema l) ≡ true
            → view norm l p s'.columns
              ≡ view norm l p s.columns ++ values_at norm l p (distinct seen cs))
  unfolding populate_nodes visit visit_node all_complete distinct places values_at
  populate_adds [] seen count s all ids even =
      (s, refl, sym (append_nil s.id_to_pos), λ l p h. sym (append_nil (view norm l p s.columns)))
  populate_adds (empty ∷ cs) seen count s all ids even = absurd (ground arith)
  populate_adds (rel r ∷ cs) seen count s all ids even =
      populate_adds cs seen count (record s { rels = insert r.ends r s.rels }) all ids even
  populate_adds (node n ∷ cs) seen count s all ids even =
      elim (Bool-cases (contains n.id s.id_to_pos)) [
        | inl again ↦
            let t = record s { table_to_label = insert n.id.0 n.label s.table_to_label } in
            let (s', run, placed, viewed) = populate_adds cs seen count t (ground arith) ids even in
            (
              s',
              rw (again, run),
              ground (arith, placed, ids n.id, again),
              λ l p h. ground (arith, viewed l p h, ids n.id, again),
            )
        | inr new ↦
            let (s1, run1, placed1, added) =
              new_node_adds n (count n.label) s new (ground (arith, all)) (ground (arith, all))
                (even n.label) in
            let grows = part_grows n s.columns s1.columns added in
            let (s', run, placed, viewed) =
              populate_adds cs (n.id ∷ seen) (bump n.label count) s1 (ground (arith, all))
                (λ i. ground (
                  arith,
                  ap (contains i) placed1,
                  contains-end n.id i (some (count n.label)) s.id_to_pos,
                  ids i,
                ))
                (λ l p h. ground (
                  arith,
                  grows l p h,
                  ap length (grows l p h),
                  even l p h,
                  length-part n l p (ground (arith, all)) h,
                  length-append (view norm l p s.columns) (part n l p),
                )) in
            (
              s',
              rw (run1, run),
              ground (
                arith,
                placed,
                placed1,
                ids n.id,
                new,
                append_assoc s.id_to_pos ((n.id, some (count n.label)) ∷ [])
                    (places (bump n.label count) (distinct (n.id ∷ seen) cs)),
              ),
              λ l p h. ground (
                arith,
                viewed l p h,
                grows l p h,
                ids n.id,
                new,
                append_assoc (view norm l p s.columns) (part n l p)
                    (values_at norm l p (distinct (n.id ∷ seen) cs)),
              ),
            )
      ]

-- For a result of complete nodes, with no property twice in a label, whose values make torch raise no
-- error but `ValueError`, and up to what a tensor loses of a list (`norm`): the loop over the rows ends without an error, `id_to_pos` numbers the distinct
-- nodes of each label in the order of the result, and each column of a label holds what its distinct
-- nodes have there, in that order, converted or not.
pub columns_follow_nodes :
    {V : Type 0} (torch : Torch V) (norm : V → V) (law : (v : V) → norm (torch.to_list v) ≡ norm v)
    (caught : (k : Kind) (v : V) → uncaught (torch.to_tensor k v) ≡ none) (schema : Text → Schema)
    (unique : (l : Text) → IsUnique (schema l)) (cs : List (Cell V)) (l p : Text)
    → all_complete schema cs ≡ true
    → contains p (schema l) ≡ true
    → ((populate_nodes torch schema cs (empty_converter V)).0 ≡ ok tt)
      × ((populate_nodes torch schema cs (empty_converter V)).1.id_to_pos
          ≡ places (λ _. 0) (distinct [] cs))
      × (view norm l p (populate_nodes torch schema cs (empty_converter V)).1.columns
          ≡ values_at norm l p (distinct [] cs))
unfolding view view_of contains
columns_follow_nodes {V} torch norm law caught schema unique cs l p all h =
    let (s, run, placed, viewed) =
      populate_adds torch norm law caught schema unique cs [] (λ _. 0) (empty_converter V) all
        (λ i. refl) (λ l p h. refl) in
    (rw run, rw (run, placed), rw (run, viewed l p h))
