-- ===== src/GraphStore/PutGet.antt =====
-- src_py/torch_geometric_graph_store.py: what is read after a write.
use ladybug_python.Base.{
  ◌≡◌, refl, sym, ap, ◌∙◌, arith, Bool, true, false, ◌&&◌, ◌||◌, not, Option, none, some,
  Option-cases, inl, inr, ◌==◌, if◌then◌else◌, pair_eq,
}
use ladybug_python.Outcome.{Result, ok, err, value_error}
use ladybug_python.Dict.{lookup, insert, lookup-insert}
use ladybug_python.Text.{text_eq, text_beq_iff}
use ladybug_python.GraphStore.{
  EdgeType, Layout, coo, csc, csr, layout_eq, bool_eq, EdgeAttr, StoreKey, key, Rel, Store, stored,
  put_edge_index, sorted_request, read_rel, get_edge_index,
}

abbrev same_key : StoreKey → StoreKey → Bool
same_key k k' = k == k'

same_type : (t : EdgeType) → (t == t) ≡ true
same_type t =
    ground (arith, text_beq_iff t.0 t.0, text_beq_iff t.1.0 t.1.0, text_beq_iff t.1.1 t.1.1)

-- A request that was not changed asks for the key that was put.
asks_for_key :
    (a : EdgeAttr) → (key a == key (sorted_request a)) ≡ not (a.layout == coo && not a.is_sorted)
asks_for_key a = asked a.edge_type a.layout a.is_sorted
  where
    asked :
        (t : EdgeType) (l : Layout) (b : Bool)
        → same_key (t, (l, b)) (t, (l, (b || l == coo))) ≡ not (l == coo && not b)
    asked t coo true = ground (arith, same_type t)
    asked t coo false = ground (arith, same_type t)
    asked t csc b = ground (arith, same_type t)
    asked t csr b = ground (arith, same_type t)

module _ {E : Type 0} where
  -- What a request gives, by the rel that stands under its key.
  abbrev answer : (EdgeType → E) → Option (Rel E) → Result (Option E)
  answer edges_of none = ok none
  answer edges_of (some r) =
      if r.layout == coo
      then ok (read_rel edges_of r).edge_index
      else if r.materialized
      then ok r.edge_index
      else err (value_error "Only COO layout is supported")

  get-answer :
      (edges_of : EdgeType → E) (a : EdgeAttr) (s : Store E)
      → (get_edge_index edges_of a s).0 ≡ answer edges_of (lookup (key (sorted_request a)) s)
  unfolding get_edge_index
  get-answer edges_of a s = elim (Option-cases (lookup (key (sorted_request a)) s)) [
    | inl absent ↦ ground (arith, absent)
    | inr (r, there) ↦ ground (arith, there)
  ]

  answer-stored :
      (edges_of : EdgeType → E) (a : EdgeAttr) (e : E) (o : Option (Rel E))
      → answer edges_of (some (stored a e o)) ≡ ok (some e)
  answer-stored edges_of a e none = ground arith
  answer-stored edges_of a e (some r) = ground arith

-- An edge index that was put is what is given for the same request, unless the request is for an
-- unsorted COO index: then the answer is what it was before, and the index that was put is lost.
pub get_edge_index-put_edge_index :
    {E : Type 0} (edges_of : EdgeType → E) (a : EdgeAttr) (e : E) (s : Store E)
    → (get_edge_index edges_of a (put_edge_index e a s)).0 ≡ (
        if a.layout == coo && not a.is_sorted then (get_edge_index edges_of a s).0 else ok (some e))
unfolding put_edge_index
get_edge_index-put_edge_index {E} edges_of a e s =
    let k = key a in
    let k' = key (sorted_request a) in
    let r = stored a e (lookup k s) in
    get-answer edges_of a (insert k r s)
    ∙ ap (answer edges_of) (lookup-insert k k' r s)
    ∙ ap (λ b. answer edges_of (if b then some r else lookup k' s)) (asks_for_key a)
    ∙ by_request (a.layout == coo && not a.is_sorted) (lookup k s) (lookup k' s)
    ∙ ap (λ x. if a.layout == coo && not a.is_sorted then x else ok (some e))
        (sym (get-answer edges_of a s))
  where
    by_request :
        (b : Bool) (o o' : Option (Rel E))
        → answer edges_of (if not b then some (stored a e o) else o')
          ≡ (if b then answer edges_of o' else ok (some e))
    by_request true o o' = refl
    by_request false o o' = answer-stored edges_of a e o
