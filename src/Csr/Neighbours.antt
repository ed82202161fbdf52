-- ===== src/Csr/Neighbours.antt =====
-- What the arrays of getCSR say of each source.
use ladybug_python.Base.{
  concat, ℕ, zero, suc, ◌+◌, ◌≡◌, refl, sym, ap, ◌∙◌, arith, none, some, List, [], ◌∷◌, ◌++◌,
  append_assoc, append_nil, length, length-append, nat_eq,
}
use ladybug_python.Csr.{Entry, Csr, write_entries, end_group, write_groups, no_rows, csr_of}
use ladybug_python.Csr.Slices.{slice, slice-ends, ends, get_or_nil}
use ladybug_python.Csr.Groups.{of_source, groups_of, get-groups_of}

abbrev pub destinations : List Entry → List ℕ
destinations [] = []
destinations ((edge, dst) ∷ es) = dst ∷ destinations es

abbrev pub edges : List Entry → List ℕ
edges [] = []
edges ((none, dst) ∷ es) = edges es
edges ((some edge, dst) ∷ es) = edge ∷ edges es

abbrev each : (List Entry → List ℕ) → List (List Entry) → List (List ℕ)
each f [] = []
each f (g ∷ gs) = f g ∷ each f gs

length-destinations : (es : List Entry) → length (destinations es) ≡ length es
length-destinations [] = refl
length-destinations ((edge, dst) ∷ es) = ap suc (length-destinations es)

get-each :
    (f : List Entry → List ℕ)
    → f [] ≡ []
    → (gs : List (List Entry)) (i : ℕ) → get_or_nil (each f gs) i ≡ f (get_or_nil gs i)
get-each f e [] i = sym e
get-each f e (g ∷ gs) zero = refl
get-each f e (g ∷ gs) (suc i) = get-each f e gs i

-- The ends of groups depend on their lengths alone.
ends-each :
    (f : List Entry → List ℕ) (b : ℕ) (gs : List (List Entry))
    → ((i : ℕ) → length (f (get_or_nil gs i)) ≡ length (get_or_nil gs i))
    → ends b (each f gs) ≡ ends b gs
ends-each f b [] h = refl
ends-each f b (g ∷ gs) h =
    ap (λ n. (b + n) ∷ ends (b + n) (each f gs)) (h 0)
    ∙ ap (λ l. (b + length g) ∷ l) (ends-each f (b + length g) gs (λ i. h (suc i)))

write_entries_lem :
    (es : List Entry) (c : Csr)
    → write_entries es c
      ≡ record c { indices = c.indices ++ destinations es; edge_ids = c.edge_ids ++ edges es }
unfolding write_entries
write_entries_lem [] c = rw (append_nil c.indices, append_nil c.edge_ids)
write_entries_lem ((none, dst) ∷ es) c =
    let c' = record c { indices = c.indices ++ dst ∷ [] } in
    write_entries_lem es c' ∙ rw (append_assoc c.indices (dst ∷ []) (destinations es))
write_entries_lem ((some edge, dst) ∷ es) c =
    let c' = record c { indices = c.indices ++ dst ∷ []; edge_ids = c.edge_ids ++ edge ∷ [] } in
    write_entries_lem es c'
    ∙ rw (
      append_assoc c.indices (dst ∷ []) (destinations es),
      append_assoc c.edge_ids (edge ∷ []) (edges es),
    )

abbrev written : List (List Entry) → Csr → Csr
written gs c = record {
  indptr = c.indptr ++ ends (length c.indices) gs;
  indices = c.indices ++ concat (each destinations gs);
  edge_ids = c.edge_ids ++ concat (each edges gs);
}

write_groups_lem : (gs : List (List Entry)) (c : Csr) → write_groups gs c ≡ written gs c
unfolding write_groups
write_groups_lem [] c = rw (append_nil c.indptr, append_nil c.indices, append_nil c.edge_ids)
write_groups_lem (g ∷ gs) c =
    let c1 = record c { indices = c.indices ++ destinations g; edge_ids = c.edge_ids ++ edges g } in
    let grown : length (c.indices ++ destinations g) ≡ length c.indices + length g =
      omega (arith, length-append c.indices (destinations g), length-destinations g) in
    ap (λ x. write_groups gs (end_group x)) (write_entries_lem g c)
    ∙ write_groups_lem gs (end_group c1)
    ∙ rw (
      grown,
      append_assoc c.indptr ((length c.indices + length g) ∷ [])
          (ends (length c.indices + length g) gs),
      append_assoc c.indices (destinations g) (concat (each destinations gs)),
      append_assoc c.edge_ids (edges g) (concat (each edges gs)),
    )

pub slice-destinations :
    (es : List (ℕ × Entry)) (i : ℕ)
    → slice i (csr_of es).indptr (csr_of es).indices ≡ destinations (of_source i es)
unfolding csr_of
slice-destinations es i =
    let gs = groups_of es in
    let same : ends 0 (each destinations gs) ≡ ends 0 gs =
      ends-each destinations 0 gs (λ j. length-destinations (get_or_nil gs j)) in
    ap (λ c. slice i c.indptr c.indices) (write_groups_lem gs no_rows)
    ∙ ap (λ l. slice i (0 ∷ l) (concat (each destinations gs))) (sym same)
    ∙ slice-ends i [] (each destinations gs)
    ∙ get-each destinations refl gs i
    ∙ ap destinations (get-groups_of es i)

-- Every entry has the id of its edge.
abbrev pub HasEdges : List (ℕ × Entry) → Type 0
HasEdges [] = Unit
HasEdges ((src, (none, dst)) ∷ es) = ⊥
HasEdges ((src, (some edge, dst)) ∷ es) = HasEdges es

length-edges :
    (es : List (ℕ × Entry)) (i : ℕ)
    → HasEdges es
    → length (edges (of_source i es)) ≡ length (of_source i es)
unfolding of_source
length-edges [] i h = refl
length-edges ((src, (none, dst)) ∷ es) i h = absurd h
length-edges ((src, (some edge, dst)) ∷ es) i h = ground (arith, length-edges es i h)

pub slice-edges :
    (es : List (ℕ × Entry)) (i : ℕ)
    → HasEdges es
    → slice i (csr_of es).indptr (csr_of es).edge_ids ≡ edges (of_source i es)
unfolding csr_of
slice-edges es i h =
    let gs = groups_of es in
    let same : ends 0 (each edges gs) ≡ ends 0 gs = ends-each edges 0 gs (λ j.
      ap (λ l. length (edges l)) (get-groups_of es j)
      ∙ length-edges es j h
      ∙ ap length (sym (get-groups_of es j))) in
    ap (λ c. slice i c.indptr c.edge_ids) (write_groups_lem gs no_rows)
    ∙ ap (λ l. slice i (0 ∷ l) (concat (each edges gs))) (sym same)
    ∙ slice-ends i [] (each edges gs)
    ∙ get-each edges refl gs i
    ∙ ap edges (get-groups_of es i)
