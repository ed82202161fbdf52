-- ===== src/Binding/Owned.antt =====
-- src_py/_lbug_capi.py: no value that is made for a parameter is left over or destroyed twice.
use ladybug_python.Base.{
  ◌+◌, ◌≡◌, arith, All, Bool, true, false, Option, none, some, List, [], ◌∷◌, if_both,
  if◌then◌else◌, Option-cases, inl, inr,
}
use ladybug_python.Outcome.{Result, ok, err, continue_both}
use ladybug_python.Text.{Text}
use ladybug_python.Binding.{
  Handle, Call, create, create_map, bind, Native, Answers, call_checked, destroy_all,
}
use ladybug_python.Binding.Scalars.{literal, numpy_literal}
use ladybug_python.Binding.Values.{
  Value, scalar, numpy_scalar, numpy_array, list, tuple, dict, other, Items, nil, cons, Entries,
  end, entry, names_of, all_str, is_map, first_is_key, Maker, append_each, append_pairs,
  append_zipped, as_list, as_struct, composite, value_from_python, items, values, keys, lists,
}
use ladybug_python.Binding.Statements.{bind_one, bind_parameters}
use ladybug_python.Binding.Balance.{
  times, within, Balance, Balances, Collects, held_of, Balance-trans, Balance-destroy_all,
  failed-Balance, Balance-refl, Collects-pure, create_value-Balances, append_each-Collects,
  append_pairs-Collects, composite-Balances,
}

append_zipped-Collects :
    (b : Bool) (ms : List (List Maker)) → All (All Balances) ms → Collects (append_zipped b ms)
append_zipped-Collects true (ks ∷ vs ∷ []) (a, (b, c)) = append_pairs-Collects ks vs a b
append_zipped-Collects false (vs ∷ ks ∷ []) (a, (b, c)) = append_pairs-Collects ks vs b a
append_zipped-Collects true [] h = Collects-pure
append_zipped-Collects true (x ∷ []) h = Collects-pure
append_zipped-Collects true (x ∷ y ∷ z ∷ ms) h = Collects-pure
append_zipped-Collects false [] h = Collects-pure
append_zipped-Collects false (x ∷ []) h = Collects-pure
append_zipped-Collects false (x ∷ y ∷ z ∷ ms) h = Collects-pure

module _ (answer : Answers) where
  mutual
    unfolding value_from_python

    pub value_from_python-Balances : (v : Value) → Balances (value_from_python answer v)
    value_from_python-Balances (scalar v) = create_value-Balances (create (literal v))
    value_from_python-Balances (numpy_scalar v) = create_value-Balances (create (numpy_literal v))
    value_from_python-Balances (numpy_array vs) =
        composite-Balances answer (append_each (items answer vs)) as_list
          (append_each-Collects (items answer vs) (items-Balances vs))
    value_from_python-Balances (list vs) =
        composite-Balances answer (append_each (items answer vs)) as_list
          (append_each-Collects (items answer vs) (items-Balances vs))
    value_from_python-Balances (tuple vs) =
        composite-Balances answer (append_each (items answer vs)) as_list
          (append_each-Collects (items answer vs) (items-Balances vs))
    value_from_python-Balances (dict es) =
        let zipped = append_zipped (first_is_key es) (lists answer es) in
        let fields = append_each (values answer es) in
        let pairs = append_pairs (keys answer es) (values answer es) in
        let by_names = composite answer fields (as_struct (names_of es)) in
        let by_pairs = composite answer pairs create_map in
        if_both Balances (is_map es) (composite answer zipped create_map)
          (if all_str es then by_names else by_pairs)
          (composite-Balances answer zipped create_map
            (append_zipped-Collects (first_is_key es) (lists answer es) (lists-Balances es)))
          (if_both Balances (all_str es) by_names by_pairs
            (composite-Balances answer fields (as_struct (names_of es))
              (append_each-Collects (values answer es) (values-Balances es)))
            (composite-Balances answer pairs create_map (
              append_pairs-Collects (keys answer es) (values answer es) (keys-Balances es)
                (values-Balances es))))
    value_from_python-Balances other = Balance-refl

    items-Balances : (vs : Items) → All Balances (items answer vs)
    items-Balances nil = tt
    items-Balances (cons v vs) = (value_from_python-Balances v, items-Balances vs)

    values-Balances : (es : Entries) → All Balances (values answer es)
    values-Balances end = tt
    values-Balances (entry k v es) = (value_from_python-Balances v, values-Balances es)

    keys-Balances : (es : Entries) → All Balances (keys answer es)
    keys-Balances end = tt
    keys-Balances (entry k v es) = (value_from_python-Balances k, keys-Balances es)

    lists-Balances : (es : Entries) → All (All Balances) (lists answer es)
    lists-Balances end = tt
    lists-Balances (entry k (list vs) es) = (items-Balances vs, lists-Balances es)
    lists-Balances (entry k (scalar v) es) = (tt, lists-Balances es)
    lists-Balances (entry k (numpy_scalar v) es) = (tt, lists-Balances es)
    lists-Balances (entry k (numpy_array v) es) = (tt, lists-Balances es)
    lists-Balances (entry k (tuple v) es) = (tt, lists-Balances es)
    lists-Balances (entry k (dict v) es) = (tt, lists-Balances es)
    lists-Balances (entry k other es) = (tt, lists-Balances es)

  call_checked-Balance : (c : Call) (s : Native) → Balance s [] (call_checked answer c s).1
  unfolding call_checked
  call_checked-Balance c s = elim (Option-cases (answer c)) [
    | inl good ↦
        failed-Balance s (call_checked answer c s).1 (ground (arith, good)) (ground (arith, good))
    | inr (m, bad) ↦
        failed-Balance s (call_checked answer c s).1 (ground (arith, bad)) (ground (arith, bad))
  ]

  -- The value that is made, the call that takes it, and its end.
  bound-Balance :
      (key : Text) (r : Result Handle) (s t : Native)
      → Balance s (held_of r) t
      → Balance s []
          (elim r as (λ _. Result {0} Unit × Native) [
            | err e ↦ (err e, t)
            | ok h ↦
                let (r', u) = call_checked answer (bind key h) t in (r', destroy_all (h ∷ []) u)
          ]).1
  bound-Balance key (err e) s t b = b
  bound-Balance key (ok h) s t b =
      let u = (call_checked answer (bind key h) t).1 in
      Balance-destroy_all s u [] (h ∷ [])
        (Balance-trans s t u (h ∷ []) [] b (call_checked-Balance (bind key h) t))

  bind_one-Balance :
      (key : Text) (v : Value) (s : Native) → Balance s [] (bind_one answer key v s).1
  unfolding bind_one
  bind_one-Balance key v s =
      bound-Balance key (value_from_python answer v s).0 s (value_from_python answer v s).1
        (value_from_python-Balances v s)

  bind_parameters-Balance :
      (ps : List (Option Text × Value)) (s : Native) → Balance s [] (bind_parameters answer ps s).1
  unfolding bind_parameters
  bind_parameters-Balance [] s = Balance-refl s
  bind_parameters-Balance ((none, v) ∷ ps) s = Balance-refl s
  bind_parameters-Balance ((some key, v) ∷ ps) s =
      let t = (bind_one answer key v s).1 in
      let first = bind_one-Balance key v s in
      continue_both (Balance s []) (bind_one answer key v s).0 (λ _. bind_parameters answer ps) t
        first
        (λ _.
          Balance-trans s t (bind_parameters answer ps t).1 [] [] first
            (bind_parameters-Balance ps t))

-- Whatever the library answers, and whether an error is raised or not, `bind_parameters` destroys each
-- value that it creates exactly once, parts of containers included, and destroys no other value.
pub bind_parameters_destroys_all :
    (answer : Answers) (ps : List (Option Text × Value)) (s : Native) (h : Handle)
    → times h (bind_parameters answer ps s).1.destroyed
      ≡ times h s.destroyed + within s.made (bind_parameters answer ps s).1.made h
bind_parameters_destroys_all answer ps s h =
    omega (arith, (bind_parameters-Balance answer ps s).1 h)
