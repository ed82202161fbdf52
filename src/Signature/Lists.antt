-- ===== src/Signature/Lists.antt =====
-- The signatures of lists: numbers of several widths, and dicts of several shapes.
use ladybug_python.Base.{
  ◌≡◌, ◌≢◌, refl, Bool, true, false, none, some, List, [], ◌∷◌, arith, nat_eq, nat_beq, leb, length,
  if_both, sym,
}
use mathlib.Core.Path.{subst}
use ladybug_python.Base.Int.{ℤ}
use ladybug_python.Outcome.{Result, ok, err, PyError, value_error, lift, ◌>>=◌}
use ladybug_python.Dict.{Dict, lookup, insert, contains}
use ladybug_python.Text.{Text, text_eq, text_beq_iff}
use ladybug_python.Signature.Pointer.{Tracker}
use ladybug_python.Signature.Width.{Width, int64, order, pybind_int_signature}
use ladybug_python.Signature.Shape.{Sig, Fields, sig_beq}
use ladybug_python.Signature.Shape
use ladybug_python.Signature.Merge.{
  merge, unless_equal, sorted, insert_sorted, same_keys, new_keys, dict_of_names, add_fields,
  fields_of, merge_dicts,
}
use ladybug_python.Signature.Value.{
  Value, Items, nil, cons, null, int, Entries, end, entry, is_map, fields_signature,
  value_signature, merge_items,
}

-- A list of ints and `None`s.
abbrev pub ints_only : Items → Bool
ints_only nil = true
ints_only (cons null vs) = ints_only vs
ints_only (cons (int n) vs) = ints_only vs
ints_only (cons _ vs) = false

abbrev pub has_int : Items → Bool
has_int nil = false
has_int (cons null vs) = has_int vs
has_int (cons (int n) vs) = true
has_int (cons _ vs) = has_int vs

abbrev IsInt : Result Sig → Type 0
IsInt r = (u : Width) × (r ≡ ok (Shape.int u))

merge-int : (v w : Width) → IsInt (merge (Shape.int v) (Shape.int w))
unfolding merge unless_equal sig_beq
merge-int v w =
    if_both IsInt (nat_beq (order v) (order w)) (ok (Shape.int v)) _ (v, refl)
      (if_both (λ r. IsInt (ok r)) (leb (order w) (order v)) (Shape.int v) (Shape.int w) (v, refl)
        (w, refl))

merge_items-ints_some :
    (vs : Items) (w : Width) (s : Tracker)
    → ints_only vs ≡ true
    → (u : Width) × (merge_items vs (some (Shape.int w)) s ≡ (ok (some (Shape.int u)), s))
unfolding merge_items
merge_items-ints_some nil w s h = (w, refl)
merge_items-ints_some (cons null vs) w s h = merge_items-ints_some vs w s h
merge_items-ints_some (cons (int n) vs) w s h =
    let (u, e) = merge-int w (pybind_int_signature n) in
    let (x, f) = merge_items-ints_some vs u s h in
    (
      x,
      subst
          (λ r.
            (lift {S = Tracker} r >>= λ n'. merge_items vs (some n')) s
            ≡ (ok (some (Shape.int x)), s))
          (sym e) f,
    )
merge_items-ints_some (cons _ vs) w s h = cc

merge_items-ints :
    (vs : Items) (s : Tracker)
    → ints_only vs ≡ true
    → has_int vs ≡ true
    → (u : Width) × (merge_items vs none s ≡ (ok (some (Shape.int u)), s))
unfolding merge_items
merge_items-ints nil s h e = cc
merge_items-ints (cons null vs) s h e = merge_items-ints vs s h e
merge_items-ints (cons (int n) vs) s h e = merge_items-ints_some vs (pybind_int_signature n) s h
merge_items-ints (cons _ vs) s h e = cc

-- A list of ints and `None`s with at least one int has the signature of a list of INT64, whatever
-- the widths of its ints, and leaves the tracker as it is.
list_of_ints_is_int64 :
    (vs : Items) (s : Tracker)
    → ints_only vs ≡ true
    → has_int vs ≡ true
    → value_signature (Value.list vs) s ≡ (ok (Shape.list (Shape.int int64)), s)
unfolding value_signature
list_of_ints_is_int64 vs s h e = rw ((merge_items-ints vs s h e).1)

abbrev pub pair_error : PyError
pair_error = value_error "dictionary update sequence element has the wrong length; 2 is required"

-- A name that is no pair of characters, first or second, stops `dict(names)`.
dict_of_names-first :
    (x : Text) (xs : List Text) (d : Dict Text Sig)
    → length x ≢ 2
    → dict_of_names (x ∷ xs) d ≡ err pair_error
unfolding dict_of_names
dict_of_names-first [] xs d h = refl
dict_of_names-first (a ∷ []) xs d h = refl
dict_of_names-first (a ∷ b ∷ []) xs d h = absurd (h refl)
dict_of_names-first (a ∷ b ∷ c ∷ x) xs d h = refl

dict_of_names-second :
    (x y : Text) (d : Dict Text Sig) → length y ≢ 2 → dict_of_names (x ∷ y ∷ []) d ≡ err pair_error
unfolding dict_of_names insert
dict_of_names-second [] y d h = refl
dict_of_names-second (a ∷ []) y d h = refl
dict_of_names-second (a ∷ b ∷ []) y d h = dict_of_names-first y [] _ h
dict_of_names-second (a ∷ b ∷ c ∷ x) y d h = refl

dict_of_names-either :
    (j k : Text) → length j ≢ 2 → dict_of_names (sorted (j ∷ k ∷ [])) [] ≡ err pair_error
unfolding sorted insert_sorted
dict_of_names-either j k h =
    if_both (λ xs. dict_of_names xs [] ≡ err pair_error) _ (k ∷ j ∷ []) (j ∷ k ∷ [])
      (dict_of_names-second k j [] h) (dict_of_names-first j (k ∷ []) [] h)

abbrev pub one_key : Text → Sig → Sig
one_key k s = Shape.struct (Shape.field k s Shape.end)

merge-other_keys :
    (j k : Text) (s t : Sig)
    → j ≢ k
    → merge (one_key j s) (one_key k t) ≡ ok (Shape.names (sorted (j ∷ k ∷ [])))
unfolding merge unless_equal sig_beq fields_of merge_dicts same_keys new_keys contains lookup
    add_fields insert
merge-other_keys j k s t h = ground (arith, text_beq_iff j k, text_beq_iff k j)

merge-names :
    (xs : List Text) (fs : Fields)
    → dict_of_names xs [] ≡ err pair_error
    → merge (Shape.names xs) (Shape.struct fs) ≡ err pair_error
unfolding merge unless_equal sig_beq fields_of
merge-names xs fs h = rw h

-- The signature of a list of three dicts raises a ValueError when the first two dicts have one key each
-- with an int, the keys are different and the first key is not of two characters, and the third dict
-- is not of the form of a MAP (two lists "key" and "value" of one length) and the signatures of its own
-- values do not raise.
pub third_dict_raises :
    (j k : Text) (m n : ℤ) (es : Entries) (fs : Fields) (s t : Tracker)
    → j ≢ k
    → length j ≢ 2
    → is_map es ≡ false
    → fields_signature es s ≡ (ok fs, t)
    → value_signature
        (Value.list (
          cons
            (Value.dict (entry j (int m) end))
            (cons (Value.dict (entry k (int n) end)) (cons (Value.dict es) nil))))
        s
      ≡ (err pair_error, t)
unfolding value_signature
third_dict_raises j k m n es fs s t h bad no_map e =
    let first =
      merge-other_keys j k (Shape.int (pybind_int_signature m)) (Shape.int (pybind_int_signature n))
        h in
    let second = merge-names (sorted (j ∷ k ∷ [])) fs (dict_of_names-either j k bad) in
    ground (arith, first, second, no_map, e)
