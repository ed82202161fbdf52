-- ===== src/Json/Resolved.antt =====
-- What stays as it is given has a type for the C API, all the way down.
use ladybug_python.Base.{
  ◌≡◌, ◌⊎◌, inl, inr, refl, Bool, true, false, ◌||◌, some, ◌∷◌, ◌==◌, nat_eq, if_both, Bool-cases,
  if◌then◌else◌,
}
use ladybug_python.Outcome.{Result, ok, err, bind_result}
use ladybug_python.Text.{Text, text_eq, codes}
use ladybug_python.Signature.Merge.{text_ltb}
use ladybug_python.Signature.Value.{
  Value, null, bool, float, blob, str, int, frame, dict, list, tuple, other, Items, nil, cons,
  Entries, end, entry,
}
use ladybug_python.Signature.Capi.{
  CapiSig, CapiFields, null_type, map_type, struct_type, list_type, no_field, one_field,
  insert_field, is_capi_map, capi_value_signature, first_signature, capi_map_signature,
  capi_param_signature,
}
use ladybug_python.Json.{
  is_json_serializable_parameter, unresolved_list, unresolved_dict, contains_unresolved_json_type,
  any_unresolved, any_value_unresolved, Engine, plain, given, json, json_of, capi_bound,
  capi_parameter,
}

-- Whether a part of a type is that of the null.
unfoldable mutual
  pub has_null : CapiSig → Bool
  has_null null_type = true
  has_null (map_type s t) = has_null s || has_null t
  has_null (struct_type fs) = any_null fs
  has_null (list_type s) = has_null s
  has_null s = false

  pub any_null : CapiFields → Bool
  any_null no_field = false
  any_null (one_field k s fs) = has_null s || any_null fs

or_false : (a b : Bool) → (a || b) ≡ false → (a ≡ false) × (b ≡ false)
or_false true b h = cc
or_false false b h = (refl, h)

false_or : (a b : Bool) → a ≡ false → b ≡ false → (a || b) ≡ false
false_or a b h k = rw (h, k) refl

any_null-insert_field :
    (k : Text) (s : CapiSig) (fs : CapiFields)
    → has_null s ≡ false
    → any_null fs ≡ false
    → any_null (insert_field k s fs) ≡ false
unfolding has_null insert_field
any_null-insert_field k s no_field h g = false_or (has_null s) false h refl
any_null-insert_field k s (one_field j t fs) h g =
    let (a, b) = or_false (has_null t) (any_null fs) g in
    if_both (λ (x : CapiFields). any_null x ≡ false) (text_ltb j k) _ _
      (false_or (has_null t) _ a (any_null-insert_field k s fs h b)) (false_or (has_null s) _ h g)

either_typed :
    (b : Bool) (s t : CapiSig)
    → (b ≡ true → has_null s ≡ false)
    → has_null t ≡ false
    → has_null (if b then s else t) ≡ false
either_typed true s t h k = h refl
either_typed false s t h k = k

resolved_values :
    (es : Entries)
    → unresolved_dict es (any_value_unresolved es) ≡ false
    → any_value_unresolved es ≡ false
resolved_values end h = cc
resolved_values (entry k v es) h = h

mutual
  unfolding contains_unresolved_json_type capi_value_signature has_null

  value_is_typed :
      (v : Value)
      → contains_unresolved_json_type v ≡ false
      → has_null (capi_value_signature v) ≡ false
  value_is_typed null h = cc
  value_is_typed (list vs) h = first_is_typed vs h
  value_is_typed (tuple vs) h = first_is_typed vs h
  value_is_typed (dict es) h =
      let k = resolved_values es h in
      either_typed (is_capi_map es) (capi_map_signature es) (struct_type (capi_param_signature es))
        (λ e. map_is_typed es e k) (fields_are_typed es k)
  value_is_typed bool h = refl
  value_is_typed (int n) h = refl
  value_is_typed float h = refl
  value_is_typed blob h = refl
  value_is_typed str h = refl
  value_is_typed (frame a o m name fp) h = refl
  value_is_typed (other name) h = refl

  first_is_typed :
      (vs : Items)
      → unresolved_list vs (any_unresolved vs) ≡ false
      → has_null (first_signature vs) ≡ false
  first_is_typed nil h = cc
  first_is_typed (cons v vs) h =
      let (a, b) = or_false (contains_unresolved_json_type v || any_unresolved vs) _ h in
      value_is_typed v (or_false (contains_unresolved_json_type v) (any_unresolved vs) a).0

  fields_are_typed :
      (es : Entries) → any_value_unresolved es ≡ false → any_null (capi_param_signature es) ≡ false
  fields_are_typed end h = refl
  fields_are_typed (entry k v es) h =
      let (a, b) = or_false (contains_unresolved_json_type v) (any_value_unresolved es) h in
      any_null-insert_field k (capi_value_signature v) (capi_param_signature es)
        (value_is_typed v a) (fields_are_typed es b)

  map_is_typed :
      (es : Entries)
      → is_capi_map es ≡ true
      → any_value_unresolved es ≡ false
      → has_null (capi_map_signature es) ≡ false
  map_is_typed (entry k (list ks) (entry k' (list vs) end)) m h =
      let (a, b) = or_false (unresolved_list ks (any_unresolved ks)) _ h in
      let (c, d) = or_false (unresolved_list vs (any_unresolved vs)) false b in
      let first = first_is_typed ks a in
      let second = first_is_typed vs c in
      if_both (λ (x : CapiSig). has_null x ≡ false) (k == codes "key") _ _
        (false_or (has_null (first_signature ks)) _ first second)
        (false_or (has_null (first_signature vs)) _ second first)
  map_is_typed es m h = cc

bind_result-ok :
    {A B C : Type 0} (r : Result A) (f : A → B) (g : B → Result C)
    → bind_result (bind_result r λ a. ok (f a)) g ≡ bind_result r λ a. g (f a)
bind_result-ok (ok a) f g = refl
bind_result-ok (err e) f g = refl

json_of-plain :
    (e : Engine) (key query : Text) (v : Value) (c : Bool)
    → e.has_to_json key query ≡ true
    → is_json_serializable_parameter v ≡ true
    → contains_unresolved_json_type v ≡ c
    → capi_parameter e key (plain v) query ≡ (
        if c
        then bind_result (e.dumps v) (λ t. ok (e.replace_to_json key (b'$' ∷ key) query, json t))
        else ok (query, given (plain v)))
unfolding capi_parameter json_of
json_of-plain e key query v true h k c =
    rw (h, k, c) (bind_result-ok (e.dumps v) some (λ t. ok (capi_bound e key (plain v) query t)))
json_of-plain e key query v false h k c = rw (h, k, c) refl

-- A value that the query takes as JSON, and that stays as it is given for the C API, has a signature
-- without the type of the null in any of its parts; each other one becomes what `json.dumps` makes of it,
-- and the query names it where it called `to_json`.
pub given_value_is_typed :
    (e : Engine) (key query : Text) (v : Value)
    → e.has_to_json key query ≡ true
    → is_json_serializable_parameter v ≡ true
    → ((capi_parameter e key (plain v) query ≡ ok (query, given (plain v)))
        × (has_null (capi_value_signature v) ≡ false))
      ⊎ (capi_parameter e key (plain v) query
          ≡ bind_result (e.dumps v) λ t. ok (e.replace_to_json key (b'$' ∷ key) query, json t))
given_value_is_typed e key query v h k = elim (Bool-cases (contains_unresolved_json_type v)) [
  | inl c ↦ inr (json_of-plain e key query v true h k c)
  | inr c ↦ inl (json_of-plain e key query v false h k c, value_is_typed v c)
]
