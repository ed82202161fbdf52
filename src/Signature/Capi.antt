-- ===== src/Signature/Capi.antt =====
-- `_capi_value_signature` and `_capi_param_signature`, on the values of Signature.Value: a
-- `CAPIJsonParameter` counts as a string, and the keys of dicts are strings.
use ladybug_python.Base.{
  ◌≡◌, ◌≢◌, refl, ◌∙◌, ap, Bool, true, false, ◌&&◌, ◌||◌, [], ◌∷◌, ◌==◌, nat_eq, arith,
  if◌then◌else◌,
}
use ladybug_python.Text.{Text, text_eq, codes}
use ladybug_python.Signature.Merge.{text_ltb}
use ladybug_python.Signature.Value.{
  Value, null, bool, float, blob, str, int, frame, dict, list, tuple, other, Items, nil, cons,
  Entries, end, entry, count,
}

mutual
  pub data CapiSig : Type 0 where
    null_type bool_type int_type float_type blob_type string_type : CapiSig
    map_type : CapiSig → CapiSig → CapiSig
    struct_type : CapiFields → CapiSig
    list_type : CapiSig → CapiSig
    unknown_type : Text → CapiSig

  pub data CapiFields : Type 0 where
    no_field : CapiFields
    one_field : Text → CapiSig → CapiFields → CapiFields

-- One step of `sorted` on pairs with different names.
unfoldable pub insert_field : Text → CapiSig → CapiFields → CapiFields
insert_field k s no_field = one_field k s no_field
insert_field k s (one_field j t fs) =
    let rest = insert_field k s fs in
    if text_ltb j k then one_field j t rest else one_field k s (one_field j t fs)

-- A dict of the keys "key" and "value", in either order, with lists of one length.
abbrev pub is_capi_map : Entries → Bool
is_capi_map (entry k (list ks) (entry k' (list vs) end)) =
    ((k == codes "key" && k' == codes "value") || (k == codes "value" && k' == codes "key"))
    && count ks == count vs
is_capi_map _ = false

unfoldable mutual
  unfolding insert_field

  pub capi_value_signature : Value → CapiSig
  capi_value_signature null = null_type
  capi_value_signature bool = bool_type
  capi_value_signature (int n) = int_type
  capi_value_signature float = float_type
  capi_value_signature blob = blob_type
  capi_value_signature str = string_type
  capi_value_signature (frame a o m name fp) = unknown_type name
  capi_value_signature (dict es) =
      if is_capi_map es then capi_map_signature es else struct_type (capi_param_signature es)
  capi_value_signature (list vs) = list_type (first_signature vs)
  capi_value_signature (tuple vs) = list_type (first_signature vs)
  capi_value_signature (other name) = unknown_type name

  -- The signature of the first element stands for the list.
  pub first_signature : Items → CapiSig
  first_signature nil = null_type
  first_signature (cons v vs) = capi_value_signature v

  -- Only asked of a dict that `is_capi_map` accepts.
  pub capi_map_signature : Entries → CapiSig
  capi_map_signature (entry k (list ks) (entry k' (list vs) end)) =
      let s = list_type (first_signature ks) in
      let t = list_type (first_signature vs) in
      if k == codes "key" then map_type s t else map_type t s
  capi_map_signature _ = null_type

  -- `sorted((key, signature of the value) ...)`
  pub capi_param_signature : Entries → CapiFields
  capi_param_signature end = no_field
  capi_param_signature (entry k v es) =
      insert_field k (capi_value_signature v) (capi_param_signature es)

text_ltb_total : (a b : Text) → a ≢ b → text_ltb a b ≡ false → text_ltb b a ≡ true
text_ltb_total [] [] ne h = absurd (ne refl)
text_ltb_total [] (b ∷ t) ne h = cc
text_ltb_total (a ∷ s) [] ne h = refl
text_ltb_total (a ∷ s) (b ∷ t) ne h = ground (arith, text_ltb_total s t, h, ne)

text_ltb_asym : (a b : Text) → text_ltb a b ≡ true → text_ltb b a ≡ false
text_ltb_asym [] [] h = cc
text_ltb_asym [] (b ∷ t) h = refl
text_ltb_asym (a ∷ s) [] h = cc
text_ltb_asym (a ∷ s) (b ∷ t) h = ground (arith, text_ltb_asym s t, h)

text_ltb_trans : (a b c : Text) → text_ltb a b ≡ true → text_ltb b c ≡ true → text_ltb a c ≡ true
text_ltb_trans [] [] c h g = cc
text_ltb_trans [] (b ∷ t) [] h g = cc
text_ltb_trans [] (b ∷ t) (c ∷ u) h g = refl
text_ltb_trans (a ∷ s) [] c h g = cc
text_ltb_trans (a ∷ s) (b ∷ t) [] h g = cc
text_ltb_trans (a ∷ s) (b ∷ t) (c ∷ u) h g = ground (arith, text_ltb_trans s t u, h, g)

-- Two insertions under different names commute.
insert_field-swap :
    (j k : Text) (s t : CapiSig) (fs : CapiFields)
    → j ≢ k
    → insert_field j s (insert_field k t fs) ≡ insert_field k t (insert_field j s fs)
unfolding insert_field
insert_field-swap j k s t no_field ne =
    ground (arith, text_ltb_total j k ne, text_ltb_asym j k, text_ltb_asym k j)
insert_field-swap j k s t (one_field i r fs) ne = ground (
  arith,
  insert_field-swap j k s t fs ne,
  text_ltb_total j k ne,
  text_ltb_asym j k,
  text_ltb_asym k j,
  text_ltb_trans i j k,
  text_ltb_trans i k j,
  text_ltb_trans j k i,
  text_ltb_trans k j i,
)

-- The same parameters in another order: two neighbours of different names change places, any number
-- of times.
pub data Reordered : Entries → Entries → Type 0 where
  same : {es : Entries} → Reordered es es
  swap :
      {es : Entries} (j k : Text) (v w : Value)
      → j ≢ k
      → Reordered (entry j v (entry k w es)) (entry k w (entry j v es))
  under :
      {es fs : Entries} (k : Text) (v : Value)
      → Reordered es fs
      → Reordered (entry k v es) (entry k v fs)
  also : {es fs gs : Entries} → Reordered es fs → Reordered fs gs → Reordered es gs

-- Callers that pass the same parameters in different orders get the same signature for the C API, and
-- so share a prepared statement.
parameter_order_is_irrelevant :
    {es fs : Entries} → Reordered es fs → capi_param_signature es ≡ capi_param_signature fs
unfolding capi_param_signature
parameter_order_is_irrelevant same = refl
parameter_order_is_irrelevant (swap {es} j k v w ne) =
    insert_field-swap j k (capi_value_signature v) (capi_value_signature w)
      (capi_param_signature es) ne
parameter_order_is_irrelevant (under k v r) =
    ap (insert_field k (capi_value_signature v)) (parameter_order_is_irrelevant r)
parameter_order_is_irrelevant (also r r') =
    parameter_order_is_irrelevant r ∙ parameter_order_is_irrelevant r'
