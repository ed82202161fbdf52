-- ===== src/Binding/Values.antt =====
-- src_py/_lbug_capi.py, `_value_from_python`: containers. The pointers to the parts are kept in a list
-- and destroyed whether the container is made or an error is raised.
use ladybug_python.Base.{
  ℕ, zero, suc, Bool, true, false, ◌&&◌, ◌||◌, List, [], ◌∷◌, ◌++◌, nat_eq, ◌==◌, if◌then◌else◌,
}
use ladybug_python.Outcome.{Result, ok, err, type_error, Exec, pure, raise, ◌>>◌, continue}
use ladybug_python.Text.{Text, text_eq, codes}
use ladybug_python.Binding.{
  Handle, Call, create, create_list, create_map, create_struct, Native, Answers, create_value,
  create_checked, destroy_all,
}
use ladybug_python.Binding.Scalars.{Scalar, str, NumpyScalar, literal, numpy_literal}

mutual
  pub data Value : Type 0 where
    scalar : Scalar → Value
    numpy_scalar : NumpyScalar → Value
    numpy_array list tuple : Items → Value
    dict : Entries → Value
    other : Value

  pub data Items : Type 0 where
    nil : Items
    cons : Value → Items → Items

  pub data Entries : Type 0 where
    end : Entries
    entry : Value → Value → Entries → Entries

abbrev pub count : Items → ℕ
count nil = zero
count (cons v vs) = suc (count vs)

-- A MAP by convention: the keys are "key" and "value", and the values lists of one length.
abbrev pub is_map : Entries → Bool
is_map (entry (scalar (str k)) (list ks) (entry (scalar (str k')) (list vs) end)) =
    ((k == codes "key" && k' == codes "value") || (k == codes "value" && k' == codes "key"))
    && count ks == count vs
is_map _ = false

abbrev pub all_str : Entries → Bool
all_str end = true
all_str (entry (scalar (str k)) v es) = all_str es
all_str (entry _ v es) = false

abbrev pub names_of : Entries → List Text
names_of end = []
names_of (entry (scalar (str k)) v es) = k ∷ names_of es
names_of (entry _ v es) = names_of es

-- `key_ptrs` (or nothing) and `value_ptrs`, with the native library.
abbrev pub Local : Type 0
Local = (List Handle × List Handle) × Native

abbrev pub keep_key :
    Result Handle → List Handle × List Handle → Result {0} Unit × (List Handle × List Handle)
keep_key (ok h) (ks, vs) = (ok tt, (ks ++ h ∷ [], vs))
keep_key (err e) l = (err e, l)

abbrev pub keep_value :
    Result Handle → List Handle × List Handle → Result {0} Unit × (List Handle × List Handle)
keep_value (ok h) (ks, vs) = (ok tt, (ks, vs ++ h ∷ []))
keep_value (err e) l = (err e, l)

-- `key_ptrs.append(...)` and `value_ptrs.append(...)`
unfoldable pub append_key : Exec Native Handle → Exec Local Unit
append_key m (l, s) = let (r, s') = m s in let (r', l') = keep_key r l in (r', (l', s'))

unfoldable pub append_value : Exec Native Handle → Exec Local Unit
append_value m (l, s) = let (r, s') = m s in let (r', l') = keep_value r l in (r', (l', s'))

-- `_value_from_python` of a part, yet to be run.
abbrev pub Maker : Type 0
Maker = Exec Native Handle

-- The loop over the parts of a list, and over the values of a dict.
unfoldable pub append_each : List Maker → Exec Local Unit
unfolding append_value
append_each [] = pure tt
append_each (v ∷ vs) = append_value v >> append_each vs

-- The loop over keys and values in step.
unfoldable pub append_pairs : List Maker → List Maker → Exec Local Unit
unfolding append_key append_value
append_pairs (k ∷ ks) (v ∷ vs) = append_key k >> append_value v >> append_pairs ks vs
append_pairs _ _ = pure tt

-- The parts, the container and the `finally` that destroys the parts.
unfoldable pub composite :
    Answers → Exec Local Unit → (List Handle → List Handle → Call) → Exec Native Handle
unfolding create_checked destroy_all
composite answer parts call s =
    let (r, ((ks, vs), s1)) = parts (([], []), s) in
    let (r', s2) = continue r (λ _. create_checked answer (call ks vs)) s1 in
    (r', destroy_all vs (destroy_all ks s2))

abbrev pub as_list : List Handle → List Handle → Call
as_list ks vs = create_list vs

abbrev pub as_struct : List Text → List Handle → List Handle → Call
as_struct names ks vs = create_struct names vs

abbrev pub first_is_key : Entries → Bool
first_is_key (entry (scalar (str k)) v es) = k == codes "key"
first_is_key _ = false

-- The map by convention: `zip(value["key"], value["value"])`.
abbrev pub append_zipped : Bool → List (List Maker) → Exec Local Unit
append_zipped true (ks ∷ vs ∷ []) = append_pairs ks vs
append_zipped false (vs ∷ ks ∷ []) = append_pairs ks vs
append_zipped _ _ = pure tt

module _ (answer : Answers) where
  unfoldable mutual
    unfolding composite append_each append_pairs create_value literal numpy_literal

    pub value_from_python : Value → Maker
    value_from_python (scalar v) = create_value (create (literal v))
    value_from_python (numpy_scalar v) = create_value (create (numpy_literal v))
    value_from_python (numpy_array vs) = composite answer (append_each (items vs)) as_list
    value_from_python (list vs) = composite answer (append_each (items vs)) as_list
    value_from_python (tuple vs) = composite answer (append_each (items vs)) as_list
    value_from_python (dict es) =
        if is_map es
        then composite answer (append_zipped (first_is_key es) (lists es)) create_map
        else if all_str es
        then composite answer (append_each (values es)) (as_struct (names_of es))
        else composite answer (append_pairs (keys es) (values es)) create_map
    value_from_python other = raise (type_error "Unsupported parameter type for C-API backend")

    -- Each part of a list, the values and keys of a dict, and the parts of its lists.
    pub items : Items → List Maker
    items nil = []
    items (cons v vs) = value_from_python v ∷ items vs

    pub values : Entries → List Maker
    values end = []
    values (entry k v es) = value_from_python v ∷ values es

    pub keys : Entries → List Maker
    keys end = []
    keys (entry k v es) = value_from_python k ∷ keys es

    pub lists : Entries → List (List Maker)
    lists end = []
    lists (entry k (list vs) es) = items vs ∷ lists es
    lists (entry k _ es) = [] ∷ lists es
