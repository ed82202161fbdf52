-- ===== src/Json.antt =====
-- src_py/connection.py, `_normalize_parameters_for_capi` and `_normalize_parameters_for_pybind`: the
-- parameters that a query takes as JSON. Regular expressions and the module `json` are parameters.
pub mod Resolved
mod Tests
use ladybug_python.Base.{
  Bool, true, false, ◌&&◌, ◌||◌, not, Option, none, some, List, [], ◌∷◌, ◌++◌, ℕ, if◌then◌else◌,
}
use ladybug_python.Outcome.{Result, ok, err, PyError, runtime_error, bind_result}
use ladybug_python.Text.{Text, codes}
use ladybug_python.Quote.{json_string_literal}
use ladybug_python.Binding.Scalars.{escaped}
use ladybug_python.Signature.Value.{
  Value, null, bool, float, blob, str, int, frame, dict, list, tuple, other, Items, nil, cons,
  Entries, end, entry,
}

abbrev pub is_json_serializable_parameter : Value → Bool
is_json_serializable_parameter null = true
is_json_serializable_parameter bool = true
is_json_serializable_parameter (int n) = true
is_json_serializable_parameter float = true
is_json_serializable_parameter (list vs) = true
is_json_serializable_parameter (tuple vs) = true
is_json_serializable_parameter (dict es) = true
is_json_serializable_parameter v = false

abbrev pub is_nested : Value → Bool
is_nested (list vs) = true
is_nested (tuple vs) = true
is_nested (dict es) = true
is_nested v = false

abbrev pub has_nested_child : Items → Bool
has_nested_child nil = false
has_nested_child (cons v vs) = is_nested v || has_nested_child vs

abbrev pub has_scalar_child : Items → Bool
has_scalar_child nil = false
has_scalar_child (cons v vs) = not (is_nested v) || has_scalar_child vs

-- A list of parts of which some are unresolved, and whether they are mixed.
abbrev pub unresolved_list : Items → Bool → Bool
unresolved_list nil unresolved = true
unresolved_list (cons v vs) unresolved =
    unresolved || (has_nested_child (cons v vs) && has_scalar_child (cons v vs))

abbrev pub unresolved_dict : Entries → Bool → Bool
unresolved_dict end unresolved = true
unresolved_dict (entry k v es) unresolved = unresolved

unfoldable mutual
  pub contains_unresolved_json_type : Value → Bool
  contains_unresolved_json_type null = true
  contains_unresolved_json_type (list vs) = unresolved_list vs (any_unresolved vs)
  contains_unresolved_json_type (tuple vs) = unresolved_list vs (any_unresolved vs)
  contains_unresolved_json_type (dict es) = unresolved_dict es (any_value_unresolved es)
  contains_unresolved_json_type v = false

  pub any_unresolved : Items → Bool
  any_unresolved nil = false
  any_unresolved (cons v vs) = contains_unresolved_json_type v || any_unresolved vs

  pub any_value_unresolved : Entries → Bool
  any_value_unresolved end = false
  any_value_unresolved (entry k v es) = contains_unresolved_json_type v || any_value_unresolved es

-- A parameter: a text, bytes, or a value of another type.
pub data Parameter : Type 0 where
  text : Text → Parameter
  binary : List ℕ → Parameter
  plain : Value → Parameter

-- The patterns of a parameter: `to_json($key)` is found and replaced, `$key` is found, and is put into
-- `BLOB(...)` where it is not.
pub record Engine : Type 0 where
  pub has_to_json : Text → Text → Bool
  pub replace_to_json : Text → Text → Text → Text
  pub put_in_blob : Text → Text → Text
  pub mentions : Text → Text → Bool
  pub loads : Text → Result {0} Unit
  pub dumps : Value → Result {0} Text

-- What is bound for a parameter.
pub data Bound : Type 0 where
  given : Parameter → Bound
  hex : Text → Bound
  json : Text → Bound

abbrev pub not_a_name : PyError
not_a_name = runtime_error "Parameter name must be of type string"

module _ (e : Engine) where
  -- The text of JSON that stands for a parameter, if it is one that JSON is for.
  unfoldable pub json_of : Parameter → Result (Option Text)
  unfolding contains_unresolved_json_type
  json_of (text t) = bind_result (e.loads t) λ _. ok (some t)
  json_of (binary bs) = ok none
  json_of (plain v) =
      if is_json_serializable_parameter v && contains_unresolved_json_type v
      then bind_result (e.dumps v) (λ t. ok (some t))
      else ok none

  abbrev pub capi_bound : Text → Parameter → Text → Option Text → Text × Bound
  capi_bound key p query none = (query, given p)
  capi_bound key p query (some t) = (e.replace_to_json key (b'$' ∷ key) query, json t)

  -- One round of the loop.
  unfoldable pub capi_parameter : Text → Parameter → Text → Result (Text × Bound)
  unfolding json_of
  capi_parameter key (binary bs) query = ok (e.put_in_blob key query, hex (escaped bs))
  capi_parameter key p query =
      if e.has_to_json key query
      then bind_result (json_of p) (λ t. ok (capi_bound key p query t))
      else ok (query, given p)

  unfoldable pub normalize_for_capi :
      Text → List (Option Text × Parameter) → Result (Text × List (Text × Bound))
  unfolding capi_parameter
  normalize_for_capi query [] = ok (query, [])
  normalize_for_capi query ((none, p) ∷ ps) = err not_a_name
  normalize_for_capi query ((some key, p) ∷ ps) =
      bind_result (capi_parameter key p query) λ (query', b).
        bind_result (normalize_for_capi query' ps) λ (query'', bs). ok (query'', (key, b) ∷ bs)

  abbrev pub as_json : Text → Text
  as_json t = codes "CAST(" ++ json_string_literal t ++ codes " AS JSON)"

  -- The parameter is left out where the query does not name it any longer.
  abbrev pub kept : Text → Parameter → Text → List (Text × Parameter)
  kept key p query = if e.mentions key query then (key, p) ∷ [] else []

  abbrev pub pybind_bound : Text → Parameter → Text → Option Text → Text × List (Text × Parameter)
  pybind_bound key p query none = (query, (key, p) ∷ [])
  pybind_bound key p query (some t) =
      let query' = e.replace_to_json key (as_json t) query in (query', kept key p query')

  unfoldable pub pybind_parameter :
      Text → Parameter → Text → Result (Text × List (Text × Parameter))
  unfolding json_of
  pybind_parameter key p query =
      if e.has_to_json key query
      then bind_result (json_of p) (λ t. ok (pybind_bound key p query t))
      else ok (query, (key, p) ∷ [])

  unfoldable pub normalize_for_pybind :
      Text → List (Option Text × Parameter) → Result (Text × List (Text × Parameter))
  unfolding pybind_parameter
  normalize_for_pybind query [] = ok (query, [])
  normalize_for_pybind query ((none, p) ∷ ps) = err not_a_name
  normalize_for_pybind query ((some key, p) ∷ ps) =
      bind_result (pybind_parameter key p query) λ (query', b).
        bind_result (normalize_for_pybind query' ps) λ (query'', bs). ok (query'', b ++ bs)
