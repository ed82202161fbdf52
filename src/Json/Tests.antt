-- ===== src/Json/Tests.antt =====
-- A list of an empty list, bytes, and a text.
use ladybug_python.Base.{◌≡◌, ◌⊎◌, refl, true, false, none, some, [], ◌∷◌, ◌++◌}
use ladybug_python.Base.Int.{pos}
use ladybug_python.Outcome.{ok, err}
use ladybug_python.Text.{Text, codes}
use ladybug_python.Quote.{json_string_literal}
use ladybug_python.Binding.Scalars.{escaped}
use ladybug_python.Signature.Value.{Value, int, list, tuple, nil, cons}
use ladybug_python.Signature.Capi.{capi_value_signature}
use ladybug_python.Json.{
  Engine, text, binary, plain, given, hex, json, contains_unresolved_json_type, capi_parameter,
  normalize_for_capi, normalize_for_pybind, not_a_name,
}
use ladybug_python.Json.Resolved.{has_null, given_value_is_typed}

abbrev engine : Engine
engine = record {
  has_to_json = λ key query. true;
  replace_to_json = λ key by query. codes "RETURN " ++ by;
  put_in_blob = λ key query. codes "RETURN BLOB($" ++ key ++ codes ")";
  mentions = λ key query. false;
  loads = λ t. ok tt;
  dumps = λ v. ok (codes "[[]]");
}

abbrev a_query : Text
a_query = codes "RETURN to_json($p)"

abbrev numbers : Value
numbers = list (cons (int (pos 1)) nil)

abbrev hollow : Value
hollow = list (cons (list nil) nil)

given_value_is_typed_example :
    ((capi_parameter engine (codes "p") (plain numbers) a_query
        ≡ ok (a_query, given (plain numbers)))
      × (has_null (capi_value_signature numbers) ≡ false))
    ⊎ (capi_parameter engine (codes "p") (plain numbers) a_query
        ≡ ok (codes "RETURN $p", json (codes "[[]]")))
given_value_is_typed_example = given_value_is_typed engine (codes "p") a_query numbers refl refl

hollow_as_json :
    normalize_for_capi engine a_query ((some (codes "p"), plain hollow) ∷ [])
    ≡ ok (codes "RETURN $p", (codes "p", json (codes "[[]]")) ∷ [])
unfolding normalize_for_capi
hollow_as_json = refl

hollow_in_query :
    normalize_for_pybind engine a_query ((some (codes "p"), plain hollow) ∷ [])
    ≡ ok (codes "RETURN CAST('[[]]' AS JSON)", [])
unfolding normalize_for_pybind json_string_literal
hollow_in_query = refl

bytes_as_hex :
    normalize_for_capi engine a_query ((some (codes "b"), binary (10 ∷ [])) ∷ [])
    ≡ ok (codes "RETURN BLOB($b)", (codes "b", hex (codes "\\x0a")) ∷ [])
unfolding normalize_for_capi escaped
bytes_as_hex = refl

mixed_list : contains_unresolved_json_type (tuple (cons numbers (cons (int (pos 1)) nil))) ≡ true
unfolding contains_unresolved_json_type
mixed_list = refl

no_name : normalize_for_capi engine a_query ((none, text []) ∷ []) ≡ err not_a_name
unfolding normalize_for_capi
no_name = refl
