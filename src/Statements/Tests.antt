-- ===== src/Statements/Tests.antt =====
-- A query with one parameter, whose signature is "string" for both backends.
use ladybug_python.Base.{ℕ, ◌≡◌, refl, some, [], ◌∷◌, String, string_eq, pair_eq, nat_eq}
use ladybug_python.Outcome.{Result, ok}
use ladybug_python.Dict.{lookup, insert}
use ladybug_python.Statements.{Backend, capi, pybind, Cache, empty_cache, prepare, get_or_prepare}
use ladybug_python.Statements.Soundness.{serve, cached_statement_fits, statement_is_reused}

abbrev signature : Backend → ℕ → Result String
signature b params = ok "string"

abbrev first : Cache String ℕ String
first = (get_or_prepare signature capi (ok tt) "RETURN $s" 3 empty_cache).1

cached_statement_fits_example :
    (b : Backend) × (params : ℕ) × (lookup 0 first.prepared ≡ some (b, "RETURN $s", params))
    × (signature b params ≡ signature pybind 4)
unfolding get_or_prepare lookup insert serve
cached_statement_fits_example =
    cached_statement_fits signature ((capi, ok tt, "RETURN $s", 3) ∷ []) pybind (ok tt) "RETURN $s"
      4 0 first refl

-- The call for the extension gets the statement of the C API.
statement_is_reused_example :
    (get_or_prepare signature pybind (ok tt) "RETURN $s" 4 first ≡ (ok 0, first))
    × (lookup 0 first.prepared ≡ lookup 0 first.prepared)
unfolding get_or_prepare lookup insert serve
statement_is_reused_example =
    statement_is_reused signature [] [] capi pybind (ok tt) (ok tt) "RETURN $s" 3 4 0 first refl
      refl

crossed : lookup 0 first.prepared ≡ some (capi, "RETURN $s", 3)
unfolding get_or_prepare lookup insert prepare
crossed = refl
