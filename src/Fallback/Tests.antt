-- ===== src/Fallback/Tests.antt =====
-- Functions and tables of a connection by the C API.
use ladybug_python.Base.{◌≡◌, ◌≤◌, refl, true, false, none, List, [], ◌∷◌, All}
use ladybug_python.Outcome.{ok, err, value_error, not_implemented_error}
use ladybug_python.Execution.{Question, route, capi_statement}
use ladybug_python.Fallback.{
  Request, create_function, remove_function, create_arrow_table, create_arrow_rel_table, csr, Host,
  own, second, Attempt, result, Engine, new_hosts, get_pybind_connection, handle, handle_all,
  capi_attempt,
}
use ladybug_python.Fallback.Followed.{IsServed, extension_is_followed}

abbrev answers : Host → Request → Attempt
answers own r = capi_attempt (λ r. result none) r
answers (second n) r = result none

abbrev engine : Engine
engine = record {
  ready = ok tt;
  database = ok tt;
  pybind_database = ok true;
  connect = ok tt;
  attempt = answers;
}

abbrev a_query : Question
a_query = record {
  using_pybind = false;
  is_text = true;
  has_timeout = false;
  unwinds_ranges = false;
  should_scan = false;
  no_parameters = true;
}

abbrev requests : List (Engine × Request)
requests =
    (engine, create_arrow_table 0)
    ∷ (engine, create_function 1)
    ∷ (engine, create_function 2)
    ∷ (engine, remove_function 1)
    ∷ []

extension_is_followed_example :
    let h = handle_all requests (new_hosts false true) in
    (h.made ≤ 1) × All (IsServed h a_query) h.calls
extension_is_followed_example = extension_is_followed false true requests a_query refl refl

-- The table stays with the C API, the functions share the second connection.
calls_of_requests :
    (handle_all requests (new_hosts false true)).calls
    ≡ (second 0, remove_function 1)
      ∷ (own, remove_function 1)
      ∷ (second 0, create_function 2)
      ∷ (own, create_function 2)
      ∷ (second 0, create_function 1)
      ∷ (own, create_function 1)
      ∷ (own, create_arrow_table 0)
      ∷ []
unfolding handle_all capi_attempt get_pybind_connection
calls_of_requests = refl

-- Without the extension a function is an error.
no_functions :
    (handle engine (create_function 1) (new_hosts false false)).0
    ≡ err (not_implemented_error "UDF registration is not yet implemented in C-API backend")
unfolding handle capi_attempt get_pybind_connection
no_functions = refl

csr_without_indptr :
    handle engine (create_arrow_rel_table 0 csr false) (new_hosts false true)
    ≡ (err (value_error "indptr_dataframe is required when layout is CSR"), new_hosts false true)
unfolding handle
csr_without_indptr = refl

-- A prepared statement runs by the C API, also when the functions are with the extension.
statement_stays : route (record a_query { is_text = false }) true ≡ capi_statement
statement_stays = refl
