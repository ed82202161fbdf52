-- ===== src/Fallback.antt =====
-- src_py/connection.py: the calls that go to the C API first and, where it does not have them, to a
-- second connection by the extension. What the two answer is a parameter.
pub mod Followed
mod Tests
use ladybug_python.Base.{
  ℕ, suc, String, Bool, true, false, ◌&&◌, not, Option, none, some, List, [], ◌∷◌, if◌then◌else◌,
}
use ladybug_python.Outcome.{
  Result, ok, err, PyError, runtime_error, value_error, not_implemented_error, Exec, pure, raise,
  raise_if, lift, gets, modify, ◌>>=◌, ◌>>◌,
}

pub data Layout : Type 0 where
  flat csr : Layout
  other_layout : String → Layout

-- Functions and tables by their names, numbered; a rel table with its layout and whether there is an
-- `indptr_dataframe`.
pub data Request : Type 0 where
  create_function remove_function create_arrow_table drop_arrow_table : ℕ → Request
  create_arrow_rel_table : ℕ → Layout → Bool → Request

-- `self._connection`, and the connections by the extension beside it.
pub data Host : Type 0 where
  own : Host
  second : ℕ → Host

-- What comes of a call: `NotImplementedError`, another exception, or a result with the text of its
-- error, if it is none of success.
pub data Attempt : Type 0 where
  unsupported : String → Attempt
  raised : PyError → Attempt
  result : Option String → Attempt

-- What is answered while a request is handled: by the methods that prepare the connection, by
-- `init_database`, by `init_pybind_database` (`false` for `None`), by the constructor of a second
-- connection, and by the backends.
pub record Engine : Type 0 where
  pub ready : Result {0} Unit
  pub database : Result {0} Unit
  pub pybind_database : Result {0} Bool
  pub connect : Result {0} Unit
  pub attempt : Host → Request → Attempt

-- `held` is `_py_connection`, `made` the number of second connections, and `calls` the calls of the
-- backends, the last first.
pub record Hosts : Type 0 where
  pub using_pybind : Bool
  pub has_module : Bool
  pub held : Option ℕ
  pub prefer_pybind : Bool
  pub made : ℕ
  pub calls : List (Host × Request)

abbrev pub new_hosts : Bool → Bool → Hosts
new_hosts using_pybind has_module = record {
  using_pybind = using_pybind;
  has_module = has_module;
  held = none;
  prefer_pybind = false;
  made = 0;
  calls = [];
}

-- `if self._py_connection is None: ...`, by the value of the attribute.
unfoldable pub held_or_new : Engine → Option ℕ → Exec Hosts (Option Host)
held_or_new a (some n) = pure (some (second n))
held_or_new a none = do
  lift a.connect
  n ← gets (λ h. h.made)
  modify (λ h. record h { held = some n; made = suc n })
  pure (some (second n))

-- The database and its second connection.
unfoldable pub second_connection : Engine → Exec Hosts (Option Host)
unfolding held_or_new
second_connection a = do
  lift a.database
  there ← lift a.pybind_database
  held ← gets (λ h. h.held)
  if there then held_or_new a held else pure none

-- `_get_pybind_connection`
unfoldable pub get_pybind_connection : Engine → Exec Hosts (Option Host)
unfolding second_connection
get_pybind_connection a = do
  has_module ← gets (λ h. h.has_module)
  using_pybind ← gets (λ h. h.using_pybind)
  if not has_module
      then pure none
      else if using_pybind
      then pure (some own)
      else second_connection a

-- A method of a backend is called.
abbrev pub call : Engine → Host → Request → Exec Hosts Attempt
call a c r h = (ok (a.attempt c r), record h { calls = (c, r) ∷ h.calls })

-- `if not query_result_internal.isSuccess(): ...`
abbrev pub checked : Option String → Exec Hosts Unit
checked none = pure tt
checked (some message) = raise (runtime_error message)

-- What follows the call that nothing stands behind.
unfoldable pub settled : Attempt → Exec Hosts Unit
settled (unsupported message) = raise (not_implemented_error message)
settled (raised e) = raise e
settled (result e) = checked e

-- `except NotImplementedError`, where the extension is found or not.
unfoldable pub on_extension : Engine → String → Request → Option Host → Exec Hosts Unit
unfolding settled
on_extension a message r none = raise (not_implemented_error message)
on_extension a message r (some c) = do
  modify (λ h. record h { prefer_pybind = true })
  t ← call a c r
  settled t

unfoldable pub fall_back : Engine → Request → Attempt → Exec Hosts Unit
unfolding get_pybind_connection on_extension
fall_back a r (unsupported message) = get_pybind_connection a >>= on_extension a message r
fall_back a r (raised e) = raise e
fall_back a r (result e) = checked e

-- Tables ask for a connection that is ready, functions do not.
abbrev pub prepared : Engine → Request → Exec Hosts Unit
prepared a (create_function n) = pure tt
prepared a (remove_function n) = pure tt
prepared a _ = lift a.ready

abbrev pub lacks_indptr : Request → Bool
lacks_indptr (create_arrow_rel_table n csr false) = true
lacks_indptr _ = false

abbrev pub no_indptr : PyError
no_indptr = value_error "indptr_dataframe is required when layout is CSR"

-- `create_function`, `remove_function` and the calls for tables.
unfoldable pub handle : Engine → Request → Exec Hosts Unit
unfolding fall_back
handle a r = do prepared a r; raise_if (lacks_indptr r) no_indptr; t ← call a own r; fall_back a r t

-- Requests one after the other; an exception does not keep the caller from the next one.
unfoldable pub handle_all : List (Engine × Request) → Hosts → Hosts
unfolding handle
handle_all [] h = h
handle_all ((a, r) ∷ rest) h = handle_all rest (handle a r h).1

-- `interrupt`
abbrev pub interrupted : Hosts → List Host
interrupted h = own ∷ elim h.held [ none ↦ [] | some n ↦ second n ∷ [] ]

-- The C API: it has no functions, and takes tables of rels by their layout.
unfoldable pub capi_attempt : (Request → Attempt) → Request → Attempt
capi_attempt answer (create_function n) =
    unsupported "UDF registration is not yet implemented in C-API backend"
capi_attempt answer (remove_function n) =
    unsupported "UDF removal is not yet implemented in C-API backend"
capi_attempt answer (create_arrow_rel_table n (other_layout l) indptr) =
    raised (runtime_error "Arrow relationship table layout must be FLAT or CSR")
capi_attempt answer (create_arrow_rel_table n flat true) =
    raised (runtime_error "indptr_dataframe is only valid for CSR Arrow relationship tables")
capi_attempt answer (create_arrow_rel_table n csr false) =
    raised (runtime_error "indptr_dataframe is required for CSR Arrow relationship tables")
capi_attempt answer r = answer r
