-- ===== src/Database.antt =====
-- src_py/database.py: the choice of the backend, and the life of the native database handles.
pub mod Preference
pub mod Lifecycle
mod Tests
use ladybug_python.Base.{
  ℕ, suc, ◌+◌, Bool, true, false, Option, none, some, List, [], ◌∷◌, if◌then◌else◌,
}
use ladybug_python.Outcome.{
  Result, ok, err, PyError, runtime_error, Exec, pure, raise, modify, gets, ◌>>=◌, ◌>>◌,
}

-- Handles are numbered as they are made; `opened` and `closed` are the constructions and the
-- `close()` calls of native handles, the last first.
pub record Database : Type 0 where
  pub use_pybind : Bool
  pub is_closed : Bool
  pub handle : Option ℕ
  pub pybind_handle : Option ℕ
  pub fresh : ℕ
  pub opened : List ℕ
  pub closed : List ℕ

-- What the engine answers when a native database is constructed.
abbrev pub Construct : Type 0
Construct = Result Unit

unfoldable pub check_for_database_close : Exec Database Unit
check_for_database_close db =
    if db.is_closed then (err (runtime_error "Database is closed"), db) else (ok tt, db)

-- A native constructor: a new handle, or the engine's error.
unfoldable pub construct : Construct → Exec Database ℕ
construct (err e) db = (err e, db)
construct (ok _) db =
    (ok db.fresh, record db { fresh = db.fresh + 1; opened = db.fresh ∷ db.opened })

-- `if self._pybind_database is None: ...`, by the value of the attribute.
unfoldable pub pybind_or_new : Construct → Option ℕ → Exec Database (Option ℕ)
unfolding construct
pybind_or_new answer (some h) = pure (some h)
pybind_or_new answer none = do
  h ← construct answer
  modify (λ db. record db { pybind_handle = some h })
  pure (some h)

-- `init_pybind_database`; `available` says that the extension module is there.
unfoldable pub init_pybind_database : Bool → Construct → Exec Database (Option ℕ)
unfolding check_for_database_close pybind_or_new
init_pybind_database available answer = do
  check_for_database_close
  held ← gets (λ db. db.pybind_handle)
  if available then pybind_or_new answer held else pure none

-- `if self._database is None: ...`, by the value of the attribute.
unfoldable pub handle_or_new : Bool → Construct → Construct → Bool → Option ℕ → Exec Database Unit
unfolding init_pybind_database construct
handle_or_new available native answer use_pybind (some h) = pure tt
handle_or_new available native answer true none = do
  h ← init_pybind_database available answer
  modify (λ db. record db { handle = h })
handle_or_new available native answer false none = do
  h ← construct native
  modify (λ db. record db { handle = some h })

-- `init_database`, with the engine's answers for the two kinds of handle.
unfoldable pub init_database : Bool → Construct → Construct → Exec Database Unit
unfolding check_for_database_close handle_or_new
init_database available native answer = do
  check_for_database_close
  use_pybind ← gets (λ db. db.use_pybind)
  held ← gets (λ db. db.handle)
  handle_or_new available native answer use_pybind held

-- `if handle is not None: handle.close()`
abbrev pub close_handle : Option ℕ → List ℕ → List ℕ
close_handle none log = log
close_handle (some h) log = h ∷ log

-- `close`: the pybind handle is closed after the other one, also where both are one object.
unfoldable pub close : Database → Database
close db = if db.is_closed then db else record db {
  is_closed = true;
  handle = none;
  pybind_handle = none;
  closed = close_handle db.pybind_handle (close_handle db.handle db.closed);
}

-- `__init__`, with the backend chosen and nothing constructed yet.
unfoldable pub create : Bool → Database
create use_pybind = record {
  use_pybind = use_pybind;
  is_closed = false;
  handle = none;
  pybind_handle = none;
  fresh = 0;
  opened = [];
  closed = [];
}
