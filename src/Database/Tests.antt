-- ===== src/Database/Tests.antt =====
-- The choice of a backend, and a database that is opened, closed and opened again.
use ladybug_python.Base.{ℕ, ◌≡◌, refl, true, false, none, List, [], ◌∷◌, member, nat_eq}
use ladybug_python.Outcome.{ok}
use ladybug_python.Text.{codes}
use ladybug_python.Database.{Database, create}
use ladybug_python.Database.Preference.{pybind, normalize, find_backend, resolve_backend_preference}
use ladybug_python.Database.Lifecycle.{
  Op, init, init_pybind, shut, apply, run, holds, handles_follow_database,
}

mixed_case : resolve_backend_preference none (codes " PyBind ") ≡ ok pybind
unfolding resolve_backend_preference normalize find_backend
mixed_case = refl

-- Opened with the extension, closed, and then asked for a handle again.
abbrev ops : List Op
ops = init true (ok tt) (ok tt) ∷ init_pybind true (ok tt) ∷ shut ∷ init_pybind true (ok tt) ∷ []

abbrev ended : Database
ended = run ops (create true)

one_handle : (ended.opened ≡ 0 ∷ []) × (ended.closed ≡ 0 ∷ 0 ∷ [])
unfolding run create
one_handle = (refl, refl)

handles_follow_database_example :
    (ended.is_closed ≡ false
      → (ended.closed ≡ []) × ((h : ℕ) → member h ended.opened ≡ true → holds h ended ≡ true))
    × (ended.is_closed ≡ true
        → ((h : ℕ) → member h ended.opened ≡ true → member h ended.closed ≡ true)
          × (ended.handle ≡ none)
          × (ended.pybind_handle ≡ none)
          × ((op : Op) → apply op ended ≡ ended))
handles_follow_database_example = handles_follow_database true ops
