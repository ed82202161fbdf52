-- ===== src/Backend.antt =====
-- src_py/_backend.py: the optional extension module is imported at most once.
mod Tests
use ladybug_python.Base.{
  ℕ, suc, ◌+◌, ◌≡◌, refl, Bool, true, false, Option, none, some, String, List, [], ◌∷◌, arith,
  if◌then◌else◌,
}
use ladybug_python.Outcome.{Result, ok, err, PyError, import_error}

-- `_CAPI_MODULE`, `_PYBIND_MODULE` and its flags; `imports` counts the calls of `import_module` for
-- the extension.
pub record Modules : Type 0 where
  pub capi : Option ℕ
  pub pybind : Option ℕ
  pub attempted : Bool
  pub failure : Option String
  pub imports : ℕ

abbrev pub unloaded : Modules
unloaded = record { capi = none; pybind = none; attempted = false; failure = none; imports = 0 }

-- What the import machinery answers: the module, or the text of the `ImportError`.
pub data Import : Type 0 where
  loaded : ℕ → Import
  failed : String → Import

store_import : Import → Modules → Modules
store_import (loaded n) s = record s { pybind = some n }
store_import (failed e) s = record s { pybind = none; failure = some e }

unfoldable pub get_pybind_module : Import → Modules → Option ℕ × Modules
unfolding store_import
get_pybind_module answer s =
    if s.attempted
    then (s.pybind, s)
    else let s' = store_import answer (record s { attempted = true; imports = s.imports + 1 }) in
      (s'.pybind, s')

-- `get_capi_module`; a failed import raises and leaves nothing behind.
unfoldable pub get_capi_module : Import → Modules → Result ℕ × Modules
get_capi_module answer s = elim s.capi [
  | some n ↦ (ok n, s)
  | none ↦ elim answer [
    | loaded n ↦ (ok n, record s { capi = some n })
    | failed e ↦ (err (import_error e), s)
  ]
]

-- The calls of `get_pybind_module` in a process, each with what an import would answer then.
unfoldable pub ask : List Import → Modules → Modules
unfolding get_pybind_module
ask [] s = s
ask (answer ∷ rest) s = ask rest (get_pybind_module answer s).1

-- What the process knows after the first import.
pub record Settled (s : Modules) (answer : Import) : Type 0 where
  pub done : s.attempted ≡ true
  pub once : s.imports ≡ 1
  pub result : s.pybind ≡ (elim answer [ loaded n ↦ some n | failed e ↦ none ])
  pub reason : s.failure ≡ (elim answer [ loaded n ↦ none | failed e ↦ some e ])

ask-Settled :
    (rest : List Import) (s : Modules) (answer : Import)
    → Settled s answer
    → Settled (ask rest s) answer
unfolding ask
ask-Settled [] s answer h = h
ask-Settled (other ∷ rest) s answer h = ask-Settled rest _ answer (ground (arith, h))

first : (answer : Import) → Settled (get_pybind_module answer unloaded).1 answer
unfolding get_pybind_module
first (loaded n) = record { done = refl; once = refl; result = refl; reason = refl }
first (failed e) = record { done = refl; once = refl; result = refl; reason = refl }

-- However often and with whatever later answers the module is asked for, the extension is imported
-- once, and every later call returns what the first import gave, with its failure kept.
import_settles :
    (answer : Import) (rest : List Import) (later : Import)
    → let s = ask (answer ∷ rest) unloaded in
      (s.imports ≡ 1)
      × ((get_pybind_module later s).0 ≡ (elim answer [ loaded n ↦ some n | failed e ↦ none ]))
      × (s.failure ≡ (elim answer [ loaded n ↦ none | failed e ↦ some e ]))
      × ((get_pybind_module later s).1 ≡ s)
unfolding get_pybind_module ask
import_settles answer rest later =
    let h = ask-Settled rest (get_pybind_module answer unloaded).1 answer (first answer) in
    (h.once, ground (arith, h), h.reason, ground (arith, h))
