-- ===== src/Binding.antt =====
-- src_py/_lbug_capi.py: parameters of a query as values of the C API. The native library is seen by
-- the calls on it: a value is the number of values that were created before it.
pub mod Scalars
pub mod Values
pub mod Statements
pub mod Exact
pub mod Balance
pub mod Owned
mod Tests
use ladybug_python.Base.{ℕ, suc, String, Bool, Option, none, some, List, [], ◌∷◌, ◌++◌}
use ladybug_python.Outcome.{Result, ok, err, PyError, runtime_error, Exec, continue}
use ladybug_python.Text.{Text}
use Scalars.{Literal}

abbrev pub Handle : Type 0
Handle = ℕ

-- The calls that create a value or give one to a prepared statement.
pub data Call : Type 0 where
  create : Literal → Call
  create_list : List Handle → Call
  create_map : List Handle → List Handle → Call
  create_struct : List Text → List Handle → Call
  bind : Text → Handle → Call

-- The calls, the last first, with the number of the values created and the values destroyed.
pub record Native : Type 0 where
  pub calls : List Call
  pub made : ℕ
  pub destroyed : List Handle

abbrev pub no_calls : Native
no_calls = record { calls = []; made = 0; destroyed = [] }

-- What the library answers: nothing, or the text of the error.
abbrev pub Answers : Type 0
Answers = Call → Option String

-- A call that gives a new value, which is then the caller's.
unfoldable pub create_value : Call → Exec Native Handle
create_value c s = (ok s.made, record s { calls = c ∷ s.calls; made = suc s.made })

abbrev pub failed : {A : Type 0} → Call → String → Exec Native A
failed c message s = (err (runtime_error message), record s { calls = c ∷ s.calls })

-- `_check_state` of a call that gives a new value where it succeeds.
unfoldable pub create_checked : Answers → Call → Exec Native Handle
unfolding create_value
create_checked answer c = elim (answer c) [
  | none ↦ create_value c
  | some message ↦ failed c message
]

-- `_check_state` of a call that gives none.
unfoldable pub call_checked : Answers → Call → Exec Native Unit
call_checked answer c = elim (answer c) [
  | none ↦ λ s. (ok tt, record s { calls = c ∷ s.calls })
  | some message ↦ failed c message
]

-- `lbug_value_destroy` of each
unfoldable pub destroy_all : List Handle → Native → Native
destroy_all [] s = s
destroy_all (h ∷ hs) s = destroy_all hs (record s { destroyed = h ∷ s.destroyed })
