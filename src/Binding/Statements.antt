-- ===== src/Binding/Statements.antt =====
-- src_py/_lbug_capi.py: `PreparedStatement`, `Connection.prepare` and the timer of a query.
use ladybug_python.Base.{
  ℕ, suc, String, Bool, true, false, Option, none, some, List, [], ◌∷◌, nat_eq, ltb, min,
  if◌then◌else◌,
}
use ladybug_python.Outcome.{ok, err, runtime_error, type_error, Exec, pure, raise, ◌>>=◌, ◌>>◌}
use ladybug_python.Dict.{Dict, lookup, insert}
use ladybug_python.Text.{Text}
use ladybug_python.Binding.{bind, Native, Answers, call_checked, destroy_all}
use ladybug_python.Binding.Values.{Value, value_from_python}

-- `bind_parameters` of one parameter: the value is destroyed once it was given to the library.
unfoldable pub bind_one : Answers → Text → Value → Exec Native Unit
unfolding value_from_python call_checked destroy_all
bind_one answer key value s =
    let (r, s1) = value_from_python answer value s in
    elim r [
      | err e ↦ (err e, s1)
      | ok h ↦ let (r', s2) = call_checked answer (bind key h) s1 in (r', destroy_all (h ∷ []) s2)
    ]

-- A name that is no string is `none`.
unfoldable pub bind_parameters : Answers → List (Option Text × Value) → Exec Native Unit
unfolding bind_one
bind_parameters answer [] = pure tt
bind_parameters answer ((none, v) ∷ ps) = raise (type_error "Parameter name must be of type string")
bind_parameters answer ((some key, v) ∷ ps) = bind_one answer key v >> bind_parameters answer ps

-- The prepared statements: those that were given out, and those that were destroyed.
pub record Library : Type 0 where
  pub native : Native
  pub prepared : ℕ
  pub pointers : Dict ℕ Bool
  pub freed : List ℕ

-- `lbug_connection_prepare` gives a statement, also one that reports an error, or only an error.
pub data Prepared : Type 0 where
  given : Prepared
  refused : String → Prepared

abbrev pub on_native : {A : Type 0} → Exec Native A → Exec Library A
on_native m s = let (r, n) = m s.native in (r, record s { native = n })

-- A new `PreparedStatement`, which holds its pointer.
abbrev pub new_statement : Exec Library ℕ
new_statement s = (
  ok s.prepared,
  record s { prepared = suc s.prepared; pointers = insert s.prepared true s.pointers },
)

-- `Connection.prepare`
unfoldable pub prepare :
    (Text → Prepared) → Answers → Text → List (Option Text × Value) → Exec Library ℕ
unfolding bind_parameters insert
prepare prepares answer query parameters = elim (prepares query) [
  | refused message ↦ raise (runtime_error message)
  | given ↦ do
    statement ← new_statement
    on_native (bind_parameters answer parameters)
    pure statement
]

abbrev pub destroy_if : Bool → ℕ → Library → Library
destroy_if false n s = s
destroy_if true n s = record s { pointers = insert n false s.pointers; freed = n ∷ s.freed }

-- `PreparedStatement.close`
unfoldable pub close : ℕ → Library → Library
unfolding lookup insert
close n s = elim (lookup n s.pointers) [ none ↦ s | some held ↦ destroy_if held n s ]

-- `_call_with_timeout`: the milliseconds after which the timer interrupts the connection.
unfoldable pub timer_delay : ℕ → Option ℕ
timer_delay timeout_ms = if ltb 0 timeout_ms then some (min timeout_ms 10) else none
