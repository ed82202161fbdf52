-- ===== src/Binding/Tests.antt =====
-- Parameters that hold lists and dicts, with a library that makes no lists.
use ladybug_python.Base.{ℕ, true, ◌+◌, ◌≡◌, refl, String, Option, none, some, List, [], ◌∷◌}
use ladybug_python.Base.Int.{pos, negsuc}
use ladybug_python.Outcome.{ok, err, runtime_error}
use ladybug_python.Text.{Text, codes}
use ladybug_python.Binding.{create, create_list, create_map, create_struct, no_calls, Answers}
use ladybug_python.Binding.Scalars.{Scalar, Literal, int_literal, micros_of, escaped}
use ladybug_python.Binding.Values.{
  Value, scalar, list, dict, other, nil, cons, end, entry, value_from_python,
}
use ladybug_python.Binding.Statements.{bind_parameters, Library, given, prepare, close, timer_delay}
use ladybug_python.Binding.Balance.{times, within}
use ladybug_python.Binding.Owned.{bind_parameters_destroys_all}

abbrev number : ℕ → Value
number n = scalar (Scalar.int (pos n))

abbrev name : String → Value
name s = scalar (Scalar.str (codes s))

-- `{"key": [1], "value": [2]}` and `{"a": [3, 4]}`
abbrev key_value : Value
key_value = dict (
    entry (name "key") (list (cons (number 1) nil))
      (entry (name "value") (list (cons (number 2) nil)) end))

abbrev nested : Value
nested = dict (entry (name "a") (list (cons (number 3) (cons (number 4) nil))) end)

abbrev parameters : List (Option Text × Value)
parameters = (some (codes "m"), key_value) ∷ (some (codes "n"), nested) ∷ []

abbrev all_accepted : Answers
all_accepted c = none

abbrev no_lists : Answers
no_lists (create_list hs) = some "no lists"
no_lists _ = none

a_map_by_convention :
    (value_from_python all_accepted key_value no_calls).1.calls
    ≡ create_map (0 ∷ []) (1 ∷ [])
      ∷ create (Literal.int8 (pos 2))
      ∷ create (Literal.int8 (pos 1))
      ∷ []
unfolding value_from_python
a_map_by_convention = refl

a_struct_of_lists : value_from_python all_accepted nested no_calls ≡ (
  ok 3,
  record {
    calls =
        create_struct (codes "a" ∷ []) (2 ∷ [])
        ∷ create_list (0 ∷ 1 ∷ [])
        ∷ create (Literal.int8 (pos 4))
        ∷ create (Literal.int8 (pos 3))
        ∷ [];
    made = 4;
    destroyed = 2 ∷ 1 ∷ 0 ∷ [];
  },
)
unfolding value_from_python
a_struct_of_lists = refl

failed_list :
    ((bind_parameters no_lists parameters no_calls).0 ≡ err (runtime_error "no lists"))
    × ((bind_parameters no_lists parameters no_calls).1.destroyed ≡ 4 ∷ 3 ∷ 2 ∷ 1 ∷ 0 ∷ [])
unfolding bind_parameters
failed_list = (refl, refl)

bind_parameters_destroys_all_example :
    times 3 (bind_parameters no_lists parameters no_calls).1.destroyed
    ≡ times 3 no_calls.destroyed
      + within no_calls.made (bind_parameters no_lists parameters no_calls).1.made 3
bind_parameters_destroys_all_example = bind_parameters_destroys_all no_lists parameters no_calls 3

abbrev no_statements : Library
no_statements = record { native = no_calls; prepared = 0; pointers = []; freed = [] }

-- The statement that `prepare` made is not freed where its parameters are not bound.
failed_prepare :
    (prepare
      (λ q. given)
      all_accepted
      (codes "RETURN $p")
      ((some (codes "p"), other) ∷ [])
      no_statements).1.freed
    ≡ []
unfolding prepare
failed_prepare = refl

closed_twice :
    (close 0 (close 0 (record no_statements { pointers = (0, true) ∷ [] }))).freed ≡ 0 ∷ []
unfolding close
closed_twice = refl

-- A timeout of ten seconds interrupts after ten milliseconds.
ten_seconds : timer_delay 10000 ≡ some 10
unfolding timer_delay
ten_seconds = refl

-- 2^63 is bound as -2^63.
beyond_int64 : int_literal (pos 9223372036854775808) ≡ Literal.int64 (negsuc 9223372036854775807)
unfolding int_literal
beyond_int64 = refl

-- One microsecond less than nothing.
below_zero : micros_of (negsuc 0) 86399 999999 ≡ negsuc 0
unfolding micros_of
below_zero = refl

a_byte : escaped (171 ∷ []) ≡ codes "\\xab"
unfolding escaped
a_byte = refl
