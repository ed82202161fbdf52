-- ===== src/Execution/Tests.antt =====
-- A scan of a data frame, its table 9, on a connection of a C API database.
use ladybug_python.Base.{ℕ, ◌≡◌, refl, Bool, true, false, Option, some, [], ◌∷◌}
use ladybug_python.Outcome.{Result, ok, err, runtime_error}
use ladybug_python.Execution.{
  Route, Question, Session, DropAnswer, Chain, many, discard, drop_table, drop_tables, register,
  collect, finish, execute,
}
use ladybug_python.Execution.Results.{execute_returns_results}

abbrev question : Bool → Question
question scan = record {
  using_pybind = false;
  is_text = true;
  has_timeout = true;
  unwinds_ranges = false;
  should_scan = scan;
  no_parameters = false;
}

abbrev session : Session
session = record {
  prefer_pybind = false;
  tables = 9 ∷ [];
  registered = [];
  fresh = 1;
  dropped = [];
  made = [];
}

-- Two statements in one query.
abbrev two : Chain
two = record { head = ok tt; rest = ok tt ∷ [] }

abbrev failing : Chain
failing = record { head = err (runtime_error "Binder exception"); rest = [] }

abbrev answering : Chain → Route → Result (Option Chain)
answering c r = ok (some c)

abbrev drops : ℕ → DropAnswer
drops t = ok (ok tt)

ran : (execute (answering two) drops (question true) (9 ∷ []) session).0 ≡ ok (many (1 ∷ 2 ∷ []))
unfolding execute finish drop_tables drop_table discard register collect
ran = refl

execute_returns_results_example :
    ((execute (answering two) drops (question true) (9 ∷ []) session).0 ≡ ok (many (1 ∷ 2 ∷ [])))
    × ((execute (answering two) drops (question true) (9 ∷ []) session).1.registered ≡ 2 ∷ 1 ∷ [])
    × ((execute (answering two) drops (question true) (9 ∷ []) session).1.tables ≡ [])
    × ((execute (answering two) drops (question true) (9 ∷ []) session).1.dropped ≡ 9 ∷ [])
unfolding discard
execute_returns_results_example =
    execute_returns_results (answering two) drops (question true) (9 ∷ []) session two refl refl
      refl (λ t. refl)
