-- ===== src/Calls/Teardown.antt =====
-- src_py/connection.py, `Connection.close`: the query results, cached statements and native
-- connections that are closed once no call is in flight.
use ladybug_python.Base.{
  ℕ, ◌≡◌, refl, sym, ap, ◌∙◌, arith, Bool, true, false, Option, none, some, List, [], ◌∷◌,
  if◌then◌else◌,
}
use ladybug_python.Outcome.{
  Result, ok, err, PyError, runtime_error, Exec, pure, lift, gets, modify, ◌>>=◌, ◌>>◌,
}

-- Objects are numbers. A cached statement says whether it has a `close`; `closed` are the calls of
-- `close`, the last first.
pub record Resources : Type 0 where
  pub results : List ℕ
  pub statements : List (ℕ × Bool)
  pub connection : Option ℕ
  pub py_connection : Option ℕ
  pub is_closed : Bool
  pub registered : Bool
  pub closed : List ℕ

abbrev pub has_connection : Option ℕ → Bool
has_connection none = false
has_connection (some n) = true

abbrev pub connect_native : Result ℕ → Exec Resources Unit
connect_native (err e) s = (err e, s)
connect_native (ok n) s = (ok tt, record s { connection = some n })

abbrev pub answer : Option PyError → Result {0} Unit
answer none = ok tt
answer (some e) = err e

-- `contextlib.suppress(RuntimeError)`
abbrev pub suppressed : Result {0} Unit → Result {0} Unit
suppressed (err (runtime_error m)) = ok tt
suppressed r = r

module _ (closes : ℕ → Option PyError) where
  abbrev pub call_close : ℕ → Exec Resources Unit
  call_close n s = (answer (closes n), record s { closed = n ∷ s.closed })

  abbrev pub try_close : ℕ → Exec Resources Unit
  try_close n s = (suppressed (answer (closes n)), record s { closed = n ∷ s.closed })

  unfoldable pub close_results : List ℕ → Exec Resources Unit
  close_results [] = pure tt
  close_results (n ∷ ns) = call_close n >> close_results ns

  unfoldable pub close_statements : List (ℕ × Bool) → Exec Resources Unit
  close_statements [] = pure tt
  close_statements ((n, true) ∷ ns) = try_close n >> close_statements ns
  close_statements ((n, false) ∷ ns) = close_statements ns

  -- A native connection, whose database is closed or not.
  abbrev pub close_native : Bool → Option ℕ → Exec Resources Unit
  close_native db_closed none = pure tt
  close_native true (some n) = pure tt
  close_native false (some n) = call_close n

  -- Up to where `_connection` is `None`.
  unfoldable pub drop_connection : Bool → Exec Resources Unit
  unfolding close_results close_statements
  drop_connection db_closed = do
    results ← gets (λ s. s.results)
    close_results results
    modify (λ s. record s { results = [] })
    statements ← gets (λ s. s.statements)
    close_statements statements
    modify (λ s. record s { statements = [] })
    connection ← gets (λ s. s.connection)
    close_native db_closed connection
    modify (λ s. record s { connection = none })

  -- From there on.
  unfoldable pub drop_py_connection : Bool → Exec Resources Unit
  drop_py_connection db_closed = do
    py_connection ← gets (λ s. s.py_connection)
    close_native db_closed py_connection
    modify (λ s. record s { py_connection = none; is_closed = true; registered = false })

  unfoldable pub teardown : Bool → Exec Resources Unit
  unfolding drop_connection drop_py_connection
  teardown db_closed = do drop_connection db_closed; drop_py_connection db_closed

-- `init_connection`, which no lock and no count keeps from running during the teardown, with what
-- `init_database` and the native constructor answer.
unfoldable pub init_connection : Result {0} Unit → Result ℕ → Exec Resources Unit
init_connection database native s =
    if s.is_closed
    then (err (runtime_error "Connection is closed."), s)
    else (lift database >>= λ _.
          (λ t. if has_connection t.connection then (ok tt, t) else connect_native native t))
        s

-- The objects, closed one after the other.
abbrev pub logged : List ℕ → List ℕ → List ℕ
logged [] l = l
logged (n ∷ ns) l = logged ns (n ∷ l)

abbrev pub closable : List (ℕ × Bool) → List ℕ
closable [] = []
closable ((n, true) ∷ ns) = n ∷ closable ns
closable ((n, false) ∷ ns) = closable ns

abbrev pub natives : Bool → Option ℕ → List ℕ
natives false (some n) = n ∷ []
natives _ _ = []

abbrev pub all_close : (ℕ → Option PyError) → List ℕ → Bool
all_close closes [] = true
all_close closes (n ∷ ns) = elim (closes n) [ none ↦ all_close closes ns | some e ↦ false ]

abbrev pub all_suppressed : (ℕ → Option PyError) → List ℕ → Bool
all_suppressed closes [] = true
all_suppressed closes (n ∷ ns) = elim (suppressed (answer (closes n))) [
  | ok u ↦ all_suppressed closes ns
  | err e ↦ false
]

module _ (closes : ℕ → Option PyError) where
  close_results-ok :
      (ns : List ℕ) (s : Resources)
      → all_close closes ns ≡ true
      → close_results closes ns s ≡ (ok tt, record s { closed = logged ns s.closed })
  unfolding close_results
  close_results-ok [] s h = refl
  close_results-ok (n ∷ ns) s h =
      ground (arith, h, close_results-ok ns (record s { closed = n ∷ s.closed }))

  close_statements-ok :
      (ns : List (ℕ × Bool)) (s : Resources)
      → all_suppressed closes (closable ns) ≡ true
      → close_statements closes ns s ≡ (ok tt, record s { closed = logged (closable ns) s.closed })
  unfolding close_statements
  close_statements-ok [] s h = refl
  close_statements-ok ((n, true) ∷ ns) s h =
      ground (arith, h, close_statements-ok ns (record s { closed = n ∷ s.closed }))
  close_statements-ok ((n, false) ∷ ns) s h = close_statements-ok ns s h

  close_native-ok :
      (db_closed : Bool) (o : Option ℕ) (s : Resources)
      → all_close closes (natives db_closed o) ≡ true
      → close_native closes db_closed o s
        ≡ (ok tt, record s { closed = logged (natives db_closed o) s.closed })
  close_native-ok true none s h = refl
  close_native-ok false none s h = refl
  close_native-ok true (some n) s h = refl
  close_native-ok false (some n) s h = ground (arith, h)

  -- Where the query results and the native connections close, and the statements raise at most
  -- RuntimeErrors, each is closed once, in order, and the connection is closed and taken out of its
  -- database.
  teardown_closes_all :
      (db_closed : Bool) (s : Resources)
      → all_close closes s.results ≡ true
      → all_suppressed closes (closable s.statements) ≡ true
      → all_close closes (natives db_closed s.connection) ≡ true
      → all_close closes (natives db_closed s.py_connection) ≡ true
      → teardown closes db_closed s ≡ (
        ok tt,
        record {
          results = [];
          statements = [];
          connection = none;
          py_connection = none;
          is_closed = true;
          registered = false;
          closed = logged (natives db_closed s.py_connection) (
              logged
                (natives db_closed s.connection)
                (logged (closable s.statements) (logged s.results s.closed)));
        },
      )
  unfolding teardown
  teardown_closes_all db_closed s a b c d =
      let s1 = record s { results = []; closed = logged s.results s.closed } in
      let s2 = record s1 { statements = []; closed = logged (closable s.statements) s1.closed } in
      let s3 = record s2 {
        connection = none;
        closed = logged (natives db_closed s.connection) s2.closed;
      } in
      rw (
        close_results-ok s.results s a,
        close_statements-ok s.statements s1 b,
        close_native-ok db_closed s.connection s2 c,
        close_native-ok db_closed s.py_connection s3 d,
      )

  close_results_keep_open :
      (ns : List ℕ) (s : Resources) → (close_results closes ns s).1.is_closed ≡ s.is_closed
  unfolding close_results
  close_results_keep_open [] s = refl
  close_results_keep_open (n ∷ ns) s =
      ground (arith, close_results_keep_open ns (record s { closed = n ∷ s.closed }))

  -- A query result that does not close ends the teardown: the connection is not closed, and nothing
  -- after that result is.
  failed_result_stops :
      (db_closed : Bool) (s t : Resources) (e : PyError)
      → close_results closes s.results s ≡ (err e, t)
      → (teardown closes db_closed s ≡ (err e, t)) × (t.is_closed ≡ s.is_closed)
  unfolding teardown
  failed_result_stops db_closed s t e h =
      (rw h, ap (λ r. r.1.is_closed) (sym h) ∙ close_results_keep_open s.results s)
