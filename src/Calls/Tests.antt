-- ===== src/Calls/Tests.antt =====
-- Two threads and a connection 5: a query in flight on the thread 1, and `close()` on the thread 2.
use ladybug_python.Base.{ℕ, ◌≡◌, ◌⊎◌, refl, Bool, true, false, [], nat_eq}
use ladybug_python.Outcome.{err}
use ladybug_python.Dict.{lookup, insert, without}
use ladybug_python.Dict.Total.{total}
use ladybug_python.Calls.Error
use ladybug_python.Calls.{
  Conn, World, Progress, stack_of, call_enter, call_exit, udf_enter, close_begin, close_teardown,
  connect,
}
use ladybug_python.Calls.Step.{create, enter, leave, close, finish, Reach, here, next, empty_world}
use ladybug_python.Calls.Invariant.{calls_on, in_flight_counts_calls}
use ladybug_python.Calls.Closed.{udf_free, closed_is_idle, close_never_waits_for_itself}
use ladybug_python.Base.{some, arith}
use ladybug_python.Calls.Step.{Step}
use ladybug_python.Calls.Liveness.{Returns, close_can_finish}
use ladybug_python.Calls.Teardown.{
  Resources, drop_connection, drop_py_connection, teardown, init_connection,
}
use ladybug_python.Outcome.{PyError, runtime_error, ok}
use ladybug_python.Base.{Option, none, ◌∷◌, ◌==◌, if◌then◌else◌}
use ladybug_python.Calls.Gate.{Refines, threads_refine_gate}

abbrev conn : Bool → ℕ → Conn
conn c n = record { is_closed = false; closing = c; in_flight = n }

abbrev open_world : World
open_world = (call_enter 1 5 (conn false 0) (connect 5 empty_world)).1

abbrev closing_world : World
closing_world = (close_begin 2 5 (conn false 1) open_world).1

abbrev idle_world : World
idle_world = call_exit 1 5 (conn true 1) [] closing_world

abbrev closed_world : World
closed_world = close_teardown 2 5 (conn true 0) idle_world

open_world-Reach : Reach empty_world open_world
unfolding call_enter connect lookup insert
open_world-Reach = next (next here (create 5 refl)) (enter 1 5 (conn false 0) refl refl)

closing_world-Reach : Reach empty_world closing_world
unfolding call_enter connect lookup insert close_begin
closing_world-Reach = next open_world-Reach (close 2 5 (conn false 1) refl refl)

closed_world-Reach : Reach empty_world closed_world
unfolding call_enter call_exit connect lookup insert close_begin close_teardown
closed_world-Reach =
    next (next closing_world-Reach (leave 1 5 (conn true 1) [] refl refl refl))
      (finish 2 5 (conn true 0) refl refl refl)

-- A UDF that the query runs cannot use its connection, and cannot close it.
udf_refused :
    ((call_enter 1 5 (conn false 1) (udf_enter 1 open_world)).0 ≡ err Error.in_udf)
    × ((close_begin 3 5 (conn false 1) (udf_enter 3 open_world)).0 ≡ err Error.close_in_udf)
    × ((close_begin 1 5 (conn false 1) open_world).0 ≡ err Error.close_in_call)
unfolding call_enter connect lookup insert close_begin udf_enter
udf_refused = (refl, refl, refl)

in_flight_counts_calls_example : 1 ≡ total (calls_on 5) closing_world.stacks
unfolding call_enter connect lookup insert close_begin
in_flight_counts_calls_example =
    in_flight_counts_calls closing_world closing_world-Reach 5 (conn true 1) refl

abbrev closed_conn : Conn
closed_conn = record { is_closed = true; closing = true; in_flight = 0 }

-- A second `close()`.
abbrev closed_again : World
closed_again = (close_begin 1 5 closed_conn closed_world).1

closed_is_idle_example :
    (total (calls_on 5) closed_world.stacks ≡ 0)
    × ((t : ℕ) → call_enter t 5 closed_conn closed_world ≡ (err Error.closed, closed_world))
    × ((t : ℕ) → close_begin t 5 closed_conn closed_world ≡ (ok Progress.nothing, closed_world))
    × (closed_conn.is_closed ≡ true)
unfolding call_enter call_exit connect lookup insert close_begin close_teardown without
closed_is_idle_example =
    closed_is_idle closed_world closed_again 5 closed_conn closed_conn closed_world-Reach refl refl
      (close 1 5 closed_conn refl refl) refl

close_never_waits_for_itself_example :
    (calls_on 5 (stack_of 2 closing_world) ≡ 0)
    × (((conn true 1).in_flight ≡ 0) ⊎ (udf_free (stack_of 2 closing_world) ≡ true))
unfolding call_enter connect lookup insert close_begin
close_never_waits_for_itself_example =
    close_never_waits_for_itself closing_world 2 5 (conn true 1) closing_world-Reach refl refl

close_can_finish_example :
    (v : World) × (j : Conn) × Returns closing_world v
    × (lookup 2 v.waiting ≡ some 5)
    × (lookup 5 v.conns ≡ some j)
    × (j.in_flight ≡ 0)
    × Step v (close_teardown 2 5 j v)
unfolding call_enter connect lookup insert close_begin
close_can_finish_example =
    close_can_finish closing_world 2 5 closing_world-Reach refl (λ e. cc)
      (λ t fs e p. ground (arith, e))

threads_refine_gate_example : Refines 5 open_world.conns closing_world.conns
unfolding call_enter connect lookup insert close_begin
threads_refine_gate_example =
    threads_refine_gate 5 open_world closing_world open_world-Reach
      (close 2 5 (conn false 1) refl refl)

abbrev resources : Resources
resources = record {
  results = 1 ∷ 2 ∷ [];
  statements = (3, true) ∷ (4, false) ∷ [];
  connection = some 5;
  py_connection = none;
  is_closed = false;
  registered = true;
  closed = [];
}

-- The statement 3 raises a RuntimeError, which is suppressed.
abbrev late_statement : ℕ → Option PyError
late_statement n = if n == 3 then some (runtime_error "closed") else none

torn_down :
    ((teardown late_statement false resources).0 ≡ ok tt)
    × ((teardown late_statement false resources).1.closed ≡ 5 ∷ 3 ∷ 2 ∷ 1 ∷ [])
unfolding teardown
torn_down = (refl, refl)

-- The first query result raises: nothing else is closed.
abbrev late_result : ℕ → Option PyError
late_result n = if n == 1 then some (runtime_error "closed") else none

half_torn_down : (teardown late_result false resources).1 ≡ record resources { closed = 1 ∷ [] }
unfolding teardown
half_torn_down = refl

-- Another thread calls `init_connection` between the two parts of the teardown: the connection is closed
-- and holds a native connection, which nothing closes.
late_connection :
    let s = (drop_connection late_statement false resources).1 in
    let t = (drop_py_connection late_statement false (init_connection (ok tt) (ok 9) s).1).1 in
    (t.is_closed ≡ true) × (t.connection ≡ some 9) × (t.closed ≡ 5 ∷ 3 ∷ 2 ∷ 1 ∷ [])
unfolding drop_connection drop_py_connection init_connection
late_connection = (refl, refl, refl)
