-- ===== src/Calls.antt =====
-- src_py/connection.py: which calls a connection has in flight, and how `close()` waits for them.
-- Threads are numbered; a thread's stack is that of `_active_stack()`, innermost frame first.
pub mod Error
pub mod Step
pub mod Invariant
pub mod Shutdown
pub mod Closed
pub mod Liveness
pub mod Gate
pub mod Teardown
mod Tests
use ladybug_python.Base.{
  ℕ, suc, ◌+◌, ◌-◌, Bool, true, false, ◌&&◌, ◌||◌, not, Option, none, some, List, [], ◌∷◌, ◌==◌,
  nat_eq, if◌then◌else◌,
}
use ladybug_python.Outcome.{Result, ok, err, Exec}
use ladybug_python.Dict.{Dict, lookup, insert, without}

-- A connection whose call runs on the thread, or the marker `_UDF`.
pub data Frame : Type 0 where
  call : ℕ → Frame
  udf : Frame

-- The attributes by which a connection admits calls and closes. The native connections and the caches
-- are in Calls.Teardown; `init_connection`, which is no tracked call, writes none of these attributes.
pub record Conn : Type 0 where
  pub is_closed : Bool
  pub closing : Bool
  pub in_flight : ℕ

-- `waiting` holds the threads inside `close()` after it set `_closing`, with the connection.
pub record World : Type 0 where
  pub conns : Dict ℕ Conn
  pub stacks : Dict ℕ (List Frame)
  pub waiting : Dict ℕ ℕ

-- `_active_stack()`, which makes an empty stack on first use.
unfoldable pub stack_of : ℕ → World → List Frame
unfolding lookup
stack_of t w = elim (lookup t w.stacks) [ none ↦ [] | some fs ↦ fs ]

unfoldable pub set_stack : ℕ → List Frame → World → World
set_stack t fs w = record w { stacks = insert t fs w.stacks }

unfoldable pub set_conn : ℕ → Conn → World → World
set_conn c k w = record w { conns = insert c k w.conns }

-- `_called_from_udf`
unfoldable pub called_from_udf : ℕ → List Frame → Bool
called_from_udf c [] = false
called_from_udf c (call d ∷ fs) = if d == c then false else called_from_udf c fs
called_from_udf c (udf ∷ fs) = true

-- `any(x is self for x in _active_stack())`
unfoldable pub on_stack : ℕ → List Frame → Bool
on_stack c [] = false
on_stack c (call d ∷ fs) = if d == c then true else on_stack c fs
on_stack c (udf ∷ fs) = on_stack c fs

abbrev pub busy : Conn → Bool
busy k = if k.in_flight == 0 then false else true

-- The wrapper of `_tracks_call` up to the method: on the connection `c`, whose state is `k`.
unfoldable pub call_enter : ℕ → ℕ → Conn → Exec World Unit
unfolding stack_of set_stack set_conn
call_enter t c k w =
    if k.closing
    then (err Error.closed, w)
    else if busy k && called_from_udf c (stack_of t w)
    then (err Error.in_udf, w)
    else (
      ok tt,
      set_stack t (call c ∷ stack_of t w) (set_conn c (record k { in_flight = k.in_flight + 1 }) w),
    )

-- Its `finally` block, on the thread whose innermost frame is the call.
unfoldable pub call_exit : ℕ → ℕ → Conn → List Frame → World → World
unfolding set_stack set_conn
call_exit t c k rest w = set_stack t rest (set_conn c (record k { in_flight = k.in_flight - 1 }) w)

-- The wrapper of `_marks_udf_call`, before and after the UDF.
unfoldable pub udf_enter : ℕ → World → World
unfolding stack_of set_stack
udf_enter t w = set_stack t (udf ∷ stack_of t w) w

unfoldable pub udf_exit : ℕ → List Frame → World → World
unfolding set_stack
udf_exit t rest w = set_stack t rest w

-- How the first part of `close()` ends: it has nothing to do, or it goes on to wait.
pub data Progress : Type 0 where
  nothing wait : Progress

-- `close()` up to its wait.
unfoldable pub close_begin : ℕ → ℕ → Conn → Exec World Progress
unfolding stack_of set_conn called_from_udf on_stack
close_begin t c k w =
    if on_stack c (stack_of t w)
    then (
      err (if called_from_udf c (stack_of t w) then Error.close_in_udf else Error.close_in_call),
      w,
    )
    else if k.is_closed || k.closing
    then (ok Progress.nothing, w)
    else if busy k && called_from_udf c (stack_of t w)
    then (err Error.close_in_udf, w)
    else (
      ok Progress.wait,
      record (set_conn c (record k { closing = true }) w) { waiting = insert t c w.waiting },
    )

-- The `except` block: the wait is broken off, and the connection can be used again.
unfoldable pub close_abort : ℕ → ℕ → Conn → World → World
unfolding set_conn
close_abort t c k w = record (set_conn c (record k { closing = false }) w) {
  waiting = without t w.waiting;
}

-- The end of `close()`, once no call is in flight: it sets `is_closed`. What it closes before that is in
-- Calls.Teardown.
unfoldable pub close_teardown : ℕ → ℕ → Conn → World → World
unfolding set_conn
close_teardown t c k w = record (set_conn c (record k { is_closed = true }) w) {
  waiting = without t w.waiting;
}

-- `Connection(database)`
unfoldable pub connect : ℕ → World → World
unfolding set_conn
connect c w = set_conn c (record { is_closed = false; closing = false; in_flight = 0 }) w
