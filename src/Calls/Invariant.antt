-- ===== src/Calls/Invariant.antt =====
-- The count of calls in flight, and what a thread that waits in `close()` knows.
use ladybug_python.Base.{
  ℕ, ◌+◌, ◌-◌, ◌||◌, ◌&&◌, if_both, ◌≡◌, refl, true, false, none, some, List, [], ◌∷◌, arith, ◌==◌,
  nat_eq, if◌then◌else◌,
}
use ladybug_python.Dict.{Dict, lookup, insert, lookup-insert}
use ladybug_python.Dict.Total.{total, total-insert}
use ladybug_python.Outcome.{Result}
use ladybug_python.Calls.{
  Progress, busy, Frame, call, udf, Conn, World, stack_of, set_conn, called_from_udf, on_stack,
  call_enter, call_exit, udf_enter, udf_exit, close_begin, close_abort, close_teardown, connect,
}
use ladybug_python.Calls.Step.{
  IsConn, Step, create, enter, leave, start_udf, end_udf, close, abort, finish, Reach, here, next,
  empty_world,
}

-- How many calls on `c` a stack holds.
abbrev pub calls_on : ℕ → List Frame → ℕ
calls_on c [] = 0
calls_on c (call d ∷ fs) = (if d == c then 1 else 0) + calls_on c fs
calls_on c (udf ∷ fs) = calls_on c fs

-- Each connection's count is the number of its frames over all threads; a connection that was never
-- made has no frames.
pub record IsTracked (w : World) : Type 0 where
  pub counted : (c : ℕ) (k : Conn) → IsConn w c k → k.in_flight ≡ total (calls_on c) w.stacks
  pub known : (c : ℕ) → lookup c w.conns ≡ none → total (calls_on c) w.stacks ≡ 0

push-total :
    (w : World) (t c : ℕ) (f : Frame)
    → total (calls_on c) (insert t (f ∷ stack_of t w) w.stacks)
      ≡ calls_on c (f ∷ []) + total (calls_on c) w.stacks
unfolding stack_of
push-total w t c f = ground (arith, total-insert (calls_on c) t (f ∷ stack_of t w) w.stacks)

pop-total :
    (w : World) (t c : ℕ) (f : Frame) (rest : List Frame)
    → lookup t w.stacks ≡ some (f ∷ rest)
    → calls_on c (f ∷ []) + total (calls_on c) (insert t rest w.stacks)
      ≡ total (calls_on c) w.stacks
pop-total w t c f rest e = ground (arith, total-insert (calls_on c) t rest w.stacks)

module _ {w : World} (inv : IsTracked w) where
  enter-IsTracked : (t c : ℕ) (k : Conn) → IsConn w c k → IsTracked (call_enter t c k w).1
  unfolding call_enter
  enter-IsTracked t c k is_conn = record {
    counted = λ d k' e. ground (
      arith,
      inv.counted c k,
      inv.counted d k',
      push-total w t d (call c),
      lookup-insert c d (record k { in_flight = k.in_flight + 1 }) w.conns,
    );
    known = λ d e. ground (
      arith,
      inv.known d,
      push-total w t d (call c),
      lookup-insert c d (record k { in_flight = k.in_flight + 1 }) w.conns,
    );
  }

  exit-IsTracked :
      (t c : ℕ) (k : Conn) (rest : List Frame)
      → IsConn w c k
      → lookup t w.stacks ≡ some (call c ∷ rest)
      → IsTracked (call_exit t c k rest w)
  unfolding call_exit
  exit-IsTracked t c k rest is_conn top = record {
    counted = λ d k' e. ground (
      arith,
      inv.counted c k,
      inv.counted d k',
      pop-total w t d (call c) rest,
      lookup-insert c d (record k { in_flight = k.in_flight - 1 }) w.conns,
    );
    known = λ d e. ground (
      arith,
      inv.known d,
      pop-total w t d (call c) rest,
      lookup-insert c d (record k { in_flight = k.in_flight - 1 }) w.conns,
    );
  }

  udf_enter-IsTracked : (t : ℕ) → IsTracked (udf_enter t w)
  unfolding udf_enter
  udf_enter-IsTracked t = record {
    counted = λ d k' e. ground (arith, inv.counted d k', push-total w t d udf);
    known = λ d e. ground (arith, inv.known d, push-total w t d udf);
  }

  udf_exit-IsTracked :
      (t : ℕ) (rest : List Frame)
      → lookup t w.stacks ≡ some (udf ∷ rest)
      → IsTracked (udf_exit t rest w)
  unfolding udf_exit
  udf_exit-IsTracked t rest top = record {
    counted = λ d k' e. ground (arith, inv.counted d k', pop-total w t d udf rest);
    known = λ d e. ground (arith, inv.known d, pop-total w t d udf rest);
  }

  -- A change of a connection that keeps its count, and of the waiting threads.
  set_conn-IsTracked :
      (c : ℕ) (k j : Conn) (waiting : Dict ℕ ℕ)
      → IsConn w c k
      → j.in_flight ≡ k.in_flight
      → IsTracked (record (set_conn c j w) { waiting = waiting })
  unfolding set_conn
  set_conn-IsTracked c k j waiting is_conn same = record {
    counted =
        λ d k' e. ground (arith, inv.counted c k, inv.counted d k', lookup-insert c d j w.conns);
    known = λ d e. ground (arith, inv.known d, lookup-insert c d j w.conns);
  }

  close-IsTracked : (t c : ℕ) (k : Conn) → IsConn w c k → IsTracked (close_begin t c k w).1
  unfolding close_begin
  close-IsTracked t c k is_conn =
      if_both {A = Result Progress × World} (λ r. IsTracked r.1) (on_stack c (stack_of t w)) _ _ inv
        (if_both {A = Result Progress × World} (λ r. IsTracked r.1) (k.is_closed || k.closing) _ _
          inv
          (if_both {A = Result Progress × World} (λ r. IsTracked r.1)
            (busy k && called_from_udf c (stack_of t w)) _ _ inv
            (set_conn-IsTracked c k (record k { closing = true }) (insert t c w.waiting) is_conn
              refl)))

  connect-IsTracked : (c : ℕ) → lookup c w.conns ≡ none → IsTracked (connect c w)
  unfolding connect
  connect-IsTracked c fresh = record {
    counted = λ d k' e. ground (
      arith,
      inv.known c,
      inv.counted d k',
      lookup-insert c d (record { is_closed = false; closing = false; in_flight = 0 }) w.conns,
    );
    known = λ d e. ground (
      arith,
      inv.known d,
      lookup-insert c d (record { is_closed = false; closing = false; in_flight = 0 }) w.conns,
    );
  }

pub Step-IsTracked : {v w : World} → Step v w → IsTracked v → IsTracked w
unfolding close_abort close_teardown
Step-IsTracked (create c fresh) inv = connect-IsTracked inv c fresh
Step-IsTracked (enter t c k free is_conn) inv = enter-IsTracked inv t c k is_conn
Step-IsTracked (leave t c k rest free is_conn top) inv = exit-IsTracked inv t c k rest is_conn top
Step-IsTracked (start_udf t free) inv = udf_enter-IsTracked inv t
Step-IsTracked (end_udf t rest free top) inv = udf_exit-IsTracked inv t rest top
Step-IsTracked (close t c k free is_conn) inv = close-IsTracked inv t c k is_conn
Step-IsTracked (abort t c k waits is_conn) inv = set_conn-IsTracked inv c k _ _ is_conn refl
Step-IsTracked (finish t c k waits is_conn idle) inv = set_conn-IsTracked inv c k _ _ is_conn refl

empty_world-IsTracked : IsTracked empty_world
unfolding lookup total
empty_world-IsTracked = record { counted = λ c k e. absurd (cc); known = λ c e. refl }

pub Reach-IsTracked : {w : World} → Reach empty_world w → IsTracked w
Reach-IsTracked here = empty_world-IsTracked
Reach-IsTracked (next r st) = Step-IsTracked st (Reach-IsTracked r)

-- In every state that the threads can come to, `_calls_in_flight` of each connection is the number
-- of its calls on the stacks of all threads.
pub in_flight_counts_calls :
    (w : World)
    → Reach empty_world w
    → (c : ℕ) (k : Conn) → lookup c w.conns ≡ some k
    → k.in_flight ≡ total (calls_on c) w.stacks
in_flight_counts_calls w r = (Reach-IsTracked r).counted
