-- ===== src/Calls/Closed.antt =====
-- Over every interleaving: a closed connection is idle, and `close()` never waits for itself.
use ladybug_python.Base.{
  ℕ, ◌+◌, ◌-◌, ◌≤◌, ◌≡◌, ◌⊎◌, inl, inr, refl, Bool, true, false, ◌&&◌, ◌||◌, none, some, List, [],
  ◌∷◌, arith, ◌==◌, nat_eq, if◌then◌else◌, if_both, if_split, Option-cases,
}
use ladybug_python.Outcome.{Result, ok, err}
use ladybug_python.Dict.{lookup, insert, lookup-insert, lookup-without, lookup-insert_self}
use ladybug_python.Dict.Total.{total, total-insert}
use ladybug_python.Calls.Error
use ladybug_python.Calls.{
  Progress, busy, Frame, call, udf, Conn, World, stack_of, set_conn, called_from_udf, on_stack,
  call_enter, call_exit, udf_enter, udf_exit, close_begin, close_abort, close_teardown, connect,
}
use ladybug_python.Calls.Step.{
  IsConn, IsFree, Step, create, enter, leave, start_udf, end_udf, close, abort, finish, Reach, here,
  next, empty_world,
}
use ladybug_python.Calls.Invariant.{calls_on, Reach-IsTracked}
use ladybug_python.Calls.Shutdown.{
  IsGuarded, stack-IsGuarded, conn-IsGuarded, count-IsGuarded, unwait-IsGuarded, wait-IsGuarded,
}

idle_or_outside :
    (n : ℕ) (b : Bool) → ((if n == 0 then false else true) && b) ≡ false → (n ≡ 0) ⊎ (b ≡ false)
idle_or_outside n true h = inl (ground arith)
idle_or_outside n false h = inr refl

module _ {w : World} (inv : IsGuarded w) where
  enter-IsGuarded :
      (t c : ℕ) (k : Conn) → IsFree w t → IsConn w c k → IsGuarded (call_enter t c k w).1
  unfolding call_enter set_conn
  enter-IsGuarded t c k free is_conn =
      if_split {A = Result Unit × World} (λ r. IsGuarded r.1) k.closing _ _ (λ _. inv)
        (λ open_.
          if_both {A = Result Unit × World} (λ r. IsGuarded r.1)
            (busy k && called_from_udf c (stack_of t w)) _ _ inv
            (stack-IsGuarded (count-IsGuarded inv c (k.in_flight + 1) k is_conn (λ h. ground arith))
              t _ free))

  exit-IsGuarded :
      (t c : ℕ) (k : Conn) (rest : List Frame)
      → IsFree w t
      → IsConn w c k
      → IsGuarded (call_exit t c k rest w)
  unfolding call_exit set_conn
  exit-IsGuarded t c k rest free is_conn =
      stack-IsGuarded (count-IsGuarded inv c (k.in_flight - 1) k is_conn (λ h. omega arith)) t rest
        free

  -- Where a thread waits, the connection is closing.
  waits-closing :
      (u c : ℕ) (k : Conn) → IsConn w c k → lookup u w.waiting ≡ some c → k.closing ≡ true
  waits-closing u c k is_conn e = (inv.waits u c k e is_conn).closing

  closing-IsGuarded :
      (t c : ℕ) (k : Conn)
      → IsConn w c k
      → k.is_closed ≡ false
      → k.closing ≡ false
      → on_stack c (stack_of t w) ≡ false
      → (k.in_flight ≡ 0) ⊎ (called_from_udf c (stack_of t w) ≡ false)
      → IsGuarded
          (record (set_conn c (record k { closing = true }) w) { waiting = insert t c w.waiting })
  unfolding set_conn stack_of
  closing-IsGuarded t c k is_conn open_ fresh no_call no_udf =
      wait-IsGuarded
        (conn-IsGuarded inv c (record k { closing = true }) (λ h. ground arith)
          (λ u e. ground (arith, waits-closing u c k is_conn e)))
        t c (record k { closing = true })
        (lookup-insert_self c (record k { closing = true }) w.conns)
        (record { closing = refl; still_open = open_; no_call = no_call; no_udf = no_udf })
        (λ u e. ground (arith, waits-closing u c k is_conn e))

  close-IsGuarded : (t c : ℕ) (k : Conn) → IsConn w c k → IsGuarded (close_begin t c k w).1
  unfolding close_begin
  close-IsGuarded t c k is_conn =
      if_split {A = Result Progress × World} (λ r. IsGuarded r.1) (on_stack c (stack_of t w)) _ _
        (λ _. inv)
        (λ no_call.
          if_split {A = Result Progress × World} (λ r. IsGuarded r.1) (k.is_closed || k.closing) _ _
            (λ _. inv)
            (λ fresh.
              if_split {A = Result Progress × World} (λ r. IsGuarded r.1)
                (busy k && called_from_udf c (stack_of t w)) _ _ (λ _. inv)
                (λ alone.
                  closing-IsGuarded t c k is_conn (ground arith) (ground arith) no_call
                    (idle_or_outside (k.in_flight) _ alone))))

  abort-IsGuarded :
      (t c : ℕ) (k : Conn)
      → lookup t w.waiting ≡ some c
      → IsConn w c k
      → IsGuarded (close_abort t c k w)
  unfolding close_abort set_conn
  abort-IsGuarded t c k mine is_conn =
      conn-IsGuarded (unwait-IsGuarded inv t) c (record k { closing = false })
        (λ h. ground (arith, (inv.waits t c k mine is_conn).still_open))
        (λ u e. absurd (ground (arith, inv.one_waiter t u c mine, lookup-without t u w.waiting)))

  teardown-IsGuarded :
      (t c : ℕ) (k : Conn)
      → lookup t w.waiting ≡ some c
      → IsConn w c k
      → k.in_flight ≡ 0
      → IsGuarded (close_teardown t c k w)
  unfolding close_teardown set_conn
  teardown-IsGuarded t c k mine is_conn idle =
      conn-IsGuarded (unwait-IsGuarded inv t) c (record k { is_closed = true })
        (λ h. ((inv.waits t c k mine is_conn).closing, idle))
        (λ u e. absurd (ground (arith, inv.one_waiter t u c mine, lookup-without t u w.waiting)))

  connect-IsGuarded : (c : ℕ) → lookup c w.conns ≡ none → IsGuarded (connect c w)
  unfolding connect
  connect-IsGuarded c fresh =
      conn-IsGuarded inv c _ (λ h. ground arith) (λ u e. absurd (inv.made u c e fresh))

Step-IsGuarded : {v w : World} → Step v w → IsGuarded v → IsGuarded w
unfolding udf_enter udf_exit
Step-IsGuarded (create c fresh) inv = connect-IsGuarded inv c fresh
Step-IsGuarded (enter t c k free is_conn) inv = enter-IsGuarded inv t c k free is_conn
Step-IsGuarded (leave t c k rest free is_conn top) inv = exit-IsGuarded inv t c k rest free is_conn
Step-IsGuarded (start_udf t free) inv = stack-IsGuarded inv t _ free
Step-IsGuarded (end_udf t rest free top) inv = stack-IsGuarded inv t rest free
Step-IsGuarded (close t c k free is_conn) inv = close-IsGuarded inv t c k is_conn
Step-IsGuarded (abort t c k mine is_conn) inv = abort-IsGuarded inv t c k mine is_conn
Step-IsGuarded (finish t c k mine is_conn idle) inv = teardown-IsGuarded inv t c k mine is_conn idle

empty_world-IsGuarded : IsGuarded empty_world
unfolding lookup
empty_world-IsGuarded = record {
  closed = λ c k e h. absurd (cc);
  waits = λ t c k e h. absurd (cc);
  made = λ t c e. absurd (cc);
  one_waiter = λ t u c e h. absurd (cc);
}

pub Reach-IsGuarded : {w : World} → Reach empty_world w → IsGuarded w
Reach-IsGuarded here = empty_world-IsGuarded
Reach-IsGuarded (next r st) = Step-IsGuarded st (Reach-IsGuarded r)

no_call_no_frame : (c : ℕ) (fs : List Frame) → calls_on c fs ≡ 0 → on_stack c fs ≡ false
unfolding on_stack
no_call_no_frame c [] h = refl
no_call_no_frame c (call d ∷ fs) h = ground (arith, no_call_no_frame c fs)
no_call_no_frame c (udf ∷ fs) h = no_call_no_frame c fs h

-- Where no thread has a call of the connection, this one has none.
not_on_stack :
    (t c : ℕ) (w : World) → total (calls_on c) w.stacks ≡ 0 → on_stack c (stack_of t w) ≡ false
unfolding stack_of on_stack
not_on_stack t c w h = elim (Option-cases (lookup t w.stacks)) [
  | inl none_ ↦ ground (arith, none_)
  | inr (fs, there) ↦
      let alone : calls_on c fs ≡ 0 =
        ground (arith, total-insert (calls_on c) t [] w.stacks, there, h) in
      ground (arith, there, no_call_no_frame c fs alone)
]

-- No step opens a connection that is closed.
closed_stays_closed :
    {v w : World} (c : ℕ) (k j : Conn)
    → IsGuarded v
    → Step v w
    → lookup c v.conns ≡ some k
    → k.is_closed ≡ true
    → lookup c w.conns ≡ some j
    → j.is_closed ≡ true
unfolding call_enter call_exit udf_enter udf_exit close_begin close_abort close_teardown connect
closed_stays_closed {v} c k j inv (create d fresh) e h e' = ground (
  arith,
  lookup-insert d c (record { is_closed = false; closing = false; in_flight = 0 }) v.conns,
)
closed_stays_closed {v} c k j inv (enter t d i free is_conn) e h e' =
    ground (arith, lookup-insert d c (record i { in_flight = i.in_flight + 1 }) v.conns)
closed_stays_closed {v} c k j inv (leave t d i rest free is_conn top) e h e' =
    ground (arith, lookup-insert d c (record i { in_flight = i.in_flight - 1 }) v.conns)
closed_stays_closed c k j inv (start_udf t free) e h e' = ground arith
closed_stays_closed c k j inv (end_udf t rest free top) e h e' = ground arith
closed_stays_closed {v} c k j inv (close t d i free is_conn) e h e' =
    ground (arith, lookup-insert d c (record i { closing = true }) v.conns)
closed_stays_closed {v} c k j inv (abort t d i mine is_conn) e h e' =
    ground (arith, lookup-insert d c (record i { closing = false }) v.conns)
closed_stays_closed {v} c k j inv (finish t d i mine is_conn idle) e h e' =
    ground (arith, lookup-insert d c (record i { is_closed = true }) v.conns)

-- In every state that the threads can come to, a closed connection has no call on any thread, every
-- further tracked call raises and changes nothing, `close()` outside its calls does nothing, and after
-- every further step of a thread it is closed too.
pub closed_is_idle :
    (v w : World) (c : ℕ) (k j : Conn)
    → Reach empty_world v
    → lookup c v.conns ≡ some k
    → k.is_closed ≡ true
    → Step v w
    → lookup c w.conns ≡ some j
    → (total (calls_on c) v.stacks ≡ 0)
      × ((t : ℕ) → call_enter t c k v ≡ (err Error.closed, v))
      × ((t : ℕ) → close_begin t c k v ≡ (ok Progress.nothing, v))
      × (j.is_closed ≡ true)
unfolding call_enter close_begin
closed_is_idle v w c k j r e closed_ step e' =
    let inv = Reach-IsGuarded r in
    let idle : total (calls_on c) v.stacks ≡ 0 =
      ground (arith, inv.closed c k e closed_, (Reach-IsTracked r).counted c k e) in
    (
      idle,
      λ t. ground (arith, inv.closed c k e closed_),
      λ t. ground (arith, not_on_stack t c v idle, closed_),
      closed_stays_closed c k j inv step e closed_ e',
    )

-- A stack without a UDF.
abbrev pub udf_free : List Frame → Bool
udf_free [] = true
udf_free (call d ∷ fs) = udf_free fs
udf_free (udf ∷ fs) = false

no_frames : (c : ℕ) (fs : List Frame) → on_stack c fs ≡ false → calls_on c fs ≡ 0
unfolding on_stack
no_frames c [] h = refl
no_frames c (call d ∷ fs) h = ground (arith, no_frames c fs)
no_frames c (udf ∷ fs) h = no_frames c fs h

no_udfs :
    (c : ℕ) (fs : List Frame)
    → on_stack c fs ≡ false
    → called_from_udf c fs ≡ false
    → udf_free fs ≡ true
unfolding on_stack called_from_udf
no_udfs c [] h q = refl
no_udfs c (call d ∷ fs) h q = ground (arith, no_udfs c fs)
no_udfs c (udf ∷ fs) h q = absurd (cc)

-- In every state that the threads can come to, a thread that waits in `close()` has no call of that
-- connection on its own stack, and if a call is in flight it is inside no UDF: no query can be
-- waiting for this thread to return.
pub close_never_waits_for_itself :
    (w : World) (t c : ℕ) (k : Conn)
    → Reach empty_world w
    → lookup t w.waiting ≡ some c
    → lookup c w.conns ≡ some k
    → (calls_on c (stack_of t w) ≡ 0) × ((k.in_flight ≡ 0) ⊎ (udf_free (stack_of t w) ≡ true))
close_never_waits_for_itself w t c k r mine e =
    let old = (Reach-IsGuarded r).waits t c k mine e in
    (
      no_frames c (stack_of t w) old.no_call,
      elim old.no_udf [
        | inl idle ↦ inl idle
        | inr outside ↦ inr (no_udfs c (stack_of t w) old.no_call outside)
      ],
    )

-- While `_closing` is set, no step of any thread raises the number of calls in flight on the
-- connection.
closing_admits_no_call :
    {v w : World} (c : ℕ) (k j : Conn)
    → Step v w
    → lookup c v.conns ≡ some k
    → lookup c w.conns ≡ some j
    → k.closing ≡ true
    → j.in_flight ≤ k.in_flight
unfolding call_enter call_exit udf_enter udf_exit close_begin close_abort close_teardown connect
closing_admits_no_call {v} c k j (create d fresh) e e' h = ground (
  arith,
  lookup-insert d c (record { is_closed = false; closing = false; in_flight = 0 }) v.conns,
)
closing_admits_no_call {v} c k j (enter t d i free is_conn) e e' h =
    ground (arith, lookup-insert d c (record i { in_flight = i.in_flight + 1 }) v.conns)
closing_admits_no_call {v} c k j (leave t d i rest free is_conn top) e e' h =
    ground (arith, lookup-insert d c (record i { in_flight = i.in_flight - 1 }) v.conns)
closing_admits_no_call c k j (start_udf t free) e e' h = ground arith
closing_admits_no_call c k j (end_udf t rest free top) e e' h = ground arith
closing_admits_no_call {v} c k j (close t d i free is_conn) e e' h =
    ground (arith, lookup-insert d c (record i { closing = true }) v.conns)
closing_admits_no_call {v} c k j (abort t d i mine is_conn) e e' h =
    ground (arith, lookup-insert d c (record i { closing = false }) v.conns)
closing_admits_no_call {v} c k j (finish t d i mine is_conn idle) e e' h =
    ground (arith, lookup-insert d c (record i { is_closed = true }) v.conns)
