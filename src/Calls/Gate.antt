-- ===== src/Calls/Gate.antt =====
-- What a connection promises, without threads and stacks: a gate that calls pass while it is open.
use ladybug_python.Base.{
  ℕ, ◌+◌, ◌-◌, ◌≡◌, ◌⊎◌, inl, inr, refl, ap, true, false, ◌&&◌, ◌||◌, Option, none, some, List, ◌∷◌,
  arith, ◌==◌, nat_eq, if◌then◌else◌, if_split, Bool-cases,
}
use mathlib.Core.Path.{subst}
use ladybug_python.Outcome.{Result}
use ladybug_python.Dict.{Dict, lookup, insert, lookup-insert}
use ladybug_python.Dict.Total.{total-insert}
use ladybug_python.Calls.{
  Progress, busy, Frame, call, Conn, World, stack_of, called_from_udf, on_stack, call_enter,
  call_exit, udf_enter, udf_exit, close_begin, close_abort, close_teardown, connect,
}
use ladybug_python.Calls.Step.{
  Step, create, enter, leave, start_udf, end_udf, close, abort, finish, Reach, empty_world,
}
use ladybug_python.Calls.Invariant.{calls_on, Reach-IsTracked}
use ladybug_python.Calls.Closed.{Reach-IsGuarded}

-- A gate with the number of the calls that passed it and did not come back.
pub data Gate : Type 0 where
  absent shut : Gate
  opened closing : ℕ → Gate

abbrev pub gate_of : Option Conn → Gate
gate_of none = absent
gate_of (some k) =
    if k.is_closed then shut else if k.closing then closing k.in_flight else opened k.in_flight

-- The gate of the connection `c`.
abbrev pub gate : ℕ → Dict ℕ Conn → Gate
gate c conns = gate_of (lookup c conns)

-- What a gate may do.
pub data Move (a b : Gate) : Type 0 where
  make : a ≡ absent → b ≡ opened 0 → Move a b
  pass : (n : ℕ) → a ≡ opened n → b ≡ opened (n + 1) → Move a b
  come_back : (n : ℕ) → a ≡ opened (n + 1) → b ≡ opened n → Move a b
  come_back_late : (n : ℕ) → a ≡ closing (n + 1) → b ≡ closing n → Move a b
  start_closing : (n : ℕ) → a ≡ opened n → b ≡ closing n → Move a b
  give_up : (n : ℕ) → a ≡ closing n → b ≡ opened n → Move a b
  end_closing : a ≡ closing 0 → b ≡ shut → Move a b

-- The gate stays as it is or moves.
abbrev pub Refines : ℕ → Dict ℕ Conn → Dict ℕ Conn → Type 0
Refines c v w = (gate c w ≡ gate c v) ⊎ Move (gate c v) (gate c w)

-- The connection `d` changes from `o` to `k`.
change-Refines :
    (c d : ℕ) (o : Option Conn) (k : Conn) (conns : Dict ℕ Conn)
    → lookup d conns ≡ o
    → Move (gate_of o) (gate_of (some k))
    → Refines c conns (insert d k conns)
change-Refines c d o k conns e m = elim (Bool-cases (d == c)) [
  | inl same ↦
      let before : o ≡ lookup c conns = ground (arith, e, same, nat_eq.beq_iff d c) in
      let after : some k ≡ lookup c (insert d k conns) =
        ground (arith, same, lookup-insert d c k conns) in
      inr (
        subst (λ x. Move (gate_of x) (gate c (insert d k conns))) before
          (subst (λ x. Move (gate_of o) (gate_of x)) after m))
  | inr other ↦ inl (ap gate_of (ground (arith, other, lookup-insert d c k conns)))
]

module _ (c : ℕ) (v : World) (r : Reach empty_world v) where
  enter-Refines :
      (t d : ℕ) (k : Conn)
      → lookup d v.conns ≡ some k
      → Refines c v.conns (call_enter t d k v).1.conns
  unfolding call_enter
  enter-Refines t d k e =
      if_split {A = Result Unit × World} (λ x. Refines c v.conns x.1.conns) k.closing _ _
        (λ _. inl refl)
        (λ open_.
          if_split {A = Result Unit × World} (λ x. Refines c v.conns x.1.conns)
            (busy k && called_from_udf d (stack_of t v)) _ _ (λ _. inl refl)
            (λ _.
              change-Refines c d (some k) (record k { in_flight = k.in_flight + 1 }) v.conns e
                (let still : k.is_closed ≡ false =
                    ground (arith, (Reach-IsGuarded r).closed d k e, open_) in
                  pass k.in_flight (ground (arith, still, open_)) (ground (arith, still, open_)))))

  leave-Refines :
      (t d : ℕ) (k : Conn) (rest : List Frame)
      → lookup d v.conns ≡ some k
      → lookup t v.stacks ≡ some (call d ∷ rest)
      → Refines c v.conns (call_exit t d k rest v).conns
  unfolding call_exit
  leave-Refines t d k rest e top =
      let busy_ : k.in_flight ≡ (k.in_flight - 1) + 1 = ground (
        arith,
        (Reach-IsTracked r).counted d k e,
        top,
        total-insert (calls_on d) t rest v.stacks,
      ) in
      let still : k.is_closed ≡ false = ground (arith, (Reach-IsGuarded r).closed d k e, busy_) in
      change-Refines c d (some k) (record k { in_flight = k.in_flight - 1 }) v.conns e
        (elim (Bool-cases k.closing) [
          | inl late ↦
              come_back_late (k.in_flight - 1) (ground (arith, still, late, busy_))
                (ground (arith, still, late))
          | inr open_ ↦
              come_back (k.in_flight - 1) (ground (arith, still, open_, busy_))
                (ground (arith, still, open_))
        ])

  close-Refines :
      (t d : ℕ) (k : Conn)
      → lookup d v.conns ≡ some k
      → Refines c v.conns (close_begin t d k v).1.conns
  unfolding close_begin
  close-Refines t d k e =
      if_split {A = Result Progress × World} (λ x. Refines c v.conns x.1.conns)
        (on_stack d (stack_of t v)) _ _ (λ _. inl refl)
        (λ _.
          if_split {A = Result Progress × World} (λ x. Refines c v.conns x.1.conns)
            (k.is_closed || k.closing) _ _ (λ _. inl refl)
            (λ open_.
              if_split {A = Result Progress × World} (λ x. Refines c v.conns x.1.conns)
                (busy k && called_from_udf d (stack_of t v)) _ _ (λ _. inl refl)
                (λ _.
                  change-Refines c d (some k) (record k { closing = true }) v.conns e
                    (start_closing k.in_flight (ground (arith, open_)) (ground (arith, open_))))))

  abort-Refines :
      (t d : ℕ) (k : Conn)
      → lookup t v.waiting ≡ some d
      → lookup d v.conns ≡ some k
      → Refines c v.conns (close_abort t d k v).conns
  unfolding close_abort
  abort-Refines t d k mine e =
      let waits = (Reach-IsGuarded r).waits t d k mine e in
      change-Refines c d (some k) (record k { closing = false }) v.conns e
        (give_up k.in_flight (ground (arith, waits.closing, waits.still_open))
          (ground (arith, waits.still_open)))

  finish-Refines :
      (t d : ℕ) (k : Conn)
      → lookup t v.waiting ≡ some d
      → lookup d v.conns ≡ some k
      → k.in_flight ≡ 0
      → Refines c v.conns (close_teardown t d k v).conns
  unfolding close_teardown
  finish-Refines t d k mine e idle =
      let waits = (Reach-IsGuarded r).waits t d k mine e in
      change-Refines c d (some k) (record k { is_closed = true }) v.conns e
        (end_closing (ground (arith, waits.closing, waits.still_open, idle)) refl)

  connect-Refines : (d : ℕ) → lookup d v.conns ≡ none → Refines c v.conns (connect d v).conns
  unfolding connect
  connect-Refines d e =
      change-Refines c d none (record { is_closed = false; closing = false; in_flight = 0 }) v.conns
        e (make refl refl)

-- Every move of a thread, in every state that the threads can come to, leaves the gate of a connection
-- as it is or is a move of the gate: no call passes a gate that is closing or shut, a gate is shut only
-- when every call came back, and a shut one stays shut.
pub threads_refine_gate :
    (c : ℕ) (v w : World) → Reach empty_world v → Step v w → Refines c v.conns w.conns
unfolding udf_enter udf_exit
threads_refine_gate c v w r (create d fresh) = connect-Refines c v r d fresh
threads_refine_gate c v w r (enter t d k free e) = enter-Refines c v r t d k e
threads_refine_gate c v w r (leave t d k rest free e top) = leave-Refines c v r t d k rest e top
threads_refine_gate c v w r (start_udf t free) = inl refl
threads_refine_gate c v w r (end_udf t rest free top) = inl refl
threads_refine_gate c v w r (close t d k free e) = close-Refines c v r t d k e
threads_refine_gate c v w r (abort t d k mine e) = abort-Refines c v r t d k mine e
threads_refine_gate c v w r (finish t d k mine e idle) = finish-Refines c v r t d k mine e idle
