-- ===== src/Calls/Shutdown.antt =====
-- What `close()` relies on and what it leaves behind.
use ladybug_python.Base.{
  ℕ, ◌≤◌, nat_beq, Bool-cases, ◌≡◌, ◌≢◌, ◌⊎◌, inl, inr, true, false, none, some, List, arith,
  nat_eq,
}
use ladybug_python.Dict.{lookup, insert, without, lookup-insert, lookup-without}
use ladybug_python.Calls.{
  Frame, Conn, World, stack_of, set_conn, set_stack, called_from_udf, on_stack,
}
use ladybug_python.Calls.Step.{IsConn, IsFree}

-- What holds of a thread that waits in `close()`.
pub record Waits (w : World) (t c : ℕ) (k : Conn) : Type 0 where
  pub closing : k.closing ≡ true
  pub still_open : k.is_closed ≡ false
  pub no_call : on_stack c (stack_of t w) ≡ false
  pub no_udf : (k.in_flight ≡ 0) ⊎ (called_from_udf c (stack_of t w) ≡ false)

pub record IsGuarded (w : World) : Type 0 where
  pub closed :
      (c : ℕ) (k : Conn)
      → IsConn w c k
      → k.is_closed ≡ true
      → (k.closing ≡ true) × (k.in_flight ≡ 0)
  pub waits : (t c : ℕ) (k : Conn) → lookup t w.waiting ≡ some c → IsConn w c k → Waits w t c k
  pub made : (t c : ℕ) → lookup t w.waiting ≡ some c → lookup c w.conns ≢ none
  pub one_waiter : (t u c : ℕ) → lookup t w.waiting ≡ some c → lookup u w.waiting ≡ some c → t ≡ u

stack_of-set_stack :
    (t u : ℕ) (fs : List Frame) (w : World)
    → IsFree w t
    → lookup u w.waiting ≢ none
    → stack_of u (set_stack t fs w) ≡ stack_of u w
unfolding stack_of set_stack
stack_of-set_stack t u fs w free wait_ = ground (arith, lookup-insert t u fs w.stacks)

module _ {w : World} (inv : IsGuarded w) where
  -- A free thread changes its own stack.
  pub stack-IsGuarded : (t : ℕ) (fs : List Frame) → IsFree w t → IsGuarded (set_stack t fs w)
  unfolding set_stack
  stack-IsGuarded t fs free = record {
    closed = inv.closed;
    waits = λ u d j wait_ e.
        let old = inv.waits u d j wait_ e in
        record {
          closing = old.closing;
          still_open = old.still_open;
          no_call = ground (arith, old.no_call, stack_of-set_stack t u fs w free, wait_);
          no_udf = ground (arith, old.no_udf, stack_of-set_stack t u fs w free, wait_);
        };
    made = inv.made;
    one_waiter = inv.one_waiter;
  }

  -- A connection changes, and a thread that waits for it can go on relying on it.
  pub conn-IsGuarded :
      (c : ℕ) (j : Conn)
      → (j.is_closed ≡ true → (j.closing ≡ true) × (j.in_flight ≡ 0))
      → ((u : ℕ) → lookup u w.waiting ≡ some c → Waits w u c j)
      → IsGuarded (set_conn c j w)
  unfolding set_conn stack_of
  conn-IsGuarded c j closed_ waits_ = record {
    closed = λ d i e h. ground (arith, closed_, inv.closed d i, lookup-insert c d j w.conns);
    waits = λ u d i wait_ e. elim (Bool-cases (nat_beq c d)) [
      | inl same ↦
          let old = waits_ u (ground arith) in
          record {
            closing = ground (arith, old.closing, lookup-insert c d j w.conns);
            still_open = ground (arith, old.still_open, lookup-insert c d j w.conns);
            no_call = ground (arith, old.no_call);
            no_udf = ground (arith, old.no_udf, lookup-insert c d j w.conns);
          }
      | inr other ↦
          let old = inv.waits u d i wait_ (ground (arith, lookup-insert c d j w.conns)) in
          record {
            closing = old.closing;
            still_open = old.still_open;
            no_call = old.no_call;
            no_udf = old.no_udf;
          }
    ];
    made = λ u d e. ground (arith, inv.made u d, lookup-insert c d j w.conns);
    one_waiter = inv.one_waiter;
  }

  -- Its count changes, and does not grow while it closes.
  pub count-IsGuarded :
      (c n : ℕ) (k : Conn)
      → IsConn w c k
      → (k.closing ≡ true → n ≤ k.in_flight)
      → IsGuarded (set_conn c (record k { in_flight = n }) w)
  count-IsGuarded c n k is_conn falls =
      conn-IsGuarded c (record k { in_flight = n }) (λ h. ground (arith, inv.closed c k is_conn h))
        (λ u wait_.
          let old = inv.waits u c k wait_ is_conn in
          record {
            closing = old.closing;
            still_open = old.still_open;
            no_call = old.no_call;
            no_udf = ground (arith, old.no_udf, old.closing);
          })

  -- Fewer threads wait.
  pub unwait-IsGuarded : (t : ℕ) → IsGuarded (record w { waiting = without t w.waiting })
  unfolding stack_of
  unwait-IsGuarded t = record {
    closed = inv.closed;
    waits = λ u d i wait_ e.
        let old = inv.waits u d i (ground (arith, lookup-without t u w.waiting)) e in
        record {
          closing = old.closing;
          still_open = old.still_open;
          no_call = old.no_call;
          no_udf = old.no_udf;
        };
    made = λ u d e. ground (arith, inv.made u d, lookup-without t u w.waiting);
    one_waiter = λ u v d e e'.
        ground
          (arith, inv.one_waiter u v d, lookup-without t u w.waiting, lookup-without t v w.waiting);
  }

  -- One more thread waits, for a connection that no other waits for.
  pub wait-IsGuarded :
      (t c : ℕ) (k : Conn)
      → IsConn w c k
      → Waits w t c k
      → ((u : ℕ) → lookup u w.waiting ≢ some c)
      → IsGuarded (record w { waiting = insert t c w.waiting })
  unfolding stack_of
  wait-IsGuarded t c k is_conn new alone = record {
    closed = inv.closed;
    waits = λ u d i wait_ e. elim (Bool-cases (nat_beq t u)) [
      | inl same ↦ record {
        closing = ground (arith, new.closing, lookup-insert t u c w.waiting);
        still_open = ground (arith, new.still_open, lookup-insert t u c w.waiting);
        no_call = ground (arith, new.no_call, lookup-insert t u c w.waiting);
        no_udf = ground (arith, new.no_udf, lookup-insert t u c w.waiting);
      }
      | inr other ↦
          let old = inv.waits u d i (ground (arith, lookup-insert t u c w.waiting)) e in
          record {
            closing = old.closing;
            still_open = old.still_open;
            no_call = old.no_call;
            no_udf = old.no_udf;
          }
    ];
    made = λ u d e. ground (arith, inv.made u d, lookup-insert t u c w.waiting);
    one_waiter = λ u v d e e'. ground (
      arith,
      inv.one_waiter u v d,
      alone u,
      alone v,
      lookup-insert t u c w.waiting,
      lookup-insert t v c w.waiting,
    );
  }
