-- ===== src/Pool/Safety.antt =====
-- Over every interleaving: one call at a time on a connection, and interrupts that hit only the
-- call that was cancelled.
use ladybug_python.Base.{ℕ, ◌↔◌, ◌≡◌, refl, true, false, some, List, ◌∷◌, arith, nat_eq, inr}
use ladybug_python.Dict.{lookup}
use ladybug_python.Pool.{
  Pool, Job, Phase, run_start, cancel_future, release_slot, cancel, create, put_job, at_phase,
  release_connection, done_callback,
}
use ladybug_python.Pool.Slots.{index_of}
use ladybug_python.Pool.Step.{
  IsAt, Step, acquire, release, query, prepared, start, lock, begin, finish, unlock, callback, drop,
  give_up, shut, Reach, here, next,
}
use ladybug_python.Pool.Invariant.{
  IsOwned, SameLocks, has_lock, put_outside-IsOwned, run_lock-IsOwned, skip-IsOwned,
  run_begin-IsOwned, run_finish-IsOwned, same-IsOwned, release_slot-SameLocks,
  execute_query-IsOwned, acquire_connection-IsOwned, execute_prepared-IsOwned,
}

cancel-SameLocks : (c k : ℕ) (s : Pool) → SameLocks s (cancel c k s).1
unfolding cancel
cancel-SameLocks c k s = ground arith

-- A job that moves between two phases without the lock.
move-IsOwned :
    {s : Pool} (t : Pool) (k : ℕ) (j : Job) (p q : Phase)
    → IsOwned s
    → SameLocks s t
    → IsAt s k j p
    → has_lock p ≡ false
    → has_lock q ≡ false
    → IsOwned (put_job k (at_phase j q) t)
unfolding put_job at_phase
move-IsOwned t k j p q inv same at before after =
    put_outside-IsOwned (same-IsOwned inv t same) k (at_phase j q) after (λ i e. ground arith)

pub Step-IsOwned : {s t : Pool} → Step s t → IsOwned s → IsOwned t
unfolding release_connection done_callback run_start cancel_future
Step-IsOwned (acquire k fresh) inv = acquire_connection-IsOwned inv k fresh
Step-IsOwned {s} (release k j at) inv =
    move-IsOwned (release_slot (index_of j.conn s.connections) s) k j Phase.leased Phase.released
      inv (release_slot-SameLocks (index_of j.conn s.connections) s) at refl refl
Step-IsOwned (query k fresh) inv = execute_query-IsOwned inv k fresh
Step-IsOwned (prepared k c fresh) inv = execute_prepared-IsOwned inv k fresh c
Step-IsOwned {s} (start k j at) inv =
    move-IsOwned s k j Phase.queued Phase.started inv (refl, refl, refl) at refl refl
Step-IsOwned (lock k j at free) inv = run_lock-IsOwned inv k j at free
Step-IsOwned (begin k j at) inv = run_begin-IsOwned inv k j at
Step-IsOwned (finish k j at) inv = run_finish-IsOwned inv k j at
Step-IsOwned (unlock k j at) inv = skip-IsOwned inv k j at.0 (inr at.1)
Step-IsOwned {s} (callback k j at) inv =
    move-IsOwned (release_slot j.slot s) k j Phase.done Phase.released inv
      (release_slot-SameLocks j.slot s) at refl refl
Step-IsOwned {s} (drop k j at) inv =
    move-IsOwned s k j Phase.queued Phase.done inv (refl, refl, refl) at refl refl
Step-IsOwned {s} (give_up c k) inv = same-IsOwned inv (cancel c k s).1 (cancel-SameLocks c k s)
Step-IsOwned {s} shut inv = same-IsOwned inv (record s { shutdown = true }) (refl, refl, refl)

create-IsOwned : (cs : List ℕ) → IsOwned (create cs)
unfolding create lookup
create-IsOwned cs = record {
  owner = λ k j e h. cc;
  entered = λ k j e h. cc;
  listed = λ c k e. absurd (cc);
}

Reach-IsOwned : {s t : Pool} → IsOwned s → Reach s t → IsOwned t
Reach-IsOwned inv here = inv
Reach-IsOwned inv (next r st) = Step-IsOwned st (Reach-IsOwned inv r)

-- In every state that a new pool can come to, two calls that hold the lock of one connection are
-- the same call.
pub one_call_at_a_time :
    (cs : List ℕ) (s : Pool)
    → Reach (create cs) s
    → (k k' : ℕ) (j j' : Job) → lookup k s.jobs ≡ some j
    → lookup k' s.jobs ≡ some j'
    → has_lock j.phase ≡ true
    → has_lock j'.phase ≡ true
    → j.conn ≡ j'.conn
    → k ≡ k'
one_call_at_a_time cs s r k k' j j' e e' h h' same =
    let inv = Reach-IsOwned (create-IsOwned cs) r in ground (arith, inv.owner k j, inv.owner k' j')

-- The job `k` is inside `fn(*args)` on the connection `c`.
abbrev pub Runs : Pool → ℕ → ℕ → Type 0
Runs s c k = (j : Job) × (lookup k s.jobs ≡ some j) × (j.conn ≡ c) × (j.phase ≡ Phase.running)

-- In every state that a new pool can come to, `__cancel` of the call `k` on the connection `c`
-- interrupts `c`, and asks to be repeated, exactly when `k` runs on `c`; then no other call runs
-- there. If it does not interrupt, it sends nothing.
pub cancel_interrupts_its_call :
    (cs : List ℕ) (s : Pool)
    → Reach (create cs) s
    → (c k : ℕ)
    → ((cancel c k s).0 ≡ true ↔ Runs s c k)
      × ((cancel c k s).0 ≡ true
          → ((cancel c k s).1.interrupts ≡ (c, k) ∷ s.interrupts)
            × ((k' : ℕ) → Runs s c k' → k' ≡ k))
      × ((cancel c k s).0 ≡ false → (cancel c k s).1.interrupts ≡ s.interrupts)
unfolding cancel
cancel_interrupts_its_call cs s r c k =
    let inv = Reach-IsOwned (create-IsOwned cs) r in
    (
      (
        λ h. inv.listed c k (ground arith),
        λ (j, e, same, phase). ground (arith, inv.entered k j e phase),
      ),
      λ h. (ground arith, λ k' (j, e, same, phase). ground (arith, inv.entered k' j)),
      λ h. ground arith,
    )
