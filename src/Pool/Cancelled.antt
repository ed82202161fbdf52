-- ===== src/Pool/Cancelled.antt =====
-- A call that is cancelled before its turn never starts.
use ladybug_python.Base.{
  member, ℕ, ◌≡◌, ◌≢◌, refl, true, Option, none, some, arith, nat_eq, if_both,
}
use ladybug_python.Dict.{lookup, lookup-insert}
use ladybug_python.Outcome.{Result, continue_both}
use ladybug_python.Pool.{
  Pool, Job, Phase, run_start, run_lock, run_begin, run_finish, run_unlock, cancel_future, cancel,
  put_job, at_phase, release_connection, done_callback, release_slot, take_slot, submit,
  execute_query, execute_prepared, acquire_connection, get_connection_with_least_queries,
}
use ladybug_python.Pool.Slots.{index_of}
use ladybug_python.Pool.Step.{
  IsAt, Step, acquire, release, query, prepared, start, lock, begin, finish, unlock, callback, drop,
  give_up, shut, Reach, here, next,
}

-- The call was cancelled and is not inside `fn(*args)`.
pub record IsDropped (k : ℕ) (s : Pool) : Type 0 where
  pub flagged : member k s.cancelled ≡ true
  pub outside : (j : Job) → lookup k s.jobs ≡ some j → j.phase ≢ Phase.running

-- What the steps that leave the call `k` alone do.
abbrev SameFlags : Pool → Pool → Type 0
SameFlags s t = (t.jobs ≡ s.jobs) × (t.cancelled ≡ s.cancelled)

module _ {k : ℕ} {s : Pool} (inv : IsDropped k s) where
  put-IsDropped :
      (t : Pool) (k' : ℕ) (j : Job)
      → SameFlags s t
      → j.phase ≢ Phase.running
      → IsDropped k (put_job k' j t)
  unfolding put_job
  put-IsDropped t k' j same out = record {
    flagged = ground (arith, inv.flagged);
    outside = λ i e. ground (arith, lookup-insert k' k j t.jobs, inv.outside i);
  }

  same-IsDropped : (t : Pool) → SameFlags s t → IsDropped k t
  same-IsDropped t same = record {
    flagged = ground (arith, inv.flagged);
    outside = λ i e. ground (arith, inv.outside i);
  }

  run_begin-IsDropped :
      (k' : ℕ) (j : Job) → IsAt s k' j Phase.locked → IsDropped k (run_begin k' j s)
  unfolding run_begin
  run_begin-IsDropped k' j at = record {
    flagged = ground (arith, inv.flagged);
    outside = λ i e. ground (
      arith,
      lookup-insert k' k (at_phase j Phase.running) s.jobs,
      inv.flagged,
      lookup-insert k' k (at_phase j Phase.done) s.jobs,
      inv.outside i,
    );
  }

release_slot-SameFlags : (slot : Option ℕ) (s : Pool) → SameFlags s (release_slot slot s)
unfolding release_slot
release_slot-SameFlags none s = (refl, refl)
release_slot-SameFlags (some i) s = (refl, refl)

take_slot-SameFlags : (slot : Option ℕ) (s : Pool) → SameFlags s (take_slot slot s)
unfolding take_slot
take_slot-SameFlags none s = (refl, refl)
take_slot-SameFlags (some i) s = (refl, refl)

least-SameFlags : (s : Pool) → SameFlags s (get_connection_with_least_queries s).1
unfolding get_connection_with_least_queries
least-SameFlags s = ground arith

submit-IsDropped :
    {k : ℕ} {s : Pool} (t : Pool) (k' c : ℕ) (slot : Option ℕ)
    → IsDropped k s
    → SameFlags s t
    → IsDropped k (submit k' c slot t).1
unfolding submit
submit-IsDropped {k} t k' c slot inv same =
    if_both {A = Result Unit × Pool} (λ r. IsDropped k r.1) t.shutdown _ _
      (same-IsDropped (same-IsDropped inv t same) _ (release_slot-SameFlags slot t))
      (put-IsDropped inv t k' _ same (ground arith))

cancel-IsDropped : {k : ℕ} {s : Pool} (c k' : ℕ) → IsDropped k s → IsDropped k (cancel c k' s).1
unfolding cancel
cancel-IsDropped c k' inv = record {
  flagged = ground (arith, inv.flagged);
  outside = λ i e. ground (arith, inv.outside i);
}

Step-IsDropped : {k : ℕ} {s t : Pool} → Step s t → IsDropped k s → IsDropped k t
unfolding release_connection done_callback run_start run_lock run_finish run_unlock cancel_future
    execute_query execute_prepared acquire_connection
Step-IsDropped {k} {s} (acquire k' fresh) inv =
    let (r, t) = get_connection_with_least_queries s in
    continue_both (IsDropped k) r _ t (same-IsDropped inv t (least-SameFlags s))
      (λ p. put-IsDropped inv t k' _ (least-SameFlags s) (ground arith))
Step-IsDropped {s} (release k' j at) inv =
    put-IsDropped inv (release_slot (index_of j.conn s.connections) s) k'
      (at_phase j Phase.released) (release_slot-SameFlags (index_of j.conn s.connections) s)
      (ground arith)
Step-IsDropped {k} {s} (query k' fresh) inv =
    let (r, t) = get_connection_with_least_queries s in
    continue_both (IsDropped k) r (λ p. submit k' p.0 (some p.1)) t
      (same-IsDropped inv t (least-SameFlags s))
      (λ p. submit-IsDropped t k' p.0 (some p.1) inv (least-SameFlags s))
Step-IsDropped {s} (prepared k' c fresh) inv =
    submit-IsDropped (take_slot (index_of c s.connections) s) k' c (index_of c s.connections) inv
      (take_slot-SameFlags (index_of c s.connections) s)
Step-IsDropped {s} (start k' j at) inv = put-IsDropped inv s k' _ (refl, refl) (ground arith)
Step-IsDropped {s} (lock k' j at free) inv =
    put-IsDropped inv _ k' (at_phase j Phase.locked) (refl, refl) (ground arith)
Step-IsDropped (begin k' j at) inv = run_begin-IsDropped inv k' j at
Step-IsDropped (finish k' j at) inv =
    put-IsDropped inv _ k' (at_phase j Phase.leaving) (refl, refl) (ground arith)
Step-IsDropped (unlock k' j at) inv =
    put-IsDropped inv _ k' (at_phase j Phase.done) (refl, refl) (ground arith)
Step-IsDropped {s} (callback k' j at) inv =
    put-IsDropped inv (release_slot j.slot s) k' (at_phase j Phase.released)
      (release_slot-SameFlags j.slot s) (ground arith)
Step-IsDropped {s} (drop k' j at) inv =
    put-IsDropped inv s k' (at_phase j Phase.done) (refl, refl) (ground arith)
Step-IsDropped (give_up c k') inv = cancel-IsDropped c k' inv
Step-IsDropped {s} shut inv = same-IsDropped inv (record s { shutdown = true }) (refl, refl)

Reach-IsDropped : {k : ℕ} {s t : Pool} → IsDropped k s → Reach s t → IsDropped k t
Reach-IsDropped inv here = inv
Reach-IsDropped inv (next r st) = Step-IsDropped st (Reach-IsDropped inv r)

IsDropped-cancel :
    (s : Pool) (c k : ℕ)
    → ((j : Job) → lookup k s.jobs ≡ some j → j.phase ≢ Phase.running)
    → IsDropped k (cancel c k s).1
unfolding cancel
IsDropped-cancel s c k out = record {
  flagged = ground arith;
  outside = λ i e. ground (arith, out i);
}

-- A call that is cancelled while it is not inside `fn(*args)` never gets there, however the
-- threads go on.
pub cancelled_never_starts :
    (s t : Pool) (c k : ℕ)
    → ((j : Job) → lookup k s.jobs ≡ some j → j.phase ≢ Phase.running)
    → Reach (cancel c k s).1 t
    → (j : Job) → lookup k t.jobs ≡ some j
    → j.phase ≢ Phase.running
cancelled_never_starts s t c k out r = (Reach-IsDropped (IsDropped-cancel s c k out) r).outside
