-- ===== src/Pool/Invariant.antt =====
-- Who holds a connection: the lock of a connection and its entry in `_running` belong to the one
-- call that is past the lock.
use ladybug_python.Base.{
  member, ℕ, ◌≡◌, refl, Bool, true, false, Option, none, some, arith, nat_eq, nat_beq, ◌⊎◌, inl,
  inr, Bool-cases, if_both,
}
use ladybug_python.Outcome.{Result, continue_both}
use ladybug_python.Pool.Slots.{index_of}
use ladybug_python.Dict.{lookup, insert, lookup-insert, lookup-without}
use ladybug_python.Pool.{
  Pool, Job, Phase, acquire_connection, execute_query, execute_prepared, run_lock, run_begin,
  run_finish, run_unlock, put_job, take_slot, at_phase, release_slot,
  get_connection_with_least_queries, submit,
}
use ladybug_python.Pool.Step.{IsAt}

abbrev pub has_lock : Phase → Bool
has_lock Phase.locked = true
has_lock Phase.running = true
has_lock Phase.leaving = true
has_lock _ = false

pub record IsOwned (s : Pool) : Type 0 where
  pub owner :
      (k : ℕ) (j : Job)
      → lookup k s.jobs ≡ some j
      → has_lock j.phase ≡ true
      → lookup j.conn s.conn_locks ≡ some k
  pub entered :
      (k : ℕ) (j : Job)
      → lookup k s.jobs ≡ some j
      → j.phase ≡ Phase.running
      → lookup j.conn s.in_run ≡ some k
  pub listed :
      (c k : ℕ)
      → lookup c s.in_run ≡ some k
      → (j : Job) × (lookup k s.jobs ≡ some j) × (j.conn ≡ c) × (j.phase ≡ Phase.running)

-- What a move leaves alone, it keeps.
abbrev pub SameLocks : Pool → Pool → Type 0
SameLocks s t = (t.jobs ≡ s.jobs) × (t.conn_locks ≡ s.conn_locks) × (t.in_run ≡ s.in_run)

module _ {s : Pool} (inv : IsOwned s) where
  -- A job that comes to a phase without the lock, from another such phase or from nothing.
  pub put_outside-IsOwned :
      (k : ℕ) (j : Job)
      → has_lock j.phase ≡ false
      → ((i : Job) → lookup k s.jobs ≡ some i → has_lock i.phase ≡ false)
      → IsOwned (record s { jobs = insert k j s.jobs })
  put_outside-IsOwned k j out before = record {
    owner = λ k' j' e h. ground (arith, lookup-insert k k' j s.jobs, inv.owner k' j');
    entered = λ k' j' e h. ground (arith, lookup-insert k k' j s.jobs, inv.entered k' j');
    listed = λ c k' e.
        let (j', found, same, phase) = inv.listed c k' e in
        (j', ground (arith, lookup-insert k k' j s.jobs, before j', found, phase), same, phase);
  }

  pub run_lock-IsOwned :
      (k : ℕ) (j : Job)
      → IsAt s k j Phase.started
      → lookup j.conn s.conn_locks ≡ none
      → IsOwned (run_lock k j s)
  unfolding run_lock
  run_lock-IsOwned k j at free = record {
    owner = λ k' j' e h. ground (
      arith,
      lookup-insert k k' (at_phase j Phase.locked) s.jobs,
      lookup-insert j.conn j'.conn k s.conn_locks,
      inv.owner k' j',
    );
    entered = λ k' j' e h.
        ground (arith, lookup-insert k k' (at_phase j Phase.locked) s.jobs, inv.entered k' j');
    listed = λ c k' e.
        let (j', found, same, phase) = inv.listed c k' e in
        (
          j',
          ground (arith, lookup-insert k k' (at_phase j Phase.locked) s.jobs, at, found, phase),
          same,
          phase,
        );
  }

  pub skip-IsOwned :
      (k : ℕ) (j : Job)
      → lookup k s.jobs ≡ some j
      → (j.phase ≡ Phase.locked) ⊎ (j.phase ≡ Phase.leaving)
      → IsOwned (run_unlock k j s)
  unfolding run_unlock
  skip-IsOwned k j at phases = record {
    owner = λ k' j' e h. ground (
      arith,
      lookup-insert k k' (at_phase j Phase.done) s.jobs,
      inv.owner k j,
      lookup-without j.conn j'.conn s.conn_locks,
      inv.owner k' j',
    );
    entered = λ k' j' e h.
        ground (arith, lookup-insert k k' (at_phase j Phase.done) s.jobs, inv.entered k' j');
    listed = λ c k' e.
        let (j', found, same, phase) = inv.listed c k' e in
        (
          j',
          ground
              (arith, lookup-insert k k' (at_phase j Phase.done) s.jobs, at, phases, found, phase),
          same,
          phase,
        );
  }

  enter-IsOwned :
      (k : ℕ) (j : Job)
      → IsAt s k j Phase.locked
      → IsOwned
          (put_job k (at_phase j Phase.running) (record s { in_run = insert j.conn k s.in_run }))
  unfolding put_job at_phase
  enter-IsOwned k j at = record {
    owner = λ k' j' e h. ground (
      arith,
      lookup-insert k k' (at_phase j Phase.running) s.jobs,
      inv.owner k j,
      inv.owner k' j',
    );
    entered = λ k' j' e h. ground (
      arith,
      lookup-insert k k' (at_phase j Phase.running) s.jobs,
      inv.owner k j,
      inv.owner k' j',
      inv.entered k' j',
      lookup-insert j.conn j'.conn k s.in_run,
    );
    listed = λ c k' e. elim (Bool-cases (nat_beq j.conn c)) [
      | inl same ↦ (
        at_phase j Phase.running,
        ground (
          arith,
          lookup-insert j.conn c k s.in_run,
          lookup-insert k k' (at_phase j Phase.running) s.jobs,
        ),
        ground arith,
        refl,
      )
      | inr other ↦
          let (j', found, same, phase) =
            inv.listed c k' (ground (arith, lookup-insert j.conn c k s.in_run)) in
          (
            j',
            ground (arith, lookup-insert k k' (at_phase j Phase.running) s.jobs, at, found, phase),
            same,
            phase,
          )
    ];
  }

  pub run_begin-IsOwned : (k : ℕ) (j : Job) → IsAt s k j Phase.locked → IsOwned (run_begin k j s)
  unfolding run_begin
  run_begin-IsOwned k j at = elim (Bool-cases (member k s.cancelled)) [
    | inl dropped ↦ rw dropped (unfold run_unlock in skip-IsOwned k j at.0 (inl at.1))
    | inr live ↦ rw live (enter-IsOwned k j at)
  ]

  pub run_finish-IsOwned : (k : ℕ) (j : Job) → IsAt s k j Phase.running → IsOwned (run_finish k j s)
  unfolding run_finish
  run_finish-IsOwned k j at = record {
    owner = λ k' j' e h. ground (
      arith,
      lookup-insert k k' (at_phase j Phase.leaving) s.jobs,
      inv.owner k j,
      inv.owner k' j',
    );
    entered = λ k' j' e h. ground (
      arith,
      lookup-insert k k' (at_phase j Phase.leaving) s.jobs,
      inv.owner k j,
      inv.owner k' j',
      inv.entered k' j',
      lookup-without j.conn j'.conn s.in_run,
    );
    listed = λ c k' e.
        let (j', found, same, phase) =
          inv.listed c k' (ground (arith, lookup-without j.conn c s.in_run)) in
        (
          j',
          ground (
            arith,
            lookup-insert k k' (at_phase j Phase.leaving) s.jobs,
            at,
            found,
            phase,
            same,
            lookup-without j.conn c s.in_run,
          ),
          same,
          phase,
        );
  }

  -- The counters, the flags and the log of interrupts have no part in it.
  pub same-IsOwned : (t : Pool) → SameLocks s t → IsOwned t
  same-IsOwned t (jobs, locks, runs) = record {
    owner = λ k j e h. ground (arith, inv.owner k j);
    entered = λ k j e h. ground (arith, inv.entered k j);
    listed = λ c k e.
        let (j, found, same, phase) = inv.listed c k (ground arith) in
        (j, ground (arith, found), same, phase);
  }

pub release_slot-SameLocks : (slot : Option ℕ) (s : Pool) → SameLocks s (release_slot slot s)
unfolding release_slot
release_slot-SameLocks none s = (refl, refl, refl)
release_slot-SameLocks (some i) s = (refl, refl, refl)

take_slot-SameLocks : (slot : Option ℕ) (s : Pool) → SameLocks s (take_slot slot s)
unfolding take_slot
take_slot-SameLocks none s = (refl, refl, refl)
take_slot-SameLocks (some i) s = (refl, refl, refl)

least-SameLocks : (s : Pool) → SameLocks s (get_connection_with_least_queries s).1
unfolding get_connection_with_least_queries
least-SameLocks s = ground arith

module _ {s : Pool} (inv : IsOwned s) (k : ℕ) (fresh : lookup k s.jobs ≡ none) where
  pub submit-IsOwned :
      (c : ℕ) (slot : Option ℕ) (t : Pool) → SameLocks s t → IsOwned (submit k c slot t).1
  unfolding submit
  submit-IsOwned c slot t same =
      if_both {A = Result Unit × Pool} (λ r. IsOwned r.1) t.shutdown _ _
        (same-IsOwned (same-IsOwned inv t same) _ (release_slot-SameLocks slot t))
        (put_outside-IsOwned (same-IsOwned inv t same) k _ refl (λ i e. absurd (ground arith)))

  pub execute_query-IsOwned : IsOwned (execute_query k s).1
  unfolding execute_query
  execute_query-IsOwned =
      let (r, t) = get_connection_with_least_queries s in
      continue_both IsOwned r (λ p. submit k p.0 (some p.1)) t
        (same-IsOwned inv t (least-SameLocks s))
        (λ p. submit-IsOwned p.0 (some p.1) t (least-SameLocks s))

  pub acquire_connection-IsOwned : IsOwned (acquire_connection k s).1
  unfolding acquire_connection
  acquire_connection-IsOwned =
      let (r, t) = get_connection_with_least_queries s in
      continue_both IsOwned r _ t (same-IsOwned inv t (least-SameLocks s)) (λ p.
        put_outside-IsOwned (same-IsOwned inv t (least-SameLocks s)) k _ refl
          (λ i e. absurd (ground (arith, least-SameLocks s))))

  pub execute_prepared-IsOwned : (c : ℕ) → IsOwned (execute_prepared k c s).1
  unfolding execute_prepared
  execute_prepared-IsOwned c =
      submit-IsOwned c (index_of c s.connections) (take_slot (index_of c s.connections) s)
        (take_slot-SameLocks (index_of c s.connections) s)
