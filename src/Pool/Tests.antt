-- ===== src/Pool/Tests.antt =====
-- Runs of a pool of two connections, 7 and 8, and the theorems at what they reach.
use ladybug_python.Base.{
  ℕ, zero, suc, ◌+◌, ◌<◌, ◌≤◌, ◌≡◌, ◌≢◌, ◌↔◌, refl, true, false, some, [], ◌∷◌, arith, nat_eq,
  length,
}
use ladybug_python.Dict.{lookup, insert}
use ladybug_python.Dict.Total.{total}
use ladybug_python.Outcome.{ok}
use ladybug_python.Pool.{
  Pool, Job, Phase, run_start, run_lock, run_begin, cancel, create, acquire_connection,
  execute_query,
}
use ladybug_python.Pool.Slots.{at, IsDistinct}
use ladybug_python.Pool.Step.{Reach, query, start, lock, begin, here, next}
use ladybug_python.Pool.Accounting.{holds}
use ladybug_python.Pool.Safety.{Runs, one_call_at_a_time, cancel_interrupts_its_call}
use ladybug_python.Pool.Cancelled.{cancelled_never_starts}
use ladybug_python.Pool.Load.{counters_count_work, acquire_takes_least}

abbrev pool : Pool
pool = create (7 ∷ 8 ∷ [])

abbrev job : Phase → Job
job p = record { conn = 7; slot = some 0; phase = p }

-- The query 1 on its way into `fn(*args)` on the connection 7.
abbrev busy : Pool
busy =
    run_begin 1 (job Phase.locked)
      (run_lock 1 (job Phase.started) (run_start 1 (job Phase.queued) (execute_query 1 pool).1))

busy-Reach : Reach pool busy
unfolding create execute_query run_start run_lock run_begin lookup insert
busy-Reach =
    next
      (next (next (next here (query 1 refl)) (start 1 (job Phase.queued) (refl, refl)))
        (lock 1 (job Phase.started) (refl, refl) refl))
      (begin 1 (job Phase.locked) (refl, refl))

pool-IsDistinct : IsDistinct (7 ∷ 8 ∷ [])
pool-IsDistinct zero zero h h' e = refl
pool-IsDistinct zero (suc zero) h h' e = absurd (omega arith)
pool-IsDistinct (suc zero) zero h h' e = absurd (omega arith)
pool-IsDistinct (suc zero) (suc zero) h h' e = refl
pool-IsDistinct (suc (suc i)) i' h h' e = absurd (omega arith)
pool-IsDistinct zero (suc (suc i')) h h' e = absurd (omega arith)
pool-IsDistinct (suc zero) (suc (suc i')) h h' e = absurd (omega arith)

-- The second query goes to the idle connection.
second_choice : (acquire_connection 2 busy).0 ≡ ok 8
unfolding create execute_query run_start run_lock run_begin lookup insert acquire_connection
second_choice = refl

one_call_at_a_time_example : ◌≡◌ {A = ℕ} 1 1
unfolding create execute_query run_start run_lock run_begin lookup insert
one_call_at_a_time_example =
    one_call_at_a_time (7 ∷ 8 ∷ []) busy busy-Reach 1 1 (job Phase.running) (job Phase.running) refl
      refl refl refl refl

cancel_interrupts_its_call_example :
    ((cancel 7 1 busy).0 ≡ true ↔ Runs busy 7 1)
    × ((cancel 7 1 busy).0 ≡ true
        → ((cancel 7 1 busy).1.interrupts ≡ (7, 1) ∷ busy.interrupts)
          × ((k' : ℕ) → Runs busy 7 k' → k' ≡ 1))
    × ((cancel 7 1 busy).0 ≡ false → (cancel 7 1 busy).1.interrupts ≡ busy.interrupts)
cancel_interrupts_its_call_example = cancel_interrupts_its_call (7 ∷ 8 ∷ []) busy busy-Reach 7 1

-- A query that is cancelled in the queue.
abbrev waiting : Pool
waiting = (execute_query 1 pool).1

cancelled_never_starts_example : (job Phase.started).phase ≢ Phase.running
unfolding create execute_query run_start lookup insert cancel
cancelled_never_starts_example =
    cancelled_never_starts waiting (run_start 1 (job Phase.queued) (cancel 7 1 waiting).1) 7 1
      (λ j e. ground arith) (next here (start 1 (job Phase.queued) (refl, refl)))
      (job Phase.started) refl

counters_count_work_example : at busy.counters 0 ≡ total (holds 0) busy.jobs
counters_count_work_example = counters_count_work (7 ∷ 8 ∷ []) busy pool-IsDistinct busy-Reach 0

acquire_takes_least_example :
    (i : ℕ) × ((acquire_connection 2 busy).0 ≡ ok (at busy.connections i))
    × ((n : ℕ)
        → n < length busy.connections
        → total (holds i) busy.jobs ≤ total (holds n) busy.jobs)
    × ((n : ℕ) → n < i → total (holds i) busy.jobs < total (holds n) busy.jobs)
    × (at (acquire_connection 2 busy).1.counters i ≡ total (holds i) busy.jobs + 1)
unfolding create execute_query run_start run_lock run_begin
acquire_takes_least_example =
    acquire_takes_least (7 ∷ 8 ∷ []) busy 2 pool-IsDistinct busy-Reach (omega arith)
