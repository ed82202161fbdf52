-- ===== src/Pool/Step.antt =====
-- The moves that the event loop, the worker threads and the callers can make, one region at a time.
use ladybug_python.Base.{ℕ, ◌≡◌, none, some, true, nat_eq}
use ladybug_python.Dict.{lookup}
use ladybug_python.Pool.{
  Pool, Job, Phase, acquire_connection, release_connection, execute_query, execute_prepared,
  run_start, run_lock, run_begin, run_finish, run_unlock, done_callback, cancel_future, cancel,
}

-- A job `j` under the name `k` that has come to the phase `p`.
abbrev pub IsAt : Pool → ℕ → Job → Phase → Type 0
IsAt s k j p = (lookup k s.jobs ≡ some j) × (j.phase ≡ p)

pub data Step (s : Pool) : Pool → Type 0 where
  acquire : (k : ℕ) → lookup k s.jobs ≡ none → Step s (acquire_connection k s).1
  release : (k : ℕ) (j : Job) → IsAt s k j Phase.leased → Step s (release_connection k j s)
  query : (k : ℕ) → lookup k s.jobs ≡ none → Step s (execute_query k s).1
  prepared : (k c : ℕ) → lookup k s.jobs ≡ none → Step s (execute_prepared k c s).1
  start : (k : ℕ) (j : Job) → IsAt s k j Phase.queued → Step s (run_start k j s)
  lock :
      (k : ℕ) (j : Job)
      → IsAt s k j Phase.started
      → lookup j.conn s.conn_locks ≡ none
      → Step s (run_lock k j s)
  begin : (k : ℕ) (j : Job) → IsAt s k j Phase.locked → Step s (run_begin k j s)
  finish : (k : ℕ) (j : Job) → IsAt s k j Phase.running → Step s (run_finish k j s)
  unlock : (k : ℕ) (j : Job) → IsAt s k j Phase.leaving → Step s (run_unlock k j s)
  callback : (k : ℕ) (j : Job) → IsAt s k j Phase.done → Step s (done_callback k j s)
  drop : (k : ℕ) (j : Job) → IsAt s k j Phase.queued → Step s (cancel_future k j s)
  give_up : (c k : ℕ) → Step s (cancel c k s).1
  shut : Step s (record s { shutdown = true })

pub data Reach (s : Pool) : Pool → Type 0 where
  here : Reach s s
  next : {t u : Pool} → Reach s t → Step t u → Reach s u
