-- ===== src/Pool.antt =====
-- src_py/async_connection.py: the pool of connections behind `AsyncConnection`. One function for
-- each region that runs under `self.lock` or between two waits; the regions interleave freely.
pub mod Slots
pub mod Step
pub mod Invariant
pub mod Accounting
pub mod Safety
mod Tests
pub mod Load
pub mod Cancelled
use mathlib.Core.Option
use ladybug_python.Base.{
  ℕ, suc, zero, ◌+◌, ◌-◌, Bool, true, false, Option, none, some, List, [], ◌∷◌, ◌==◌, if◌then◌else◌,
  set, get_elem?, option_beq, member, nat_beq, nat_eq, map,
}
use ladybug_python.Outcome.{
  Result, ok, err, PyError, runtime_error, value_error, Exec, pure, modify, ◌>>=◌, ◌>>◌,
}
use ladybug_python.Dict.{Dict, lookup, insert, without}
use Slots.{least_index, index_of, at}

-- Where a piece of work stands: `leased` is a connection handed out by `acquire_connection`; the
-- others follow `__run` and the done callback of its future.
pub data Phase : Type 0 where
  leased queued started locked running leaving done released : Phase

pub record Job : Type 0 where
  pub conn : ℕ
  pub slot : Option ℕ
  pub phase : Phase

-- `jobs` holds the program counters of the worker threads and of the futures' callbacks;
-- `conn_locks` says which call holds a connection's lock, and `interrupts` records the calls of
-- `conn.interrupt()`, as (connection, cancelled call).
pub record Pool : Type 0 where
  pub connections : List ℕ
  pub counters : List ℕ
  pub jobs : Dict ℕ Job
  pub conn_locks : Dict ℕ ℕ
  pub in_run : Dict ℕ ℕ
  pub cancelled : List ℕ
  pub shutdown : Bool
  pub interrupts : List (ℕ × ℕ)

-- `__init__`: one counter for each connection, all 0.
unfoldable pub create : List ℕ → Pool
create connections = record {
  connections = connections;
  counters = map (λ _. 0) connections;
  jobs = [];
  conn_locks = [];
  in_run = [];
  cancelled = [];
  shutdown = false;
  interrupts = [];
}

-- `counters[i] += 1`
unfoldable pub increment : ℕ → Pool → Pool
increment i s = record s { counters = set s.counters i (at s.counters i + 1) }

-- `__decrement_connection_counter`: the entry is lowered, and set to 0 if that made it negative.
unfoldable pub decrement_connection_counter : ℕ → Pool → Pool
decrement_connection_counter i s = record s {
  counters = set s.counters i (if at s.counters i == 0 then 0 else at s.counters i - 1);
}

-- `if conn_index is not None: self.__decrement_connection_counter(conn_index)`
unfoldable pub release_slot : Option ℕ → Pool → Pool
unfolding decrement_connection_counter
release_slot none s = s
release_slot (some i) s = decrement_connection_counter i s

-- `self.connections[conn_index], conn_index`
unfoldable pub nth_connection : ℕ → Exec Pool (ℕ × ℕ)
nth_connection i s = elim (get_elem? s.connections i) [
  | none ↦ (err (PyError.key_error "list index out of range"), s)
  | some c ↦ (ok (c, i), s)
]

-- The choice of a slot: `min` of no counters raises.
unfoldable pub least_slot : Exec Pool ℕ
least_slot s = elim (least_index s.counters) [
  | none ↦ (err (value_error "min() arg is an empty sequence"), s)
  | some i ↦ (ok i, s)
]

-- `__get_connection_with_least_queries`
unfoldable pub get_connection_with_least_queries : Exec Pool (ℕ × ℕ)
unfolding increment nth_connection least_slot least_index
get_connection_with_least_queries = do i ← least_slot; modify (increment i); nth_connection i

unfoldable pub put_job : ℕ → Job → Pool → Pool
put_job k j s = record s { jobs = insert k j s.jobs }

unfoldable pub at_phase : Job → Phase → Job
at_phase j p = record j { phase = p }

-- `acquire_connection`, by a caller whose lease is named `k`.
unfoldable pub acquire_connection : ℕ → Exec Pool ℕ
unfolding get_connection_with_least_queries put_job
acquire_connection k = do
  (c, i) ← get_connection_with_least_queries
  modify (put_job k (record { conn = c; slot = some i; phase = Phase.leased }))
  pure c

-- `release_connection`, by the caller whose lease is `k`.
unfoldable pub release_connection : ℕ → Job → Pool → Pool
unfolding release_slot put_job at_phase
release_connection k j s =
    put_job k (at_phase j Phase.released) (release_slot (index_of j.conn s.connections) s)

-- The first half of `__submit`: an executor that was shut down refuses the work, and the slot is
-- given back before the error goes on.
unfoldable pub submit : ℕ → ℕ → Option ℕ → Exec Pool Unit
unfolding release_slot put_job
submit k c slot s =
    if s.shutdown
    then (err (runtime_error "cannot schedule new futures after shutdown"), release_slot slot s)
    else (ok tt, put_job k (record { conn = c; slot = slot; phase = Phase.queued }) s)

-- `execute` of a query string, and `_prepare`.
unfoldable pub execute_query : ℕ → Exec Pool Unit
unfolding get_connection_with_least_queries submit
execute_query k = do (c, i) ← get_connection_with_least_queries; submit k c (some i)

-- `if conn_index is not None: self.connections_counter[conn_index] += 1`
unfoldable pub take_slot : Option ℕ → Pool → Pool
unfolding increment
take_slot none s = s
take_slot (some i) s = increment i s

-- `execute` of a prepared statement goes to the connection that prepared it, which need not be of
-- this pool.
unfoldable pub execute_prepared : ℕ → ℕ → Exec Pool Unit
unfolding take_slot submit
execute_prepared k c s = let slot = index_of c s.connections in submit k c slot (take_slot slot s)

-- `__run` up to the wait for the connection's lock.
unfoldable pub run_start : ℕ → Job → Pool → Pool
unfolding put_job at_phase
run_start k j s = put_job k (at_phase j Phase.started) s

-- The lock is free and the call takes it.
unfoldable pub run_lock : ℕ → Job → Pool → Pool
unfolding put_job at_phase
run_lock k j s =
    put_job k (at_phase j Phase.locked) (record s { conn_locks = insert j.conn k s.conn_locks })

-- The region under both locks: a cancelled call returns at once, any other is entered in
-- `_running` and goes on to `fn(*args)`.
unfoldable pub run_begin : ℕ → Job → Pool → Pool
unfolding put_job at_phase
run_begin k j s =
    if member k s.cancelled
    then put_job k (at_phase j Phase.done) (record s { conn_locks = without j.conn s.conn_locks })
    else put_job k (at_phase j Phase.running) (record s { in_run = insert j.conn k s.in_run })

-- The `finally` block, whether `fn` returned or raised.
unfoldable pub run_finish : ℕ → Job → Pool → Pool
unfolding put_job at_phase
run_finish k j s =
    put_job k (at_phase j Phase.leaving) (record s { in_run = without j.conn s.in_run })

unfoldable pub run_unlock : ℕ → Job → Pool → Pool
unfolding put_job at_phase
run_unlock k j s =
    put_job k (at_phase j Phase.done) (record s { conn_locks = without j.conn s.conn_locks })

-- The done callback of the future.
unfoldable pub done_callback : ℕ → Job → Pool → Pool
unfolding put_job at_phase release_slot
done_callback k j s = put_job k (at_phase j Phase.released) (release_slot j.slot s)

-- The awaiting task is cancelled while the work is still queued: the future is cancelled with it.
unfoldable pub cancel_future : ℕ → Job → Pool → Pool
unfolding put_job at_phase
cancel_future k j s = put_job k (at_phase j Phase.done) s

-- `__cancel`; true if the call is to be cancelled again after 0.05 s.
unfoldable pub cancel : ℕ → ℕ → Pool → Bool × Pool
cancel c k s =
    if option_beq nat_beq (lookup c s.in_run) (some k)
    then (true, record s { cancelled = k ∷ s.cancelled; interrupts = (c, k) ∷ s.interrupts })
    else (false, record s { cancelled = k ∷ s.cancelled })
