-- ===== src/Pool/Load.antt =====
-- Over every interleaving: a counter is the number of pieces of work that hold its slot, and the
-- next query goes where that number is least.
use ladybug_python.Base.{
  member, ℕ, zero, suc, ◌+◌, ◌<◌, ◌≤◌, ◌≡◌, refl, ap, true, none, some, List, [], ◌∷◌, arith,
  nat_eq, inl, inr, length, if_both, map,
}
use ladybug_python.Dict.{lookup}
use ladybug_python.Dict.Total.{total}
use ladybug_python.Outcome.{ok}
use ladybug_python.Pool.{
  Pool, Job, Phase, run_start, run_lock, run_begin, run_finish, run_unlock, cancel_future, cancel,
  create, release_connection, done_callback, execute_prepared, acquire_connection,
}
use ladybug_python.Pool.Slots.{
  index_of, at, IsDistinct, index_of_found, least_index_least, least_index_total,
}
use ladybug_python.Pool.Step.{
  IsAt, Step, acquire, release, query, prepared, start, lock, begin, finish, unlock, callback, drop,
  give_up, shut, Reach, here, next,
}
use ladybug_python.Pool.Accounting.{
  holds, IsCounted, same-IsCounted, move-IsCounted, end-IsCounted, submit-IsCounted,
  execute_query-IsCounted, acquire_connection-IsCounted, get_connection-cases, at-take_slot,
}

module _ {s : Pool} (inv : IsCounted s) where
  execute_prepared-IsCounted :
      (k c : ℕ) → lookup k s.jobs ≡ none → IsCounted (execute_prepared k c s).1
  unfolding execute_prepared
  execute_prepared-IsCounted k c fresh =
      submit-IsCounted k c (index_of c s.connections) inv fresh
        (λ i e. (index_of_found c s.connections i e).0)

  release_connection-IsCounted :
      (k : ℕ) (j : Job) → IsAt s k j Phase.leased → IsCounted (release_connection k j s)
  unfolding release_connection
  release_connection-IsCounted k j is_at =
      rw (inv.lent k j is_at.0 is_at.1) (end-IsCounted inv k j Phase.leased is_at (ground arith))

  run_begin-IsCounted : (k : ℕ) (j : Job) → IsAt s k j Phase.locked → IsCounted (run_begin k j s)
  unfolding run_begin
  run_begin-IsCounted k j is_at =
      if_both IsCounted (member k s.cancelled) _ _
        (move-IsCounted (same-IsCounted _ inv (refl, refl, refl)) k j Phase.locked Phase.done is_at
          (λ i. ground arith) (λ e. cc))
        (move-IsCounted (same-IsCounted _ inv (refl, refl, refl)) k j Phase.locked Phase.running
          is_at (λ i. ground arith) (λ e. cc))

  cancel-IsCounted : (c k : ℕ) → IsCounted (cancel c k s).1
  unfolding cancel
  cancel-IsCounted c k = same-IsCounted _ inv (ground arith)

Step-IsCounted : {s t : Pool} → Step s t → IsCounted s → IsCounted t
unfolding run_start run_lock run_finish run_unlock done_callback cancel_future
Step-IsCounted (acquire k fresh) inv = acquire_connection-IsCounted k inv fresh
Step-IsCounted (release k j is_at) inv = release_connection-IsCounted inv k j is_at
Step-IsCounted (query k fresh) inv = execute_query-IsCounted k inv fresh
Step-IsCounted (prepared k c fresh) inv = execute_prepared-IsCounted inv k c fresh
Step-IsCounted (start k j is_at) inv =
    move-IsCounted inv k j Phase.queued Phase.started is_at (λ i. ground arith) (λ e. cc)
Step-IsCounted (lock k j is_at free) inv =
    move-IsCounted (same-IsCounted _ inv (refl, refl, refl)) k j Phase.started Phase.locked is_at
      (λ i. ground arith) (λ e. cc)
Step-IsCounted (begin k j is_at) inv = run_begin-IsCounted inv k j is_at
Step-IsCounted (finish k j is_at) inv =
    move-IsCounted (same-IsCounted _ inv (refl, refl, refl)) k j Phase.running Phase.leaving is_at
      (λ i. ground arith) (λ e. cc)
Step-IsCounted (unlock k j is_at) inv =
    move-IsCounted (same-IsCounted _ inv (refl, refl, refl)) k j Phase.leaving Phase.done is_at
      (λ i. ground arith) (λ e. cc)
Step-IsCounted (callback k j is_at) inv = end-IsCounted inv k j Phase.done is_at (ground arith)
Step-IsCounted (drop k j is_at) inv =
    move-IsCounted inv k j Phase.queued Phase.done is_at (λ i. ground arith) (λ e. cc)
Step-IsCounted (give_up c k) inv = cancel-IsCounted inv c k
Step-IsCounted {s} shut inv = same-IsCounted (record s { shutdown = true }) inv (refl, refl, refl)

at-zeros : (cs : List ℕ) (i : ℕ) → at (map (λ _. 0) cs) i ≡ 0
at-zeros [] i = refl
at-zeros (c ∷ cs) zero = refl
at-zeros (c ∷ cs) (suc i) = at-zeros cs i

length-zeros : (cs : List ℕ) → length {A = ℕ} (map (λ _. 0) cs) ≡ length cs
length-zeros [] = refl
length-zeros (c ∷ cs) = ap suc (length-zeros cs)

create-IsCounted : (cs : List ℕ) → IsDistinct cs → IsCounted (create cs)
unfolding create lookup total
create-IsCounted cs distinct = record {
  lengths = length-zeros cs;
  distinct = distinct;
  placed = λ k j i e h. absurd (cc);
  lent = λ k j e h. absurd (cc);
  counts = λ i. at-zeros cs i;
}

Reach-IsCounted : {s t : Pool} → IsCounted s → Reach s t → IsCounted t
Reach-IsCounted inv here = inv
Reach-IsCounted inv (next r st) = Step-IsCounted st (Reach-IsCounted inv r)

-- In every state that a new pool over distinct connections can come to, each counter is the number
-- of leases and queries that have taken its slot and not given it back.
pub counters_count_work :
    (cs : List ℕ) (s : Pool)
    → IsDistinct cs
    → Reach (create cs) s
    → (i : ℕ) → at s.counters i ≡ total (holds i) s.jobs
counters_count_work cs s distinct r = (Reach-IsCounted (create-IsCounted cs distinct) r).counts

acquire_takes_least_of :
    {s : Pool}
    → IsCounted s
    → (k : ℕ) → 0 < length s.connections
    → (i : ℕ) × ((acquire_connection k s).0 ≡ ok (at s.connections i))
      × ((n : ℕ) → n < length s.connections → total (holds i) s.jobs ≤ total (holds n) s.jobs)
      × ((n : ℕ) → n < i → total (holds i) s.jobs < total (holds n) s.jobs)
      × (at (acquire_connection k s).1.counters i ≡ total (holds i) s.jobs + 1)
unfolding acquire_connection
acquire_takes_least_of {s} inv k some_conn = elim (get_connection-cases s inv.lengths) [
  | inl (c, i, least, inside, here_, e) ↦
      let (_, smallest, first) = least_index_least s.counters i least in
      (
        i,
        ground (arith, e, here_),
        λ n h.
            omega (arith, inv.counts i, inv.counts n, smallest n (omega (arith, h, inv.lengths))),
        λ n h. omega (arith, inv.counts i, inv.counts n, first n h),
        rw e (
            ground (
              arith,
              inv.counts i,
              at-take_slot (some i) s i (λ n q. ground (arith, inv.lengths, inside)),
            )),
      )
  | inr (e, none_, q) ↦
      let (i, found) = least_index_total s.counters (omega (arith, inv.lengths)) in
      absurd (ground (arith, found, none_))
]

-- In every such state of a pool with a connection, `acquire_connection` returns a connection with
-- the least work, the first one of those, and raises its counter by one.
pub acquire_takes_least :
    (cs : List ℕ) (s : Pool) (k : ℕ)
    → IsDistinct cs
    → Reach (create cs) s
    → 0 < length s.connections
    → (i : ℕ) × ((acquire_connection k s).0 ≡ ok (at s.connections i))
      × ((n : ℕ) → n < length s.connections → total (holds i) s.jobs ≤ total (holds n) s.jobs)
      × ((n : ℕ) → n < i → total (holds i) s.jobs < total (holds n) s.jobs)
      × (at (acquire_connection k s).1.counters i ≡ total (holds i) s.jobs + 1)
acquire_takes_least cs s k distinct r some_conn =
    acquire_takes_least_of (Reach-IsCounted (create-IsCounted cs distinct) r) k some_conn
