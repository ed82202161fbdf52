-- ===== src/Pool/Accounting.antt =====
-- The counters of `AsyncConnection` tell how much work each connection has.
use ladybug_python.Base.{
  ℕ, zero, suc, set, ◌+◌, ◌-◌, ◌<◌, ◌≡◌, refl, ◌≢◌, sym, ap, ◌∙◌, Option, none, some, List, [], ◌∷◌,
  arith, nat_eq, nat_beq, inl, inr, ◌⊎◌, Option-cases, length, length-set, option_beq, ◌==◌,
  if_both, if◌then◌else◌,
}
use ladybug_python.Dict.{lookup, lookup-insert}
use ladybug_python.Dict.Total.{total, total-insert}
use ladybug_python.Outcome.{Result, ok, err, PyError}
use ladybug_python.Pool.{
  Pool, Job, Phase, put_job, at_phase, release_slot, take_slot, submit, execute_query,
  acquire_connection, get_connection_with_least_queries,
}
use ladybug_python.Pool.Slots.{
  index_of, at, IsDistinct, index_of-at, get_elem?-total, at-set, least_index, least_index_least,
}
use ladybug_python.Pool.Step.{IsAt}

-- 1 for a piece of work that still holds the slot `i`.
abbrev pub holds : ℕ → Job → ℕ
holds i j = elim j.phase [
  | Phase.released ↦ 0
  | _ ↦ if option_beq nat_beq j.slot (some i) then 1 else 0
]

pub record IsCounted (s : Pool) : Type 0 where
  pub lengths : length s.counters ≡ length s.connections
  pub distinct : IsDistinct s.connections
  pub placed :
      (k : ℕ) (j : Job) (i : ℕ)
      → lookup k s.jobs ≡ some j
      → j.slot ≡ some i
      → i < length s.connections
  pub lent :
      (k : ℕ) (j : Job)
      → lookup k s.jobs ≡ some j
      → j.phase ≡ Phase.leased
      → index_of j.conn s.connections ≡ j.slot
  pub counts : (i : ℕ) → at s.counters i ≡ total (holds i) s.jobs

abbrev pub SameCounts : Pool → Pool → Type 0
SameCounts s t = (t.connections ≡ s.connections) × (t.counters ≡ s.counters) × (t.jobs ≡ s.jobs)

pub same-IsCounted : {s : Pool} (t : Pool) → IsCounted s → SameCounts s t → IsCounted t
same-IsCounted t inv same = record {
  lengths = ground (arith, inv.lengths);
  distinct = rw (same.0) inv.distinct;
  placed = λ k j i e q. ground (arith, inv.placed k j i);
  lent = λ k j e h. ground (arith, inv.lent k j);
  counts = λ i. ground (arith, inv.counts i);
}

release_slot-fields :
    (slot : Option ℕ) (s : Pool)
    → ((release_slot slot s).connections ≡ s.connections)
      × ((release_slot slot s).jobs ≡ s.jobs)
      × (length (release_slot slot s).counters ≡ length s.counters)
unfolding release_slot
release_slot-fields none s = (refl, refl, refl)
release_slot-fields (some i) s = (refl, refl, length-set s.counters i _)

take_slot-fields :
    (slot : Option ℕ) (s : Pool)
    → ((take_slot slot s).connections ≡ s.connections)
      × ((take_slot slot s).jobs ≡ s.jobs)
      × (length (take_slot slot s).counters ≡ length s.counters)
unfolding take_slot
take_slot-fields none s = (refl, refl, refl)
take_slot-fields (some i) s = (refl, refl, length-set s.counters i _)

abbrev pub on_slot : Option ℕ → ℕ → ℕ
on_slot slot i = if option_beq nat_beq slot (some i) then 1 else 0

at-release_slot :
    (slot : Option ℕ) (s : Pool) (i : ℕ)
    → ((n : ℕ) → slot ≡ some n → n < length s.counters)
    → at (release_slot slot s).counters i ≡ at s.counters i - on_slot slot i
unfolding release_slot
at-release_slot none s i h = ground arith
at-release_slot (some n) s i h = ground (
  arith,
  at-set s.counters n i (if at s.counters n == 0 then 0 else at s.counters n - 1) (h n refl),
)

pub at-take_slot :
    (slot : Option ℕ) (s : Pool) (i : ℕ)
    → ((n : ℕ) → slot ≡ some n → n < length s.counters)
    → at (take_slot slot s).counters i ≡ at s.counters i + on_slot slot i
unfolding take_slot
at-take_slot none s i h = ground arith
at-take_slot (some n) s i h = ground (arith, at-set s.counters n i (at s.counters n + 1) (h n refl))

module _ {s : Pool} (inv : IsCounted s) where
  -- A job that holds its slot moves on with it.
  pub move-IsCounted :
      (k : ℕ) (j : Job) (p q : Phase)
      → IsAt s k j p
      → ((i : ℕ) → holds i (at_phase j q) ≡ holds i j)
      → (q ≡ Phase.leased → p ≡ Phase.leased)
      → IsCounted (put_job k (at_phase j q) s)
  unfolding put_job at_phase
  move-IsCounted k j p q is_at keep lease = record {
    lengths = inv.lengths;
    distinct = inv.distinct;
    placed = λ k' j' i e h.
        ground
          (arith, inv.placed k' j' i, inv.placed k j i, lookup-insert k k' (at_phase j q) s.jobs);
    lent = λ k' j' e h.
        ground (arith, inv.lent k' j', inv.lent k j, lookup-insert k k' (at_phase j q) s.jobs);
    counts =
        λ i. ground (arith, inv.counts i, keep i, total-insert (holds i) k (at_phase j q) s.jobs);
  }

  -- A job that ends gives its slot back.
  pub end-IsCounted :
      (k : ℕ) (j : Job) (p : Phase)
      → IsAt s k j p
      → p ≢ Phase.released
      → IsCounted (put_job k (at_phase j Phase.released) (release_slot j.slot s))
  unfolding put_job at_phase
  end-IsCounted k j p is_at held =
      let (conns, jobs, size) = release_slot-fields j.slot s in
      record {
        lengths = size ∙ inv.lengths ∙ ap length (sym conns);
        distinct = rw conns inv.distinct;
        placed = λ k' j' i e h. rw conns (
            ground (
              arith,
              jobs,
              inv.placed k' j' i,
              inv.placed k j i,
              lookup-insert k k' (at_phase j Phase.released) s.jobs,
            ));
        lent = λ k' j' e h. rw conns (
            ground
              (arith, jobs, inv.lent k' j', lookup-insert k k' (at_phase j Phase.released) s.jobs));
        counts = λ i. rw jobs (
            ground (
              arith,
              inv.counts i,
              total-insert (holds i) k (at_phase j Phase.released) s.jobs,
              at-release_slot j.slot s i (λ n e. rw inv.lengths (inv.placed k j n is_at.0 e)),
            ));
      }

  -- A new job on the slot that was just taken.
  new-IsCounted :
      (k : ℕ) (j : Job)
      → lookup k s.jobs ≡ none
      → ((i : ℕ) → j.slot ≡ some i → i < length s.connections)
      → j.phase ≢ Phase.released
      → (j.phase ≡ Phase.leased → index_of j.conn s.connections ≡ j.slot)
      → IsCounted (put_job k j (take_slot j.slot s))
  unfolding put_job
  new-IsCounted k j fresh inside held lease =
      let (conns, jobs, size) = take_slot-fields j.slot s in
      record {
        lengths = size ∙ inv.lengths ∙ ap length (sym conns);
        distinct = rw conns inv.distinct;
        placed = λ k' j' i e h.
            rw conns
              (ground (arith, jobs, inv.placed k' j' i, inside i, lookup-insert k k' j s.jobs));
        lent = λ k' j' e h.
            rw conns (ground (arith, jobs, inv.lent k' j', lease, lookup-insert k k' j s.jobs));
        counts = λ i. rw jobs (
            ground (
              arith,
              inv.counts i,
              total-insert (holds i) k j s.jobs,
              at-take_slot j.slot s i (λ n e. rw inv.lengths (inside n e)),
            ));
      }

-- The choice of the least loaded connection: a connection and its counter raised, or an error and
-- nothing changed.
pub get_connection-cases :
    (s : Pool)
    → length s.counters ≡ length s.connections
    → ((c : ℕ) × (i : ℕ) × (least_index s.counters ≡ some i)
        × (i < length s.connections)
        × (at s.connections i ≡ c)
        × (get_connection_with_least_queries s ≡ (ok (c, i), take_slot (some i) s)))
      ⊎ ((e : PyError) × (least_index s.counters ≡ none)
          × (get_connection_with_least_queries s ≡ (err e, s)))
unfolding get_connection_with_least_queries take_slot
get_connection-cases s same = elim (Option-cases (least_index s.counters)) [
  | inl e ↦ inr (PyError.value_error "min() arg is an empty sequence", e, ground arith)
  | inr (i, e) ↦
      let inside : i < length s.connections =
        omega (arith, same, (least_index_least s.counters i e).0) in
      inl (
        at s.connections i,
        i,
        e,
        inside,
        refl,
        ground (arith, get_elem?-total s.connections i inside),
      )
]

set_back :
    (xs : List ℕ) (i : ℕ)
    → let ys = set xs i (at xs i + 1) in set ys i (if at ys i == 0 then 0 else at ys i - 1) ≡ xs
set_back [] i = refl
set_back (x ∷ xs) zero = ground arith
set_back (x ∷ xs) (suc i) = ap (λ t. x ∷ t) (set_back xs i)

-- A slot that is taken and given back at once leaves no trace.
release_slot-take_slot :
    (slot : Option ℕ) (s : Pool) → SameCounts s (release_slot slot (take_slot slot s))
unfolding release_slot take_slot
release_slot-take_slot none s = (refl, refl, refl)
release_slot-take_slot (some i) s = (refl, set_back s.counters i, refl)

pub submit-IsCounted :
    {s : Pool} (k c : ℕ) (slot : Option ℕ)
    → IsCounted s
    → lookup k s.jobs ≡ none
    → ((i : ℕ) → slot ≡ some i → i < length s.connections)
    → IsCounted (submit k c slot (take_slot slot s)).1
unfolding submit
submit-IsCounted {s} k c slot inv fresh inside =
    if_both {A = Result Unit × Pool} (λ r. IsCounted r.1) (take_slot slot s).shutdown _ _
      (same-IsCounted _ inv (release_slot-take_slot slot s))
      (new-IsCounted inv k _ fresh inside (ground arith) (λ e. ground arith))

pub execute_query-IsCounted :
    {s : Pool} (k : ℕ) → IsCounted s → lookup k s.jobs ≡ none → IsCounted (execute_query k s).1
unfolding execute_query
execute_query-IsCounted {s} k inv fresh = elim (get_connection-cases s inv.lengths) [
  | inl (c, i, _, inside, _, e) ↦
      rw e (submit-IsCounted k c (some i) inv fresh (λ n q. ground arith))
  | inr (_, _, e) ↦ rw e inv
]

pub acquire_connection-IsCounted :
    {s : Pool} (k : ℕ) → IsCounted s → lookup k s.jobs ≡ none → IsCounted (acquire_connection k s).1
unfolding acquire_connection
acquire_connection-IsCounted {s} k inv fresh = elim (get_connection-cases s inv.lengths) [
  | inl (c, i, _, inside, here_, e) ↦ rw e (
      new-IsCounted inv k _ fresh (λ n q. ground arith) (ground arith)
        (λ _. rw (← here_) (index_of-at s.connections i inv.distinct inside)))
  | inr (_, _, e) ↦ rw e inv
]
