-- ===== src/Features/Slices.antt =====
-- Both ways of reading take the same rows.
use native.Mathlib.Decide.{dec_le}
use native.Mathlib.Nat.{mod-eq_of_lt, mod-one, add-mod_right}
use ladybug_python.Base.{
  ℕ, zero, suc, ◌+◌, ◌-◌, ◌%◌, ◌<◌, ◌≤◌, ◌≡◌, refl, ap, ◌∙◌, Bool, true, false, ◌&&◌, none, some,
  nat_eq, nat_beq, ltb, leb, member, arith, if◌then◌else◌,
}
use ladybug_python.Features.{Index, all, one, slice, arange_on, scanned, queried}

abbrev in_arange : ℕ → ℕ → ℕ → ℕ → Bool
in_arange start stop step i = leb start i && ltb i stop && nat_beq ((i - start) % step) 0

mod_at : (start step i : ℕ) → 0 < step → i ≡ start → (i - start) % step ≡ 0
mod_at start step i h e =
    let z : i - start ≡ 0 = omega (arith, e) in ap (λ n. n % step) z ∙ mod-eq_of_lt h

mod_near : (start step i : ℕ) → 0 < step → i < start + step → (i - start) % step ≡ i - start
mod_near start step i pos h = mod-eq_of_lt (omega (arith, h, pos))

mod_far : (start step i : ℕ) → start + step ≤ i → (i - start) % step ≡ (i - (start + step)) % step
mod_far start step i h =
    let z : i - start ≡ (i - (start + step)) + step = omega (arith, h) in
    ap (λ n. n % step) z ∙ add-mod_right (i - (start + step)) step

in_arange-step :
    (start stop step i : ℕ)
    → 0 < step
    → in_arange start stop step i ≡ (
        if ltb start stop
        then (if nat_beq start i then true else in_arange (start + step) stop step i)
        else false)
in_arange-step start stop step i h = elim (dec_le (start + step) i) [
  | yes far ↦ ground (arith, mod_far start step i far, h)
  | no near ↦ ground (arith, mod_at start step i h, mod_near start step i h, near, h)
]

member-arange_on :
    (fuel start stop step i : ℕ)
    → 0 < step
    → stop ≤ start + fuel
    → member i (arange_on fuel start stop step) ≡ in_arange start stop step i
unfolding arange_on
member-arange_on zero start stop step i h e = ground arith
member-arange_on (suc fuel) start stop step i h e =
    let ih = member-arange_on fuel (start + step) stop step i h (omega (arith, h, e)) in
    ground (arith, ih, in_arange-step start stop step i h)

mod_one : (n : ℕ) → n % 1 ≡ 0
mod_one n = mod-one n

-- For an index that is a slice with a step above 0, or one offset, or all rows of a table: among the
-- offsets of the table, the scan reads exactly those that the query selects.
pub scan_reads_what_query_selects :
    (size : ℕ) (index : Index) (i : ℕ)
    → i < size
    → ((start stop step : ℕ) → index ≡ slice start stop (some step) → 0 < step)
    → member i (scanned size index) ≡ queried index i
unfolding scanned queried
scan_reads_what_query_selects size all i h pos =
    ground (arith, member-arange_on size 0 size 1 i, mod_one i, h)
scan_reads_what_query_selects size (one j) i h pos = ground arith
scan_reads_what_query_selects size (slice start stop none) i h pos =
    ground (arith, member-arange_on (stop - start) start stop 1 i, mod_one (i - start))
scan_reads_what_query_selects size (slice start stop (some step)) i h pos = ground (
  arith,
  member-arange_on (stop - start) start stop step i (pos start stop step refl) (omega arith),
  mod_one (i - start),
)
