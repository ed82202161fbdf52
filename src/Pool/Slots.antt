-- ===== src/Pool/Slots.antt =====
-- The choice of the least loaded connection: `counter.index(min(counter))`.
use mathlib.Core.Option
use ladybug_python.Base.{
  ℕ, zero, suc, ◌≤◌, ◌<◌, ◌≡◌, refl, ◌∙◌, ◌≢◌, Option, none, some, List, [], ◌∷◌, arith, ◌==◌,
  if◌then◌else◌, min, set, get_elem?, length, ap, nat_eq, inl, inr, Option-cases, leb, Bool-cases,
}

-- `xs[i]`, with 0 past the end, where the code has an index in range.
abbrev pub at : List ℕ → ℕ → ℕ
at [] i = 0
at (x ∷ xs) zero = x
at (x ∷ xs) (suc i) = at xs i

-- `min(xs)`, none for an empty list
unfoldable pub min_of : List ℕ → Option ℕ
min_of [] = none
min_of (x ∷ xs) = elim (min_of xs) [ none ↦ some x | some m ↦ some (min x m) ]

-- `xs.index(a)`, and the search of `__index_of`
unfoldable pub index_of : ℕ → List ℕ → Option ℕ
index_of a [] = none
index_of a (x ∷ xs) = if x == a then some 0 else Option.map suc (index_of a xs)

unfoldable pub least_index : List ℕ → Option ℕ
unfolding min_of index_of
least_index xs = elim (min_of xs) [ none ↦ none | some m ↦ index_of m xs ]

min_of-none : (xs : List ℕ) → min_of xs ≡ none → length xs ≡ 0
unfolding min_of
min_of-none [] e = refl
min_of-none (x ∷ xs) e = ground arith

min_of-le : (xs : List ℕ) (m i : ℕ) → min_of xs ≡ some m → i < length xs → m ≤ at xs i
unfolding min_of
min_of-le [] m i e h = elim h [ ]
min_of-le (x ∷ xs) m zero e h = ground arith
min_of-le (x ∷ xs) m (suc i) e h = elim (Option-cases (min_of xs)) [
  | inl q ↦ absurd (omega (arith, min_of-none xs q))
  | inr (m', q) ↦ ground (arith, min_of-le xs m' i q)
]

min_of-at : (xs : List ℕ) (m : ℕ) → min_of xs ≡ some m → (i : ℕ) × (i < length xs) × (at xs i ≡ m)
unfolding min_of
min_of-at [] m e = cc
min_of-at (x ∷ xs) m e = elim (Option-cases (min_of xs)) [
  | inl q ↦ (0, omega arith, ground arith)
  | inr (m', q) ↦ elim (Bool-cases (leb x m')) [
    | inl small ↦ (0, omega arith, ground arith)
    | inr big ↦
        let (i, below, here) = min_of-at xs m' q in (suc i, omega arith, ground (arith, here))
  ]
]

index_of_total :
    (a : ℕ) (xs : List ℕ) (i : ℕ) → i < length xs → at xs i ≡ a → (j : ℕ) × (index_of a xs ≡ some j)
unfolding index_of
index_of_total a [] i h e = elim h [ ]
index_of_total a (x ∷ xs) zero h e = (0, ground arith)
index_of_total a (x ∷ xs) (suc i) h e = elim (Bool-cases (x == a)) [
  | inl here ↦ (0, ground arith)
  | inr other ↦ let (j, q) = index_of_total a xs i (omega arith) e in (suc j, ground arith)
]

earlier_ne-cons :
    (a x : ℕ) (xs : List ℕ) (i : ℕ)
    → x ≢ a
    → ((j : ℕ) → j < i → at xs j ≢ a)
    → (j : ℕ) → j < suc i
    → at (x ∷ xs) j ≢ a
earlier_ne-cons a x xs i ne h zero below = ne
earlier_ne-cons a x xs i ne h (suc j) below = h j (omega arith)

-- The index that is found is in range, holds the value, and no earlier one does.
pub index_of_found :
    (a : ℕ) (xs : List ℕ) (i : ℕ)
    → index_of a xs ≡ some i
    → (i < length xs) × (at xs i ≡ a) × ((j : ℕ) → j < i → at xs j ≢ a)
unfolding index_of
index_of_found a [] i e = cc
index_of_found a (x ∷ xs) zero e = (omega arith, ground arith, λ j h. absurd (omega arith))
index_of_found a (x ∷ xs) (suc i) e =
    let (below, here, before) = index_of_found a xs i (ground arith) in
    (omega arith, here, earlier_ne-cons a x xs i (ground arith) before)

least_index-min_of :
    (xs : List ℕ) (i : ℕ)
    → least_index xs ≡ some i
    → (m : ℕ) × (min_of xs ≡ some m) × (index_of m xs ≡ some i)
unfolding least_index
least_index-min_of xs i e = elim (Option-cases (min_of xs)) [
  | inl q ↦ absurd (ground arith)
  | inr (m, q) ↦ (m, q, ground arith)
]

-- The chosen entry is in range, is a minimum, and is the first minimum.
pub least_index_least :
    (xs : List ℕ) (i : ℕ)
    → least_index xs ≡ some i
    → (i < length xs)
      × ((j : ℕ) → j < length xs → at xs i ≤ at xs j)
      × ((j : ℕ) → j < i → at xs i < at xs j)
least_index_least xs i e =
    let (m, q, found) = least_index-min_of xs i e in
    let (below, here, before) = index_of_found m xs i found in
    (
      below,
      λ j h. omega (arith, here, min_of-le xs m j q h),
      λ j h. omega (arith, here, before j h, min_of-le xs m j q (omega arith)),
    )

-- A choice is made unless there is no connection.
pub least_index_total : (xs : List ℕ) → 0 < length xs → (i : ℕ) × (least_index xs ≡ some i)
unfolding least_index
least_index_total xs h = elim (Option-cases (min_of xs)) [
  | inl q ↦ absurd (omega (arith, min_of-none xs q))
  | inr (m, q) ↦
      let (i, below, here) = min_of-at xs m q in
      let (j, found) = index_of_total m xs i below here in (j, ground (arith, found))
]

module _ (xs : List ℕ) where
  -- No entry stands twice.
  abbrev pub IsDistinct : Type 0
  IsDistinct = (i i' : ℕ) → i < length xs → i' < length xs → at xs i ≡ at xs i' → i ≡ i'

pub index_of-at :
    (xs : List ℕ) (i : ℕ) → IsDistinct xs → i < length xs → index_of (at xs i) xs ≡ some i
index_of-at xs i distinct h =
    let (j, e) = index_of_total (at xs i) xs i h refl in
    let (below, here, _) = index_of_found (at xs i) xs j e in
    e ∙ ap some (distinct j i below h here)

pub get_elem?-at :
    (xs : List ℕ) (i c : ℕ) → get_elem? xs i ≡ some c → (i < length xs) × (at xs i ≡ c)
get_elem?-at [] i c e = cc
get_elem?-at (x ∷ xs) zero c e = (omega arith, ground arith)
get_elem?-at (x ∷ xs) (suc i) c e = let (h, q) = get_elem?-at xs i c e in (omega arith, q)

pub get_elem?-total : (xs : List ℕ) (i : ℕ) → i < length xs → get_elem? xs i ≡ some (at xs i)
get_elem?-total [] i h = elim h [ ]
get_elem?-total (x ∷ xs) zero h = refl
get_elem?-total (x ∷ xs) (suc i) h = get_elem?-total xs i (omega arith)

pub at-set :
    (xs : List ℕ) (i j v : ℕ) → i < length xs → at (set xs i v) j ≡ (if i == j then v else at xs j)
at-set [] i j v h = elim h [ ]
at-set (x ∷ xs) zero zero v h = ground arith
at-set (x ∷ xs) zero (suc j) v h = ground arith
at-set (x ∷ xs) (suc i) zero v h = ground arith
at-set (x ∷ xs) (suc i) (suc j) v h = ground (arith, at-set xs i j v)
