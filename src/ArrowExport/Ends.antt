-- ===== src/ArrowExport/Ends.antt =====
-- The loops of getAsArrow end, with all rows in order.
use ladybug_python.Base.{
  ℕ, zero, suc, ◌-◌, ◌≤◌, ◌<◌, max, ◌&&◌, ◌≡◌, refl, sym, ap, ◌∙◌, arith, Bool, true, false, not,
  List, [], ◌∷◌, ◌++◌, length, take, drop, concat, All,
}
use ladybug_python.Base.Int.{ℤ, pos, negsuc}
use mathlib.Core.Path.{subst}
use ladybug_python.Outcome.{ok}
use ladybug_python.ArrowExport.{
  Native, rows_per_chunk, collect, get_all_rows_from_start, any, check_maps, get_as_arrow,
}

abbrev pub is_empty : {A : Type 0} → List A → Bool
is_empty [] = true
is_empty (x ∷ xs) = false

-- What the native result does, over the rows that its iterator has before it: a row or a chunk is
-- taken from the front, and a reset goes back to all rows.
pub record IsCursor {S Row : Type 0} (native : Native S Row) (rows : List Row)
    (ahead : S → List Row) : Type 0 where
  pub has_next_lem : (s : S) → native.has_next s ≡ not (is_empty (ahead s))
  pub get_next_lem :
      (s : S) (row : Row) (more : List Row)
      → ahead s ≡ row ∷ more
      → ((native.get_next s).0 ≡ ok row) × (ahead (native.get_next s).1 ≡ more)
  pub get_next_chunk_lem :
      (s : S) (n : ℕ)
      → ((native.get_next_chunk (suc n) s).0 ≡ ok (take (suc n) (ahead s)))
        × (ahead (native.get_next_chunk (suc n) s).1 ≡ drop (suc n) (ahead s))
  pub get_schema_lem : (s : S) → (native.get_schema s).0 ≡ ok tt
  pub reset_lem : (s : S) → ahead (native.reset s) ≡ rows

-- A list cut into parts of a size.
unfoldable pub chunks : {A : Type 0} → ℕ → ℕ → List A → List (List A)
chunks zero n xs = []
chunks (suc fuel) n [] = []
chunks (suc fuel) n (x ∷ xs) = take (suc n) (x ∷ xs) ∷ chunks fuel n (drop (suc n) (x ∷ xs))

length-drop : {A : Type 0} (n : ℕ) (xs : List A) → length (drop n xs) ≤ length xs
length-drop n [] = omega arith
length-drop zero (x ∷ xs) = omega arith
length-drop (suc n) (x ∷ xs) = omega (arith, length-drop n xs)

take-drop : {A : Type 0} (n : ℕ) (xs : List A) → take n xs ++ drop n xs ≡ xs
take-drop n [] = refl
take-drop zero (x ∷ xs) = refl
take-drop (suc n) (x ∷ xs) = ap (λ l. x ∷ l) (take-drop n xs)

length-take : {A : Type 0} (n : ℕ) (xs : List A) → length (take n xs) ≤ n
length-take n [] = omega arith
length-take zero (x ∷ xs) = omega arith
length-take (suc n) (x ∷ xs) = omega (arith, length-take n xs)

-- With fuel above the length the parts make up the list, and each has at most that many entries.
concat-chunks :
    {A : Type 0} (fuel n : ℕ) (xs : List A) → length xs < fuel → concat (chunks fuel n xs) ≡ xs
unfolding chunks
concat-chunks zero n xs h = absurd (omega arith)
concat-chunks (suc fuel) n [] h = refl
concat-chunks (suc fuel) n (x ∷ xs) h =
    ap (λ l. (x ∷ take n xs) ++ l)
      (concat-chunks fuel n (drop n xs) (omega (arith, h, length-drop n xs)))
    ∙ ap (λ l. x ∷ l) (take-drop n xs)

chunks-All :
    {A : Type 0} (fuel n : ℕ) (xs : List A)
    → All (λ c. (0 < length c) × (length c ≤ suc n)) (chunks fuel n xs)
unfolding chunks
chunks-All zero n xs = tt
chunks-All (suc fuel) n [] = tt
chunks-All (suc fuel) n (x ∷ xs) =
    ((omega arith, omega (arith, length-take n xs)), chunks-All fuel n (drop n xs))

rows_per_chunk-suc : (size : ℤ) (rows : ℕ) → (n : ℕ) × (rows_per_chunk size rows ≡ suc n)
rows_per_chunk-suc (pos (suc n)) rows = (n, refl)
rows_per_chunk-suc (pos zero) rows = (max rows 1 - 1, omega arith)
rows_per_chunk-suc (negsuc n) rows = (max rows 1 - 1, omega arith)

module _ {S Row : Type 0} (native : Native S Row) (rows : List Row) (ahead : S → List Row)
    (law : IsCursor native rows ahead) where
  collect-rows :
      (fuel : ℕ) (s : S) (xs : List Row)
      → ahead s ≡ xs
      → length xs < fuel
      → (collect native native.get_next fuel s).0 ≡ ok xs
  unfolding collect
  collect-rows zero s xs e h = absurd (omega arith)
  collect-rows (suc fuel) s [] e h = ground (arith, law.has_next_lem s, e)
  collect-rows (suc fuel) s (x ∷ xs) e h =
      let (got, left) = law.get_next_lem s x xs e in
      let rest = collect-rows fuel (native.get_next s).1 xs left (omega arith) in
      ground (arith, law.has_next_lem s, e, got, rest)

  collect-chunks :
      (fuel n : ℕ) (s : S) (xs : List Row)
      → ahead s ≡ xs
      → length xs < fuel
      → (collect native (native.get_next_chunk (suc n)) fuel s).0 ≡ ok (chunks fuel n xs)
  unfolding collect chunks
  collect-chunks zero n s xs e h = absurd (omega arith)
  collect-chunks (suc fuel) n s [] e h = ground (arith, law.has_next_lem s, e)
  collect-chunks (suc fuel) n s (x ∷ xs) e h =
      let (got, left) = law.get_next_chunk_lem s n in
      let left_ : ahead (native.get_next_chunk (suc n) s).1 ≡ drop n xs =
        left ∙ ap (drop (suc n)) e in
      let rest =
        collect-chunks fuel n (native.get_next_chunk (suc n) s).1 (drop n xs) left_
          (omega (arith, h, length-drop n xs)) in
      ground (arith, law.has_next_lem s, e, got, rest)

  check_maps-ok :
      (has_map : Bool) (has_null_key : Row → Bool) (fuel : ℕ) (s : S)
      → (has_map && any native has_null_key rows) ≡ false
      → length rows < fuel
      → (check_maps native has_map has_null_key fuel s).0 ≡ ok tt
  unfolding check_maps get_all_rows_from_start
  check_maps-ok false has_null_key fuel s a h = refl
  check_maps-ok true has_null_key fuel s a h =
      let all = collect-rows fuel (native.reset s) rows (law.reset_lem s) h in
      ground (arith, all, a)

-- A result whose iterator hands out its rows one after the other, or a chunk of them: unless a row has
-- a map with the key `None`, `getAsArrow` ends, with fuel above the number of rows, and gives the rows
-- in order, in chunks that are not empty and have at most `chunk_size` rows, or all rows where that is
-- not above 0. The iterator is at the first row afterwards.
pub as_arrow_gives_every_row :
    {S Row : Type 0} (native : Native S Row) (rows : List Row) (ahead : S → List Row)
    (law : IsCursor native rows ahead) (has_map : Bool) (has_null_key : Row → Bool) (chunk_size : ℤ)
    (fuel : ℕ) (s : S)
    → (has_map && any native has_null_key rows) ≡ false
    → length rows < fuel
    → (batches : List (List Row)) × ((get_as_arrow native has_map has_null_key
          (length rows)
          chunk_size
          fuel
          s).0
        ≡ ok batches)
      × (concat batches ≡ rows)
      × All (λ b. (0 < length b) × (length b ≤ rows_per_chunk chunk_size (length rows))) batches
      × (ahead (get_as_arrow native has_map has_null_key (length rows) chunk_size fuel s).1 ≡ rows)
unfolding get_as_arrow
as_arrow_gives_every_row native rows ahead law has_map has_null_key chunk_size fuel s a h =
    let (n, e) = rows_per_chunk-suc chunk_size (length rows) in
    let s1 = (check_maps native has_map has_null_key fuel s).1 in
    let s2 = (native.get_schema s1).1 in
    let checked_ = check_maps-ok native rows ahead law has_map has_null_key fuel s a h in
    let read =
      collect-chunks native rows ahead law fuel n (native.reset s2) rows (law.reset_lem s2) h in
    let last = (collect native (native.get_next_chunk (suc n)) fuel (native.reset s2)).1 in
    (
      chunks fuel n rows,
      rw (checked_, law.get_schema_lem s1, e, read),
      concat-chunks fuel n rows h,
      subst (λ m. All (λ b. (0 < length b) × (length b ≤ m)) (chunks fuel n rows)) (sym e)
          (chunks-All fuel n rows),
      rw (checked_, law.get_schema_lem s1) (law.reset_lem _),
    )
