-- ===== src/ArrowExport/Tests.antt =====
-- A result of five rows, read in chunks of two. The state is the rows that are left.
use ladybug_python.Base.{
  ℕ, ◌≤◌, ◌<◌, ◌≡◌, refl, arith, Bool, true, false, not, ◌==◌, nat_eq, List, [], ◌∷◌, length, take,
  drop, concat, All,
}
use ladybug_python.Base.Int.{pos}
use ladybug_python.Outcome.{ok, err, stop_iteration, runtime_error, Exec}
use ladybug_python.ArrowExport.{Native, get_as_arrow}
use ladybug_python.ArrowExport.Ends.{is_empty, IsCursor, as_arrow_gives_every_row}

abbrev five : List ℕ
five = 1 ∷ 2 ∷ 3 ∷ 4 ∷ 5 ∷ []

abbrev pop : Exec (List ℕ) ℕ
pop [] = (err (stop_iteration ""), [])
pop (x ∷ xs) = (ok x, xs)

abbrev pop_chunk : ℕ → Exec (List ℕ) (List ℕ)
pop_chunk n xs = (ok (take n xs), drop n xs)

abbrev cursor : Native (List ℕ) ℕ
cursor = record {
  has_next = λ xs. not (is_empty xs);
  get_next = pop;
  get_next_chunk = pop_chunk;
  get_schema = λ xs. (ok tt, xs);
  reset = λ xs. five;
}

pop_lem :
    (s : List ℕ) (row : ℕ) (more : List ℕ)
    → s ≡ row ∷ more
    → ((pop s).0 ≡ ok row) × ((pop s).1 ≡ more)
pop_lem [] row more e = absurd (ground (arith, e))
pop_lem (x ∷ xs) row more e = (ground (arith, e), ground (arith, e))

abbrev cursor_law : IsCursor cursor five (λ s. s)
cursor_law = record {
  has_next_lem = λ s. refl;
  get_next_lem = pop_lem;
  get_next_chunk_lem = λ s n. (refl, refl);
  get_schema_lem = λ s. refl;
  reset_lem = λ s. refl;
}

abbrev is_four : ℕ → Bool
is_four n = n == 4

in_twos :
    get_as_arrow cursor false is_four 5 (pos 2) 9 []
    ≡ (ok ((1 ∷ 2 ∷ []) ∷ (3 ∷ 4 ∷ []) ∷ (5 ∷ []) ∷ []), five)
unfolding get_as_arrow
in_twos = refl

null_key :
    (get_as_arrow cursor true is_four 5 (pos 2) 9 []).0
    ≡ err (runtime_error "Cannot convert map with null key to Arrow")
unfolding get_as_arrow
null_key = refl

as_arrow_gives_every_row_example :
    (batches : List (List ℕ)) × ((get_as_arrow cursor false is_four 5 (pos 2) 6 []).0 ≡ ok batches)
    × (concat batches ≡ five)
    × All (λ b. (0 < length b) × (length b ≤ 2)) batches
    × ((get_as_arrow cursor false is_four 5 (pos 2) 6 []).1 ≡ five)
as_arrow_gives_every_row_example =
    as_arrow_gives_every_row cursor five (λ s. s) cursor_law false is_four (pos 2) 6 [] refl
      (omega arith)
