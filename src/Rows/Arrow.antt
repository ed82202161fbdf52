-- ===== src/Rows/Arrow.antt =====
-- `get_as_arrow`: the number of rows in a chunk.
use native.Mathlib.Decide.{dec_le}
use native.Mathlib.Nat.{div-add-mod, mod-lt}
use ladybug_python.Base.{
  ◌%◌, ℕ, zero, suc, ◌+◌, ◌*◌, ◌/◌, ◌≤◌, ◌<◌, ◌≡◌, ◌⊎◌, inl, inr, refl, max, Option, none, some,
  arith, nat_eq, ◌==◌, if◌then◌else◌,
}
use ladybug_python.Base.Int.{ℤ, pos, negsuc, leb_ℤ}
use ladybug_python.Outcome.{Result, ok, err, zero_division_error}

abbrev pub target_n_elems : ℕ
target_n_elems = 10_000_000

-- `QueryResult.get_as_arrow` up to the native call, for a result of so many columns and rows.
unfoldable pub chunk_rows : Option ℤ → ℕ → ℕ → Result ℕ
chunk_rows none columns rows =
    if columns == 0
    then err (zero_division_error "integer division or modulo by zero")
    else ok (max (target_n_elems / columns) 10)
chunk_rows (some (negsuc n)) columns rows = ok rows
chunk_rows (some (pos zero)) columns rows = ok rows
chunk_rows (some (pos (suc n))) columns rows = ok (suc n)

-- `ArrowQueryResult.get_as_arrow`, which knows the chunk size of the execution.
unfoldable pub native_chunk_rows : ℤ → Option ℤ → ℕ → ℕ → Result ℕ
unfolding chunk_rows
native_chunk_rows native none columns rows = chunk_rows (some native) columns rows
native_chunk_rows native (some size) columns rows =
    chunk_rows (if leb_ℤ size (pos 0) then some native else some size) columns rows

within :
    (q c r : ℕ) → q * c + r ≡ target_n_elems → (max q 10 * c ≤ target_n_elems) ⊎ (max q 10 ≡ 10)
within q c r e = elim (dec_le 10 q) [ yes big ↦ inl (grind arith) | no small ↦ inr (omega arith) ]

beyond : (q c r : ℕ) → q * c + r ≡ target_n_elems → r < c → target_n_elems < suc (max q 10) * c
beyond q c r e h = grind arith

-- The adaptive size: at least 10 rows, and otherwise the most rows whose values stay within the
-- target.
pub adaptive_chunk :
    (columns rows : ℕ)
    → 0 < columns
    → (n : ℕ) × (chunk_rows none columns rows ≡ ok n)
      × (10 ≤ n)
      × ((n * columns ≤ target_n_elems) ⊎ (n ≡ 10))
      × (target_n_elems < suc n * columns)
unfolding chunk_rows
adaptive_chunk columns rows h =
    let q = target_n_elems / columns in
    (
      max q 10,
      ground arith,
      omega arith,
      within q columns (target_n_elems % columns)
          (omega (arith, div-add-mod target_n_elems columns)),
      beyond q columns (target_n_elems % columns)
          (omega (arith, div-add-mod target_n_elems columns)) (mod-lt target_n_elems h),
    )

-- A size that is given: a positive one is taken as it is, any other stands for the whole result; a
-- native result of a positive chunk size puts that in the place of a size that is missing or not
-- positive.
pub given_chunk :
    (size : ℤ) (native columns rows : ℕ)
    → (chunk_rows (some size) columns rows ≡ (elim size [ pos (suc n) ↦ ok (suc n) | _ ↦ ok rows ]))
      × (native_chunk_rows (pos (suc native)) none columns rows ≡ ok (suc native))
      × (native_chunk_rows (pos (suc native)) (some size) columns rows
          ≡ (elim size [ pos (suc n) ↦ ok (suc n) | _ ↦ ok (suc native) ]))
unfolding native_chunk_rows
given_chunk (pos zero) native columns rows = (refl, refl, refl)
given_chunk (pos (suc n)) native columns rows = (refl, refl, ground arith)
given_chunk (negsuc n) native columns rows = (refl, refl, ground arith)
