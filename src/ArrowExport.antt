-- ===== src/ArrowExport.antt =====
-- src_py/_lbug_capi.py, `QueryResult.getAsArrow` and `_get_all_rows_from_start`: all rows of a result,
-- in chunks or one by one. The native result is a parameter, with its iterator as the state; a chunk
-- is the list of its rows.
pub mod Ends
mod Tests
use ladybug_python.Base.{
  ℕ, zero, suc, max, Bool, true, false, ◌||◌, Option, none, some, String, List, [], ◌∷◌,
  if◌then◌else◌,
}
use ladybug_python.Base.Int.{ℤ, pos, negsuc}
use ladybug_python.Outcome.{
  Result, ok, err, PyError, runtime_error, Exec, pure, raise, raise_if, gets, modify, ◌>>=◌, ◌>>◌,
}

-- The calls on a native result.
pub record Native (S Row : Type 0) : Type 0 where
  pub has_next : S → Bool
  pub get_next : Exec S Row
  pub get_next_chunk : ℕ → Exec S (List Row)
  pub get_schema : Exec S Unit
  pub reset : S → S

-- `chunk_size`, as it is asked for, of a result with so many rows.
abbrev pub rows_per_chunk : ℤ → ℕ → ℕ
rows_per_chunk (pos (suc n)) rows = suc n
rows_per_chunk (pos zero) rows = max rows 1
rows_per_chunk (negsuc n) rows = max rows 1

module _ {S Row : Type 0} (native : Native S Row) where
  -- A loop `while self.hasNext()` that collects what a call gives, with fuel for its rounds.
  unfoldable pub collect : {A : Type 0} → Exec S A → ℕ → Exec S (List A)
  collect call zero = raise (runtime_error "out of fuel")
  collect call (suc fuel) =
      let rest = collect call fuel in
      do
        more ← gets native.has_next
        if more then (do a ← call; found ← rest; pure (a ∷ found)) else pure []

  -- `_get_all_rows_from_start`
  unfoldable pub get_all_rows_from_start : ℕ → Exec S (List Row)
  unfolding collect
  get_all_rows_from_start fuel = do
    modify native.reset
    rows ← collect native.get_next fuel
    modify native.reset
    pure rows

  abbrev pub any : (Row → Bool) → List Row → Bool
  any f [] = false
  any f (row ∷ rows) = f row || any f rows

  -- The rows of a result with a column of type MAP: none may hold a map with the key `None`.
  unfoldable pub check_maps : Bool → (Row → Bool) → ℕ → Exec S Unit
  unfolding get_all_rows_from_start
  check_maps false has_null_key fuel = pure tt
  check_maps true has_null_key fuel = do
    rows ← get_all_rows_from_start fuel
    raise_if (any has_null_key rows) (runtime_error "Cannot convert map with null key to Arrow")

  -- `finally: self.resetIterator()`
  abbrev pub finally_reset : {A : Type 0} → Exec S A → Exec S A
  finally_reset m s = let (r, s') = m s in (r, native.reset s')

  -- `getAsArrow`, for a result with or without a MAP column and so many rows.
  unfoldable pub get_as_arrow : Bool → (Row → Bool) → ℕ → ℤ → ℕ → Exec S (List (List Row))
  unfolding check_maps collect
  get_as_arrow has_map has_null_key rows chunk_size fuel = do
    check_maps has_map has_null_key fuel
    native.get_schema
    modify native.reset
    finally_reset (collect (native.get_next_chunk (rows_per_chunk chunk_size rows)) fuel)
