-- ===== src/Binding/Exact.antt =====
-- src_py/_lbug_capi.py, `_value_from_python` of an int.
use ladybug_python.Base.{ℕ, ◌≤◌, ◌≡◌, arith}
use mathlib.Core.Path.{subst}
use ladybug_python.Base.Int.{ℤ, pos, negsuc, ◌≤ℤ◌}
use ladybug_python.Binding.Scalars.{Literal, int8, int16, int32, int64, as_int64, int_literal}

-- The literals of one width, and what they hold.
abbrev pub Holds : Literal → ℤ → Type 0
Holds (int8 n) value = (n ≡ value) × (negsuc 127 ≤ℤ n) × (n ≤ℤ pos 127)
Holds (int16 n) value = (n ≡ value) × (negsuc 32767 ≤ℤ n) × (n ≤ℤ pos 32767)
Holds (int32 n) value = (n ≡ value) × (negsuc 2147483647 ≤ℤ n) × (n ≤ℤ pos 2147483647)
Holds (int64 n) value =
    (n ≡ value) × (negsuc 9223372036854775807 ≤ℤ n) × (n ≤ℤ pos 9223372036854775807)
Holds _ value = ⊥

as_int64_fits :
    (n : ℤ) → (negsuc 9223372036854775807 ≤ℤ as_int64 n) × (as_int64 n ≤ℤ pos 9223372036854775807)
unfolding as_int64
as_int64_fits (pos n) = ground arith
as_int64_fits (negsuc n) = ground arith

pub as_int64_same :
    (n : ℤ) → negsuc 9223372036854775807 ≤ℤ n → n ≤ℤ pos 9223372036854775807 → as_int64 n ≡ n
unfolding as_int64
as_int64_same (pos n) l h = ground arith
as_int64_same (negsuc n) l h = ground arith

abbrev pub bits : Literal → ℕ
bits (int8 n) = 8
bits (int16 n) = 16
bits (int32 n) = 32
bits _ = 64

pub exact_within_int64 :
    (value : ℤ)
    → negsuc 9223372036854775807 ≤ℤ value
    → value ≤ℤ pos 9223372036854775807
    → Holds (int_literal value) value × (bits (int_literal value) ≤ 64)
unfolding int_literal
exact_within_int64 value l h = ground (arith, as_int64_same value l h)

-- An int that some signed type of the engine holds is bound exactly, and with no more bits than that
-- type has.
pub int_is_bound_exactly :
    (value : ℤ) (other : Literal)
    → Holds other value
    → Holds (int_literal value) value × (bits (int_literal value) ≤ bits other)
unfolding int_literal
int_is_bound_exactly value (int8 n) h = ground (arith, h, as_int64_same value)
int_is_bound_exactly value (int16 n) h = ground (arith, h, as_int64_same value)
int_is_bound_exactly value (int32 n) h = ground (arith, h, as_int64_same value)
int_is_bound_exactly value (int64 n) (e, l, h) =
    exact_within_int64 value (subst (λ m. negsuc 9223372036854775807 ≤ℤ m) e l)
      (subst (λ m. m ≤ℤ pos 9223372036854775807) e h)
int_is_bound_exactly value _ h = absurd h
