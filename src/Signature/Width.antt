-- ===== src/Signature/Width.antt =====
-- `_pybind_int_signature`: the integer type that a Python int is bound as.
use ladybug_python.Base.{ℕ, ◌≤◌, ◌&&◌, arith, if◌then◌else◌}
use ladybug_python.Base.Int.{ℤ, pos, negsuc, leb_ℤ, ◌≤ℤ◌}

pub data Width : Type 0 where
  int8 uint8 int16 uint16 int32 uint32 int64 : Width

unfoldable pub pybind_int_signature : ℤ → Width
pybind_int_signature value =
    if leb_ℤ (negsuc 127) value && leb_ℤ value (pos 127)
    then int8
    else if leb_ℤ (pos 0) value && leb_ℤ value (pos 255)
    then uint8
    else if leb_ℤ (negsuc 32767) value && leb_ℤ value (pos 32767)
    then int16
    else if leb_ℤ (pos 0) value && leb_ℤ value (pos 65535)
    then uint16
    else if leb_ℤ (negsuc 2147483647) value && leb_ℤ value (pos 2147483647)
    then int32
    else if leb_ℤ (pos 0) value && leb_ℤ value (pos 4294967295)
    then uint32
    else int64

-- `int_width_order`
abbrev pub order : Width → ℕ
order int8 = 0
order uint8 = 1
order int16 = 2
order uint16 = 3
order int32 = 4
order uint32 = 5
order int64 = 6

-- The least and the greatest value of a type of the engine.
abbrev pub least : Width → ℤ
least int8 = negsuc 127
least uint8 = pos 0
least int16 = negsuc 32767
least uint16 = pos 0
least int32 = negsuc 2147483647
least uint32 = pos 0
least int64 = negsuc 9223372036854775807

abbrev pub greatest : Width → ℤ
greatest int8 = pos 127
greatest uint8 = pos 255
greatest int16 = pos 32767
greatest uint16 = pos 65535
greatest int32 = pos 2147483647
greatest uint32 = pos 4294967295
greatest int64 = pos 9223372036854775807

abbrev pub Fits : ℤ → Width → Type 0
Fits value w = (least w ≤ℤ value) × (value ≤ℤ greatest w)

-- A value within 64 bits fits the type of its signature, and no type before that one in the order.
int_signature_is_first_fit :
    (value : ℤ)
    → Fits value int64
    → Fits value (pybind_int_signature value)
      × ((w : Width) → Fits value w → order (pybind_int_signature value) ≤ order w)
unfolding pybind_int_signature
int_signature_is_first_fit value h = (
  ground (arith, h),
  λ w. elim w [
    | int8 ↦ λ f. ground arith
    | uint8 ↦ λ f. ground arith
    | int16 ↦ λ f. ground arith
    | uint16 ↦ λ f. ground arith
    | int32 ↦ λ f. ground arith
    | uint32 ↦ λ f. ground arith
    | int64 ↦ λ f. ground arith
  ],
)
