-- ===== src/Binding/Scalars.antt =====
-- src_py/_lbug_capi.py, `_value_from_python`: the values that are no containers.
use ladybug_python.Base.{
  ℕ, suc, ◌+◌, ◌-◌, ◌*◌, ◌/◌, ◌%◌, Bool, ◌&&◌, List, [], ◌∷◌, leb, ltb, nat_eq, ◌==◌, if◌then◌else◌,
}
use ladybug_python.Base.Int.{ℤ, pos, negsuc, leb_ℤ}
use ladybug_python.Text.{Text}

-- The arguments of `lbug_value_create_...`, as C has them. A float is given by its bits.
pub data Literal : Type 0 where
  null : Literal
  bool : Bool → Literal
  int8 int16 int32 int64 : ℤ → Literal
  uint8 uint16 uint32 uint64 : ℕ → Literal
  float double : ℕ → Literal
  string json uuid : Text → Literal
  date timestamp timestamp_tz : ℤ → Literal
  interval : ℤ → ℤ → ℤ → Literal

-- `ctypes.c_int64` of an int: the number between -2^63 and 2^63 - 1 that is equal to it modulo 2^64.
unfoldable pub as_int64 : ℤ → ℤ
as_int64 (pos n) =
    let r = n % 18446744073709551616 in
    if ltb r 9223372036854775808 then pos r else negsuc (18446744073709551615 - r)
as_int64 (negsuc n) =
    let r = n % 18446744073709551616 in
    if ltb r 9223372036854775808 then negsuc r else pos (18446744073709551615 - r)

-- A Python value of a type that is tested for, with what the code reads of it: the days since 1970 of
-- a date, and of a datetime the int `int(value.timestamp() * 1_000_000)`, which is floating point.
pub data Scalar : Type 0 where
  none_ : Scalar
  json_parameter : Text → Scalar
  bool : Bool → Scalar
  int : ℤ → Scalar
  float : ℕ → Scalar
  str : Text → Scalar
  bytes : List ℕ → Scalar
  uuid : Text → Scalar
  date : ℤ → Scalar
  naive_datetime aware_datetime : ℤ → Scalar
  timedelta : ℤ → ℕ → ℕ → Scalar

-- A numpy scalar by its kind, with the size in bytes.
pub data NumpyScalar : Type 0 where
  np_bool : Bool → NumpyScalar
  np_int : ℕ → ℤ → NumpyScalar
  np_uint : ℕ → ℕ → NumpyScalar
  np_float : ℕ → ℕ → NumpyScalar
  np_other : Scalar → NumpyScalar

unfoldable pub int_literal : ℤ → Literal
unfolding as_int64
int_literal value =
    if leb_ℤ (negsuc 127) value && leb_ℤ value (pos 127)
    then int8 value
    else if leb_ℤ (negsuc 32767) value && leb_ℤ value (pos 32767)
    then int16 value
    else if leb_ℤ (negsuc 2147483647) value && leb_ℤ value (pos 2147483647)
    then int32 value
    else int64 (as_int64 value)

-- `f"{digit:x}"`
abbrev pub hex_digit : ℕ → ℕ
hex_digit n = if ltb n 10 then 48 + n else 87 + n

-- `f"\\x{byte:02x}"` of each byte
unfoldable pub escaped : List ℕ → Text
escaped [] = []
escaped (b ∷ bs) = 92 ∷ 120 ∷ hex_digit (b / 16) ∷ hex_digit (b % 16) ∷ escaped bs

-- `value * k + n`
abbrev pub scaled : ℤ → ℕ → ℕ → ℤ
scaled (pos m) k n = pos (m * k + n)
scaled (negsuc m) k n =
    let below = suc m * k in if leb below n then pos (n - below) else negsuc (below - n - 1)

-- The microseconds of a `timedelta`.
unfoldable pub micros_of : ℤ → ℕ → ℕ → ℤ
micros_of days seconds microseconds = scaled (scaled days 86400 seconds) 1000000 microseconds

unfoldable pub literal : Scalar → Literal
unfolding int_literal escaped micros_of as_int64
literal none_ = null
literal (json_parameter t) = json t
literal (bool b) = Literal.bool b
literal (int n) = int_literal n
literal (float bits) = double bits
literal (str t) = string t
literal (bytes bs) = string (escaped bs)
literal (uuid t) = Literal.uuid t
literal (date days) = Literal.date days
literal (aware_datetime micros) = timestamp_tz micros
literal (naive_datetime micros) = timestamp micros
literal (timedelta days seconds microseconds) =
    interval (pos 0) (pos 0) (as_int64 (micros_of days seconds microseconds))

abbrev pub signed : ℕ → ℤ → Literal
signed size n =
    if size == 1
    then int8 n
    else if size == 2
    then int16 n
    else if size == 4
    then int32 n
    else int64 n

abbrev pub unsigned : ℕ → ℕ → Literal
unsigned size n =
    if size == 1
    then uint8 n
    else if size == 2
    then uint16 n
    else if size == 4
    then uint32 n
    else uint64 n

-- `_numpy_scalar_value_from_python`
unfoldable pub numpy_literal : NumpyScalar → Literal
unfolding literal
numpy_literal (np_bool b) = Literal.bool b
numpy_literal (np_int size n) = signed size n
numpy_literal (np_uint size n) = unsigned size n
numpy_literal (np_float size bits) = if size == 4 then Literal.float bits else double bits
numpy_literal (np_other item) = literal item
