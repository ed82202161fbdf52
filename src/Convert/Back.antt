-- ===== src/Convert/Back.antt =====
-- src_py/_lbug_capi.py: `_value_from_python` of a parameter, and `_convert_value` of what comes back.
use ladybug_python.Base.{◌<◌, ◌≡◌, true, false}
use ladybug_python.Base.Int.{ℤ, pos, negsuc, ◌≤ℤ◌}
use ladybug_python.Binding.Scalars.{Literal, Scalar, micros_of, escaped}
use ladybug_python.Convert.{Cell, is_date, is_datetime}
use ladybug_python.Convert.Rendered.{Python}
use ladybug_python.Convert
use ladybug_python.Convert.Rendered

-- What the library answers of a value that it was given, as the C API says it: a value of the type of
-- the call, with the argument of the call. Nothing is said of JSON.
abbrev pub Returns : Literal → Cell → Type 0
Returns Literal.null c = c ≡ Convert.null
Returns (Literal.bool b) c = c ≡ Convert.bool b
Returns (Literal.int8 n) c = c ≡ Convert.int n
Returns (Literal.int16 n) c = c ≡ Convert.int n
Returns (Literal.int32 n) c = c ≡ Convert.int n
Returns (Literal.int64 n) c = c ≡ Convert.int n
Returns (Literal.uint8 n) c = c ≡ Convert.int (pos n)
Returns (Literal.uint16 n) c = c ≡ Convert.int (pos n)
Returns (Literal.uint32 n) c = c ≡ Convert.int (pos n)
Returns (Literal.uint64 n) c = c ≡ Convert.int (pos n)
Returns (Literal.float bits) c = c ≡ Convert.float bits
Returns (Literal.double bits) c = c ≡ Convert.double bits
Returns (Literal.string t) c = c ≡ Convert.string t
Returns (Literal.json t) c = Unit
Returns (Literal.uuid t) c = c ≡ Convert.uuid t
Returns (Literal.date n) c = c ≡ Convert.date n
Returns (Literal.timestamp n) c = c ≡ Convert.timestamp n
Returns (Literal.timestamp_tz n) c = c ≡ Convert.timestamp_tz n
Returns (Literal.interval months days micros) c = c ≡ Convert.interval months days micros

abbrev pub Int64 : ℤ → Type 0
Int64 n = (negsuc 9223372036854775807 ≤ℤ n) × (n ≤ℤ pos 9223372036854775807)

-- The ints of 64 bits, the timedeltas in normal form whose microseconds have 64 bits, and the other
-- values but JSON parameters, of which the C API does not say as what they come back. Dates and datetimes
-- are of the years 1 to 9999.
abbrev pub IsBindable : Scalar → Type 0
IsBindable (Scalar.int n) = Int64 n
IsBindable (Scalar.timedelta days seconds micros) =
    (seconds < 86400) × (micros < 1000000) × Int64 (micros_of days seconds micros)
IsBindable (Scalar.json_parameter t) = ⊥
IsBindable (Scalar.date n) = is_date n ≡ true
IsBindable (Scalar.naive_datetime n) = is_datetime n 1000000 ≡ true
IsBindable (Scalar.aware_datetime n) = is_datetime n 1000000 ≡ true
IsBindable _ = Unit

-- The same value as it is read back: bytes come back as the text of their escapes.
abbrev pub read_back : Scalar → Python
read_back Scalar.none_ = Rendered.none_
read_back (Scalar.json_parameter t) = Rendered.str t
read_back (Scalar.bool b) = Rendered.bool b
read_back (Scalar.int n) = Rendered.int n
read_back (Scalar.float bits) = Rendered.float bits
read_back (Scalar.str t) = Rendered.str t
read_back (Scalar.bytes bs) = Rendered.str (escaped bs)
read_back (Scalar.uuid t) = Rendered.uuid t
read_back (Scalar.date n) = Rendered.date n
read_back (Scalar.naive_datetime n) = Rendered.datetime false n 1000000
read_back (Scalar.aware_datetime n) = Rendered.datetime true n 1000000
read_back (Scalar.timedelta days seconds micros) = Rendered.timedelta days seconds micros
