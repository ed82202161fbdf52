-- ===== src/Convert/Tests.antt =====
-- Values that come back from a library that returns what it is given.
use ladybug_python.Base.{◌≡◌, refl, true, false, none}
use ladybug_python.Base.Int.{pos, negsuc}
use ladybug_python.Outcome.{ok, err, type_error, value_error, overflow_error}
use ladybug_python.Text.{codes}
use ladybug_python.Binding.Scalars.{Literal}
use ladybug_python.Convert.{Cell, convert_value, convert_interval, combine}
use ladybug_python.Convert.Rendered.{Python, Parsers, parse_rendered_value, days_pattern}
use ladybug_python.Convert
use ladybug_python.Convert.Rendered

abbrev no_parsers : Parsers
no_parsers = record { literal_eval = λ t. none; to_float = λ t. none; to_int = λ t. none }

abbrev echo : Literal → Cell
echo Literal.null = Convert.null
echo (Literal.bool b) = Convert.bool b
echo (Literal.int8 n) = Convert.int n
echo (Literal.int16 n) = Convert.int n
echo (Literal.int32 n) = Convert.int n
echo (Literal.int64 n) = Convert.int n
echo (Literal.uint8 n) = Convert.int (pos n)
echo (Literal.uint16 n) = Convert.int (pos n)
echo (Literal.uint32 n) = Convert.int (pos n)
echo (Literal.uint64 n) = Convert.int (pos n)
echo (Literal.float bits) = Convert.float bits
echo (Literal.double bits) = Convert.double bits
echo (Literal.string t) = Convert.string t
echo (Literal.json t) = Convert.string t
echo (Literal.uuid t) = Convert.uuid t
echo (Literal.date n) = Convert.date n
echo (Literal.timestamp n) = Convert.timestamp n
echo (Literal.timestamp_tz n) = Convert.timestamp_tz n
echo (Literal.interval months days micros) = Convert.interval months days micros

-- A month ago is 35 days ago, and in a month 30 days.
a_month_ago : convert_interval (negsuc 0) (pos 0) (pos 0) ≡ ok (Rendered.timedelta (negsuc 34) 0 0)
unfolding convert_interval
a_month_ago = refl

-- The largest interval of the engine is too large for a timedelta.
too_many_months :
    convert_interval (pos 2147483647) (pos 0) (pos 0)
    ≡ err (overflow_error "days must have magnitude <= 999999999")
unfolding convert_interval
too_many_months = refl

-- The last microsecond of the year 9999 is rounded to the year 10000.
last_microsecond :
    convert_value no_parsers (Convert.timestamp (pos 253402300799999999))
    ≡ err (value_error "year is out of range")
unfolding convert_value
last_microsecond = refl

last_microseconds :
    convert_value no_parsers (Convert.timestamp (pos 253402300799999980))
    ≡ ok (Rendered.datetime false (pos 253402300799999980) 1000000)
unfolding convert_value
last_microseconds = refl

year_zero :
    convert_value no_parsers (Convert.date (negsuc 719162))
    ≡ err (overflow_error "date value out of range")
unfolding convert_value
year_zero = refl

int128_of_halves : combine (negsuc 0) 18446744073709551615 ≡ negsuc 0
unfolding combine
int128_of_halves = refl

-- A MAP with a LIST as a key cannot be read.
list_as_key :
    convert_value no_parsers
      (Convert.map (Convert.pair (Convert.list Convert.nil) Convert.null Convert.done))
    ≡ err (type_error "unhashable type: 'list'")
unfolding convert_value
list_as_key = refl

rendered_bool : parse_rendered_value no_parsers (codes " 'True'") ≡ Rendered.bool true
unfolding parse_rendered_value
rendered_bool = refl

-- The pattern for intervals does not find days.
three_days : days_pattern (codes "3 days") ≡ false
unfolding days_pattern
three_days = refl
