-- ===== src/Convert.antt =====
-- src_py/_lbug_capi.py, `QueryResult._convert_value`: the values of a result as Python values.
pub mod Rendered
pub mod Back
pub mod Reader
pub mod Types
pub mod Typed
mod Tests
use ladybug_python.Base.{
  ℕ, suc, ◌+◌, ◌-◌, ◌*◌, ◌/◌, ◌%◌, String, Bool, true, false, ◌&&◌, Option, none, some, List, [],
  ◌∷◌, leb, if◌then◌else◌,
}
use ladybug_python.Base.Int.{ℤ, pos, negsuc, ◌+ℤ◌, leb_ℤ, floor_div, floor_mod}
use ladybug_python.Binding.Scalars.{scaled}
use ladybug_python.Outcome.{
  Result, ok, err, PyError, runtime_error, type_error, value_error, overflow_error, os_error,
  bind_result,
}
use ladybug_python.Text.{Text, codes}
use Rendered.{
  Python, Elements, Assignments, assign, Parsers, parse_rendered_value, is_interval_name,
  days_pattern,
}
use Rendered

-- What the C API answers of a value, by its type, with the text of the error where a call fails:
-- `failing` is a value whose getter or size fails, `no_parts` a node, rel or path of which only so many
-- parts are given, and a sequence of parts may end in a call that fails. The values of an interval are
-- its months, days and microseconds; those of INT128 the high and the low half. A FLOAT is given by the
-- bits of the double that it is read as.
mutual
  pub data Cell : Type 0 where
    null : Cell
    bool : Bool → Cell
    int : ℤ → Cell
    int128 : ℤ → ℕ → Cell
    double float : ℕ → Cell
    string uuid decimal : Text → Cell
    blob : List ℕ → Cell
    internal_id : ℕ → ℕ → Cell
    date : ℤ → Cell
    timestamp timestamp_tz timestamp_ms timestamp_sec timestamp_ns : ℤ → Cell
    interval : ℤ → ℤ → ℤ → Cell
    list : Cells → Cell
    unsized_list : Text → Cell
    node : Cell → Cell → Props → Cell
    rel : Cell → Cell → Cell → Cell → Props → Cell
    recursive_rel : Cell → Cell → Cell
    interval_struct : ℤ → ℤ → ℤ → Cell
    struct : Fields → Text → Cell
    map : Pairs → Cell
    other : Text → Cell
    failing : String → Cell
    no_parts : ℕ → String → Cell

  pub data Cells : Type 0 where
    nil : Cells
    cons : Cell → Cells → Cells
    no_element : String → Cells

  -- The name of a property, its value as an interval if it can be read as one, its value, and its
  -- text; `no_name` where the number of properties or a name cannot be read, `no_data` where the value
  -- of a name cannot.
  pub data Props : Type 0 where
    last : Props
    prop : Text → Option (ℤ × ℤ × ℤ) → Cell → Text → Props → Props
    no_name no_data : String → Props

  -- The name of a field and its value; `unread` is a name whose value the library does not give, and
  -- `no_field` a count or a name that cannot be read.
  pub data Fields : Type 0 where
    end : Fields
    field : Text → Cell → Fields → Fields
    unread : Text → Fields
    no_field : String → Fields

  pub data Pairs : Type 0 where
    done : Pairs
    pair : Cell → Cell → Pairs → Pairs
    no_key no_value : String → Pairs

-- The days from 0001-01-01 to 9999-12-31, counted from 1970-01-01.
abbrev pub is_date : ℤ → Bool
is_date days = leb_ℤ (negsuc 719161) days && leb_ℤ days (pos 2932896)

-- `dt.date(1970, 1, 1) + dt.timedelta(days=days)`
unfoldable pub date_of : ℤ → Result Python
date_of days =
    if is_date days then ok (Rendered.date days) else err (overflow_error "date value out of range")

-- The quotients of which `fromtimestamp` makes a datetime of the years 1 to 9999. The quotient is rounded
-- to a double first, so that one up to 2 ** -18 s before the first year is that year, and one of the
-- last 2 ** -16 s of the last year is the year 10000.
abbrev pub is_datetime : ℤ → ℕ → Bool
is_datetime n per_second =
    leb_ℤ (negsuc (16288473887539201 * per_second - 1)) (scaled n 262144 0)
    && leb_ℤ (scaled n 65536 1) (pos (16606973185228799 * per_second))

-- The quotients whose year the operating system gives as an `int`.
abbrev pub has_year : ℤ → ℕ → Bool
has_year n per_second =
    leb_ℤ (negsuc (67768040609740800 * per_second - 1)) n
    && leb_ℤ n (pos (67768036191676799 * per_second))

-- `dt.datetime.fromtimestamp(n / per_second, tz=dt.timezone.utc)`, of CPython with glibc.
unfoldable pub datetime_of : Bool → ℤ → ℕ → Result Python
datetime_of aware n per_second =
    if is_datetime n per_second
    then ok (Rendered.datetime aware n per_second)
    else if has_year n per_second
    then err (value_error "year is out of range")
    else err (os_error "Value too large for defined data type")

-- The days of a timedelta.
abbrev pub in_days : ℤ → Bool
in_days days = leb_ℤ (negsuc 999999998) days && leb_ℤ days (pos 999999999)

abbrev pub total_micros : ℤ → ℤ → ℤ
total_micros days micros = scaled days 86400000000 0 +ℤ micros

abbrev pub split_micros : ℤ → Python
split_micros total =
    let rest = floor_mod total 86400000000 in
    Rendered.timedelta (floor_div total 86400000000) (rest / 1000000) (rest % 1000000)

-- `dt.timedelta(days=days, microseconds=micros)`, in its normal form.
unfoldable pub timedelta_of : ℤ → ℤ → Result Python
timedelta_of days micros =
    let total = total_micros days micros in
    if in_days (floor_div total 86400000000)
    then ok (split_micros total)
    else err (overflow_error "days must have magnitude <= 999999999")

-- The days of an interval, with years of 365 days and months of 30.
abbrev pub interval_days : ℤ → ℤ → ℤ
interval_days months days = days +ℤ scaled (floor_div months 12) 365 (floor_mod months 12 * 30)

-- An interval as a timedelta.
unfoldable pub convert_interval : ℤ → ℤ → ℤ → Result Python
unfolding timedelta_of
convert_interval months days micros = timedelta_of (interval_days months days) micros

-- `(high << 64) + low`
unfoldable pub combine : ℤ → ℕ → ℤ
combine high low = scaled high 18446744073709551616 low

-- The text of a property of a node that raised a RuntimeError. The pattern of the code asks for a
-- backslash before each `d` and `s`, and `int` of what it finds is a ValueError.
unfoldable pub node_fallback : Text → Text → Result Python
unfolding is_interval_name days_pattern
node_fallback key text =
    if is_interval_name key && days_pattern text
    then err (value_error "invalid literal for int()")
    else ok (Rendered.str text)

-- `except RuntimeError`
abbrev pub or_else : Result Python → Result Python → Result Python
or_else (err (runtime_error m)) fallback = fallback
or_else r fallback = r

-- The key of a dict: a list or a dict is not hashable.
abbrev pub as_key : Python → Result Python
as_key (Rendered.list vs) = err (type_error "unhashable type: 'list'")
as_key (Rendered.dict d) = err (type_error "unhashable type: 'dict'")
as_key v = ok v

abbrev pub put : String → Python → Assignments → Assignments
put key v d = assign (Rendered.str (codes key)) v d

abbrev pub dict_of : Assignments → Result Python
dict_of d = ok (Rendered.dict d)

-- A node, a rel and a path, of the parts in the order in which they are read.
abbrev pub put_node : Python × Python → Assignments → Assignments
put_node (i, l) d = put "_ID" i (put "_LABEL" l d)

abbrev pub put_rel : Python × Python × Python × Python → Assignments → Assignments
put_rel (i, s, t, l) d = put "_ID" i (put "_SRC" s (put "_DST" t (put "_LABEL" l d)))

abbrev pub two_of : Result Python → Result Python → Result (Python × Python)
two_of id label = bind_result id λ i. bind_result label λ l. ok (i, l)

abbrev pub four_of :
    Result Python
    → Result Python
    → Result Python
    → Result Python
    → Result (Python × Python × Python × Python)
four_of id src dst label =
    bind_result id
      λ i. bind_result src λ s. bind_result dst λ t. bind_result label λ l. ok (i, s, t, l)

abbrev pub node_dict : Result Python → Result Python → Result Assignments → Result Python
node_dict id label props =
    bind_result (two_of id label) λ x. bind_result props λ d. dict_of (put_node x d)

abbrev pub rel_dict :
    Result Python
    → Result Python
    → Result Python
    → Result Python
    → Result Assignments
    → Result Python
rel_dict id src dst label props =
    bind_result (four_of id src dst label) λ x. bind_result props λ d. dict_of (put_rel x d)

-- The value of an entry is converted before its key.
abbrev pub entry_of : Result Python → Result Python → Result (Python × Python)
entry_of value key =
    bind_result value λ v. bind_result key λ k. bind_result (as_key k) λ k'. ok (k', v)

abbrev pub path_dict : Result Python → Result Python → Result Python
path_dict nodes rels =
    bind_result nodes
      λ ns. bind_result rels λ rs. dict_of (put "_NODES" ns (put "_RELS" rs Rendered.end))

module _ (parsers : Parsers) where
  abbrev pub or_parsed : Text → Option Assignments → Result Python
  or_parsed text none = ok (parse_rendered_value parsers text)
  or_parsed text (some d) = dict_of d

  abbrev pub fallback : Bool → Text → Text → Result Python
  fallback true key text = node_fallback key text
  fallback false key text = ok (parse_rendered_value parsers text)

  abbrev pub put_field : Text → Python → Option Assignments → Option Assignments
  put_field key v none = none
  put_field key v (some d) = some (assign (Rendered.str key) v d)

  unfoldable mutual
    unfolding date_of datetime_of convert_interval combine node_fallback parse_rendered_value

    pub convert_value : Cell → Result Python
    convert_value null = ok Rendered.none_
    convert_value (bool b) = ok (Rendered.bool b)
    convert_value (int n) = ok (Rendered.int n)
    convert_value (int128 high low) = ok (Rendered.int (combine high low))
    convert_value (double bits) = ok (Rendered.float bits)
    convert_value (float bits) = ok (Rendered.float bits)
    convert_value (string t) = ok (Rendered.str t)
    convert_value (uuid t) = ok (Rendered.uuid t)
    convert_value (decimal t) = ok (Rendered.decimal t)
    convert_value (blob bs) = ok (Rendered.bytes bs)
    convert_value (internal_id table offset) = dict_of (
        put "table" (Rendered.int (pos table))
          (put "offset" (Rendered.int (pos offset)) Rendered.end))
    convert_value (date days) = date_of days
    convert_value (timestamp n) = datetime_of false n 1000000
    convert_value (timestamp_tz n) = datetime_of true n 1000000
    convert_value (timestamp_ms n) = datetime_of false n 1000
    convert_value (timestamp_sec n) = datetime_of false n 1
    convert_value (timestamp_ns n) = datetime_of false n 1000000000
    convert_value (interval months days micros) = convert_interval months days micros
    convert_value (list cs) = bind_result (convert_each cs) λ vs. ok (Rendered.list vs)
    convert_value (unsized_list text) = ok (parse_rendered_value parsers text)
    convert_value (node id label ps) =
        node_dict (convert_value id) (convert_value label) (convert_props true ps)
    convert_value (rel id src dst label ps) =
        rel_dict (convert_value id) (convert_value src) (convert_value dst) (convert_value label)
          (convert_props false ps)
    convert_value (recursive_rel nodes rels) = path_dict (convert_value nodes) (convert_value rels)
    convert_value (interval_struct months days micros) = convert_interval months days micros
    convert_value (struct fs text) = bind_result (convert_fields fs) (or_parsed text)
    convert_value (map ps) = bind_result (convert_pairs ps) dict_of
    convert_value (other text) = ok (parse_rendered_value parsers text)
    convert_value (failing message) = err (runtime_error message)
    convert_value (no_parts n message) = err (runtime_error message)

    pub convert_each : Cells → Result Elements
    convert_each nil = ok Rendered.nil
    convert_each (no_element message) = err (runtime_error message)
    convert_each (cons c cs) =
        bind_result (convert_value c)
          λ v. bind_result (convert_each cs) λ vs. ok (Rendered.cons v vs)

    -- The properties of a node, or of a rel: one that can be read as an interval is one.
    pub convert_props : Bool → Props → Result Assignments
    convert_props is_node last = ok Rendered.end
    convert_props is_node (no_name message) = err (runtime_error message)
    convert_props is_node (no_data message) = err (runtime_error message)
    convert_props is_node (prop key (some (months, days, micros)) c text ps) =
        bind_result (convert_interval months days micros)
          λ i. bind_result (convert_props is_node ps) λ d. ok (assign (Rendered.str key) i d)
    convert_props is_node (prop key none c text ps) =
        bind_result (or_else (convert_value c) (fallback is_node key text))
          λ v. bind_result (convert_props is_node ps) λ d. ok (assign (Rendered.str key) v d)

    -- Nothing where a field cannot be read.
    pub convert_fields : Fields → Result (Option Assignments)
    convert_fields end = ok (some Rendered.end)
    convert_fields (unread key) = ok none
    convert_fields (no_field message) = err (runtime_error message)
    convert_fields (field key c fs) =
        bind_result (convert_value c)
          λ v. bind_result (convert_fields fs) λ d. ok (put_field key v d)

    pub convert_pairs : Pairs → Result Assignments
    convert_pairs done = ok Rendered.end
    convert_pairs (no_key message) = err (runtime_error message)
    convert_pairs (no_value message) = err (runtime_error message)
    convert_pairs (pair k c ps) =
        bind_result (entry_of (convert_value c) (convert_value k))
          λ (key, v). bind_result (convert_pairs ps) λ d. ok (assign key v d)
