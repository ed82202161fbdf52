-- ===== src/Convert/Rendered.antt =====
-- src_py/_lbug_capi.py, `_parse_rendered_value`: Python values, and values that come as text.
use ladybug_python.Base.{
  ℕ, Bool, true, false, ◌&&◌, ◌||◌, Option, none, some, List, [], ◌∷◌, length, leb, nat_eq, ◌==◌,
  if◌then◌else◌, member,
}
use ladybug_python.Base.Int.{ℤ}
use ladybug_python.Text.{is_prefix, is_suffix, Text, text_eq, codes, lower, lstrip, rstrip}

-- A dict is the list of its assignments. A datetime is the quotient of two numbers that
-- `fromtimestamp` is given, aware of its time zone or not.
mutual
  pub data Python : Type 0 where
    none_ : Python
    bool : Bool → Python
    int : ℤ → Python
    float : ℕ → Python
    str uuid decimal : Text → Python
    bytes : List ℕ → Python
    date : ℤ → Python
    datetime : Bool → ℤ → ℕ → Python
    timedelta : ℤ → ℕ → ℕ → Python
    list : Elements → Python
    dict : Assignments → Python

  pub data Elements : Type 0 where
    nil : Elements
    cons : Python → Elements → Elements

  pub data Assignments : Type 0 where
    end : Assignments
    assign : Python → Python → Assignments → Assignments

-- Python's own readers: `ast.literal_eval`, `float` and `int`, `none` where they raise.
pub record Parsers : Type 0 where
  pub literal_eval : Text → Option Python
  pub to_float : Text → Option Python
  pub to_int : Text → Option Python

abbrev pub starts_with : ℕ → Text → Bool
starts_with c [] = false
starts_with c (d ∷ t) = c == d

abbrev pub ends_with : ℕ → Text → Bool
ends_with c [] = false
ends_with c (d ∷ []) = c == d
ends_with c (d ∷ e ∷ t) = ends_with c (e ∷ t)

abbrev pub without_last : Text → Text
without_last [] = []
without_last (c ∷ []) = []
without_last (c ∷ d ∷ t) = c ∷ without_last (d ∷ t)

unfoldable pub strip : Text → Text
unfolding lstrip rstrip
strip t = rstrip (lstrip t)

abbrev pub or_str : Text → Option Python → Python
or_str t none = str t
or_str t (some v) = v

abbrev pub is_quoted : Text → Bool
is_quoted t =
    leb 2 (length t)
    && ((starts_with b'\'' t && ends_with b'\'' t) || (starts_with b'"' t && ends_with b'"' t))

abbrev pub inner : Text → Text
inner [] = []
inner (c ∷ t) = without_last t

-- The text between quotes, stripped.
unfoldable pub unquoted : Text → Text
unfolding strip
unquoted t = if is_quoted t then strip (inner t) else t

abbrev pub is_sequence : Text → Bool
is_sequence t = (starts_with b'[' t && ends_with b']' t) || (starts_with b'(' t && ends_with b')' t)

unfoldable pub parse_number : Parsers → Text → Text → Python
unfolding lower
parse_number parsers value candidate =
    if member b'.' candidate || member b'e' (lower candidate)
    then or_str value (parsers.to_float candidate)
    else or_str value (parsers.to_int candidate)

unfoldable pub parse_candidate : Parsers → Text → Text → Python
unfolding lower parse_number
parse_candidate parsers value candidate =
    if is_sequence candidate
    then or_str value (parsers.literal_eval candidate)
    else if lower candidate == codes "true"
    then bool true
    else if lower candidate == codes "false"
    then bool false
    else parse_number parsers value candidate

unfoldable pub parse_rendered_value : Parsers → Text → Python
unfolding strip unquoted parse_candidate
parse_rendered_value parsers value =
    let text = strip value in
    if starts_with b'{' text && ends_with b'}' text
    then str value
    else parse_candidate parsers value (unquoted text)

-- `key.lower().endswith("interval")`
unfoldable pub is_interval_name : Text → Bool
unfolding lower
is_interval_name key = is_suffix (codes "interval") (lower key)

-- `re.search` of the pattern: a backslash, letters `d`, a backslash, letters `s` and "day". The sign
-- before it is optional.
abbrev pub after_s : Text → Bool
after_s [] = false
after_s (c ∷ t) = is_prefix (codes "day") (c ∷ t) || (c == b's' && after_s t)

abbrev pub after_d : Text → Bool
after_d [] = false
after_d (c ∷ t) = (c == b'd' && after_d t) || (c == b'\\' && after_s t)

abbrev pub pattern_at : Text → Bool
pattern_at (c ∷ d ∷ t) = c == b'\\' && d == b'd' && after_d t
pattern_at _ = false

unfoldable pub days_pattern : Text → Bool
days_pattern [] = false
days_pattern (c ∷ t) = pattern_at (c ∷ t) || days_pattern t
