-- ===== src/Scans.antt =====
-- src_py/connection.py: queries that scan Python objects, which are made tables for the time of the
-- query. Regular expressions, frames and the native calls are parameters.
pub mod Rewriting
pub mod Tables
mod Tests
use ladybug_python.Base.{
  ℕ, ◌-◌, ◌≡◌, Bool, true, false, ◌&&◌, ◌||◌, not, Option, none, some, List, [], ◌∷◌, ◌++◌, map,
  length, take, drop, member, leb, if◌then◌else◌,
}
use ladybug_python.Outcome.{
  Result, ok, err, PyError, runtime_error, Exec, pure, raise, lift, gets, modify, ◌>>=◌, ◌>>◌,
}
use ladybug_python.Dict.{Dict, lookup}
use ladybug_python.Text.{Text, text_eq, codes, is_prefix, lstrip}
use ladybug_python.Execution.{Route, Question, Session, DropAnswer, Chain, Executed, execute}
use ladybug_python.Quote.{quote_identifier}
use Rewriting.{Params, Scanned, rewrite_load, rewrite_copy, without_key}

-- `re.search` of the patterns, with the places where a match starts and ends.
pub record Patterns : Type 0 where
  pub has_from : Text → Bool
  pub from_name : Text → Option (Text × ℕ × ℕ)
  pub from_parameter : Text → Text → Option (ℕ × ℕ)
  pub has_invalid_option : Text → Bool
  pub return_star : Text → Option (ℕ × ℕ)
  pub replace_column : Text → Text → Text → Text

-- `str.upper()` of the letters of ASCII
abbrev pub upper_char : ℕ → ℕ
upper_char c = if leb b'a' c && leb c b'z' then c - 32 else c

abbrev pub is_load : Text → Bool
is_load query = is_prefix (codes "LOAD ") (map upper_char (lstrip query))

unfoldable pub has_scan_pattern : Patterns → Text → Bool
unfolding lstrip
has_scan_pattern re query =
    (is_load query || is_prefix (codes "COPY ") (map upper_char (lstrip query)))
    && re.has_from query

unfoldable pub is_python_scan_object : Scanned → Bool
is_python_scan_object v =
    is_prefix (codes "pandas") v.type_module
    || is_prefix (codes "polars") v.type_module
    || is_prefix (codes "pyarrow") v.type_module

-- `_lookup_python_object_in_frames`: the locals and globals of each frame, the innermost first.
unfoldable pub lookup_in_frames :
    Text → List (Dict Text Scanned × Dict Text Scanned) → Option Scanned
unfolding lookup
lookup_in_frames name [] = none
lookup_in_frames name ((locals, globals) ∷ outer) = elim (lookup name locals) [
  | some v ↦ some v
  | none ↦ elim (lookup name globals) [ some v ↦ some v | none ↦ lookup_in_frames name outer ]
]

abbrev pub is_some : {A : Type 0} → Option A → Bool
is_some none = false
is_some (some x) = true

abbrev pub any_scanned : Patterns → Text → Params → Bool
any_scanned re query [] = false
any_scanned re query ((none, v) ∷ ps) = any_scanned re query ps
any_scanned re query ((some key, v) ∷ ps) =
    is_some (re.from_parameter key query) || is_python_scan_object v || any_scanned re query ps

unfoldable pub should_use_pybind_for_scan : Patterns → Bool → Text → Params → Bool
unfolding has_scan_pattern is_python_scan_object
should_use_pybind_for_scan re has_module query ps =
    has_module
    && has_scan_pattern re query
    && (is_some (re.from_name query) || any_scanned re query ps)

-- The object that a name of the query stands for becomes its parameter.
abbrev pub as_parameter : Text → Params → Text × ℕ × ℕ → Option Scanned → Text × Params
as_parameter query ps (name, first, last) none = (query, ps)
as_parameter query ps (name, first, last) (some v) =
    if is_python_scan_object v
    then ((take first query ++ b'$' ∷ name) ++ drop last query, (some name, v) ∷ [])
    else (query, ps)

abbrev pub local_match :
    (Text → Option Scanned) → Text → Params → Option (Text × ℕ × ℕ) → Text × Params
local_match frames query ps none = (query, ps)
local_match frames query ps (some (name, first, last)) =
    as_parameter query ps (name, first, last) (frames name)

unfoldable pub rewrite_local_scan_object :
    Patterns → (Text → Option Scanned) → Text → Params → Text × Params
unfolding has_scan_pattern is_python_scan_object
rewrite_local_scan_object re frames query (p ∷ ps) = (query, p ∷ ps)
rewrite_local_scan_object re frames query [] =
    if has_scan_pattern re query
    then local_match frames query [] (re.from_name query)
    else (query, [])

-- `_capi_scan_tables.add(table_name)`
abbrev pub add : ℕ → List ℕ → List ℕ
add t ts = if member t ts then ts else t ∷ ts

-- `_create_capi_scan_table`, with the number that the name is made of.
unfoldable pub create_scan_table : ℕ → Scanned → Exec Session (List Text)
create_scan_table name v = do
  lift v.create
  modify (λ s. record s { made = name ∷ s.made })
  modify (λ s. record s { tables = add name s.tables })
  lift v.columns

-- `if match is None: continue`
abbrev pub at_match :
    Option (ℕ × ℕ)
    → Exec Session (Text × Params)
    → (ℕ × ℕ → Exec Session (Text × Params))
    → Exec Session (Text × Params)
at_match none other found = other
at_match (some place) other found = found place

abbrev pub unsupported_scan : PyError
unsupported_scan =
    runtime_error
      "Binder exception: Trying to scan from unsupported data type INT8[]. The only parameter types that can be scanned from are pandas/polars dataframes and pyarrow tables."

-- `scan_tables_to_drop`: the tables after, less those before.
abbrev pub difference : List ℕ → List ℕ → List ℕ
difference [] before = []
difference (t ∷ ts) before =
    let rest = difference ts before in if member t before then rest else t ∷ rest

module _ (re : Patterns) (table_name : ℕ → Text) (read_only : Bool) where
  abbrev pub rewritten : Text → ℕ × ℕ → Text → List Text → Text
  rewritten query (first, last) table columns =
      if is_load query
      then rewrite_load re.return_star re.replace_column query
          (length query - length (lstrip query)) last table columns
      else rewrite_copy query first last table columns

  -- What follows a match of the parameter.
  unfoldable pub scan_parameter :
      ℕ → Text → Params → Text → Scanned → ℕ × ℕ → Exec Session (Text × Params)
  unfolding is_python_scan_object create_scan_table rewrite_load rewrite_copy without_key
  scan_parameter name query ps key v (first, last) =
      if not (is_python_scan_object v)
      then raise unsupported_scan
      else if read_only
      then pure (query, ps)
      else if re.has_invalid_option (drop last query)
      then raise (runtime_error "INVALID_OPTION Option not recognized by pyArrow scanner.")
      else (create_scan_table name v >>= λ columns.
          pure (rewritten query (first, last) (table_name name) columns, without_key key ps))

  -- The loop over the parameters, which ends at the first one that the query scans.
  unfoldable pub scan_each : ℕ → Text → Params → Params → Exec Session (Text × Params)
  unfolding scan_parameter
  scan_each name query ps [] = pure (query, ps)
  scan_each name query ps ((none, v) ∷ rest) = scan_each name query ps rest
  scan_each name query ps ((some key, v) ∷ rest) =
      at_match (re.from_parameter key query) (scan_each name query ps rest)
        (scan_parameter name query ps key v)

  unfoldable pub rewrite_capi_python_scan : Bool → ℕ → Text → Params → Exec Session (Text × Params)
  unfolding has_scan_pattern scan_each
  rewrite_capi_python_scan using_pybind name query ps =
      if using_pybind || not (has_scan_pattern re query)
      then pure (query, ps)
      else scan_each name query ps ps

  -- `execute` of a text: `ask` says what it is asked then of the query as it is rewritten, and `call`
  -- what the backends answer.
  unfoldable pub execute_text :
      (Text → Option Scanned)
      → (Text → Params → Question)
      → (Text → Params → Route → Result (Option Chain))
      → (ℕ → DropAnswer)
      → Bool
      → ℕ
      → Text
      → Params
      → Exec Session Executed
  unfolding rewrite_local_scan_object rewrite_capi_python_scan execute
  execute_text frames ask call drop using_pybind name query ps =
      let (query', ps') = rewrite_local_scan_object re frames query ps in
      do
        before ← gets (λ s. s.tables)
        (query'', ps'') ← rewrite_capi_python_scan using_pybind name query' ps'
        after ← gets (λ s. s.tables)
        execute (call query'' ps'') drop (ask query'' ps'') (difference after before)
