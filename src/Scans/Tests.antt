-- ===== src/Scans/Tests.antt =====
-- Queries that scan a table of pyarrow. The patterns find what the first query has at fixed places.
use ladybug_python.Base.{ℕ, ◌≡◌, ◌⊎◌, refl, true, false, Option, none, some, List, [], ◌∷◌}
use ladybug_python.Outcome.{Result, ok, err, runtime_error}
use ladybug_python.Dict.{Dict}
use ladybug_python.Text.{Text, codes}
use ladybug_python.Execution.{Route, Question, Session, Chain, one}
use ladybug_python.Quote.{quote_identifier}
use ladybug_python.Scans.{
  Patterns, rewrite_capi_python_scan, rewrite_local_scan_object, unsupported_scan, execute_text,
  lookup_in_frames, should_use_pybind_for_scan,
}
use ladybug_python.Scans.Rewriting.{Params, Scanned, longest_first}
use ladybug_python.Scans.Tables.{scan_tables_end}

abbrev copy_query : Text
copy_query = codes "COPY t FROM $df"

abbrev patterns : Patterns
patterns = record {
  has_from = λ q. true;
  from_name = λ q. some (codes "df", 12, 14);
  from_parameter = λ key q. some (12, 15);
  has_invalid_option = λ q. false;
  return_star = λ q. none;
  replace_column = λ c by t. t;
}

abbrev a_table : Scanned
a_table = record {
  type_module = codes "pyarrow.lib";
  create = ok tt;
  columns = ok (codes "id" ∷ []);
}

abbrev a_list : Scanned
a_list = record { type_module = codes "builtins"; create = ok tt; columns = ok [] }

abbrev parameters : Params
parameters = (some (codes "df"), a_table) ∷ []

abbrev a_question : Text → Params → Question
a_question q ps = record {
  using_pybind = false;
  is_text = true;
  has_timeout = false;
  unwinds_ranges = false;
  should_scan = false;
  no_parameters = true;
}

abbrev answered : Text → Params → Route → Result (Option Chain)
answered q ps r = ok (some (record { head = ok tt; rest = [] }))

abbrev a_session : Session
a_session = record {
  prefer_pybind = false;
  tables = 4 ∷ [];
  registered = [];
  fresh = 0;
  dropped = [];
  made = [];
}

abbrev name_of : ℕ → Text
name_of n = codes "__t"

-- A drop that the engine refuses: the query returns, and the name is forgotten.
refused_drop :
    let (r, t) =
      execute_text patterns name_of false
        (λ n. none)
        a_question
        answered
        (λ t. ok (err (runtime_error "the table is in use")))
        false
        7
        copy_query
        parameters
        a_session in
    (r ≡ ok (one 0)) × (t.tables ≡ 4 ∷ []) × (t.dropped ≡ []) × (t.made ≡ 7 ∷ [])
unfolding execute_text
refused_drop = (refl, refl, refl, refl)

scan_tables_end_example :
    let t =
      (execute_text patterns name_of false
        (λ n. none)
        a_question
        answered
        (λ t. ok (ok tt))
        false
        7
        copy_query
        parameters
        a_session).1 in
    (t.tables ≡ 4 ∷ [])
    × ((((t.dropped ≡ []) × (t.made ≡ []))) ⊎ ((t.dropped ≡ 7 ∷ []) × (t.made ≡ 7 ∷ [])))
unfolding execute_text
scan_tables_end_example =
    scan_tables_end patterns name_of false (λ n. none) a_question answered (λ t. ok (ok tt)) false 7
      copy_query parameters a_session (one 0) refl refl

copy_of_table :
    (rewrite_capi_python_scan patterns name_of false false 7 copy_query parameters a_session).0
    ≡ ok (codes "COPY t FROM (MATCH (_scan:`__t`) RETURN _scan.`id`)", [])
unfolding rewrite_capi_python_scan quote_identifier
copy_of_table = refl

scan_of_a_list :
    rewrite_capi_python_scan patterns name_of false false 7 copy_query
      ((some (codes "df"), a_list) ∷ [])
      a_session
    ≡ (err unsupported_scan, a_session)
unfolding rewrite_capi_python_scan
scan_of_a_list = refl

local_object :
    rewrite_local_scan_object patterns (λ n. some a_table) (codes "COPY t FROM df") []
    ≡ (codes "COPY t FROM $df", (some (codes "df"), a_table) ∷ [])
unfolding rewrite_local_scan_object
local_object = refl

longest_columns :
    longest_first (codes "a" ∷ codes "abc" ∷ codes "b" ∷ codes "abd" ∷ [])
    ≡ codes "abc" ∷ codes "abd" ∷ codes "a" ∷ codes "b" ∷ []
unfolding longest_first
longest_columns = refl

-- A name that the library's own frames have hides the object of the caller.
abbrev stack : List (Dict Text Scanned × Dict Text Scanned)
stack = ((codes "query", a_list) ∷ [], []) ∷ ((codes "query", a_table) ∷ [], []) ∷ []

hidden_object : lookup_in_frames (codes "query") stack ≡ some a_list
unfolding lookup_in_frames
hidden_object = refl

scan_by_name : should_use_pybind_for_scan patterns true copy_query [] ≡ true
unfolding should_use_pybind_for_scan
scan_by_name = refl
