-- ===== src/Scans/Rewriting.antt =====
-- src_py/connection.py: the query text that reads a table in the place of an object.
use ladybug_python.Base.{
  ℕ, Option, none, some, List, [], ◌∷◌, ◌++◌, length, take, drop, leb, ◌==◌, if◌then◌else◌,
}
use ladybug_python.Outcome.{Result}
use ladybug_python.Text.{Text, text_eq, codes}
use ladybug_python.Quote.{quote_identifier}

-- A parameter that may be scanned: the module of its type, and what comes of making it a table and of
-- reading the names of its columns.
pub record Scanned : Type 0 where
  pub type_module : Text
  pub create : Result {0} Unit
  pub columns : Result {0} (List Text)

-- Parameters by their names; a name that is no string is `none`.
abbrev pub Params : Type 0
Params = List (Option Text × Scanned)

-- `parameters.pop(key, None)`
unfoldable pub without_key : Text → Params → Params
without_key key [] = []
without_key key ((none, v) ∷ ps) = (none, v) ∷ without_key key ps
without_key key ((some k, v) ∷ ps) =
    let rest = without_key key ps in if k == key then rest else (some k, v) ∷ rest

-- `", ".join(...)`
abbrev pub join : List Text → Text
join [] = []
join (t ∷ []) = t
join (t ∷ u ∷ ts) = t ++ codes ", " ++ join (u ∷ ts)

-- `_scan.` and the name of the column.
abbrev pub column_ref : Text → Text
column_ref column = codes "_scan." ++ quote_identifier column

abbrev pub named_ref : Text → Text
named_ref column = column_ref column ++ codes " AS " ++ quote_identifier column

-- The columns, the longest name first; names of one length keep their order.
abbrev pub insert_longest : Text → List Text → List Text
insert_longest c [] = c ∷ []
insert_longest c (d ∷ ds) =
    if leb (length d) (length c) then c ∷ d ∷ ds else d ∷ insert_longest c ds

unfoldable pub longest_first : List Text → List Text
longest_first [] = []
longest_first (c ∷ cs) = insert_longest c (longest_first cs)

-- `_replace_column_refs`, with `re.sub` as a parameter.
unfoldable pub replace_columns : (Text → Text → Text → Text) → List Text → Text → Text
replace_columns sub [] text = text
replace_columns sub (c ∷ cs) text = replace_columns sub cs (sub c (column_ref c) text)

abbrev pub each : (Text → Text) → List Text → List Text
each f [] = []
each f (c ∷ cs) = f c ∷ each f cs

abbrev pub match_table : Text → Text
match_table table = codes "MATCH (_scan:" ++ quote_identifier table ++ codes ")"

abbrev pub put_return : List Text → Text → Option (ℕ × ℕ) → Text
put_return columns rest none = rest
put_return columns rest (some (first, last)) =
    take first rest ++ codes "RETURN " ++ join (each named_ref columns) ++ drop last rest

-- `_rewrite_load_from_capi_scan`, with the places of `RETURN *` and `re.sub` as parameters.
unfoldable pub rewrite_load :
    (Text → Option (ℕ × ℕ)) → (Text → Text → Text → Text) → Text → ℕ → ℕ → Text → List Text → Text
unfolding longest_first replace_columns
rewrite_load return_star sub query first last table columns =
    let rest = drop last query in
    take first query
    ++ match_table table
    ++ replace_columns sub (longest_first columns) (put_return columns rest (return_star rest))

-- `_rewrite_copy_from_capi_scan`
unfoldable pub rewrite_copy : Text → ℕ → ℕ → Text → List Text → Text
rewrite_copy query first last table columns =
    take first query
    ++ codes "("
    ++ match_table table
    ++ codes " RETURN "
    ++ join (each column_ref columns)
    ++ codes ")"
    ++ drop last query
