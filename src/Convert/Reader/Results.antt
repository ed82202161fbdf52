-- ===== src/Convert/Reader/Results.antt =====
-- src_py/_lbug_capi.py, `QueryResult`: what is asked of a result, until it is closed.
use ladybug_python.Base.{
  ℕ, suc, Bool, Option, none, some, String, List, [], ◌∷◌, ◌++◌, if◌then◌else◌,
}
use ladybug_python.Outcome.{Result, runtime_error, Exec}
use ladybug_python.Text.{Text, codes}
use ladybug_python.Convert.{Cells}
use ladybug_python.Convert.Rendered.{Elements, Parsers}
use ladybug_python.Convert.Reader.{
  Memory, pure, raise, ◌>>=◌, ◌>>◌, scoped, obtain, adopt, read_each,
}

-- What the library says of a logical type: its name; a LIST or an ARRAY with the type of its elements, and
-- the size of the ARRAY as text; `no_child` a LIST or an ARRAY whose child type is not given, and
-- `no_size` an ARRAY whose child type is given and whose size is not.
pub data DataType : Type 0 where
  named : Text → DataType
  list_of : DataType → DataType
  array_of : DataType → Text → DataType
  no_child no_size : String → DataType

-- What the library answers: a row, or the error in its place; the names of the columns, or their types,
-- and the error that ends them; a text.
pub data Answer : Type 0 where
  row : Cells → Answer
  no_row : String → Answer
  names : List Text → Option String → Answer
  types : List DataType → Option String → Answer
  message : Text → Answer

pub data Reply : Type 0 where
  values : Elements → Reply
  texts : List Text → Reply

-- The loop of `getColumnNames`
unfoldable pub read_names : List Text → Option String → Exec Memory (List Text)
unfolding pure raise adopt ◌>>=◌
read_names [] none = pure []
read_names [] (some m) = raise (runtime_error m)
read_names (t ∷ ts) end = adopt >> (read_names ts end >>= λ rest. pure (t ∷ rest))

-- `_logical_type_to_str`, with a `finally` for the child type that is not there yet where the size of an
-- ARRAY cannot be read.
unfoldable pub read_data_type : DataType → Exec Memory Text
unfolding pure raise obtain ◌>>=◌ scoped
read_data_type (named t) = pure t
read_data_type (no_child m) = raise (runtime_error m)
read_data_type (no_size m) = obtain >> raise (runtime_error m)
read_data_type (list_of t) = scoped 1 (read_data_type t >>= λ s. pure (s ++ codes "[]"))
read_data_type (array_of t n) =
    scoped 1 (read_data_type t >>= λ s. pure (s ++ codes "[" ++ n ++ codes "]"))

-- The loop of `getColumnDataTypes`
unfoldable pub read_data_types : List DataType → Option String → Exec Memory (List Text)
unfolding pure raise scoped ◌>>=◌ read_data_type
read_data_types [] none = pure []
read_data_types [] (some m) = raise (runtime_error m)
read_data_types (t ∷ ts) end = do
  s ← scoped 1 (read_data_type t)
  rest ← read_data_types ts end
  pure (s ∷ rest)

module _ (parsers : Parsers) where
  -- `getNext`, `getColumnNames`, `getColumnDataTypes` and `getErrorMessage`
  unfoldable pub reply : Answer → Exec Memory Reply
  unfolding pure raise adopt ◌>>=◌ scoped read_each read_names read_data_types
  reply (row cs) = scoped 1 (read_each parsers cs) >>= λ vs. pure (values vs)
  reply (no_row m) = raise (runtime_error m)
  reply (names ts end) = read_names ts end >>= λ ns. pure (texts ns)
  reply (types ts end) = read_data_types ts end >>= λ ns. pure (texts ns)
  reply (message t) = adopt >> pure (texts (t ∷ []))

  -- Calls one after the other; an error does not keep the caller from the next one.
  unfoldable pub replies : List Answer → Memory → List (Result Reply) × Memory
  unfolding reply
  replies [] s = ([], s)
  replies (a ∷ rest) s = let (r, t) = reply a s in let (rs, u) = replies rest t in (r ∷ rs, u)

-- `_result`, `none` once it is destroyed.
pub record QueryResult : Type 0 where
  pub result : Option ℕ
  pub memory : Memory

-- A new result.
unfoldable pub opened : ℕ → List ℕ → QueryResult
opened made destroyed = record {
  result = some made;
  memory = record { made = suc made; destroyed = destroyed; owned = [] };
}

unfoldable pub asked : Parsers → List Answer → QueryResult → QueryResult
unfolding replies
asked parsers answers q = record q { memory = (replies parsers answers q.memory).1 }

unfoldable pub destroy_each : List ℕ → List ℕ → List ℕ
destroy_each [] destroyed = destroyed
destroy_each (p ∷ ps) destroyed = destroy_each ps (p ∷ destroyed)

abbrev pub destroy_result : Option ℕ → List ℕ → List ℕ
destroy_result none destroyed = destroyed
destroy_result (some r) destroyed = r ∷ destroyed

-- `close()`, while there is a library or after it is gone.
unfoldable pub close : Bool → QueryResult → QueryResult
unfolding destroy_each
close lib q =
    let s = q.memory in
    record {
      result = none;
      memory = record s {
        destroyed =
            if lib then destroy_result q.result (destroy_each s.owned s.destroyed) else s.destroyed;
        owned = [];
      };
    }
