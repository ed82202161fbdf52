-- ===== src/Execution.antt =====
-- src_py/connection.py, `Connection.execute` from the rewritten query on: which backend runs it, and
-- what becomes of the native results. The native calls are parameters.
pub mod Results
mod Tests
use ladybug_python.Base.{
  ℕ, suc, ◌+◌, ◌≡◌, refl, Bool, true, false, ◌&&◌, ◌||◌, not, Option, none, some, List, [], ◌∷◌,
  ◌++◌, nat_beq, member, String, if◌then◌else◌,
}
use ladybug_python.Outcome.{
  Result, ok, err, PyError, runtime_error, attribute_error, Exec, pure, raise, raise_if, lift,
  modify, gets, ◌>>=◌, ◌>>◌,
}

-- The native call that the branches of `execute` end in.
pub data Route : Type 0 where
  pybind_text pybind_statement pybind_scan capi_query capi_text capi_statement : Route

-- What `execute` asks: the backend, whether the query is a string, whether the query timeout is set
-- and the query unwinds two ranges, whether it scans Python objects, and whether it has parameters.
pub record Question : Type 0 where
  pub using_pybind : Bool
  pub is_text : Bool
  pub has_timeout : Bool
  pub unwinds_ranges : Bool
  pub should_scan : Bool
  pub no_parameters : Bool

-- `tables` are `_capi_scan_tables`, `registered` the query results that the connection holds, `dropped`
-- the tables that the native `drop_arrow_table` dropped, and `made` the tables that `create_arrow_table` made for
-- scans, the last first.
pub record Session : Type 0 where
  pub prefer_pybind : Bool
  pub tables : List ℕ
  pub registered : List ℕ
  pub fresh : ℕ
  pub dropped : List ℕ
  pub made : List ℕ

abbrev pub route : Question → Bool → Route
route a prefer =
    if a.using_pybind
    then (if a.is_text then pybind_text else pybind_statement)
    else if a.is_text && (prefer || a.should_scan)
    then pybind_scan
    else if a.no_parameters && a.is_text
    then capi_query
    else if a.is_text
    then capi_text
    else capi_statement

abbrev pub is_scan : Route → Bool
is_scan pybind_scan = true
is_scan _ = false

-- `isSuccess()` and `getErrorMessage()` of a native result, and the chain of results that
-- `hasNextQueryResult()` walks.
abbrev pub Answer : Type 0
Answer = Result Unit

pub record Chain : Type 0 where
  pub head : Answer
  pub rest : List Answer

-- `None` stands for a backend that is not there.
abbrev pub no_backend : Route → PyError
no_backend pybind_scan = runtime_error "Scan from python objects requires pybind backend support."
no_backend _ = attribute_error "'NoneType' object has no attribute 'isSuccess'"

abbrev pub chain_of : Route → Option Chain → Result Chain
chain_of r none = err (no_backend r)
chain_of r (some c) = ok c

-- `_capi_scan_tables.discard(table_name)`
unfoldable pub discard : ℕ → List ℕ → List ℕ
discard t [] = []
discard t (x ∷ xs) = let rest = discard t xs in if nat_beq x t then rest else x ∷ rest

-- What `drop_arrow_table` does: it raises, or it gives a result, which may be no success.
abbrev pub DropAnswer : Type 0
DropAnswer = Result Answer

-- The tables that the engine has dropped, after a result.
abbrev pub note_dropped : Answer → ℕ → List ℕ → List ℕ
note_dropped (ok _) t dropped = t ∷ dropped
note_dropped (err e) t dropped = dropped

-- Drops a table. A result that is no success is only a warning. In each case, and also when the call
-- raises, the name is discarded.
unfoldable pub drop_table : DropAnswer → ℕ → Exec Session Unit
unfolding discard
drop_table (err e) t s = (err e, record s { tables = discard t s.tables })
drop_table (ok answer) t s =
    (ok tt, record s { tables = discard t s.tables; dropped = note_dropped answer t s.dropped })

unfoldable pub drop_tables : (ℕ → DropAnswer) → List ℕ → Exec Session Unit
unfolding drop_table
drop_tables answer [] = pure tt
drop_tables answer (t ∷ ts) = do drop_table (answer t) t; drop_tables answer ts

-- `QueryResult(self, ...)` and its registration.
unfoldable pub register : Exec Session ℕ
register s = (ok s.fresh, record s { registered = s.fresh ∷ s.registered; fresh = s.fresh + 1 })

-- The loop over the further results.
unfoldable pub collect : List Answer → Exec Session (List ℕ)
unfolding register
collect [] = pure []
collect (answer ∷ rest) = do lift answer; n ← register; ns ← collect rest; pure (n ∷ ns)

pub data Executed : Type 0 where
  one : ℕ → Executed
  many : List ℕ → Executed

abbrev pub executed : ℕ → List ℕ → Executed
executed n [] = one n
executed n (m ∷ ms) = many (n ∷ m ∷ ms)

-- What follows the native call.
unfoldable pub finish : (ℕ → DropAnswer) → List ℕ → Chain → Exec Session Executed
unfolding drop_tables register collect
finish drop created c = do
  lift c.head
  drop_tables drop created
  n ← register
  ns ← collect c.rest
  pure (executed n ns)

-- `created` are the tables that the rewriting of the query made, which `_capi_scan_tables` has.
unfoldable pub execute :
    (Route → Result (Option Chain)) → (ℕ → DropAnswer) → Question → List ℕ → Exec Session Executed
unfolding finish
execute call drop a created = do
  raise_if (not a.using_pybind && a.has_timeout && a.is_text && a.unwinds_ranges)
      (runtime_error "Interrupted.")
  prefer ← gets (λ s. s.prefer_pybind)
  modify (λ s. record s { prefer_pybind = s.prefer_pybind || is_scan (route a prefer) })
  native ← lift (call (route a prefer))
  c ← lift (chain_of (route a prefer) native)
  finish drop created c
