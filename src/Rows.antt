-- ===== src/Rows.antt =====
-- src_py/query_result.py: reading the rows of a result, and closing it. The native result is a
-- parameter: a cursor with the calls `hasNext` and `getNext` of the engine's object.
pub mod Format
pub mod Reading
pub mod Close
pub mod Arrow
pub mod Columns
mod Tests
use ladybug_python.Base.{
  ℕ, zero, suc, ◌+◌, Bool, true, false, ◌&&◌, not, Option, none, some, String, List, [], ◌∷◌, ◌++◌,
  if◌then◌else◌, ltb,
}
use ladybug_python.Outcome.{
  Result, ok, err, PyError, runtime_error, stop_iteration, Exec, pure, raise, lift, modify, gets,
  ◌>>=◌, ◌>>◌,
}
use Format.{Row, format_row}

-- `connected` says that `connection` is not `None`; `conn_closed` and `db_closed` are the flags of
-- the connection and of its database; `native_closes` counts the calls of the native `close()`.
pub record QueryResult (Cursor : Type 0) : Type 0 where
  pub cursor : Cursor
  pub connected : Bool
  pub is_closed : Bool
  pub registered : Bool
  pub conn_closed : Bool
  pub db_closed : Bool
  pub as_dict : Bool
  pub columns : List String
  pub native_closes : ℕ

-- `__init__`, and the registration by the connection that made the result.
unfoldable pub create : {Cursor : Type 0} → Cursor → QueryResult Cursor
create cursor = record {
  cursor = cursor;
  connected = true;
  is_closed = false;
  registered = true;
  conn_closed = false;
  db_closed = false;
  as_dict = false;
  columns = [];
  native_closes = 0;
}

-- `check_for_query_result_close`
unfoldable pub check_open : {Cursor : Type 0} → Exec (QueryResult Cursor) Unit
check_open q =
    if q.is_closed
    then (err (runtime_error "Query result is closed"), q)
    else if not q.connected
    then (err (runtime_error "Query result is closed"), q)
    else if q.db_closed
    then (err (runtime_error "the parent database is closed"), q)
    else if q.conn_closed
    then (err (runtime_error "the parent connection is closed"), q)
    else (ok tt, q)

-- `close`
unfoldable pub close : {Cursor : Type 0} → QueryResult Cursor → QueryResult Cursor
close q = if q.is_closed then q else record q {
  registered = if q.connected then false else q.registered;
  native_closes = if q.connected && q.db_closed then q.native_closes else q.native_closes + 1;
  connected = false;
  is_closed = true;
}

module _ {Cursor Cell : Type 0} (native_has_next : Cursor → Bool)
    (native_get_next : Cursor → Result (List Cell) × Cursor) where
  unfoldable pub has_next : Exec (QueryResult Cursor) Bool
  unfolding check_open
  has_next = do check_open; gets (λ q. native_has_next q.cursor)

  fetch : Exec (QueryResult Cursor) (List Cell)
  fetch q = let (r, c) = native_get_next q.cursor in (r, record q { cursor = c })

  unfoldable pub get_next : Exec (QueryResult Cursor) (Row Cell)
  unfolding check_open fetch
  get_next = do
    check_open
    row ← fetch
    as_dict ← gets (λ q. q.as_dict)
    columns ← gets (λ q. q.columns)
    lift (format_row as_dict columns row)

  -- `__next__`
  unfoldable pub next : Exec (QueryResult Cursor) (Row Cell)
  unfolding has_next get_next
  next = do more ← has_next; if more then get_next else raise (stop_iteration "")

  -- The body of the two loops below, before the rows that `rest` reads.
  cons_row :
      Exec (QueryResult Cursor) (List (Row Cell)) → Exec (QueryResult Cursor) (List (Row Cell))
  unfolding get_next
  cons_row rest = do row ← get_next; rows ← rest; pure (row ∷ rows)

  -- `get_all`, which is `list(self)`: `__next__` until it raises `StopIteration`. The fuel bounds
  -- the number of rows.
  unfoldable pub get_all : ℕ → Exec (QueryResult Cursor) (List (Row Cell))
  unfolding has_next cons_row
  get_all zero = raise (runtime_error "out of fuel")
  get_all (suc fuel) =
      let rest = get_all fuel in do more ← has_next; if more then cons_row rest else pure []

  -- `get_n`; a count below 0 reads like 0.
  unfoldable pub get_n : ℕ → Exec (QueryResult Cursor) (List (Row Cell))
  unfolding has_next cons_row
  get_n zero = has_next >>= λ more. pure []
  get_n (suc count) =
      let rest = get_n count in do more ← has_next; if more then cons_row rest else pure []
