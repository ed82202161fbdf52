-- ===== src/Rows/Close.antt =====
-- A closed result answers every call with an error, and its native object is closed once.
use ladybug_python.Base.{
  ℕ, zero, suc, ◌≤◌, ◌≡◌, ◌⊎◌, inl, inr, refl, Bool, true, false, ◌||◌, not, List, [], ◌∷◌, arith,
}
use ladybug_python.Outcome.{Result, err, PyError, runtime_error}
use ladybug_python.Rows.{
  QueryResult, create, close, check_open, has_next, get_next, next, get_all, get_n,
}

-- What happens around a result: a call of `close()`, by the user, the connection or the garbage
-- collector, and the closing of its connection or database.
pub data Event : Type 0 where
  closes conn_closes db_closes : Event

unfoldable pub happen : {Cursor : Type 0} → Event → QueryResult Cursor → QueryResult Cursor
unfolding close
happen closes q = close q
happen conn_closes q = record q { conn_closed = true }
happen db_closes q = record q { db_closed = true }

unfoldable pub history : {Cursor : Type 0} → List Event → QueryResult Cursor → QueryResult Cursor
unfolding happen
history [] q = q
history (e ∷ es) q = history es (happen e q)

pub record IsSound {Cursor : Type 0} (q : QueryResult Cursor) : Type 0 where
  pub alive :
      q.is_closed ≡ false → (q.native_closes ≡ 0) × (q.connected ≡ true) × (q.registered ≡ true)
  pub gone : q.is_closed ≡ true → (q.connected ≡ false) × (q.registered ≡ false)
  pub once : q.native_closes ≤ 1
  pub freed : q.is_closed ≡ true → q.native_closes ≡ 0 → q.db_closed ≡ true

module _ {Cursor : Type 0} where
  happen-IsSound : (e : Event) (q : QueryResult Cursor) → IsSound q → IsSound (happen e q)
  unfolding happen
  happen-IsSound closes q h = ground (arith, h)
  happen-IsSound conn_closes q h = ground (arith, h)
  happen-IsSound db_closes q h = ground (arith, h)

  history-IsSound : (es : List Event) (q : QueryResult Cursor) → IsSound q → IsSound (history es q)
  unfolding history
  history-IsSound [] q h = h
  history-IsSound (e ∷ es) q h = history-IsSound es (happen e q) (happen-IsSound e q h)

  create-IsSound : (c : Cursor) → IsSound (create c)
  unfolding create
  create-IsSound c = ground arith

-- Whatever happens around a new result, and in whatever order: its native object is closed at most
-- once; once the result is closed the connection has forgotten it, and its native object was closed
-- unless the database was closed before it; a further `close()` changes nothing.
pub close_releases_once :
    {Cursor : Type 0} (c : Cursor) (es : List Event)
    → let q = history es (create c) in
      (q.native_closes ≤ 1)
      × (q.is_closed ≡ true
          → (q.registered ≡ false) × ((q.native_closes ≡ 1) ⊎ (q.db_closed ≡ true)) × (close q ≡ q))
unfolding close
close_releases_once c es =
    let q = history es (create c) in
    let h = history-IsSound es (create c) (create-IsSound c) in
    (
      h.once,
      λ done. (
        (h.gone done).1,
        freed_or_gone q.native_closes q.db_closed h.once (h.freed done),
        ground arith,
      ),
    )
  where
    freed_or_gone : (n : ℕ) (b : Bool) → n ≤ 1 → (n ≡ 0 → b ≡ true) → (n ≡ 1) ⊎ (b ≡ true)
    freed_or_gone zero b h f = inr (f refl)
    freed_or_gone (suc n) b h f = inl (omega arith)

-- Something that the result needs is closed.
abbrev pub shut : {Cursor : Type 0} → QueryResult Cursor → Bool
shut q = q.is_closed || not q.connected || q.db_closed || q.conn_closed

-- The error of a call on such a result, the result first, then the database, then the connection.
abbrev pub refusal : {Cursor : Type 0} → QueryResult Cursor → PyError
refusal q = elim (q.is_closed || not q.connected) [
  | true ↦ runtime_error "Query result is closed"
  | false ↦ elim q.db_closed [
    | true ↦ runtime_error "the parent database is closed"
    | false ↦ runtime_error "the parent connection is closed"
  ]
]

check_open-shut :
    {Cursor : Type 0} (q : QueryResult Cursor) → shut q ≡ true → check_open q ≡ (err (refusal q), q)
unfolding check_open
check_open-shut q h = ground arith

-- On a result that is closed, or whose connection or database is, each reading call raises the same
-- error and changes nothing; the native cursor is not asked.
shut_calls_raise :
    {Cursor Cell : Type 0} (native_has_next : Cursor → Bool)
    (native_get_next : Cursor → Result (List Cell) × Cursor) (q : QueryResult Cursor) (n : ℕ)
    → shut q ≡ true
    → (has_next native_has_next native_get_next q ≡ (err (refusal q), q))
      × (get_next native_has_next native_get_next q ≡ (err (refusal q), q))
      × (next native_has_next native_get_next q ≡ (err (refusal q), q))
      × (get_all native_has_next native_get_next (suc n) q ≡ (err (refusal q), q))
      × (get_n native_has_next native_get_next n q ≡ (err (refusal q), q))
unfolding has_next get_next next get_all get_n
shut_calls_raise native_has_next native_get_next q n h = (
  ground (arith, check_open-shut q h),
  ground (arith, check_open-shut q h),
  ground (arith, check_open-shut q h),
  ground (arith, check_open-shut q h),
  get_n_refused n,
)
  where
    get_n_refused : (n : ℕ) → get_n native_has_next native_get_next n q ≡ (err (refusal q), q)
    get_n_refused zero = ground (arith, check_open-shut q h)
    get_n_refused (suc n) = ground (arith, check_open-shut q h)
