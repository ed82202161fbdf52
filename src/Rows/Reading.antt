-- ===== src/Rows/Reading.antt =====
-- Reading an open result gives its rows, each once and in order.
use ladybug_python.Base.{
  ℕ, zero, suc, ◌<◌, ◌≤◌, ◌≡◌, Bool, true, false, List, [], ◌∷◌, length, arith,
}
use ladybug_python.Outcome.{Result, ok, Exec}
use ladybug_python.Rows.{QueryResult, has_next, get_all, get_n, cons_row}
use ladybug_python.Rows.Format.{Row, format_row}

abbrev pub take {ℓ} : {A : Type ℓ} → ℕ → List A → List A
take zero xs = []
take (suc n) [] = []
take (suc n) (x ∷ xs) = x ∷ take n xs

abbrev pub drop {ℓ} : {A : Type ℓ} → ℕ → List A → List A
drop zero xs = xs
drop (suc n) [] = []
drop (suc n) (x ∷ xs) = drop n xs

-- Neither the result, nor its connection, nor the database is closed.
pub record IsOpen {Cursor : Type 0} (q : QueryResult Cursor) : Type 0 where
  pub result : q.is_closed ≡ false
  pub connected : q.connected ≡ true
  pub database : q.db_closed ≡ false
  pub connection : q.conn_closed ≡ false

module _ {Cursor Cell : Type 0} (native_has_next : Cursor → Bool)
    (native_get_next : Cursor → Result (List Cell) × Cursor) where
  -- The engine's cursor hands out these rows and then has no more.
  abbrev pub Enumerates : Cursor → List (List Cell) → Type 0
  Enumerates c [] = native_has_next c ≡ false
  Enumerates c (row ∷ rows) =
      (d : Cursor) × (native_has_next c ≡ true)
      × (native_get_next c ≡ (ok row, d))
      × Enumerates d rows

  -- The rows in the form that the result asks for.
  abbrev pub Formats : QueryResult Cursor → List (List Cell) → List (Row Cell) → Type 0
  Formats q [] [] = Unit
  Formats q [] (o ∷ os) = ⊥
  Formats q (r ∷ rs) [] = ⊥
  Formats q (r ∷ rs) (o ∷ os) = (format_row q.as_dict q.columns r ≡ ok o) × Formats q rs os

  has_next-open :
      (q : QueryResult Cursor)
      → IsOpen q
      → has_next native_has_next native_get_next q ≡ (ok (native_has_next q.cursor), q)
  unfolding has_next
  has_next-open q o = ground arith

  cons_row-open :
      (q : QueryResult Cursor) (d : Cursor) (row : List Cell) (out : Row Cell)
      (rest : Exec (QueryResult Cursor) (List (Row Cell))) (outs : List (Row Cell))
      (q' : QueryResult Cursor)
      → IsOpen q
      → native_get_next q.cursor ≡ (ok row, d)
      → format_row q.as_dict q.columns row ≡ ok out
      → rest (record q { cursor = d }) ≡ (ok outs, q')
      → cons_row native_has_next native_get_next rest q ≡ (ok (out ∷ outs), q')
  unfolding cons_row
  cons_row-open q d row out rest outs q' o e f ih = ground arith

  get_all-open :
      (fuel : ℕ) (q : QueryResult Cursor) (rows : List (List Cell)) (outs : List (Row Cell))
      → IsOpen q
      → Enumerates q.cursor rows
      → Formats q rows outs
      → length rows < fuel
      → (d : Cursor) × (get_all native_has_next native_get_next fuel q
          ≡ (ok outs, record q { cursor = d }))
  unfolding get_all
  get_all-open zero q rows outs o e f h = absurd (omega arith)
  get_all-open (suc fuel) q [] [] o e f h = (q.cursor, ground (arith, has_next-open q o))
  get_all-open (suc fuel) q [] (out ∷ outs) o e f h = absurd f
  get_all-open (suc fuel) q (r ∷ rows) [] o e f h = absurd f
  get_all-open (suc fuel) q (r ∷ rows) (out ∷ outs) o (d, more, got, others) f h =
      let q' = record q { cursor = d } in
      let (last, ih) =
        get_all-open fuel q' rows outs
          (record {
            result = o.result;
            connected = o.connected;
            database = o.database;
            connection = o.connection;
          })
          others f.1 (omega arith) in
      (
        last,
        ground (
          arith,
          has_next-open q o,
          cons_row-open q d r out (get_all native_has_next native_get_next fuel) outs
              (record q { cursor = last }) o got f.0 ih,
        ),
      )

  get_n-open :
      (n : ℕ) (q : QueryResult Cursor) (rows : List (List Cell)) (outs : List (Row Cell))
      → IsOpen q
      → Enumerates q.cursor rows
      → Formats q rows outs
      → (d : Cursor) × (get_n native_has_next native_get_next n q
          ≡ (ok (take n outs), record q { cursor = d }))
        × Enumerates d (drop n rows)
        × Formats q (drop n rows) (drop n outs)
  unfolding get_n
  get_n-open zero q rows outs o e f = (q.cursor, ground (arith, has_next-open q o), e, f)
  get_n-open (suc n) q [] [] o e f = (q.cursor, ground (arith, has_next-open q o), e, f)
  get_n-open (suc n) q [] (out ∷ outs) o e f = absurd f
  get_n-open (suc n) q (r ∷ rows) [] o e f = absurd f
  get_n-open (suc n) q (r ∷ rows) (out ∷ outs) o (d, more, got, others) f =
      let q' = record q { cursor = d } in
      let (last, ih, left, form) =
        get_n-open n q' rows outs
          (record {
            result = o.result;
            connected = o.connected;
            database = o.database;
            connection = o.connection;
          })
          others f.1 in
      (
        last,
        ground (
          arith,
          has_next-open q o,
          cons_row-open q d r out (get_n native_has_next native_get_next n) (take n outs)
              (record q { cursor = last }) o got f.0 ih,
        ),
        left,
        form,
      )

length-drop-le {ℓ} : {A : Type ℓ} (n : ℕ) (xs : List A) → length (drop n xs) ≤ length xs
length-drop-le zero xs = omega arith
length-drop-le (suc n) [] = omega arith
length-drop-le (suc n) (x ∷ xs) = omega (arith, length-drop-le n xs)

-- On an open result whose cursor hands out `rows`, `get_n(n)` returns the first `n` of them in the
-- result's form, or all if there are fewer, and `get_all` afterwards returns the others, each in
-- order; fuel above the number of rows is enough.
pub get_n_then_get_all :
    {Cursor Cell : Type 0} (native_has_next : Cursor → Bool)
    (native_get_next : Cursor → Result (List Cell) × Cursor) (n fuel : ℕ) (q : QueryResult Cursor)
    (rows : List (List Cell)) (outs : List (Row Cell))
    → IsOpen q
    → Enumerates native_has_next native_get_next q.cursor rows
    → Formats native_has_next native_get_next q rows outs
    → length rows < fuel
    → (d e : Cursor) × (get_n native_has_next native_get_next n q
        ≡ (ok (take n outs), record q { cursor = d }))
      × (get_all native_has_next native_get_next fuel (record q { cursor = d })
          ≡ (ok (drop n outs), record q { cursor = e }))
get_n_then_get_all native_has_next native_get_next n fuel q rows outs o e f h =
    let (d, first, left, form) = get_n-open native_has_next native_get_next n q rows outs o e f in
    let (last, others) =
      get_all-open native_has_next native_get_next fuel (record q { cursor = d }) (drop n rows)
        (drop n outs)
        (record {
          result = o.result;
          connected = o.connected;
          database = o.database;
          connection = o.connection;
        })
        left form (omega (arith, length-drop-le n rows)) in
    (d, last, first, others)
