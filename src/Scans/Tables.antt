-- ===== src/Scans/Tables.antt =====
-- The tables that are made for a query end with it.
use ladybug_python.Base.{
  ℕ, ◌+◌, ◌≡◌, ◌⊎◌, inl, inr, refl, ◌∙◌, ap, arith, Bool, true, false, ◌&&◌, ◌||◌, not, Option,
  none, some, List, [], ◌∷◌, member, if_both, drop,
}
use ladybug_python.Outcome.{Result, ok, err, PyError, Exec, continue, continue_both, raise_if}
use ladybug_python.Text.{Text}
use ladybug_python.Execution.{
  Route, Question, Session, Answer, DropAnswer, Chain, Executed, route, is_scan, chain_of, discard,
  drop_tables, register, collect, finish, execute,
}
use ladybug_python.Execution.Results.{discard_all, noted, put_dropped, drop_tables-returns}
use ladybug_python.Scans.{
  Patterns, difference, at_match, is_python_scan_object, has_scan_pattern, create_scan_table,
  scan_parameter, scan_each, rewrite_capi_python_scan, rewrite_local_scan_object, execute_text,
}
use ladybug_python.Scans.Rewriting.{Params, Scanned}

-- What holds of the state after a bind that returns, if it holds after the second part.
continue_returns :
    {A B : Type 0} (P : Session → Type 0) (r : Result A) (f : A → Exec Session B) (s : Session)
    (b : B)
    → ((a : A) → (f a s).0 ≡ ok b → P (f a s).1)
    → (continue r f s).0 ≡ ok b
    → P (continue r f s).1
continue_returns P (ok a) f s b k e = k a e
continue_returns P (err x) f s b k e = absurd (ground (arith, e))

-- The same where the second part needs what the first returned.
continue_returned :
    {A B : Type 0} (P : Session → Type 0) (r : Result A) (f : A → Exec Session B) (s : Session)
    (b : B)
    → ((a : A) → r ≡ ok a → (f a s).0 ≡ ok b → P (f a s).1)
    → (continue r f s).0 ≡ ok b
    → P (continue r f s).1
continue_returned P (ok a) f s b k e = k a refl e
continue_returned P (err x) f s b k e = absurd (ground (arith, e))

raise_if_returns :
    {B : Type 0} (P : Session → Type 0) (b : Bool) (e : PyError) (f : Unit {0} → Exec Session B)
    (s : Session) (x : B)
    → ((f tt s).0 ≡ ok x → P (f tt s).1)
    → (continue (raise_if b e s).0 f (raise_if b e s).1).0 ≡ ok x
    → P (continue (raise_if b e s).0 f (raise_if b e s).1).1
raise_if_returns P true e f s x k h = absurd (ground (arith, h))
raise_if_returns P false e f s x k h = k h

-- The tables of a connection, those that the engine dropped and those that it made.
abbrev Has : List ℕ → List ℕ → List ℕ → Session → Type 0
Has tables dropped made t = (t.tables ≡ tables) × (t.dropped ≡ dropped) × (t.made ≡ made)

collect-Has :
    (rest : List Answer) (tables dropped made : List ℕ) (s : Session)
    → Has tables dropped made s
    → Has tables dropped made (collect rest s).1
unfolding collect register
collect-Has [] tables dropped made s h = h
collect-Has (err e ∷ rest) tables dropped made s h = h
collect-Has (ok _ ∷ rest) tables dropped made s h =
    let t : Session = record s { registered = s.fresh ∷ s.registered; fresh = s.fresh + 1 } in
    continue_both (Has tables dropped made) (collect rest t).0 _ (collect rest t).1
      (collect-Has rest tables dropped made t h) λ ns. collect-Has rest tables dropped made t h

module _ (answer : ℕ → DropAnswer) (created : List ℕ) where
  finish-Has :
      (head : Answer) (rest : List Answer) (s : Session) (x : Executed)
      → (finish answer created (record { head = head; rest = rest }) s).0 ≡ ok x
      → Has
          (discard_all created s.tables)
          (put_dropped answer created s.dropped)
          s.made
          (finish answer created (record { head = head; rest = rest }) s).1
  unfolding finish register
  finish-Has (err e) rest s x = λ h. absurd (ground (arith, h))
  finish-Has (ok _) rest s x =
      let P = Has (discard_all created s.tables) (put_dropped answer created s.dropped) s.made in
      let t = (drop_tables answer created s).1 in
      let u : Session = record t { registered = t.fresh ∷ t.registered; fresh = t.fresh + 1 } in
      continue_returned P (drop_tables answer created s).0 _ t x λ _ returned h.
        let e = drop_tables-returns answer created s returned in
        let g =
          collect-Has rest _ _ _ u
            (ap (λ z. z.tables) e, ap (λ z. z.dropped) e, ap (λ z. z.made) e) in
        continue_both P (collect rest u).0 _ (collect rest u).1 g λ ns. g

  execute-Has :
      (call : Route → Result (Option Chain)) (a : Question) (s : Session) (x : Executed)
      → (execute call answer a created s).0 ≡ ok x
      → Has
          (discard_all created s.tables)
          (put_dropped answer created s.dropped)
          s.made
          (execute call answer a created s).1
  unfolding execute
  execute-Has call a s x =
      let t : Session = record s {
        prefer_pybind = s.prefer_pybind || is_scan (route a s.prefer_pybind);
      } in
      let r = route a s.prefer_pybind in
      let P = Has (discard_all created s.tables) (put_dropped answer created s.dropped) s.made in
      raise_if_returns P (not a.using_pybind && a.has_timeout && a.is_text && a.unwinds_ranges) _ _
        s x
        (continue_returns P (call r) _ t x
          λ native. continue_returns P (chain_of r native) _ t x λ c. finish-Has c.head c.rest t x)

difference-all :
    (xs ts : List ℕ) → ((x : ℕ) → member x xs ≡ true → member x ts ≡ true) → difference xs ts ≡ []
difference-all [] ts h = refl
difference-all (x ∷ xs) ts h =
    let rest = difference-all xs ts λ y k. h y (ground (arith, k)) in
    let here : member x ts ≡ true = h x (ground arith) in ground (arith, here, rest)

-- Of a table that is new: it is the only difference, and without it the tables are the old ones.
difference-add : (t : ℕ) (ts : List ℕ) → member t ts ≡ false → difference (t ∷ ts) ts ≡ t ∷ []
difference-add t ts h = ground (arith, h, difference-all ts ts λ x k. k)

discard-new : (t : ℕ) (ts : List ℕ) → member t ts ≡ false → discard t ts ≡ ts
unfolding discard
discard-new t [] h = refl
discard-new t (x ∷ ts) h = ground (arith, h, discard-new t ts)

discard-head : (t : ℕ) (ts : List ℕ) → member t ts ≡ false → discard t (t ∷ ts) ≡ ts
unfolding discard
discard-head t ts h = ground (arith, discard-new t ts h)

-- What a query that is rewritten has done to the tables: nothing, or one is new.
abbrev Rewrote : ℕ → Session → Session → Type 0
Rewrote name s t =
    (t.dropped ≡ s.dropped)
    × (((t.tables ≡ s.tables) × (t.made ≡ s.made))
        ⊎ ((t.tables ≡ name ∷ s.tables) × (t.made ≡ name ∷ s.made)))

-- The tables are as before, and what was made was dropped, once, if the engine does so.
abbrev pub TablesEnd : DropAnswer → ℕ → Session → Session → Type 0
TablesEnd answer name s t =
    (t.tables ≡ s.tables)
    × (((t.dropped ≡ s.dropped) × (t.made ≡ s.made))
        ⊎ ((t.dropped ≡ noted answer name s.dropped) × (t.made ≡ name ∷ s.made)))

ended :
    (answer : ℕ → DropAnswer) (name : ℕ) (s t u : Session)
    → member name s.tables ≡ false
    → Rewrote name s t
    → Has
        (discard_all (difference t.tables s.tables) t.tables)
        (put_dropped answer (difference t.tables s.tables) t.dropped)
        t.made
        u
    → TablesEnd (answer name) name s u
ended answer name s t u new (d, inl (e, m)) (f, g, n) =
    let none_ : difference t.tables s.tables ≡ [] =
      ap (λ l. difference l s.tables) e ∙ difference-all s.tables s.tables λ x k. k in
    (
      f ∙ ap (λ l. discard_all l t.tables) none_ ∙ e,
      inl (g ∙ ap (λ l. put_dropped answer l t.dropped) none_ ∙ d, n ∙ m),
    )
ended answer name s t u new (d, inr (e, m)) (f, g, n) =
    let one : difference t.tables s.tables ≡ name ∷ [] =
      ap (λ l. difference l s.tables) e ∙ difference-add name s.tables new in
    (
      f
          ∙ ap (λ l. discard_all l t.tables) one
          ∙ ap (discard name) e
          ∙ discard-head name s.tables new,
      inr (
        g ∙ ap (λ l. put_dropped answer l t.dropped) one ∙ ap (noted (answer name) name) d,
        n ∙ m,
      ),
    )

module _ (re : Patterns) (table_name : ℕ → Text) (read_only : Bool) (name : ℕ) (s : Session)
    (new : member name s.tables ≡ false) where
  same : Rewrote name s s
  same = (refl, inl (refl, refl))

  abbrev Ends : Exec Session (Text × Params) → Type 0
  Ends m = Rewrote name s (m s).1

  create_scan_table-Rewrote : (v : Scanned) → Rewrote name s (create_scan_table name v s).1
  unfolding create_scan_table
  create_scan_table-Rewrote v =
      continue_both (Rewrote name s) v.create _ s same λ _. (refl, inr (ground (arith, new), refl))

  scan_parameter-Rewrote :
      (query : Text) (ps : Params) (key : Text) (v : Scanned) (place : ℕ × ℕ)
      → Rewrote name s (scan_parameter re table_name read_only name query ps key v place s).1
  unfolding scan_parameter
  scan_parameter-Rewrote query ps key v (first, last) =
      if_both Ends (not (is_python_scan_object v)) _ _ same (
        if_both Ends read_only _ _ same (
          if_both Ends (re.has_invalid_option (drop last query)) _ _ same (
            continue_both (Rewrote name s) (create_scan_table name v s).0 _ _
              (create_scan_table-Rewrote v) λ columns. create_scan_table-Rewrote v)))

  at_match-Rewrote :
      (other : Exec Session (Text × Params)) (found : ℕ × ℕ → Exec Session (Text × Params))
      (place : Option (ℕ × ℕ))
      → Rewrote name s (other s).1
      → ((p : ℕ × ℕ) → Rewrote name s (found p s).1)
      → Rewrote name s (at_match place other found s).1
  at_match-Rewrote other found none h k = h
  at_match-Rewrote other found (some p) h k = k p

  scan_each-Rewrote :
      (query : Text) (ps rest : Params)
      → Rewrote name s (scan_each re table_name read_only name query ps rest s).1
  unfolding scan_each
  scan_each-Rewrote query ps [] = same
  scan_each-Rewrote query ps ((none, v) ∷ rest) = scan_each-Rewrote query ps rest
  scan_each-Rewrote query ps ((some key, v) ∷ rest) =
      at_match-Rewrote _ _ (re.from_parameter key query) (scan_each-Rewrote query ps rest)
        (scan_parameter-Rewrote query ps key v)

  rewrite_capi_python_scan-Rewrote :
      (using_pybind : Bool) (query : Text) (ps : Params)
      → Rewrote name s
          (rewrite_capi_python_scan re table_name read_only using_pybind name query ps s).1
  unfolding rewrite_capi_python_scan
  rewrite_capi_python_scan-Rewrote using_pybind query ps =
      if_both Ends (using_pybind || not (has_scan_pattern re query)) _ _ same
        (scan_each-Rewrote query ps ps)

-- A query string that returns leaves `_capi_scan_tables` as they were, if the name of its new table is
-- not that of an old one: it made no table in the engine and dropped none, or it made one and asked
-- the engine to drop it. Where the answer to that is a success the table is dropped, once; where it
-- is a result that failed the table stays in the engine, and the query returns all the same.
pub scan_tables_end :
    (re : Patterns) (table_name : ℕ → Text) (read_only : Bool) (frames : Text → Option Scanned)
    (ask : Text → Params → Question) (call : Text → Params → Route → Result (Option Chain))
    (drop_answer : ℕ → DropAnswer) (using_pybind : Bool) (name : ℕ) (query : Text) (ps : Params)
    (s : Session) (x : Executed)
    → member name s.tables ≡ false
    → (execute_text re table_name read_only frames ask call drop_answer using_pybind name query ps
        s).0
      ≡ ok x
    → let t =
        (execute_text re table_name read_only frames ask call drop_answer using_pybind name query ps
          s).1 in
      TablesEnd (drop_answer name) name s t
unfolding execute_text
scan_tables_end re table_name read_only frames ask call drop_answer using_pybind name query ps s x
      new =
    let (query', ps') = rewrite_local_scan_object re frames query ps in
    let m = rewrite_capi_python_scan re table_name read_only using_pybind name query' ps' s in
    continue_returns (TablesEnd (drop_answer name) name s) m.0 _ m.1 x λ (query'', ps'') h.
      let created = difference m.1.tables s.tables in
      let end = execute (call query'' ps'') drop_answer (ask query'' ps'') created m.1 in
      ended drop_answer name s m.1 end.1 new
        (rewrite_capi_python_scan-Rewrote re table_name read_only name s new using_pybind query'
          ps')
        (execute-Has drop_answer created (call query'' ps'') (ask query'' ps'') m.1 x h)
