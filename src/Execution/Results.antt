-- ===== src/Execution/Results.antt =====
-- The results that `execute` returns, the scan tables it leaves, and the backend of later queries.
use ladybug_python.Base.{
  ℕ, ◌+◌, ◌≡◌, refl, ◌∙◌, ap, sym, Bool, true, false, ◌&&◌, ◌||◌, not, Option, none, some, List, [],
  ◌∷◌, arith,
}
use ladybug_python.Outcome.{Result, ok, err, PyError, continue, continue_both}
use ladybug_python.Execution.{
  Route, pybind_scan, Question, Session, route, is_scan, Answer, DropAnswer, Chain, executed,
  discard, note_dropped, drop_table, drop_tables, register, collect, finish, execute,
}

-- `discard` of each table.
abbrev pub discard_all : List ℕ → List ℕ → List ℕ
discard_all [] tables = tables
discard_all (t ∷ ts) tables = discard_all ts (discard t tables)

abbrev pub noted : DropAnswer → ℕ → List ℕ → List ℕ
noted (err e) t dropped = dropped
noted (ok answer) t dropped = note_dropped answer t dropped

abbrev pub put_all : List ℕ → List ℕ → List ℕ
put_all [] xs = xs
put_all (n ∷ ns) xs = put_all ns (n ∷ xs)

-- The numbers of so many results, from `n` on.
abbrev pub from : ℕ → List Answer → List ℕ
from n [] = []
from n (_ ∷ rest) = n ∷ from (n + 1) rest

abbrev pub all_succeed : List Answer → Bool
all_succeed [] = true
all_succeed (ok _ ∷ rest) = all_succeed rest
all_succeed (err e ∷ rest) = false

pub drop_tables-ok :
    (answer : ℕ → DropAnswer) (ts : List ℕ) (s : Session)
    → ((t : ℕ) → answer t ≡ ok (ok tt))
    → drop_tables answer ts s
      ≡ (ok tt, record s { tables = discard_all ts s.tables; dropped = put_all ts s.dropped })
unfolding drop_tables
drop_tables-ok answer [] s h = refl
drop_tables-ok answer (t ∷ ts) s h = ground (
  arith,
  h t,
  drop_tables-ok answer ts (record s { tables = discard t s.tables; dropped = t ∷ s.dropped }) h,
)

-- The tables dropped in the engine: those of which it answers a success.
abbrev pub put_dropped : (ℕ → DropAnswer) → List ℕ → List ℕ → List ℕ
put_dropped answer [] dropped = dropped
put_dropped answer (t ∷ ts) dropped = put_dropped answer ts (noted (answer t) t dropped)

abbrev after_drops : (ℕ → DropAnswer) → List ℕ → Session → Session
after_drops answer ts s = record s {
  tables = discard_all ts s.tables;
  dropped = put_dropped answer ts s.dropped;
}

drop_table-returns :
    (answer : DropAnswer) (t : ℕ) (s : Session)
    → (drop_table answer t s).0 ≡ ok tt
    → (drop_table answer t s).1
      ≡ record s { tables = discard t s.tables; dropped = noted answer t s.dropped }
unfolding drop_table
drop_table-returns (err e) t s h = absurd (ground (arith, h))
drop_table-returns (ok answer) t s h = refl

-- Where no drop raises: the names are discarded, whatever the engine answers.
pub drop_tables-returns :
    (answer : ℕ → DropAnswer) (ts : List ℕ) (s : Session)
    → (drop_tables answer ts s).0 ≡ ok tt
    → (drop_tables answer ts s).1
      ≡ record s { tables = discard_all ts s.tables; dropped = put_dropped answer ts s.dropped }
unfolding drop_tables
drop_tables-returns answer [] s h = refl
drop_tables-returns answer (t ∷ ts) s h =
    go (drop_table (answer t) t s) refl h (drop_tables-returns answer ts)
  where
    go :
        (m : Result Unit × Session)
        → m ≡ drop_table (answer t) t s
        → (continue m.0 (λ _. drop_tables answer ts) m.1).0 ≡ ok tt
        → ((z : Session)
            → (drop_tables answer ts z).0 ≡ ok tt
            → (drop_tables answer ts z).1 ≡ after_drops answer ts z)
        → (continue m.0 (λ _. drop_tables answer ts) m.1).1
          ≡ after_drops answer ts
              (record s { tables = discard t s.tables; dropped = noted (answer t) t s.dropped })
    go (err e, u) q k rest = absurd (ground (arith, k))
    go (ok _, u) q k rest =
        let first = ap (λ z. z.1) q ∙ drop_table-returns (answer t) t s (sym (ap (λ z. z.0) q)) in
        rest u k ∙ ap (after_drops answer ts) first

collect-ok :
    (rest : List Answer) (s : Session)
    → all_succeed rest ≡ true
    → (m : ℕ) × (collect rest s ≡ (
      ok (from s.fresh rest),
      record s { registered = put_all (from s.fresh rest) s.registered; fresh = m },
    ))
unfolding collect
collect-ok [] s h = (s.fresh, refl)
collect-ok (err e ∷ rest) s h = cc
collect-ok (ok _ ∷ rest) s h =
    let (m, e) =
      collect-ok rest (record s { registered = s.fresh ∷ s.registered; fresh = s.fresh + 1 }) h in
    (m, ground (arith, e))

-- The connection was not stopped before its query ran.
abbrev pub runs : Question → Bool
runs a = a.using_pybind || not a.has_timeout || not a.is_text || not a.unwinds_ranges

abbrev pub preferring : Question → Session → Session
preferring a s = record s { prefer_pybind = s.prefer_pybind || is_scan (route a s.prefer_pybind) }

execute-ok :
    (call : Route → Result (Option Chain)) (drop : ℕ → DropAnswer) (a : Question) (created : List ℕ)
    (s : Session) (c : Chain)
    → runs a ≡ true
    → call (route a s.prefer_pybind) ≡ ok (some c)
    → execute call drop a created s ≡ finish drop created c (preferring a s)
unfolding execute
execute-ok call drop a created s c h e =
    let stop : (not a.using_pybind && a.has_timeout && a.is_text && a.unwinds_ranges) ≡ false =
      ground (arith, h) in
    rw (stop, e)

execute-err :
    (call : Route → Result (Option Chain)) (drop : ℕ → DropAnswer) (a : Question) (created : List ℕ)
    (s : Session) (x : PyError)
    → runs a ≡ true
    → call (route a s.prefer_pybind) ≡ err x
    → execute call drop a created s ≡ (err x, preferring a s)
unfolding execute
execute-err call drop a created s x h e =
    let stop : (not a.using_pybind && a.has_timeout && a.is_text && a.unwinds_ranges) ≡ false =
      ground (arith, h) in
    rw (stop, e)

all_succeed-cons :
    (x : Answer) (xs : List Answer)
    → all_succeed (x ∷ xs) ≡ true
    → (x ≡ ok tt) × (all_succeed xs ≡ true)
all_succeed-cons (ok _) xs h = (refl, h)
all_succeed-cons (err e) xs h = cc

finish-ok :
    (drop : ℕ → DropAnswer) (created : List ℕ) (c : Chain) (s : Session)
    → all_succeed (c.head ∷ c.rest) ≡ true
    → ((t : ℕ) → drop t ≡ ok (ok tt))
    → (m : ℕ) × (finish drop created c s ≡ (
      ok (executed s.fresh (from (s.fresh + 1) c.rest)),
      record s {
        tables = discard_all created s.tables;
        dropped = put_all created s.dropped;
        registered = put_all (from s.fresh (c.head ∷ c.rest)) s.registered;
        fresh = m;
      },
    ))
unfolding finish register
finish-ok drop created c s good h =
    let (first, others) = all_succeed-cons c.head c.rest good in
    let s' : Session = record s {
      tables = discard_all created s.tables;
      dropped = put_all created s.dropped;
    } in
    let (m, e) =
      collect-ok c.rest (record s' { registered = s.fresh ∷ s.registered; fresh = s.fresh + 1 })
        others in
    (m, ground (arith, first, drop_tables-ok drop created s h, e))

-- When the native call succeeds with every result of its chain and the engine drops every scan table:
-- `execute` returns one query result for each native result, in order, the connection holds each of
-- them, and the tables that the query made are dropped and forgotten, each once.
pub execute_returns_results :
    (call : Route → Result (Option Chain)) (drop : ℕ → DropAnswer) (a : Question) (created : List ℕ)
    (s : Session) (c : Chain)
    → runs a ≡ true
    → call (route a s.prefer_pybind) ≡ ok (some c)
    → all_succeed (c.head ∷ c.rest) ≡ true
    → ((t : ℕ) → drop t ≡ ok (ok tt))
    → let (r, t) = execute call drop a created s in
      (r ≡ ok (executed s.fresh (from (s.fresh + 1) c.rest)))
      × (t.registered ≡ put_all (from s.fresh (c.head ∷ c.rest)) s.registered)
      × (t.tables ≡ discard_all created s.tables)
      × (t.dropped ≡ put_all created s.dropped)
unfolding execute finish
execute_returns_results call drop a created s c h e good dropped =
    let (m, f) = finish-ok drop created c (preferring a s) good dropped in
    let g = execute-ok call drop a created s c h e ∙ f in
    (ap (λ r. r.0) g, ap (λ r. r.1.registered) g, ap (λ r. r.1.tables) g, ap (λ r. r.1.dropped) g)

drop_table-prefer :
    (answer : DropAnswer) (t : ℕ) (s : Session)
    → (drop_table answer t s).1.prefer_pybind ≡ s.prefer_pybind
unfolding drop_table
drop_table-prefer (err e) t s = refl
drop_table-prefer (ok answer) t s = refl

drop_tables-prefer :
    (answer : ℕ → DropAnswer) (ts : List ℕ) (s : Session)
    → (drop_tables answer ts s).1.prefer_pybind ≡ s.prefer_pybind
unfolding drop_tables
drop_tables-prefer answer [] s = refl
drop_tables-prefer answer (t ∷ ts) s =
    let first = drop_table-prefer (answer t) t s in
    continue_both {S = Session} (λ (z : Session). z.prefer_pybind ≡ s.prefer_pybind)
      (drop_table (answer t) t s).0 _ _ first
      (λ _. drop_tables-prefer answer ts (drop_table (answer t) t s).1 ∙ first)

collect-prefer :
    (rest : List Answer) (s : Session) → (collect rest s).1.prefer_pybind ≡ s.prefer_pybind
unfolding collect
collect-prefer [] s = refl
collect-prefer (err e ∷ rest) s = refl
collect-prefer (ok _ ∷ rest) s =
    let s' : Session = record s { registered = s.fresh ∷ s.registered; fresh = s.fresh + 1 } in
    continue_both {S = Session} (λ (z : Session). z.prefer_pybind ≡ s.prefer_pybind)
      (collect rest s').0 _ _ (collect-prefer rest s') (λ ns. collect-prefer rest s')

finish-prefer :
    (drop : ℕ → DropAnswer) (created : List ℕ) (c : Chain) (s : Session)
    → (finish drop created c s).1.prefer_pybind ≡ s.prefer_pybind
unfolding finish register
finish-prefer drop created c s =
    continue_both {S = Session} (λ (z : Session). z.prefer_pybind ≡ s.prefer_pybind) c.head _ _ refl
      (λ _.
        continue_both {S = Session} (λ (z : Session). z.prefer_pybind ≡ s.prefer_pybind)
          (drop_tables drop created s).0 _ _ (drop_tables-prefer drop created s)
          (λ _.
            let t = (drop_tables drop created s).1 in
            let t' : Session = record t {
              registered = t.fresh ∷ t.registered;
              fresh = t.fresh + 1;
            } in
            continue_both {S = Session} (λ (z : Session). z.prefer_pybind ≡ s.prefer_pybind)
              (collect c.rest t').0 _ _
              (collect-prefer c.rest t' ∙ drop_tables-prefer drop created s)
              (λ ns. collect-prefer c.rest t' ∙ drop_tables-prefer drop created s)))

execute-prefer :
    (call : Route → Result (Option Chain)) (drop : ℕ → DropAnswer) (a : Question) (created : List ℕ)
    (s : Session) (native : Result (Option Chain))
    → runs a ≡ true
    → call (route a s.prefer_pybind) ≡ native
    → (execute call drop a created s).1.prefer_pybind ≡ (preferring a s).prefer_pybind
unfolding execute
execute-prefer call drop a created s (err x) h e =
    ap (λ r. r.1.prefer_pybind) (execute-err call drop a created s x h e)
execute-prefer call drop a created s (ok (some c)) h e =
    ap (λ r. r.1.prefer_pybind) (execute-ok call drop a created s c h e)
    ∙ finish-prefer drop created c (preferring a s)
execute-prefer call drop a created s (ok none) h e =
    let stop : (not a.using_pybind && a.has_timeout && a.is_text && a.unwinds_ranges) ≡ false =
      ground (arith, h) in
    rw (stop, e)

-- Once a query of a C API database has gone to the extension for a scan, every later query string on
-- that connection goes there too, however the query ended.
scan_switches_backend :
    (call : Route → Result (Option Chain)) (drop : ℕ → DropAnswer) (a b : Question)
    (created : List ℕ) (s : Session)
    → runs a ≡ true
    → route a s.prefer_pybind ≡ pybind_scan
    → b.using_pybind ≡ false
    → b.is_text ≡ true
    → route b (execute call drop a created s).1.prefer_pybind ≡ pybind_scan
unfolding execute
scan_switches_backend call drop a b created s h scan plain text =
    let prefers : (execute call drop a created s).1.prefer_pybind ≡ true =
      execute-prefer call drop a created s (call (route a s.prefer_pybind)) h refl
      ∙ ground (arith, scan) in
    ground (arith, prefers, plain, text)
