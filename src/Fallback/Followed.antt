-- ===== src/Fallback/Followed.antt =====
-- Where the calls went, the later queries go.
use ladybug_python.Base.{
  ℕ, suc, ◌≤◌, ◌≡◌, ◌⊎◌, refl, arith, Bool, true, false, String, not, Option, none, some, List, [],
  ◌∷◌, All, if_both, inl,
}
use ladybug_python.Outcome.{Result, ok, err, Exec, continue, continue_both, raise_if, PyError}
use ladybug_python.Execution.{pybind_scan, Question, route}
use ladybug_python.Fallback.{
  Request, create_function, remove_function, create_arrow_table, drop_arrow_table,
  create_arrow_rel_table, no_indptr, Host, own, second, Attempt, unsupported, raised, result,
  Engine, Hosts, new_hosts, held_or_new, second_connection, get_pybind_connection, call, checked,
  settled, on_extension, fall_back, prepared, handle, handle_all, interrupted, lacks_indptr,
}

-- A call of a second connection is one of the connection that is held, and queries prefer it.
abbrev pub Reaches : Option ℕ → Bool → Host × Request → Type 0
Reaches held prefer (own, r) = Unit
Reaches held prefer (second n, r) = (held ≡ some n) × (prefer ≡ true)

-- One second connection at most, which is held once it is made.
pub record IsFollowed (h : Hosts) : Type 0 where
  pub one : ((h.held ≡ none) × (h.made ≡ 0)) ⊎ ((h.held ≡ some 0) × (h.made ≡ 1))
  pub reached : All (Reaches h.held h.prefer_pybind) h.calls

All-Reaches :
    (held held' : Option ℕ) (prefer prefer' : Bool) (cs : List (Host × Request))
    → ((n : ℕ) → held ≡ some n → prefer ≡ true → (held' ≡ some n) × (prefer' ≡ true))
    → All (Reaches held prefer) cs
    → All (Reaches held' prefer') cs
All-Reaches held held' prefer prefer' [] k h = tt
All-Reaches held held' prefer prefer' ((own, r) ∷ cs) k (a, h) =
    (tt, All-Reaches held held' prefer prefer' cs k h)
All-Reaches held held' prefer prefer' ((second n, r) ∷ cs) k ((e, f), h) =
    (k n e f, All-Reaches held held' prefer prefer' cs k h)

-- The host that is given is the one that is held.
abbrev IsHeld : Result (Option Host) → Hosts → Type 0
IsHeld (ok (some (second n))) h = h.held ≡ some n
IsHeld _ h = Unit

abbrev Gives : Result (Option Host) × Hosts → Type 0
Gives (r, h) = IsFollowed h × IsHeld r h

new-IsFollowed :
    (h : Hosts)
    → h.held ≡ none
    → IsFollowed h
    → IsFollowed (record h { held = some h.made; made = suc h.made })
new-IsFollowed h e f = record {
  one = ground (arith, e, f.one);
  reached =
      All-Reaches h.held (some h.made) h.prefer_pybind h.prefer_pybind h.calls
        (λ n x p. absurd (ground (arith, e, x))) f.reached;
}

prefer-IsFollowed : (h : Hosts) → IsFollowed h → IsFollowed (record h { prefer_pybind = true })
prefer-IsFollowed h f = record {
  one = f.one;
  reached = All-Reaches h.held h.held h.prefer_pybind true h.calls (λ n e p. (e, refl)) f.reached;
}

call-IsFollowed :
    (a : Engine) (c : Host) (r : Request) (h : Hosts)
    → Reaches h.held h.prefer_pybind (c, r)
    → IsFollowed h
    → IsFollowed (call a c r h).1
call-IsFollowed a c r h k f = record { one = f.one; reached = (k, f.reached) }

continue-Gives :
    {A : Type 0} (r : Result A) (f : A → Exec Hosts (Option Host)) (h : Hosts)
    → IsFollowed h
    → ((x : A) → Gives (f x h))
    → Gives (continue r f h)
continue-Gives (ok x) f h g k = k x
continue-Gives (err e) f h g k = (g, tt)

checked-IsFollowed : (e : Option String) (h : Hosts) → IsFollowed h → IsFollowed (checked e h).1
checked-IsFollowed none h f = f
checked-IsFollowed (some m) h f = f

settled-IsFollowed : (t : Attempt) (h : Hosts) → IsFollowed h → IsFollowed (settled t h).1
unfolding settled
settled-IsFollowed (unsupported m) h f = f
settled-IsFollowed (raised e) h f = f
settled-IsFollowed (result e) h f = checked-IsFollowed e h f

raise_if-IsFollowed :
    (b : Bool) (e : PyError) (h : Hosts) → IsFollowed h → IsFollowed (raise_if {S = Hosts} b e h).1
raise_if-IsFollowed true e h f = f
raise_if-IsFollowed false e h f = f

module _ (a : Engine) where
  held_or_new-Gives :
      (held : Option ℕ) (h : Hosts) → h.held ≡ held → IsFollowed h → Gives (held_or_new a held h)
  unfolding held_or_new
  held_or_new-Gives (some n) h e f = (f, e)
  held_or_new-Gives none h e f = continue-Gives a.connect _ h f λ x. (new-IsFollowed h e f, refl)

  second_connection-Gives : (h : Hosts) → IsFollowed h → Gives (second_connection a h)
  unfolding second_connection
  second_connection-Gives h f = continue-Gives a.database _ h f λ x.
      continue-Gives a.pybind_database _ h f λ there.
        if_both (λ (m : Exec Hosts (Option Host)). Gives (m h)) there _ _
          (held_or_new-Gives h.held h refl f) (f, tt)

  get_pybind_connection-Gives : (h : Hosts) → IsFollowed h → Gives (get_pybind_connection a h)
  unfolding get_pybind_connection
  get_pybind_connection-Gives h f =
      if_both (λ (m : Exec Hosts (Option Host)). Gives (m h)) (not h.has_module) _ _ (f, tt)
        (if_both (λ (m : Exec Hosts (Option Host)). Gives (m h)) h.using_pybind _ _ (f, tt)
          (second_connection-Gives h f))

  on_extension-IsFollowed :
      (m : String) (r : Request) (c : Option Host) (h : Hosts)
      → Gives (ok c, h)
      → IsFollowed (on_extension a m r c h).1
  unfolding on_extension
  on_extension-IsFollowed m r none h (f, k) = f
  on_extension-IsFollowed m r (some own) h (f, k) =
      settled-IsFollowed (a.attempt own r) _
        (call-IsFollowed a own r (record h { prefer_pybind = true }) tt (prefer-IsFollowed h f))
  on_extension-IsFollowed m r (some (second n)) h (f, k) =
      settled-IsFollowed (a.attempt (second n) r) _ (
        call-IsFollowed a (second n) r (record h { prefer_pybind = true }) (k, refl)
          (prefer-IsFollowed h f))

  extended-IsFollowed :
      (m : String) (r : Request) (c : Result (Option Host)) (h : Hosts)
      → Gives (c, h)
      → IsFollowed (continue c (on_extension a m r) h).1
  extended-IsFollowed m r (ok c) h g = on_extension-IsFollowed m r c h g
  extended-IsFollowed m r (err e) h (f, k) = f

  fall_back-IsFollowed :
      (r : Request) (t : Attempt) (h : Hosts) → IsFollowed h → IsFollowed (fall_back a r t h).1
  unfolding fall_back
  fall_back-IsFollowed r (raised e) h f = f
  fall_back-IsFollowed r (result e) h f = checked-IsFollowed e h f
  fall_back-IsFollowed r (unsupported m) h f =
      extended-IsFollowed m r (get_pybind_connection a h).0 (get_pybind_connection a h).1
        (get_pybind_connection-Gives h f)

  prepared-IsFollowed : (r : Request) (h : Hosts) → IsFollowed h → IsFollowed (prepared a r h).1
  prepared-IsFollowed (create_function n) h f = f
  prepared-IsFollowed (remove_function n) h f = f
  prepared-IsFollowed (create_arrow_table n) h f = f
  prepared-IsFollowed (drop_arrow_table n) h f = f
  prepared-IsFollowed (create_arrow_rel_table n l i) h f = f

  handle-IsFollowed : (r : Request) (h : Hosts) → IsFollowed h → IsFollowed (handle a r h).1
  unfolding handle
  handle-IsFollowed r h f =
      let s = (prepared a r h).1 in
      continue_both IsFollowed (prepared a r h).0 _ s (prepared-IsFollowed r h f) λ _.
        let t = raise_if (lacks_indptr r) no_indptr s in
        let g = raise_if-IsFollowed (lacks_indptr r) no_indptr s (prepared-IsFollowed r h f) in
        continue_both IsFollowed t.0 _ t.1 g
          λ _. fall_back-IsFollowed r (a.attempt own r) _ (call-IsFollowed a own r t.1 tt g)

handle_all-IsFollowed :
    (rs : List (Engine × Request)) (h : Hosts) → IsFollowed h → IsFollowed (handle_all rs h)
unfolding handle_all
handle_all-IsFollowed [] h f = f
handle_all-IsFollowed ((a, r) ∷ rs) h f =
    handle_all-IsFollowed rs (handle a r h).1 (handle-IsFollowed a r h f)

-- Of a call of a second connection: that connection is interrupted with the own one, and the query goes
-- to the extension.
abbrev pub IsServed : Hosts → Question → Host × Request → Type 0
IsServed h q (own, r) = Unit
IsServed h q (second n, r) =
    (interrupted h ≡ own ∷ second n ∷ []) × (route q h.prefer_pybind ≡ pybind_scan)

Reaches-IsServed :
    (h : Hosts) (q : Question) (cs : List (Host × Request))
    → q.using_pybind ≡ false
    → q.is_text ≡ true
    → All (Reaches h.held h.prefer_pybind) cs
    → All (IsServed h q) cs
Reaches-IsServed h q [] e f k = tt
Reaches-IsServed h q ((own, r) ∷ cs) e f (a, k) = (tt, Reaches-IsServed h q cs e f k)
Reaches-IsServed h q ((second n, r) ∷ cs) e f ((a, b), k) =
    ((ground (arith, a), ground (arith, e, f, b)), Reaches-IsServed h q cs e f k)

-- Whatever functions and tables a connection is asked for, and whatever the backends answer: it makes
-- one second connection at most, and once a call went to that connection, `interrupt` reaches it and each
-- later query string of a connection by the C API goes to the extension too.
pub extension_is_followed :
    (using_pybind has_module : Bool) (rs : List (Engine × Request)) (q : Question)
    → q.using_pybind ≡ false
    → q.is_text ≡ true
    → let h = handle_all rs (new_hosts using_pybind has_module) in
      (h.made ≤ 1) × All (IsServed h q) h.calls
extension_is_followed using_pybind has_module rs q e f =
    let h = handle_all rs (new_hosts using_pybind has_module) in
    let new : IsFollowed (new_hosts using_pybind has_module) = record {
      one = inl (refl, refl);
      reached = tt;
    } in
    let g = handle_all-IsFollowed rs (new_hosts using_pybind has_module) new in
    (ground (arith, g.one), Reaches-IsServed h q h.calls e f g.reached)
