-- ===== src/Statements/Soundness.antt =====
-- A cached statement is used for the query it was prepared for, and for parameters of its signature.
use ladybug_python.Base.{
  ℕ, ◌+◌, ◌<◌, ◌≡◌, ◌⊎◌, inl, inr, refl, sym, ◌∙◌, none, some, List, [], ◌∷◌, Eq, ◌==◌, nat_eq,
  pair_eq, arith, Option-cases, Bool-cases,
}
use mathlib.Core.Path.{subst}
use ladybug_python.Outcome.{Result, ok, err, PyError}
use ladybug_python.Dict.{lookup, insert, lookup-insert, lookup-insert_self}
use ladybug_python.Statements.{Backend, Cache, empty_cache, Answer, get_or_prepare}

-- A call: the backend, what the engine would answer, the query and the parameters.
abbrev pub Call : Type 0 → Type 0 → Type 0
Call Query Params = Backend × Answer × Query × Params

Result-cases : {A : Type 0} (r : Result A) → ((e : PyError) × (r ≡ err e)) ⊎ ((a : A) × (r ≡ ok a))
Result-cases (err e) = inl (e, refl)
Result-cases (ok a) = inr (a, refl)

module _ {Query Params Key : Type 0} ⦃q : Eq Query⦄ ⦃k : Eq Key⦄
    (signature : Backend → Params → Result Key) where
  -- The statement `n` was prepared for the query, by some backend, for parameters with the key.
  abbrev pub Prepared : Cache Query Params Key → ℕ → Query → Key → Type 0
  Prepared c n query key =
      (b : Backend) × (params : Params) × (lookup n c.prepared ≡ some (b, query, params))
      × (signature b params ≡ ok key)

  pub record IsSound (c : Cache Query Params Key) : Type 0 where
    pub entry :
        (query : Query) (key : Key) (n : ℕ)
        → lookup (query, key) c.entries ≡ some n
        → Prepared c n query key
    pub older :
        (n : ℕ) → (e : Backend × Query × Params) → lookup n c.prepared ≡ some e → n < c.fresh

  empty-IsSound : IsSound empty_cache
  unfolding lookup
  empty-IsSound = record { entry = λ query key n e. cc; older = λ n r e. cc }

  -- A new statement under a new key.
  stored : Backend → Query → Params → Key → Cache Query Params Key → Cache Query Params Key
  stored b query params key c = record c {
    entries = insert (query, key) c.fresh c.entries;
    prepared = (c.fresh, (b, query, params)) ∷ c.prepared;
    fresh = c.fresh + 1;
  }

  stored-entry :
      (b : Backend) (query : Query) (params : Params) (key : Key) (c : Cache Query Params Key)
      → IsSound c
      → signature b params ≡ ok key
      → (query' : Query) (key' : Key) (n : ℕ)
      → lookup (query', key') (stored b query params key c).entries ≡ some n
      → Prepared (stored b query params key c) n query' key'
  unfolding stored lookup
  stored-entry b query params key c inv e query' key' n f =
      let i : Query × Key = (query, key) in
      let j : Query × Key = (query', key') in
      let there = lookup-insert i j c.fresh c.entries in
      elim (Bool-cases (i == j)) [
        | inl same ↦ (
          b,
          params,
          ground (arith, f, there, same, q.beq_iff query query'),
          ground (arith, e, same, k.beq_iff key key'),
        )
        | inr other ↦
            let (b', p', l, s) = inv.entry query' key' n (ground (arith, f, there, other)) in
            (b', p', ground (arith, l, inv.older n (b', query', p') l), s)
      ]

  stored-IsSound :
      (b : Backend) (query : Query) (params : Params) (key : Key) (c : Cache Query Params Key)
      → IsSound c
      → signature b params ≡ ok key
      → IsSound (stored b query params key c)
  unfolding stored lookup
  stored-IsSound b query params key c inv e = record {
    entry = stored-entry b query params key c inv e;
    older = λ n r f. ground (arith, inv.older n r);
  }

  -- What a request does, by what it finds.
  get_or_prepare-cases :
      (b : Backend) (answer : Answer) (query : Query) (params : Params) (c : Cache Query Params Key)
      → ((e : PyError) × (get_or_prepare signature b answer query params c ≡ (err e, c)))
        ⊎ ((key : Key) × (signature b params ≡ ok key)
            × (((n : ℕ) × (lookup (query, key) c.entries ≡ some n)
                  × (get_or_prepare signature b answer query params c ≡ (ok n, c)))
                ⊎ ((lookup (query, key) c.entries ≡ none)
                    × (get_or_prepare signature b answer query params c
                        ≡ (ok c.fresh, stored b query params key c)))))
  unfolding get_or_prepare stored
  get_or_prepare-cases b answer query params c = elim (Result-cases (signature b params)) [
    | inl (e, f) ↦ inl (e, ground (arith, f))
    | inr (key, f) ↦ elim (Option-cases (lookup (query, key) c.entries)) [
      | inr (n, g) ↦ inr (key, f, inl (n, g, ground (arith, f, g)))
      | inl g ↦ elim (Result-cases answer) [
        | inl (e, h) ↦ inl (e, ground (arith, f, g, h))
        | inr (_, h) ↦ inr (key, f, inr (g, ground (arith, f, g, h)))
      ]
    ]
  ]

  unfoldable pub serve : List (Call Query Params) → Cache Query Params Key → Cache Query Params Key
  unfolding get_or_prepare
  serve [] c = c
  serve ((b, answer, query, params) ∷ calls) c =
      serve calls (get_or_prepare signature b answer query params c).1

  -- What holds after one call, by whether it stored a statement.
  after_call :
      (P : Cache Query Params Key → Type 0) (b : Backend) (answer : Answer) (query : Query)
      (params : Params) (c : Cache Query Params Key)
      → P c
      → ((key : Key)
          → signature b params ≡ ok key
          → lookup (query, key) c.entries ≡ none
          → P (stored b query params key c))
      → P (get_or_prepare signature b answer query params c).1
  after_call P b answer query params c same new =
      elim (get_or_prepare-cases b answer query params c) [
        | inl (e, f) ↦ subst (λ r. P r.1) (sym f) same
        | inr (key, s, inl (n, g, f)) ↦ subst (λ r. P r.1) (sym f) same
        | inr (key, s, inr (g, f)) ↦ subst (λ r. P r.1) (sym f) (new key s g)
      ]

  serve-IsSound :
      (calls : List (Call Query Params)) (c : Cache Query Params Key)
      → IsSound c
      → IsSound (serve calls c)
  unfolding serve
  serve-IsSound [] c inv = inv
  serve-IsSound ((b, answer, query, params) ∷ calls) c inv =
      serve-IsSound calls (get_or_prepare signature b answer query params c).1 (
        after_call IsSound b answer query params c inv
          (λ key s g. stored-IsSound b query params key c inv s))

  -- Entries and statements stay.
  record Kept (query : Query) (key : Key) (n : ℕ) (r : Backend × Query × Params)
      (c : Cache Query Params Key) : Type 0 where
    entry : lookup (query, key) c.entries ≡ some n
    statement : lookup n c.prepared ≡ some r
    sound : IsSound c

  stored-Kept :
      (query : Query) (key : Key) (n : ℕ) (r : Backend × Query × Params) (b : Backend)
      (query' : Query) (params : Params) (c : Cache Query Params Key)
      → Kept query key n r c
      → (key' : Key) → signature b params ≡ ok key'
      → lookup (query', key') c.entries ≡ none
      → Kept query key n r (stored b query' params key' c)
  unfolding stored lookup
  stored-Kept query key n r b query' params c h key' s free =
      let i : Query × Key = (query', key') in
      let j : Query × Key = (query, key) in
      record {
        entry = ground (
          arith,
          lookup-insert i j c.fresh c.entries,
          h.entry,
          free,
          q.beq_iff query' query,
          k.beq_iff key' key,
        );
        statement = ground (arith, h.statement, h.sound.older n r h.statement);
        sound = stored-IsSound b query' params key' c h.sound s;
      }

  serve-Kept :
      (query : Query) (key : Key) (n : ℕ) (r : Backend × Query × Params)
      (calls : List (Call Query Params)) (c : Cache Query Params Key)
      → Kept query key n r c
      → Kept query key n r (serve calls c)
  unfolding serve
  serve-Kept query key n r [] c h = h
  serve-Kept query key n r ((b, answer, query', params) ∷ calls) c h =
      serve-Kept query key n r calls (get_or_prepare signature b answer query' params c).1 (
        after_call (Kept query key n r) b answer query' params c h
          (stored-Kept query key n r b query' params c h))

  -- A call that returned a statement left it in the cache.
  abbrev Left : Query → Key → Result ℕ × Cache Query Params Key → Type 0
  Left query key (ok n, d) = (r : Backend × Query × Params) × Kept query key n r d
  Left query key (err e, d) = Unit

  get_or_prepare-Kept :
      (b : Backend) (answer : Answer) (query : Query) (params : Params) (n : ℕ)
      (c d : Cache Query Params Key)
      → IsSound c
      → get_or_prepare signature b answer query params c ≡ (ok n, d)
      → (key : Key) × (signature b params ≡ ok key) × Left query key (ok n, d)
  unfolding stored lookup
  get_or_prepare-Kept b answer query params n c d inv e =
      elim (get_or_prepare-cases b answer query params c) [
        | inl (x, f) ↦ absurd (err≢ok (sym f ∙ e))
        | inr (key, s, inl (m, g, f)) ↦
            let (b', p', l, _) = inv.entry query key m g in
            (
              key,
              s,
              subst (Left query key) (sym f ∙ e)
                  ((b', query, p'), record { entry = g; statement = l; sound = inv }),
            )
        | inr (key, s, inr (g, f)) ↦ (
          key,
          s,
          subst (Left query key) (sym f ∙ e) (
            (b, query, params),
            record {
              entry = lookup-insert_self (query, key) c.fresh c.entries;
              statement = ground arith;
              sound = stored-IsSound b query params key c inv s;
            },
          ),
        )
      ]
    where
      err≢ok : {x : PyError} → ◌≡◌ {A = Result ℕ × Cache Query Params Key} (err x, c) (ok n, d) → ⊥
      err≢ok h = cc

-- After any calls on a new cache, by either backend: a statement that a call returns was prepared for
-- the same query, and for parameters whose signature is that of the call's parameters.
pub cached_statement_fits :
    {Query Params Key : Type 0} ⦃q : Eq Query⦄ ⦃k : Eq Key⦄
    (signature : Backend → Params → Result Key) (calls : List (Call Query Params)) (b : Backend)
    (answer : Answer) (query : Query) (params : Params) (n : ℕ) (d : Cache Query Params Key)
    → get_or_prepare signature b answer query params (serve signature calls empty_cache) ≡ (ok n, d)
    → (b' : Backend) × (params' : Params) × (lookup n d.prepared ≡ some (b', query, params'))
      × (signature b' params' ≡ signature b params)
cached_statement_fits signature calls b answer query params n d e =
    let (key, s, (_, kept)) =
      get_or_prepare-Kept signature b answer query params n (serve signature calls empty_cache) d
        (serve-IsSound signature calls empty_cache (empty-IsSound signature)) e in
    let (b', p', l, s') = kept.sound.entry query key n kept.entry in (b', p', l, s' ∙ sym s)

-- Once a call has returned a statement, every later call for the same query with parameters of the
-- same signature returns that statement and prepares none, whatever calls come between and whichever
-- backend it asks for: so a call for one backend gets the statement that the other one prepared.
pub statement_is_reused :
    {Query Params Key : Type 0} ⦃q : Eq Query⦄ ⦃k : Eq Key⦄
    (signature : Backend → Params → Result Key) (before between : List (Call Query Params))
    (b b' : Backend) (answer answer' : Answer) (query : Query) (params params' : Params) (n : ℕ)
    (d : Cache Query Params Key)
    → get_or_prepare signature b answer query params (serve signature before empty_cache)
      ≡ (ok n, d)
    → signature b' params' ≡ signature b params
    → let later = serve signature between d in
      (get_or_prepare signature b' answer' query params' later ≡ (ok n, later))
      × (lookup n later.prepared ≡ lookup n d.prepared)
unfolding get_or_prepare
statement_is_reused signature before between b b' answer answer' query params params' n d e s =
    let (key, s', (r, kept)) =
      get_or_prepare-Kept signature b answer query params n (serve signature before empty_cache) d
        (serve-IsSound signature before empty_cache (empty-IsSound signature)) e in
    let after = serve-Kept signature query key n r between d kept in
    (ground (arith, after.entry, s, s'), after.statement ∙ sym kept.statement)
