-- ===== src/Statements.antt =====
-- src_py/connection.py: the implicit cache of prepared statements, under `_prepared_cache_lock`.
-- Parameters and their signatures are parameters of the model, and so is what the engine answers.
pub mod Soundness
mod Tests
use ladybug_python.Base.{
  ℕ, suc, ◌+◌, ◌≡◌, refl, Bool, true, false, Option, none, some, List, [], ◌∷◌, Eq, ◌==◌, nat_eq,
  pair_eq, if◌then◌else◌,
}
use ladybug_python.Outcome.{Result, ok, err, PyError, Exec, pure, gets, lift, modify, ◌>>=◌, ◌>>◌}
use ladybug_python.Dict.{Dict, lookup, insert}

pub data Backend : Type 0 where
  capi pybind : Backend

-- Statements are numbered as they are prepared; `prepared` holds the backend, the query and the
-- parameters of each.
pub record Cache (Query Params Key : Type 0) : Type 0 where
  pub entries : Dict (Query × Key) ℕ
  pub prepared : Dict ℕ (Backend × Query × Params)
  pub fresh : ℕ

abbrev pub empty_cache : {Query Params Key : Type 0} → Cache Query Params Key
empty_cache = record { entries = []; prepared = []; fresh = 0 }

-- What the engine answers when it prepares a statement.
abbrev pub Answer : Type 0
Answer = Result Unit

module _ {Query Params Key : Type 0} ⦃q : Eq Query⦄ ⦃k : Eq Key⦄ where
  unfoldable pub prepare : Backend → Answer → Query → Params → Exec (Cache Query Params Key) ℕ
  prepare b (err e) query params c = (err e, c)
  prepare b (ok _) query params c = (
    ok c.fresh,
    record c { prepared = (c.fresh, (b, query, params)) ∷ c.prepared; fresh = c.fresh + 1 },
  )

  -- By the entry for the key.
  unfoldable pub found_or_prepared :
      Backend → Answer → Query → Params → Key → Option ℕ → Exec (Cache Query Params Key) ℕ
  unfolding prepare insert
  found_or_prepared b answer query params key (some n) = pure n
  found_or_prepared b answer query params key none = do
    n ← prepare b answer query params
    modify (λ c. record c { entries = insert (query, key) n c.entries })
    pure n

  -- `_get_or_prepare_pybind_statement` and `_get_or_prepare_capi_statement`, which differ in the
  -- signature and in who prepares, and share the cache.
  unfoldable pub get_or_prepare :
      (Backend → Params → Result Key)
      → Backend
      → Answer
      → Query
      → Params
      → Exec (Cache Query Params Key) ℕ
  unfolding lookup found_or_prepared
  get_or_prepare signature b answer query params = do
    key ← lift (signature b params)
    entry ← gets (λ c. lookup (query, key) c.entries)
    found_or_prepared b answer query params key entry
