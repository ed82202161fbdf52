-- ===== src/Convert/Reader.antt =====
-- src_py/_lbug_capi.py, `_convert_value`, `getNext` and `close` of `QueryResult`: the objects of the C
-- API that are obtained while a result is read, and their ends. Objects of all kinds, values, types,
-- tuples, results and texts, have one row of numbers. Pointers to texts and blobs are not null.
pub mod Results
pub mod Steps
pub mod Kept
pub mod Ends
mod Tests
use ladybug_python.Base.{
  ℕ, zero, suc, ◌+◌, Bool, true, false, Option, none, some, String, List, [], ◌∷◌, if◌then◌else◌,
}
use ladybug_python.Base.Int.{pos}
use ladybug_python.Outcome.{Result, ok, err, PyError, runtime_error, Exec, continue}
use ladybug_python.Text.{Text}
use ladybug_python.Convert.{
  Cell, Cells, Props, Fields, Pairs, convert_interval, combine, as_key, put, put_node, put_rel,
  dict_of, fallback, put_field, or_parsed,
}
use ladybug_python.Convert.Rendered.{Python, Elements, Assignments, Parsers, parse_rendered_value}
use ladybug_python.Convert
use ladybug_python.Convert.Rendered

-- The objects that were made, the ones destroyed, the last first, and the ones that the result owns:
-- `_owned_string_ptrs` and `_owned_blob_ptrs`.
pub record Memory : Type 0 where
  pub made : ℕ
  pub destroyed : List ℕ
  pub owned : List ℕ

-- Readers: the combinators of methods, closed to the proofs about readers.
module _ {A : Type 0} where
  unfoldable pub pure : A → Exec Memory A
  pure a s = (ok a, s)

  unfoldable pub raise : PyError → Exec Memory A
  raise e s = (err e, s)

  unfoldable pub lift : Result A → Exec Memory A
  lift r s = (r, s)

infixl 10 ◌>>=◌ ◌>>◌
unfoldable pub ◌>>=◌ : {A B : Type 0} → Exec Memory A → (A → Exec Memory B) → Exec Memory B
◌>>=◌ m f s = let (r, t) = m s in continue r f t

abbrev pub ◌>>◌ : {A B : Type 0} → Exec Memory A → Exec Memory B → Exec Memory B
m >> n = m >>= λ _. n

unfoldable pub destroy_from : ℕ → ℕ → List ℕ → List ℕ
destroy_from first zero destroyed = destroyed
destroy_from first (suc n) destroyed = destroy_from (suc first) n (first ∷ destroyed)

-- So many objects are obtained, and destroyed in a `finally` after the rest.
unfoldable pub scoped : {A : Type 0} → ℕ → Exec Memory A → Exec Memory A
unfolding destroy_from
scoped n m s =
    let (r, t) = m (record s { made = s.made + n }) in
    (r, record t { destroyed = destroy_from s.made n t.destroyed })

-- An object is obtained, and nothing else is done with it.
unfoldable pub obtain : Exec Memory Unit
obtain s = (ok tt, record s { made = suc s.made })

-- `_adopt_c_string` and `_adopt_blob`
unfoldable pub adopt : Exec Memory Unit
adopt s = (ok tt, record s { made = suc s.made; owned = s.made ∷ s.owned })

-- `except RuntimeError`: the text of the value is used.
abbrev pub is_runtime_error : Result Python → Bool
is_runtime_error (err (runtime_error m)) = true
is_runtime_error r = false

unfoldable pub recovering : Exec Memory Python → Result Python → Exec Memory Python
unfolding adopt ◌>>=◌ lift
recovering m other s =
    let (r, t) = m s in if is_runtime_error r then (adopt >> lift other) t else (r, t)

module _ (parsers : Parsers) where
  -- What follows the fields of a struct.
  abbrev pub finish_fields : Text → Option Assignments → Exec Memory Python
  finish_fields text none = adopt >> pure (parse_rendered_value parsers text)
  finish_fields text (some d) = pure (Rendered.dict d)

  unfoldable mutual
    unfolding scoped obtain adopt recovering pure raise lift ◌>>=◌

    -- `_convert_value`, the type of the value being an object too.
    pub read_value : Cell → Exec Memory Python
    read_value Convert.null = pure Rendered.none_
    read_value (Convert.string t) = scoped 1 (adopt >> pure (Rendered.str t))
    read_value (Convert.uuid t) = scoped 1 (adopt >> pure (Rendered.uuid t))
    read_value (Convert.decimal t) = scoped 1 (adopt >> pure (Rendered.decimal t))
    read_value (Convert.blob bs) = scoped 1 (adopt >> pure (Rendered.bytes bs))
    read_value (Convert.list cs) = scoped 1 (read_each cs >>= λ vs. pure (Rendered.list vs))
    read_value (Convert.unsized_list text) =
        scoped 1 (adopt >> pure (parse_rendered_value parsers text))
    read_value (Convert.node id label ps) = scoped 1 (do
      x ← scoped 2 (do i ← read_value id; l ← read_value label; pure (i, l))
      d ← read_props true ps
      pure (Rendered.dict (put_node x d)))
    read_value (Convert.rel id src dst label ps) = scoped 1 (do
      x ← scoped 4 (do
        i ← read_value id
        s ← read_value src
        t ← read_value dst
        l ← read_value label
        pure (i, s, t, l))
      d ← read_props false ps
      pure (Rendered.dict (put_rel x d)))
    read_value (Convert.recursive_rel nodes rels) = scoped 1 (
        scoped 2 (do
          ns ← read_value nodes
          rs ← read_value rels
          pure (Rendered.dict (put "_NODES" ns (put "_RELS" rs Rendered.end)))))
    read_value (Convert.struct fs text) = scoped 1 (read_fields fs >>= finish_fields text)
    read_value (Convert.map ps) = scoped 1 (read_pairs ps >>= λ d. pure (Rendered.dict d))
    read_value (Convert.other text) = scoped 1 (adopt >> pure (parse_rendered_value parsers text))
    read_value (Convert.failing message) = scoped 1 (raise (runtime_error message))
    read_value (Convert.no_parts n message) = scoped 1 (scoped n (raise (runtime_error message)))
    read_value c = scoped 1 (lift (Convert.convert_value parsers c))

    -- The elements of a list, or the values of a row.
    pub read_each : Cells → Exec Memory Elements
    read_each Convert.nil = pure Rendered.nil
    read_each (Convert.no_element message) = raise (runtime_error message)
    read_each (Convert.cons c cs) = do
      v ← scoped 1 (read_value c)
      vs ← read_each cs
      pure (Rendered.cons v vs)

    pub read_props : Bool → Props → Exec Memory Assignments
    read_props is_node Convert.last = pure Rendered.end
    read_props is_node (Convert.no_name message) = raise (runtime_error message)
    read_props is_node (Convert.no_data message) = adopt >> raise (runtime_error message)
    read_props is_node (Convert.prop key (some (months, days, micros)) c text ps) = do
      adopt
      i ← scoped 1 (lift (convert_interval months days micros))
      d ← read_props is_node ps
      pure (Rendered.assign (Rendered.str key) i d)
    read_props is_node (Convert.prop key none c text ps) = do
      adopt
      v ← scoped 1 (recovering (read_value c) (fallback parsers is_node key text))
      d ← read_props is_node ps
      pure (Rendered.assign (Rendered.str key) v d)

    pub read_fields : Fields → Exec Memory (Option Assignments)
    read_fields Convert.end = pure (some Rendered.end)
    read_fields (Convert.no_field message) = raise (runtime_error message)
    read_fields (Convert.unread key) = adopt >> pure none
    read_fields (Convert.field key c fs) = do
      adopt
      v ← scoped 1 (read_value c)
      d ← read_fields fs
      pure (put_field parsers key v d)

    -- A key that is read is destroyed with its value; where the value is not given, it is not.
    pub read_pairs : Pairs → Exec Memory Assignments
    read_pairs Convert.done = pure Rendered.end
    read_pairs (Convert.no_key message) = raise (runtime_error message)
    read_pairs (Convert.no_value message) = obtain >> raise (runtime_error message)
    read_pairs (Convert.pair k c ps) = do
      (key, v) ←
          scoped 2 (do v ← read_value c; k' ← read_value k; key ← lift (as_key k'); pure (key, v))
      d ← read_pairs ps
      pure (Rendered.assign key v d)
