-- ===== src/Convert/Typed.antt =====
-- src_py/_lbug_capi.py, `_convert_value`: the values of each logical type become those of one Python type.
mod Tests
use ladybug_python.Base.{ℕ, ◌≡◌, refl, Bool, true, false, Option, none, some}
use ladybug_python.Base.Int.{ℤ}
use ladybug_python.Outcome.{Result, ok, err, bind_result}
use ladybug_python.Text.{Text}
use ladybug_python.Convert.{
  Cell, Cells, Props, Fields, Pairs, as_key, or_else, fallback, put_field, or_parsed, convert_value,
  convert_each, convert_props, convert_fields, convert_pairs, convert_interval, is_date,
  is_datetime, date_of, datetime_of,
}
use ladybug_python.Convert.Rendered.{Python, Elements, Assignments, Parsers}
use ladybug_python.Convert.Types.{
  LogicalType, is_hashable, IsDelta, HasType, EachHasType, PairsHaveType, HaveTypes, AreRead, Named,
  IsOf, EachIsOf, EntriesAreOf, null, bool, int, int128, double, float, string, uuid, decimal, blob,
  internal_id, date, timestamp, timestamp_ms, timestamp_sec, timestamp_ns, timestamp_tz, interval,
  interval_struct, list, map, node, rel, recursive_rel, struct, nil, cons, done, pair, last, probed,
  prop, end, field, no_keys, named, none_, str, bytes, naive, aware, timedelta, path, assign,
}
use ladybug_python.Convert
use ladybug_python.Convert.Rendered
use ladybug_python.Convert.Types

-- It is returned, and so it is.
pub data Returns {A : Type 0} (P : A → Type 0) : Result A → Type 0 where
  value : (a : A) → P a → Returns P (ok a)

Returns-bind :
    {A B : Type 0} {P : A → Type 0} {Q : B → Type 0} {r : Result A} {f : A → Result B}
    → Returns P r
    → ((a : A) → P a → Returns Q (f a))
    → Returns Q (bind_result r f)
Returns-bind (value a p) k = k a p

-- All fields are there.
abbrev AllNamed : Option Assignments → Type 0
AllNamed none = ⊥
AllNamed (some d) = Named d

-- The parts of a node and of a rel, and an entry of a map.
abbrev AreNode : Python × Python → Type 0
AreNode (i, l) = IsOf LogicalType.internal_id i × IsOf LogicalType.string l

abbrev AreRel : Python × Python × Python × Python → Type 0
AreRel (i, s, t, l) =
    IsOf LogicalType.internal_id i
    × IsOf LogicalType.internal_id s
    × IsOf LogicalType.internal_id t
    × IsOf LogicalType.string l

abbrev AreEntry : LogicalType → LogicalType → Python × Python → Type 0
AreEntry k v (a, b) = IsOf k a × IsOf v b

as_key-IsOf :
    (t : LogicalType) (v : Python) → is_hashable t ≡ true → IsOf t v → Returns (IsOf t) (as_key v)
as_key-IsOf _ _ e none_ = value _ none_
as_key-IsOf _ _ e (bool b) = value _ (bool b)
as_key-IsOf _ _ e (int n) = value _ (int n)
as_key-IsOf _ _ e (float n) = value _ (float n)
as_key-IsOf _ _ e (str t) = value _ (str t)
as_key-IsOf _ _ e (uuid t) = value _ (uuid t)
as_key-IsOf _ _ e (decimal t) = value _ (decimal t)
as_key-IsOf _ _ e (bytes bs) = value _ (bytes bs)
as_key-IsOf _ _ e (date n) = value _ (date n)
as_key-IsOf _ _ e (naive n d) = value _ (naive n d)
as_key-IsOf _ _ e (aware n d) = value _ (aware n d)
as_key-IsOf _ _ e (timedelta d s m) = value _ (timedelta d s m)
as_key-IsOf _ _ e _ = cc

convert_interval-IsOf :
    (a b c : ℤ) → IsDelta a b c → Returns (IsOf LogicalType.interval) (convert_interval a b c)
unfolding convert_interval
convert_interval-IsOf a b c h = rw h (value _ (timedelta _ _ _))

date_of-IsOf : (n : ℤ) → is_date n ≡ true → Returns (IsOf LogicalType.date) (date_of n)
unfolding date_of
date_of-IsOf n h = rw h (value _ (date n))

naive-IsOf :
    (n : ℤ) (d : ℕ)
    → is_datetime n d ≡ true
    → Returns (IsOf LogicalType.timestamp) (datetime_of false n d)
unfolding datetime_of
naive-IsOf n d h = rw h (value _ (naive n d))

aware-IsOf :
    (n : ℤ) (d : ℕ)
    → is_datetime n d ≡ true
    → Returns (IsOf LogicalType.timestamp_tz) (datetime_of true n d)
unfolding datetime_of
aware-IsOf n d h = rw h (value _ (aware n d))

or_else-Returns :
    {P : Python → Type 0} {r : Result Python} (other : Result Python)
    → Returns P r
    → Returns P (or_else r other)
or_else-Returns other (value a p) = value a p

module _ (parsers : Parsers) where
  put_field-AllNamed :
      (key : Text) (v : Python) (o : Option Assignments)
      → AllNamed o
      → AllNamed (put_field parsers key v o)
  put_field-AllNamed key v none h = h
  put_field-AllNamed key v (some d) h = named key v d h

  or_parsed-IsOf :
      (text : Text) (o : Option Assignments)
      → AllNamed o
      → Returns (IsOf LogicalType.struct) (or_parsed parsers text o)
  or_parsed-IsOf text none h = absurd h
  or_parsed-IsOf text (some d) h = value _ (struct d h)

  mutual
    unfolding convert_value

    value-IsOf :
        (t : LogicalType) (c : Cell) → HasType t c → Returns (IsOf t) (convert_value parsers c)
    value-IsOf _ _ null = value _ none_
    value-IsOf _ _ (bool b) = value _ (bool b)
    value-IsOf _ _ (int n) = value _ (int n)
    value-IsOf _ _ (int128 n l) = value _ (int _)
    value-IsOf _ _ (double n) = value _ (float n)
    value-IsOf _ _ (float n) = value _ (float n)
    value-IsOf _ _ (string t) = value _ (str t)
    value-IsOf _ _ (uuid t) = value _ (uuid t)
    value-IsOf _ _ (decimal t) = value _ (decimal t)
    value-IsOf _ _ (blob bs) = value _ (bytes bs)
    value-IsOf _ _ (internal_id a b) = value _ (internal_id _ _)
    value-IsOf _ _ (date n h) = date_of-IsOf n h
    value-IsOf _ _ (timestamp n h) = naive-IsOf n 1000000 h
    value-IsOf _ _ (timestamp_ms n h) = naive-IsOf n 1000 h
    value-IsOf _ _ (timestamp_sec n h) = naive-IsOf n 1 h
    value-IsOf _ _ (timestamp_ns n h) = naive-IsOf n 1000000000 h
    value-IsOf _ _ (timestamp_tz n h) = aware-IsOf n 1000000 h
    value-IsOf _ _ (interval a b c h) = convert_interval-IsOf a b c h
    value-IsOf _ _ (interval_struct a b c h) = convert_interval-IsOf a b c h
    value-IsOf _ _ (list cs h) = Returns-bind (each-IsOf _ cs h) λ vs k. value _ (list vs k)
    value-IsOf _ _ (map ps e h) = Returns-bind (pairs-IsOf _ _ ps e h) λ d k. value _ (map d k)
    value-IsOf _ _ (node i l ps a b c) =
        Returns-bind {P = AreNode}
          (Returns-bind (value-IsOf _ i a)
            λ x p. Returns-bind (value-IsOf _ l b) λ y q. value (x, y) (p, q))
          λ (x, y) (j, k). Returns-bind (props-Named true ps c) λ d n. value _ (node x y d j k n)
    value-IsOf _ _ (rel i s d l ps e f g h c) =
        Returns-bind {P = AreRel}
          (Returns-bind (value-IsOf _ i e) λ x p. Returns-bind (value-IsOf _ s f) λ y q.
            Returns-bind (value-IsOf _ d g)
              λ z r. Returns-bind (value-IsOf _ l h) λ w o. value (x, y, z, w) (p, q, r, o))
          λ (x, y, z, w) (p, q, r, o).
            Returns-bind (props-Named false ps c) λ d n. value _ (rel x y z w d p q r o n)
    value-IsOf _ _ (recursive_rel ns rs a b) =
        Returns-bind (value-IsOf _ ns a)
          λ x p. Returns-bind (value-IsOf _ rs b) λ y q. value _ (path x y p q)
    value-IsOf _ _ (struct fs text h) =
        Returns-bind (fields-Named fs h) λ o k. or_parsed-IsOf text o k

    each-IsOf :
        (t : LogicalType) (cs : Cells)
        → EachHasType t cs
        → Returns (EachIsOf t) (convert_each parsers cs)
    each-IsOf _ _ nil = value _ nil
    each-IsOf _ _ (cons c cs a b) =
        Returns-bind (value-IsOf _ c a)
          λ v p. Returns-bind (each-IsOf _ cs b) λ vs q. value _ (cons v vs p q)

    pairs-IsOf :
        (k v : LogicalType) (ps : Pairs)
        → is_hashable k ≡ true
        → PairsHaveType k v ps
        → Returns (EntriesAreOf k v) (convert_pairs parsers ps)
    pairs-IsOf _ _ _ s done = value _ end
    pairs-IsOf _ _ _ s (pair a b ps e f g) =
        Returns-bind {P = AreEntry _ _}
          (Returns-bind (value-IsOf _ b f) λ x p.
            Returns-bind (value-IsOf _ a e)
              λ y q. Returns-bind (as_key-IsOf _ y s q) λ z r. value (z, x) (r, p))
          λ (x, y) (j, k). Returns-bind (pairs-IsOf _ _ ps s g) λ d n. value _ (assign x y d j k n)

    fields-Named : (fs : Fields) → AreRead fs → Returns AllNamed (convert_fields parsers fs)
    fields-Named _ end = value _ no_keys
    fields-Named _ (field key c fs a b) =
        Returns-bind (value-IsOf _ c a)
          λ v _. Returns-bind (fields-Named fs b) λ o k. value _ (put_field-AllNamed key v o k)

    props-Named :
        (b : Bool) (ps : Props) → HaveTypes ps → Returns Named (convert_props parsers b ps)
    props-Named b _ last = value _ no_keys
    props-Named b _ (probed key months days micros c text ps e h) =
        Returns-bind (convert_interval-IsOf months days micros e)
          λ i _. Returns-bind (props-Named b ps h) λ d k. value _ (named key i d k)
    props-Named b _ (prop key c text ps a h) =
        Returns-bind (or_else-Returns _ (value-IsOf _ c a))
          λ v _. Returns-bind (props-Named b ps h) λ d k. value _ (named key v d k)

outcome : {A : Type 0} {P : A → Type 0} {r : Result A} → Returns P r → (a : A) × (r ≡ ok a) × P a
outcome (value a p) = (a, refl, p)

-- A value of a logical type is converted to a value of the Python type that belongs to it, all the way
-- down, and no error is raised: so it is where the calls for its parts succeed, the keys of its maps
-- are no containers, and its dates, timestamps and intervals are ones that Python has (dates and
-- datetimes of the years 1 to 9999, timedeltas of at most 999999999 days).
pub converted_value_conforms :
    (parsers : Parsers) (t : LogicalType) (c : Cell)
    → HasType t c
    → (v : Python) × (convert_value parsers c ≡ ok v) × IsOf t v
converted_value_conforms parsers t c h = outcome (value-IsOf parsers t c h)
