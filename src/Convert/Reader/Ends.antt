-- ===== src/Convert/Reader/Ends.antt =====
-- A result that is closed has destroyed all that it obtained.
use ladybug_python.Base.{
  ℕ, suc, ◌+◌, ◌≡◌, refl, arith, Bool, true, false, Option, none, some, String, List, [], ◌∷◌, All,
}
use ladybug_python.Text.{Text}
use ladybug_python.Binding.Balance.{times, within}
use ladybug_python.Convert.Rendered.{Parsers}
use ladybug_python.Convert.Reader.{Memory}
use ladybug_python.Convert.Reader.Steps.{
  Steps, Steps-refl, Steps-trans, Keeps, Keeps-pure, Keeps-raise, Keeps-scoped, Keeps-bind,
  Keeps-adopted,
}
use ladybug_python.Convert.Reader.Kept.{EachHasValues, read_each-Keeps}
use ladybug_python.Convert.Reader.Results.{
  Answer, row, no_row, names, types, message, DataType, named, list_of, array_of, no_child, no_size,
  read_names, read_data_type, read_data_types, reply, replies, QueryResult, opened, asked,
  destroy_each, close,
}

-- The library gives the size of each ARRAY whose child type it gave.
abbrev pub HasSizes : DataType → Type 0
HasSizes (named t) = Unit
HasSizes (list_of t) = HasSizes t
HasSizes (array_of t n) = HasSizes t
HasSizes (no_child m) = Unit
HasSizes (no_size m) = ⊥

-- The library gives the values of the maps of a row, and the sizes of the types of columns.
abbrev pub GivesValues : Answer → Type 0
GivesValues (row cs) = EachHasValues cs
GivesValues (types ts end) = All HasSizes ts
GivesValues _ = Unit

read_names-Keeps : (ts : List Text) (end : Option String) → Keeps (read_names ts end)
unfolding read_names
read_names-Keeps [] none = Keeps-pure _
read_names-Keeps [] (some m) = Keeps-raise _
read_names-Keeps (t ∷ ts) end =
    Keeps-adopted (Keeps-bind (read_names-Keeps ts end) λ rest. Keeps-pure _)

read_data_type-Keeps : (t : DataType) → HasSizes t → Keeps (read_data_type t)
unfolding read_data_type
read_data_type-Keeps (named t) h = Keeps-pure _
read_data_type-Keeps (no_child m) h = Keeps-raise _
read_data_type-Keeps (no_size m) h = absurd h
read_data_type-Keeps (list_of t) h =
    Keeps-scoped 1 (Keeps-bind (read_data_type-Keeps t h) λ s. Keeps-pure _)
read_data_type-Keeps (array_of t n) h =
    Keeps-scoped 1 (Keeps-bind (read_data_type-Keeps t h) λ s. Keeps-pure _)

read_data_types-Keeps :
    (ts : List DataType) (end : Option String) → All HasSizes ts → Keeps (read_data_types ts end)
unfolding read_data_types
read_data_types-Keeps [] none h = Keeps-pure _
read_data_types-Keeps [] (some m) h = Keeps-raise _
read_data_types-Keeps (t ∷ ts) end (size, h) =
    Keeps-bind (Keeps-scoped 1 (read_data_type-Keeps t size))
      λ s. Keeps-bind (read_data_types-Keeps ts end h) λ rest. Keeps-pure _

module _ (parsers : Parsers) where
  reply-Keeps : (a : Answer) → GivesValues a → Keeps (reply parsers a)
  unfolding reply
  reply-Keeps (row cs) h =
      Keeps-bind (Keeps-scoped 1 (read_each-Keeps parsers cs h)) λ vs. Keeps-pure _
  reply-Keeps (no_row m) h = Keeps-raise _
  reply-Keeps (names ts end) h = Keeps-bind (read_names-Keeps ts end) λ ns. Keeps-pure _
  reply-Keeps (types ts end) h = Keeps-bind (read_data_types-Keeps ts end h) λ ns. Keeps-pure _
  reply-Keeps (message t) h = Keeps-adopted (Keeps-pure _)

  replies-Steps :
      (answers : List Answer) (s : Memory)
      → All GivesValues answers
      → Steps s (replies parsers answers s).1
  unfolding replies
  replies-Steps [] s h = Steps-refl s
  replies-Steps (a ∷ rest) s (g, h) =
      let t = (reply parsers a s).1 in
      Steps-trans s t (replies parsers rest t).1 ((reply-Keeps a g).kept s) (replies-Steps rest t h)

times-destroy_each :
    (h : ℕ) (ps destroyed : List ℕ)
    → times h (destroy_each ps destroyed) ≡ times h ps + times h destroyed
unfolding destroy_each
times-destroy_each h [] destroyed = omega arith
times-destroy_each h (p ∷ ps) destroyed = omega (arith, times-destroy_each h ps (p ∷ destroyed))

close-close : (lib : Bool) (q : QueryResult) → close lib (close true q) ≡ close true q
unfolding close
close-close true q = refl
close-close false q = refl

-- After any sequence of `getNext`, `getColumnNames`, `getColumnDataTypes` and `getErrorMessage` on a result,
-- some of which may raise, where the library gives the value of each entry of a map whose key it gave
-- and the size of each ARRAY whose child type it gave: once the result is closed it owns nothing, a
-- second `close()` changes nothing, and each object that was obtained since it was opened, with the
-- result itself, is destroyed exactly once, and no other object is.
pub close_destroys_each :
    (parsers : Parsers) (answers : List Answer) (made : ℕ) (destroyed : List ℕ) (lib : Bool)
    → All GivesValues answers
    → let q = close true (asked parsers answers (opened made destroyed)) in
      (q.memory.owned ≡ [])
      × (close lib q ≡ q)
      × ((h : ℕ) → times h q.memory.destroyed ≡ times h destroyed + within made q.memory.made h)
unfolding close asked opened
close_destroys_each parsers answers made destroyed lib g =
    let s : Memory = record { made = suc made; destroyed = destroyed; owned = [] } in
    let p = replies-Steps parsers answers s g in
    let t = (replies parsers answers s).1 in
    (
      refl,
      close-close lib (asked parsers answers (opened made destroyed)),
      λ h. ground (arith, p.grows, p.counted h, times-destroy_each h t.owned t.destroyed),
    )
