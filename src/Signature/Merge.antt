-- ===== src/Signature/Merge.antt =====
-- `_merge` of `_pybind_value_signature`: one signature for two elements of a list.
use ladybug_python.Base.{
  Bool, true, false, ◌&&◌, ◌||◌, Option, none, some, List, [], ◌∷◌, ◌++◌, ◌==◌, nat_eq, leb, ltb,
  if◌then◌else◌,
}
use ladybug_python.Outcome.{Result, ok, err, value_error, key_error, bind_result}
use ladybug_python.Dict.{Dict, keys, lookup, insert, contains}
use ladybug_python.Text.{Text, text_eq}
use ladybug_python.Signature.Width.{Width, order}
use ladybug_python.Signature.Shape.{
  Sig, any, int, raw, list, map, struct, names, Fields, end, field, sig_beq,
}

-- `<` on strings
abbrev pub text_ltb : Text → Text → Bool
text_ltb [] [] = false
text_ltb [] (b ∷ t) = true
text_ltb (a ∷ s) [] = false
text_ltb (a ∷ s) (b ∷ t) = ltb a b || (a == b && text_ltb s t)

-- `sorted(...)`
unfoldable pub insert_sorted : Text → List Text → List Text
insert_sorted x [] = x ∷ []
insert_sorted x (y ∷ ys) = if text_ltb y x then y ∷ insert_sorted x ys else x ∷ y ∷ ys

unfoldable pub sorted : List Text → List Text
unfolding insert_sorted
sorted [] = []
sorted (x ∷ xs) = insert_sorted x (sorted xs)

abbrev pub is_empty : List Text → Bool
is_empty [] = true
is_empty (x ∷ xs) = false

module _ {V W : Type 0} where
  -- The keys of the second dict that the first does not have.
  unfoldable pub new_keys : Dict Text V → Dict Text W → List Text
  unfolding contains
  new_keys d [] = []
  new_keys d ((k, v) ∷ e) = let rest = new_keys d e in if contains k d then rest else k ∷ rest

-- `set(fa) == set(fb)`
unfoldable pub same_keys : {V W : Type 0} → Dict Text V → Dict Text W → Bool
unfolding new_keys
same_keys fa fb = is_empty (new_keys fa fb) && is_empty (new_keys fb fa)

-- `dict(pairs)`
unfoldable pub add_fields : Fields → Dict Text Sig → Dict Text Sig
unfolding insert
add_fields end d = d
add_fields (field k s fs) d = add_fields fs (insert k s d)

-- `dict(names)`: a string of two characters counts as a pair of them, any other raises.
unfoldable pub dict_of_names : List Text → Dict Text Sig → Result (Dict Text Sig)
unfolding insert
dict_of_names [] d = ok d
dict_of_names ((k ∷ v ∷ []) ∷ xs) d = dict_of_names xs (insert (k ∷ []) (raw v) d)
dict_of_names (_ ∷ xs) d =
    err (value_error "dictionary update sequence element has the wrong length; 2 is required")

-- `dict(b[1])` where `b[0] == "struct"`
unfoldable pub fields_of : Sig → Option (Result (Dict Text Sig))
unfolding add_fields dict_of_names
fields_of (struct fs) = some (ok (add_fields fs []))
fields_of (names xs) = some (dict_of_names xs [])
fields_of _ = none

abbrev pub Merger : Type 0
Merger = Sig → Result Sig

abbrev pub is_any : Sig → Bool
is_any any = true
is_any _ = false

-- The first two tests of `_merge`; `rest` is what the others return.
unfoldable pub unless_equal : Sig → Sig → Result Sig → Result Sig
unfolding sig_beq
unless_equal a b rest = if sig_beq a b then ok a else if is_any a || is_any b then ok any else rest

abbrev pub wider : Sig → Width → Sig → Sig
wider a v (int w) = if leb (order w) (order v) then a else int w
wider a v _ = a

abbrev pub list_case : Sig → Merger → Sig → Result Sig
list_case a f (list t) = bind_result (f t) (λ m. ok (list m))
list_case a f _ = ok a

abbrev pub map_case : Sig → Merger → Merger → Sig → Result Sig
map_case a f g (map s t) = bind_result (f s) (λ k. bind_result (g t) (λ v. ok (map k v)))
map_case a f g _ = ok a

-- `_merge(fa[k], fb[k])` for each `k` of `fa`, by the value of `fb.get(k)`.
abbrev pub merge_found : Merger → Option Sig → Result Sig
merge_found f none = err (key_error "key")
merge_found f (some t) = f t

unfoldable pub merge_each : Dict Text Merger → Dict Text Sig → Result Fields
unfolding lookup
merge_each [] fb = ok end
merge_each ((k, f) ∷ fa) fb =
    bind_result (merge_found f (lookup k fb))
      (λ s. bind_result (merge_each fa fb) (λ fs. ok (field k s fs)))

unfoldable pub merge_dicts : Dict Text Merger → Dict Text Sig → Result Sig
unfolding merge_each same_keys sorted
merge_dicts fa fb =
    if same_keys fa fb
    then bind_result (merge_each fa fb) (λ fs. ok (struct fs))
    else ok (names (sorted (keys fa ++ new_keys fa fb)))

abbrev pub struct_case :
    Sig → Result (Dict Text Merger) → Option (Result (Dict Text Sig)) → Result Sig
struct_case a fa none = ok a
struct_case a fa (some fb) = bind_result fa (λ d. bind_result fb (λ e. merge_dicts d e))

-- What `_merge` does with a character.
abbrev pub raw_mergers : Dict Text Sig → Dict Text Merger
raw_mergers [] = []
raw_mergers ((k, s) ∷ d) = (k, λ t. unless_equal s t (ok s)) ∷ raw_mergers d

unfoldable mutual
  unfolding unless_equal fields_of merge_dicts insert dict_of_names

  pub merge : Sig → Sig → Result Sig
  merge (int v) b = unless_equal (int v) b (ok (wider (int v) v b))
  merge (list s) b = unless_equal (list s) b (list_case (list s) (λ t. merge s t) b)
  merge (map s t) b =
      unless_equal (map s t) b (map_case (map s t) (λ u. merge s u) (λ u. merge t u) b)
  merge (struct fs) b =
      unless_equal (struct fs) b (struct_case (struct fs) (ok (mergers fs [])) (fields_of b))
  merge (names xs) b = unless_equal (names xs) b (
      struct_case (names xs) (bind_result (dict_of_names xs []) (λ d. ok (raw_mergers d)))
        (fields_of b))
  merge a b = unless_equal a b (ok a)

  -- `dict(a[1])`, with each value in the form of what `_merge` does with it.
  pub mergers : Fields → Dict Text Merger → Dict Text Merger
  mergers end d = d
  mergers (field k s fs) d = mergers fs (insert k (λ t. merge s t) d)
