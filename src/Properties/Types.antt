-- ===== src/Properties/Types.antt =====
-- A printed type is read back.
use ladybug_python.Base.{
  append_nil, ℕ, ◌≡◌, refl, ap, ◌∙◌, Bool, true, false, ◌&&◌, List, [], ◌∷◌, ◌++◌, ◌==◌, nat_eq,
  arith, length, if◌then◌else◌,
}
use ladybug_python.Outcome.{Result, ok, bind_result}
use ladybug_python.Properties.{PropType}
use ladybug_python.Text.{Text}
use ladybug_python.Properties.{
  list_start_symbol, list_end_symbol, count, has, before, split, append_size, read_shape,
  with_shape, read_type,
}

-- A list of each size in turn, the innermost first; an empty size stands for a list of any length.
abbrev pub printed : List Text → Text
printed [] = []
printed (d ∷ ds) = list_start_symbol ∷ (d ++ list_end_symbol ∷ printed ds)

abbrev pub plain : Text → Bool
plain [] = true
plain (x ∷ s) =
    (if x == list_start_symbol then false else if x == list_end_symbol then false else true)
    && plain s

abbrev pub all_plain : List Text → Bool
all_plain [] = true
all_plain (d ∷ ds) = plain d && all_plain ds

-- The sizes that are given.
abbrev pub sizes : List Text → Result (List ℕ)
sizes [] = ok []
sizes (d ∷ ds) = append_size d (sizes ds)

abbrev pieces : List Text → List Text
pieces [] = []
pieces (d ∷ ds) = (d ++ list_end_symbol ∷ []) ∷ pieces ds

abbrev prefix : Text → Text × List Text → Text × List Text
prefix p (a, r) = (p ++ a, r)

split-plain :
    (p t : Text)
    → plain p ≡ true
    → split list_start_symbol (p ++ t) ≡ prefix p (split list_start_symbol t)
unfolding split
split-plain [] t h = refl
split-plain (x ∷ p) t h = ground (arith, split-plain p t, h)

split-printed :
    (ds : List Text) → all_plain ds ≡ true → split list_start_symbol (printed ds) ≡ ([], pieces ds)
unfolding split
split-printed [] h = refl
split-printed (d ∷ ds) h =
    ground (arith, split-printed ds, split-plain d (list_end_symbol ∷ printed ds), h)

count-plain :
    (p t : Text) → plain p ≡ true → count list_start_symbol (p ++ t) ≡ count list_start_symbol t
unfolding count
count-plain [] t h = refl
count-plain (x ∷ p) t h = ground (arith, count-plain p t, h)

count-printed :
    (ds : List Text) → all_plain ds ≡ true → count list_start_symbol (printed ds) ≡ length ds
unfolding count
count-printed [] h = refl
count-printed (d ∷ ds) h =
    ground (arith, count-printed ds, count-plain d (list_end_symbol ∷ printed ds), h)

has-piece : (d : Text) → has list_end_symbol (d ++ list_end_symbol ∷ []) ≡ true
unfolding has
has-piece [] = refl
has-piece (x ∷ d) = ground (arith, has-piece d)

before-piece : (d : Text) → plain d ≡ true → before list_end_symbol (d ++ list_end_symbol ∷ []) ≡ d
unfolding before
before-piece [] h = refl
before-piece (x ∷ d) h = ground (arith, before-piece d, h)

has-plain : (p : Text) → plain p ≡ true → has list_end_symbol p ≡ false
unfolding has
has-plain [] h = refl
has-plain (x ∷ p) h = ground (arith, has-plain p, h)

read_shape-pieces : (ds : List Text) → all_plain ds ≡ true → read_shape (pieces ds) ≡ sizes ds
unfolding read_shape
read_shape-pieces [] h = refl
read_shape-pieces (d ∷ ds) h = ground (arith, has-piece d, before-piece d, read_shape-pieces ds, h)

abbrev shaped : Text → ℕ → Result (List ℕ) → Result PropType
shaped base m r = bind_result r (λ ns. ok (record { name = base; dimension = m; shape = ns }))

split-type :
    (base : Text) (ds : List Text)
    → plain base ≡ true
    → all_plain ds ≡ true
    → split list_start_symbol (base ++ printed ds) ≡ (base, pieces ds)
split-type base ds h g =
    split-plain base (printed ds) h
    ∙ ap (prefix base) (split-printed ds g)
    ∙ ap (λ s. (s, pieces ds)) (append_nil base)

read_shape-type :
    (base : Text) (ds : List Text)
    → plain base ≡ true
    → all_plain ds ≡ true
    → read_shape (base ∷ pieces ds) ≡ sizes ds
unfolding read_shape
read_shape-type base ds h g = ground (arith, has-plain base h, read_shape-pieces ds g)

-- Reading the printed type of lists, over a base type and with sizes free of brackets, gives the base
-- type, the number of list brackets as the dimension, and the sizes that are given in their order; it
-- raises exactly when one of these is no number.
pub printed_type_reads_back :
    (base : Text) (ds : List Text)
    → plain base ≡ true
    → all_plain ds ≡ true
    → read_type (base ++ printed ds)
      ≡ bind_result
          (sizes ds)
          (λ ns. ok (record { name = base; dimension = length ds; shape = ns }))
unfolding read_type
printed_type_reads_back base ds h g =
    let t = base ++ printed ds in
    let n = count-plain base (printed ds) h ∙ count-printed ds g in
    ap (with_shape t) (split-type base ds h g) ∙ cong_shape (read_shape-type base ds h g) n
  where
    cong_shape :
        {r r' : Result (List ℕ)} {m m' : ℕ} → r ≡ r' → m ≡ m' → shaped base m r ≡ shaped base m' r'
    cong_shape p q = cc
