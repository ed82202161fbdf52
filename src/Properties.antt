-- ===== src/Properties.antt =====
-- src_py/connection.py, `_get_node_property_names`: the parts of the type of a property, such as
-- "FLOAT[3][]". The engine prints the sizes in digits; what else `int` accepts is left out.
pub mod Types
mod Tests
use ladybug_python.Base.{
  ℕ, suc, ◌+◌, ◌-◌, ◌*◌, Bool, true, false, ◌&&◌, ◌||◌, List, [], ◌∷◌, ◌==◌, nat_eq, leb,
  if◌then◌else◌,
}
use ladybug_python.Outcome.{Result, ok, err, value_error, bind_result}
use ladybug_python.Text.{Text, codes}

abbrev pub list_start_symbol : ℕ
list_start_symbol = 91

abbrev pub list_end_symbol : ℕ
list_end_symbol = 93

-- `s.count(c)`, `c in s` and `s.split(c)[0]` of one character
unfoldable pub count : ℕ → Text → ℕ
count c [] = 0
count c (x ∷ s) = let n = count c s in if x == c then suc n else n

unfoldable pub has : ℕ → Text → Bool
has c [] = false
has c (x ∷ s) = x == c || has c s

unfoldable pub before : ℕ → Text → Text
before c [] = []
before c (x ∷ s) = let rest = before c s in if x == c then [] else x ∷ rest

abbrev pub cut : Bool → ℕ → Text × List Text → Text × List Text
cut true x (a, r) = ([], a ∷ r)
cut false x (a, r) = (x ∷ a, r)

-- `s.split(c)`: its first part and the others.
unfoldable pub split : ℕ → Text → Text × List Text
split c [] = ([], [])
split c (x ∷ s) = cut (x == c) x (split c s)

-- `int(s)`
unfoldable pub read_digits : ℕ → Text → Result ℕ
read_digits n [] = ok n
read_digits n (x ∷ s) =
    let rest = read_digits (10 * n + (x - 48)) s in
    if leb 48 x && leb x 57
    then rest
    else err (value_error "invalid literal for int() with base 10")

abbrev pub int_of : Text → Result ℕ
int_of [] = err (value_error "invalid literal for int() with base 10")
int_of (x ∷ s) = read_digits 0 (x ∷ s)

-- `if s != "": shape.append(int(s))`
abbrev pub append_size : Text → Result (List ℕ) → Result (List ℕ)
append_size [] rest = rest
append_size (x ∷ s) rest = bind_result (int_of (x ∷ s)) (λ n. bind_result rest (λ ns. ok (n ∷ ns)))

-- The loop over the parts.
unfoldable pub read_shape : List Text → Result (List ℕ)
unfolding has before read_digits
read_shape [] = ok []
read_shape (s ∷ ss) =
    let rest = read_shape ss in
    if has list_end_symbol s then append_size (before list_end_symbol s) rest else rest

pub record PropType : Type 0 where
  pub name : Text
  pub dimension : ℕ
  pub shape : List ℕ

abbrev pub with_shape : Text → Text × List Text → Result PropType
with_shape t (first, rest) =
    bind_result (read_shape (first ∷ rest))
      (λ ns. ok (record { name = first; dimension = count list_start_symbol t; shape = ns }))

unfoldable pub read_type : Text → Result PropType
unfolding split count read_shape
read_type t = with_shape t (split list_start_symbol t)
