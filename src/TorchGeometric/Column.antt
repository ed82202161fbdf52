-- ===== src/TorchGeometric/Column.antt =====
-- One property of one label: the values that are kept, and when they become unconverted.
use ladybug_python.Base.{
  ℕ, Bool, true, false, ◌&&◌, not, Option, none, some, List, [], ◌∷◌, nat_eq, ◌==◌, if◌then◌else◌,
}
use ladybug_python.Outcome.{Result, ok, err, PyError, value_error}

-- The types that torch_geometric takes, and every other one.
pub data Kind : Type 0 where
  int64 double bool other : Kind

pub record PropertyInfo : Type 0 where
  pub kind : Kind
  pub dimension : ℕ
  pub is_primary_key : Bool

abbrev pub is_supported : Kind → Bool
is_supported other = false
is_supported _ = true

abbrev pub shape_beq : List ℕ → List ℕ → Bool
shape_beq [] [] = true
shape_beq (a ∷ s) (b ∷ t) = a == b && shape_beq s t
shape_beq _ _ = false

-- A value as it is, or in a tensor of some shape.
pub data Stored (V : Type 0) : Type 0 where
  plain : V → Stored V
  tensor : V → List ℕ → Stored V

abbrev pub shape_of : {V : Type 0} → Stored V → List ℕ
shape_of (plain v) = []
shape_of (tensor v s) = s

-- What the conversion uses of torch: whether a value is `None`, the shape of the tensor of a list, or
-- the error that is raised, and `tolist` of that tensor.
pub record Torch (V : Type 0) : Type 0 where
  pub is_none : V → Bool
  pub to_tensor : Kind → V → Result (List ℕ)
  pub to_list : V → V

-- `except ValueError`: every other error, such as the `TypeError` of a list with a `None`, is not caught.
abbrev pub uncaught : Result (List ℕ) → Option PyError
uncaught (ok s) = none
uncaught (err (value_error m)) = none
uncaught (err e) = some e

abbrev pub made_shape : Result (List ℕ) → Option (List ℕ)
made_shape (ok s) = some s
made_shape (err e) = none

module _ {V : Type 0} where
  -- The error that ends the loop at a value, where one does.
  unfoldable pub tensor_error : Torch V → PropertyInfo → V → Option PyError
  tensor_error torch info v =
      if not (is_supported info.kind)
      then none
      else if torch.is_none v
      then none
      else if info.dimension == 0
      then none
      else uncaught (torch.to_tensor info.kind v)

  -- The shape agrees with that of the first value of the column, if there is one.
  abbrev pub fits : List ℕ → Option (List (Stored V)) → Bool
  fits s none = true
  fits s (some []) = true
  fits s (some (x ∷ xs)) = shape_beq s (shape_of x)

  abbrev pub checked : V → Option (List ℕ) → Option (List (Stored V)) → Option (Stored V)
  checked v none col = none
  checked v (some s) col = if fits s col then some (tensor v s) else none

  -- The checks on a value that raises no other error; `none` where the property becomes unconverted.
  unfoldable pub convert_one :
      Torch V → PropertyInfo → V → Option (List (Stored V)) → Option (Stored V)
  convert_one torch info v col =
      if not (is_supported info.kind)
      then none
      else if torch.is_none v
      then none
      else if info.dimension == 0
      then some (plain v)
      else checked v (made_shape (torch.to_tensor info.kind v)) col

  -- What goes back into an unconverted column.
  abbrev pub given_back : Torch V → List (Stored V) → List V
  given_back torch [] = []
  given_back torch (plain v ∷ xs) = v ∷ given_back torch xs
  given_back torch (tensor v s ∷ xs) = torch.to_list v ∷ given_back torch xs
