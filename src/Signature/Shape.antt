-- ===== src/Signature/Shape.antt =====
-- The signatures that `_pybind_value_signature` and its `_merge` build, with Python's `==` on them.
use ladybug_python.Base.{ℕ, Bool, true, false, ◌&&◌, List, [], ◌∷◌, ◌==◌, nat_eq, nat_beq}
use ladybug_python.Base.Int.{ℤ, leb_ℤ}
use ladybug_python.Text.{Text, text_eq, text_beq}
use ladybug_python.Signature.Width.{Width, order}

-- `struct` holds the pairs of a struct, `names` the bare names that `_merge` gives for dicts with
-- different keys, and `raw` a character that it may read out of such a name.
mutual
  pub data Sig : Type 0 where
    any bool double blob string : Sig
    int : Width → Sig
    pointer : Text → Text → ℕ → ℤ → Sig
    unknown : Text → Sig
    raw : ℕ → Sig
    list : Sig → Sig
    map : Sig → Sig → Sig
    struct : Fields → Sig
    names : List Text → Sig

  pub data Fields : Type 0 where
    end : Fields
    field : Text → Sig → Fields → Fields

abbrev pub names_beq : List Text → List Text → Bool
names_beq [] [] = true
names_beq (x ∷ xs) (y ∷ ys) = text_beq x y && names_beq xs ys
names_beq _ _ = false

unfoldable mutual
  pub sig_beq : Sig → Sig → Bool
  sig_beq any any = true
  sig_beq bool bool = true
  sig_beq double double = true
  sig_beq blob blob = true
  sig_beq string string = true
  sig_beq (int v) (int w) = nat_beq (order v) (order w)
  sig_beq (pointer a b c d) (pointer a' b' c' d') =
      a == a' && b == b' && c == c' && leb_ℤ d d' && leb_ℤ d' d
  sig_beq (unknown n) (unknown n') = n == n'
  sig_beq (raw c) (raw c') = c == c'
  sig_beq (list s) (list s') = sig_beq s s'
  sig_beq (map s t) (map s' t') = sig_beq s s' && sig_beq t t'
  sig_beq (struct fs) (struct fs') = fields_beq fs fs'
  sig_beq (names xs) (names ys) = names_beq xs ys
  sig_beq _ _ = false

  pub fields_beq : Fields → Fields → Bool
  fields_beq end end = true
  fields_beq (field k s fs) (field k' s' fs') = k == k' && sig_beq s s' && fields_beq fs fs'
  fields_beq _ _ = false
