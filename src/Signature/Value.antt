-- ===== src/Signature/Value.antt =====
-- `_pybind_value_signature` of a Python value. The type of a value is that of its first matching
-- `isinstance` test; the keys of a dict are strings here.
use ladybug_python.Base.{
  ℕ, zero, suc, Bool, false, ◌&&◌, Option, none, some, ◌==◌, nat_eq, if◌then◌else◌,
}
use ladybug_python.Base.Int.{ℤ}
use ladybug_python.Outcome.{Result, ok, Exec, pure, lift, raise, type_error, ◌>>=◌}
use ladybug_python.Text.{Text, text_eq, codes}
use ladybug_python.Signature.Pointer.{Tracker, generation}
use ladybug_python.Signature.Width.{int64, pybind_int_signature}
use ladybug_python.Signature.Shape.{Sig, Fields, field}
use ladybug_python.Signature.Shape
use ladybug_python.Signature.Merge.{merge}

-- A `frame` is an object of pandas, polars or pyarrow: its address, the object itself, its module,
-- its class and the fingerprint of its schema.
mutual
  pub data Value : Type 0 where
    null bool float blob str : Value
    int : ℤ → Value
    frame : ℕ → ℕ → Text → Text → ℤ → Value
    dict : Entries → Value
    list tuple : Items → Value
    other : Text → Value

  pub data Items : Type 0 where
    nil : Items
    cons : Value → Items → Items

  pub data Entries : Type 0 where
    end : Entries
    entry : Text → Value → Entries → Entries

abbrev pub count : Items → ℕ
count nil = zero
count (cons v vs) = suc (count vs)

-- The dicts that stand for a MAP: `{"key": [...], "value": [...]}` with lists of one length.
abbrev pub is_map : Entries → Bool
is_map (entry k (list ks) (entry k' (list vs) end)) =
    k == codes "key" && k' == codes "value" && count ks == count vs
is_map _ = false

abbrev pub merge_into : Option Sig → Sig → Result Sig
merge_into none s = ok s
merge_into (some m) s = merge m s

-- What stands behind "list", by the merged signature of the elements.
abbrev pub element : Option Sig → Sig
element none = Shape.any
element (some (Shape.int w)) = Shape.int int64
element (some s) = s

unfoldable pub frame_signature : ℕ → ℕ → Text → Text → ℤ → Exec Tracker Sig
unfolding generation
frame_signature addr object pkg name fp s =
    let (g, s') = generation addr object s in (ok (Shape.pointer pkg name g fp), s')

unfoldable mutual
  unfolding merge frame_signature pybind_int_signature

  pub value_signature : Value → Exec Tracker Sig
  value_signature null = pure Shape.any
  value_signature bool = pure Shape.bool
  value_signature (int n) = pure (Shape.int (pybind_int_signature n))
  value_signature float = pure Shape.double
  value_signature blob = pure Shape.blob
  value_signature str = pure Shape.string
  value_signature (frame addr object pkg name fp) = frame_signature addr object pkg name fp
  value_signature (dict es) =
      if is_map es then map_signature es else (fields_signature es >>= λ fs. pure (Shape.struct fs))
  value_signature (list vs) = merge_items vs none >>= λ m. pure (Shape.list (element m))
  value_signature (tuple vs) = merge_items vs none >>= λ m. pure (Shape.list (element m))
  value_signature (other name) = pure (Shape.unknown name)

  pub fields_signature : Entries → Exec Tracker Fields
  fields_signature end = pure Shape.end
  fields_signature (entry k v es) =
      value_signature v >>= λ s. fields_signature es >>= λ fs. pure (field k s fs)

  -- Only asked of a dict that `is_map` accepts.
  pub map_signature : Entries → Exec Tracker Sig
  map_signature (entry k (list ks) (entry k' (list vs) end)) = merge_items ks none >>= λ m.
      merge_items vs none >>= λ n. pure (Shape.map (element m) (element n))
  map_signature _ = raise (type_error "not a map")

  -- The loop over the elements, `None` left out.
  pub merge_items : Items → Option Sig → Exec Tracker (Option Sig)
  merge_items nil m = pure m
  merge_items (cons null vs) m = merge_items vs m
  merge_items (cons v vs) m =
      value_signature v >>= λ s. lift (merge_into m s) >>= λ n. merge_items vs (some n)
