-- ===== src/Features.antt =====
-- src_py/torch_geometric_feature_store.py, `LbugFeatureStore._get_tensor`, with the scan that it calls
-- in src_py/database.py: which rows are read, and by which way. Tensors are third-party.
pub mod Slices
mod Tests
use ladybug_python.Base.{
  ℕ, zero, suc, ◌+◌, ◌-◌, ◌*◌, ◌%◌, Bool, true, false, ◌&&◌, ◌||◌, not, Option, none, some, List,
  [], ◌∷◌, ◌==◌, nat_eq, ltb, leb, member, if◌then◌else◌,
}
use ladybug_python.Outcome.{Result, ok, err, value_error, key_error, index_error}

-- The types that the code names, and every other one.
pub data PropertyType : Type 0 where
  int64 int32 int16 double float bool other : PropertyType

-- `shape` is there for lists of a fixed size; of `FLOAT[3][]` it has fewer sizes than the dimension.
pub record Attribute : Type 0 where
  pub kind : PropertyType
  pub dimension : ℕ
  pub shape : Option (List ℕ)

abbrev pub has_shape : Attribute → Bool
has_shape a = elim a.shape [ none ↦ false | some s ↦ true ]

abbrev pub is_tensor_type : PropertyType → Bool
is_tensor_type other = false
is_tensor_type _ = true

pub data Way : Type 0 where
  by_query by_scan : Way

-- `_get_tensor`
unfoldable pub way_of : Attribute → Way
way_of a =
    if not (is_tensor_type a.kind) || (ltb 0 a.dimension && not (has_shape a))
    then by_query
    else by_scan

-- `get_all_tensor_attrs`, of one attribute.
unfoldable pub is_listed : Attribute → Bool
is_listed a = is_tensor_type a.kind && (a.dimension == 0 || has_shape a)

-- `flat_dim *= attr_info["shape"][i]` for each of so many dimensions.
unfoldable pub multiply_sizes : ℕ → ℕ → List ℕ → Result ℕ
multiply_sizes flat_dim zero sizes = ok flat_dim
multiply_sizes flat_dim (suc n) [] = err (index_error "tuple index out of range")
multiply_sizes flat_dim (suc n) (size ∷ sizes) = multiply_sizes (flat_dim * size) n sizes

-- `flat_dim` of `__get_tensor_by_scan`
unfoldable pub flat_dim_of : Attribute → Result ℕ
unfolding multiply_sizes
flat_dim_of a = elim a.shape [
  | none ↦ if a.dimension == 0 then ok 1 else err (key_error "shape")
  | some sizes ↦ multiply_sizes 1 a.dimension sizes
]

-- `Database._scan_node_table`, up to the native scan.
unfoldable pub scan_node_table : PropertyType → Result PropertyType
scan_node_table bool = err (value_error "Unsupported property type: BOOL")
scan_node_table other = err (value_error "Unsupported property type")
scan_node_table t = ok t

-- `TensorAttr.index`: all rows, one offset, a slice with its step if one is given, or offsets.
pub data Index : Type 0 where
  all : Index
  one : ℕ → Index
  slice : ℕ → ℕ → Option ℕ → Index

-- `np.arange(start, stop, step)` of a step above 0. The fuel is the number of offsets between.
unfoldable pub arange_on : ℕ → ℕ → ℕ → ℕ → List ℕ
arange_on zero start stop step = []
arange_on (suc fuel) start stop step =
    let rest = arange_on fuel (start + step) stop step in
    if ltb start stop then start ∷ rest else []

abbrev pub arange : ℕ → ℕ → ℕ → List ℕ
arange start stop step = arange_on (stop - start) start stop step

-- The offsets of `__get_tensor_by_scan`, of a table of so many rows.
unfoldable pub scanned : ℕ → Index → List ℕ
unfolding arange_on
scanned size all = arange 0 size 1
scanned size (one i) = i ∷ []
scanned size (slice start stop none) = arange start stop 1
scanned size (slice start stop (some step)) = arange start stop step

-- The `WHERE` clause of `__get_tensor_by_query`, of one offset.
unfoldable pub queried : Index → ℕ → Bool
queried all i = true
queried (one j) i = i == j
queried (slice start stop none) i = leb start i && ltb i stop
queried (slice start stop (some step)) i =
    if step == 1
    then leb start i && ltb i stop
    else leb start i && ltb i stop && (i - start) % step == 0
