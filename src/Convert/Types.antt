-- ===== src/Convert/Types.antt =====
-- The logical types of the values of a result, and the Python types that belong to them.
use ladybug_python.Base.{ℕ, ◌≡◌, Bool, true, false, none, some, List}
use ladybug_python.Base.Int.{ℤ, floor_div}
use ladybug_python.Text.{Text}
use ladybug_python.Convert.{
  Cell, Cells, Props, Fields, Pairs, put, put_node, put_rel, is_date, is_datetime, in_days,
  total_micros, interval_days,
}
use ladybug_python.Convert.Rendered.{Python, Elements, Assignments}
use ladybug_python.Convert
use ladybug_python.Convert.Rendered

pub data LogicalType : Type 0 where
  bool int double string uuid decimal blob internal_id date timestamp timestamp_tz interval node rel
        recursive_rel struct :
      LogicalType
  list : LogicalType → LogicalType
  map : LogicalType → LogicalType → LogicalType

-- Whether the values of a type are keys of a dict.
abbrev pub is_hashable : LogicalType → Bool
is_hashable LogicalType.internal_id = false
is_hashable LogicalType.node = false
is_hashable LogicalType.rel = false
is_hashable LogicalType.recursive_rel = false
is_hashable LogicalType.struct = false
is_hashable (LogicalType.list t) = false
is_hashable (LogicalType.map k v) = false
is_hashable t = true

-- The interval is a timedelta of Python.
abbrev pub IsDelta : ℤ → ℤ → ℤ → Type 0
IsDelta months days micros =
    in_days (floor_div (total_micros (interval_days months days) micros) 86400000000) ≡ true

-- The values of a logical type, as the C API gives them where its calls succeed, with dates, times and
-- intervals that Python has. The null is of each type, and each property and each field has a type of
-- its own.
mutual
  pub data HasType : LogicalType → Cell → Type 0 where
    null : {t : LogicalType} → HasType t Convert.null
    bool : (b : Bool) → HasType LogicalType.bool (Convert.bool b)
    int : (n : ℤ) → HasType LogicalType.int (Convert.int n)
    int128 : (n : ℤ) (l : ℕ) → HasType LogicalType.int (Convert.int128 n l)
    double : (n : ℕ) → HasType LogicalType.double (Convert.double n)
    float : (n : ℕ) → HasType LogicalType.double (Convert.float n)
    string : (t : Text) → HasType LogicalType.string (Convert.string t)
    uuid : (t : Text) → HasType LogicalType.uuid (Convert.uuid t)
    decimal : (t : Text) → HasType LogicalType.decimal (Convert.decimal t)
    blob : (bs : List ℕ) → HasType LogicalType.blob (Convert.blob bs)
    internal_id : (a b : ℕ) → HasType LogicalType.internal_id (Convert.internal_id a b)
    date : (n : ℤ) → is_date n ≡ true → HasType LogicalType.date (Convert.date n)
    timestamp :
        (n : ℤ) → is_datetime n 1000000 ≡ true → HasType LogicalType.timestamp (Convert.timestamp n)
    timestamp_ms :
        (n : ℤ) → is_datetime n 1000 ≡ true → HasType LogicalType.timestamp (Convert.timestamp_ms n)
    timestamp_sec :
        (n : ℤ) → is_datetime n 1 ≡ true → HasType LogicalType.timestamp (Convert.timestamp_sec n)
    timestamp_ns :
        (n : ℤ)
        → is_datetime n 1000000000 ≡ true
        → HasType LogicalType.timestamp (Convert.timestamp_ns n)
    timestamp_tz :
        (n : ℤ)
        → is_datetime n 1000000 ≡ true
        → HasType LogicalType.timestamp_tz (Convert.timestamp_tz n)
    interval : (a b c : ℤ) → IsDelta a b c → HasType LogicalType.interval (Convert.interval a b c)
    interval_struct :
        (a b c : ℤ) → IsDelta a b c → HasType LogicalType.interval (Convert.interval_struct a b c)
    list :
        {t : LogicalType} (cs : Cells)
        → EachHasType t cs
        → HasType (LogicalType.list t) (Convert.list cs)
    map :
        {k v : LogicalType} (ps : Pairs)
        → is_hashable k ≡ true
        → PairsHaveType k v ps
        → HasType (LogicalType.map k v) (Convert.map ps)
    node :
        (i l : Cell) (ps : Props)
        → HasType LogicalType.internal_id i
        → HasType LogicalType.string l
        → HaveTypes ps
        → HasType LogicalType.node (Convert.node i l ps)
    rel :
        (i s d l : Cell) (ps : Props)
        → HasType LogicalType.internal_id i
        → HasType LogicalType.internal_id s
        → HasType LogicalType.internal_id d
        → HasType LogicalType.string l
        → HaveTypes ps
        → HasType LogicalType.rel (Convert.rel i s d l ps)
    recursive_rel :
        (ns rs : Cell)
        → HasType (LogicalType.list LogicalType.node) ns
        → HasType (LogicalType.list LogicalType.rel) rs
        → HasType LogicalType.recursive_rel (Convert.recursive_rel ns rs)
    struct :
        (fs : Fields) (text : Text)
        → AreRead fs
        → HasType LogicalType.struct (Convert.struct fs text)

  pub data EachHasType : LogicalType → Cells → Type 0 where
    nil : {t : LogicalType} → EachHasType t Convert.nil
    cons :
        {t : LogicalType} (c : Cell) (cs : Cells)
        → HasType t c
        → EachHasType t cs
        → EachHasType t (Convert.cons c cs)

  pub data PairsHaveType : LogicalType → LogicalType → Pairs → Type 0 where
    done : {k v : LogicalType} → PairsHaveType k v Convert.done
    pair :
        {k v : LogicalType} (a b : Cell) (ps : Pairs)
        → HasType k a
        → HasType v b
        → PairsHaveType k v ps
        → PairsHaveType k v (Convert.pair a b ps)

  pub data HaveTypes : Props → Type 0 where
    last : HaveTypes Convert.last
    probed :
        (key : Text) (m d u : ℤ) (c : Cell) (text : Text) (ps : Props)
        → IsDelta m d u
        → HaveTypes ps
        → HaveTypes (Convert.prop key (some (m, d, u)) c text ps)
    prop :
        {t : LogicalType} (key : Text) (c : Cell) (text : Text) (ps : Props)
        → HasType t c
        → HaveTypes ps
        → HaveTypes (Convert.prop key none c text ps)

  pub data AreRead : Fields → Type 0 where
    end : AreRead Convert.end
    field :
        {t : LogicalType} (key : Text) (c : Cell) (fs : Fields)
        → HasType t c
        → AreRead fs
        → AreRead (Convert.field key c fs)

-- A dict whose keys are texts.
pub data Named : Assignments → Type 0 where
  no_keys : Named Rendered.end
  named :
      (k : Text) (v : Python) (d : Assignments)
      → Named d
      → Named (Rendered.assign (Rendered.str k) v d)

-- The Python values of a logical type, and `None`: an id of a node or a rel is a dict of its table and
-- offset, and a node, a rel, a path and a struct are dicts whose keys are texts.
mutual
  pub data IsOf : LogicalType → Python → Type 0 where
    none_ : {t : LogicalType} → IsOf t Rendered.none_
    bool : (b : Bool) → IsOf LogicalType.bool (Rendered.bool b)
    int : (n : ℤ) → IsOf LogicalType.int (Rendered.int n)
    float : (n : ℕ) → IsOf LogicalType.double (Rendered.float n)
    str : (t : Text) → IsOf LogicalType.string (Rendered.str t)
    uuid : (t : Text) → IsOf LogicalType.uuid (Rendered.uuid t)
    decimal : (t : Text) → IsOf LogicalType.decimal (Rendered.decimal t)
    bytes : (bs : List ℕ) → IsOf LogicalType.blob (Rendered.bytes bs)
    internal_id :
        (table offset : ℤ)
        → IsOf LogicalType.internal_id (
            Rendered.dict
              (put "table" (Rendered.int table) (put "offset" (Rendered.int offset) Rendered.end)))
    date : (n : ℤ) → IsOf LogicalType.date (Rendered.date n)
    naive : (n : ℤ) (d : ℕ) → IsOf LogicalType.timestamp (Rendered.datetime false n d)
    aware : (n : ℤ) (d : ℕ) → IsOf LogicalType.timestamp_tz (Rendered.datetime true n d)
    timedelta : (d : ℤ) (s m : ℕ) → IsOf LogicalType.interval (Rendered.timedelta d s m)
    list :
        {t : LogicalType} (vs : Elements)
        → EachIsOf t vs
        → IsOf (LogicalType.list t) (Rendered.list vs)
    map :
        {k v : LogicalType} (d : Assignments)
        → EntriesAreOf k v d
        → IsOf (LogicalType.map k v) (Rendered.dict d)
    node :
        (i l : Python) (d : Assignments)
        → IsOf LogicalType.internal_id i
        → IsOf LogicalType.string l
        → Named d
        → IsOf LogicalType.node (Rendered.dict (put_node (i, l) d))
    rel :
        (i s t l : Python) (d : Assignments)
        → IsOf LogicalType.internal_id i
        → IsOf LogicalType.internal_id s
        → IsOf LogicalType.internal_id t
        → IsOf LogicalType.string l
        → Named d
        → IsOf LogicalType.rel (Rendered.dict (put_rel (i, s, t, l) d))
    path :
        (ns rs : Python)
        → IsOf (LogicalType.list LogicalType.node) ns
        → IsOf (LogicalType.list LogicalType.rel) rs
        → IsOf LogicalType.recursive_rel
            (Rendered.dict (put "_NODES" ns (put "_RELS" rs Rendered.end)))
    struct : (d : Assignments) → Named d → IsOf LogicalType.struct (Rendered.dict d)

  pub data EachIsOf : LogicalType → Elements → Type 0 where
    nil : {t : LogicalType} → EachIsOf t Rendered.nil
    cons :
        {t : LogicalType} (v : Python) (vs : Elements)
        → IsOf t v
        → EachIsOf t vs
        → EachIsOf t (Rendered.cons v vs)

  pub data EntriesAreOf : LogicalType → LogicalType → Assignments → Type 0 where
    end : {k v : LogicalType} → EntriesAreOf k v Rendered.end
    assign :
        {k v : LogicalType} (a b : Python) (d : Assignments)
        → IsOf k a
        → IsOf v b
        → EntriesAreOf k v d
        → EntriesAreOf k v (Rendered.assign a b d)
