-- ===== src/TorchGeometric/Views.antt =====
-- src_py/torch_geometric_result_converter.py: a column whatever dict it stands in.
use ladybug_python.Base.{
  ℕ, ◌≡◌, refl, ap, arith, Option, none, some, List, [], ◌∷◌, ◌++◌, length, nat_eq, if◌then◌else◌,
  Option-cases, inl, inr,
}
use ladybug_python.Text.{Text, text_eq, text_beq_iff}
use ladybug_python.TorchGeometric.{Columns}
use ladybug_python.TorchGeometric.Tables.{column, same, column-put_column, column-drop_column}
use ladybug_python.TorchGeometric.Column.{
  PropertyInfo, Stored, plain, tensor, Torch, convert_one, made_shape, checked, given_back,
}
use ladybug_python.TorchGeometric.Nodes.{
  found_or, mark_unconverted, add_unconverted, add_converted, extract_one,
}

module _ {V : Type 0} where
  -- The value of a node that a stored value was made from.
  abbrev pub raw : Stored V → V
  raw (plain v) = v
  raw (tensor v s) = v

module _ {V : Type 0} (norm : V → V) where
  abbrev pub norms : List V → List V
  norms [] = []
  norms (v ∷ vs) = norm v ∷ norms vs

  abbrev pub raws : List (Stored V) → List V
  raws [] = []
  raws (x ∷ xs) = norm (raw x) ∷ raws xs

  norms_snoc : (xs : List V) (v : V) → norms (xs ++ v ∷ []) ≡ norms xs ++ norm v ∷ []
  norms_snoc [] v = refl
  norms_snoc (x ∷ xs) v = rw (norms_snoc xs v)

  raws_snoc :
      (xs : List (Stored V)) (x : Stored V) → raws (xs ++ x ∷ []) ≡ raws xs ++ norm (raw x) ∷ []
  raws_snoc [] v = refl
  raws_snoc (x ∷ xs) v = rw (raws_snoc xs v)

  length-norms : (xs : List V) → length (norms xs) ≡ length xs
  length-norms [] = refl
  length-norms (x ∷ xs) = rw (length-norms xs)

  length-raws : (xs : List (Stored V)) → length (raws xs) ≡ length xs
  length-raws [] = refl
  length-raws (x ∷ xs) = rw (length-raws xs)

  raws-given_back :
      (torch : Torch V)
      → ((v : V) → norm (torch.to_list v) ≡ norm v)
      → (xs : List (Stored V)) → norms (given_back torch xs) ≡ raws xs
  raws-given_back torch law [] = refl
  raws-given_back torch law (plain v ∷ xs) = rw (raws-given_back torch law xs)
  raws-given_back torch law (tensor v s ∷ xs) = rw (law v, raws-given_back torch law xs)

  -- What is kept of one property of one label, converted or not.
  unfoldable pub view_of : Option (List V) → Option (List (Stored V)) → List V
  view_of (some xs) ys = norms xs
  view_of none ys = raws (found_or ys)

  unfoldable pub view : Text → Text → Columns V → List V
  unfolding view_of column
  view l p c = view_of (column l p c.unconverted) (column l p c.nodes)

raw-checked :
    {V : Type 0} (v : V) (s : Option (List ℕ)) (col : Option (List (Stored V))) (x : Stored V)
    → checked v s col ≡ some x
    → raw x ≡ v
raw-checked v none col x h = ground arith
raw-checked v (some s) col x h = ground arith

raw-convert_one :
    {V : Type 0} (torch : Torch V) (info : PropertyInfo) (v : V) (col : Option (List (Stored V)))
    (x : Stored V)
    → convert_one torch info v col ≡ some x
    → raw x ≡ v
unfolding convert_one
raw-convert_one torch info v col x h =
    ground (arith, raw-checked v (made_shape (torch.to_tensor info.kind v)) col x)

module _ {V : Type 0} (torch : Torch V) (norm : V → V) where
  norms-view :
      (l p : Text) (c : Columns V) (xs : List V)
      → column l p c.unconverted ≡ some xs
      → view norm l p c ≡ norms norm xs
  unfolding view view_of
  norms-view l p c xs h = rw h

  view-add_unconverted :
      (l p l' p' : Text) (v : V) (c : Columns V) (xs : List V)
      → column l p c.unconverted ≡ some xs
      → view norm l' p' (add_unconverted torch l p v c).1
        ≡ (if same l p l' p' then norms norm xs ++ norm v ∷ [] else view norm l' p' c)
  unfolding view view_of add_unconverted
  view-add_unconverted l p l' p' v c xs h =
      ground
        (arith, h, column-put_column l p l' p' (xs ++ v ∷ []) c.unconverted, norms_snoc norm xs v)

  view-add_converted :
      (l p l' p' : Text) (x : Stored V) (c : Columns V)
      → column l p c.unconverted ≡ none
      → view norm l' p' (add_converted torch l p x c).1
        ≡ (if same l p l' p' then view norm l p c ++ norm (raw x) ∷ [] else view norm l' p' c)
  unfolding view view_of add_converted
  view-add_converted l p l' p' x c h =
      let xs = found_or (column l p c.nodes) in
      ground (
        arith,
        h,
        column-put_column l p l' p' (xs ++ x ∷ []) c.nodes,
        raws_snoc norm xs x,
        text_beq_iff l l',
        text_beq_iff p p',
      )

  module _ (law : (v : V) → norm (torch.to_list v) ≡ norm v) where
    marked_column :
        (l p : Text) (c : Columns V)
        → column l p c.unconverted ≡ none
        → (xs : List V) × (column l p (mark_unconverted torch l p c).unconverted ≡ some xs)
          × (norms norm xs ≡ view norm l p c)
    unfolding mark_unconverted view view_of
    marked_column l p c h = elim (Option-cases (column l p c.nodes)) [
      | inl absent ↦ (
        [],
        ground (
          arith,
          h,
          absent,
          column-put_column l p l p [] c.unconverted,
          text_beq_iff l l,
          text_beq_iff p p,
        ),
        ground (arith, h, absent),
      )
      | inr (xs, present) ↦ (
        given_back torch xs,
        ground (
          arith,
          h,
          present,
          column-put_column l p l p (given_back torch xs) c.unconverted,
          text_beq_iff l l,
          text_beq_iff p p,
        ),
        ground (arith, h, present, raws-given_back norm torch law xs),
      )
    ]

    view-mark_unconverted :
        (l p l' p' : Text) (c : Columns V)
        → view norm l' p' (mark_unconverted torch l p c) ≡ view norm l' p' c
    unfolding mark_unconverted view view_of
    view-mark_unconverted l p l' p' c = elim (Option-cases (column l p c.unconverted)) [
      | inr (xs, present) ↦ ground (arith, present)
      | inl absent ↦ elim (Option-cases (column l p c.nodes)) [
        | inl missing ↦ ground (
          arith,
          absent,
          missing,
          column-put_column l p l' p' [] c.unconverted,
          text_beq_iff l l',
          text_beq_iff p p',
        )
        | inr (xs, present) ↦ ground (
          arith,
          absent,
          present,
          column-put_column l p l' p' (given_back torch xs) c.unconverted,
          column-drop_column l p l' p' c.nodes,
          raws-given_back norm torch law xs,
          text_beq_iff l l',
          text_beq_iff p p',
        )
      ]
    ]

    -- A property is read at the end of its column, and no other column changes.
    pub view-extract_one :
        (l p : Text) (info : PropertyInfo) (v : V) (c : Columns V) (l' p' : Text)
        → view norm l' p' (extract_one torch l p info v c).1
          ≡ (if same l p l' p' then view norm l p c ++ norm v ∷ [] else view norm l' p' c)
    unfolding extract_one
    view-extract_one l p info v c l' p' = elim (Option-cases (column l p c.unconverted)) [
      | inr (xs, present) ↦ ground (
        arith,
        present,
        view-add_unconverted l p l' p' v c xs present,
        norms-view l p c xs present,
      )
      | inl absent ↦ elim (Option-cases (convert_one torch info v (column l p c.nodes))) [
        | inr (x, made) ↦ ground (
          arith,
          absent,
          made,
          view-add_converted l p l' p' x c absent,
          raw-convert_one torch info v (column l p c.nodes) x made,
        )
        | inl bad ↦
            let c' = mark_unconverted torch l p c in
            let (xs, present, same_) = marked_column l p c absent in
            ground (
              arith,
              absent,
              bad,
              view-add_unconverted l p l' p' v c' xs present,
              same_,
              view-mark_unconverted l p l' p' c,
            )
      ]
    ]

    pub position-extract_one :
        (l p : Text) (info : PropertyInfo) (v : V) (c : Columns V)
        → (extract_one torch l p info v c).0 ≡ length (view norm l p c)
    unfolding extract_one add_unconverted add_converted view view_of
    position-extract_one l p info v c = elim (Option-cases (column l p c.unconverted)) [
      | inr (xs, present) ↦ ground (arith, present, length-norms norm xs)
      | inl absent ↦ elim (Option-cases (convert_one torch info v (column l p c.nodes))) [
        | inr (x, made) ↦
            ground (arith, absent, made, length-raws norm (found_or (column l p c.nodes)))
        | inl bad ↦
            let (xs, present, same_) = marked_column l p c absent in
            ground (arith, absent, bad, present, ap length same_, length-norms norm xs)
      ]
    ]
