-- ===== src/TorchGeometric/Tables.antt =====
-- Dicts of dicts of lists: the columns of each label.
use ladybug_python.Base.{
  ◌≡◌, Bool, ◌&&◌, Option, none, some, List, [], ◌∷◌, ◌==◌, arith, nat_eq, pair_eq, if◌then◌else◌,
}
use ladybug_python.Dict.{Dict, lookup, insert, without, lookup-insert, lookup-without}
use ladybug_python.Text.{Text, text_eq, text_beq_iff}

abbrev pub Table {ℓ} : Type ℓ → Type ℓ
Table A = Dict Text (Dict Text (List A))

-- The two names together.
abbrev pub same : Text → Text → Text → Text → Bool
same l p l' p' = l == l' && p == p'

module _ {ℓ} {A : Type ℓ} where
  -- `d[label]`, or nothing
  unfoldable pub columns : Text → Table A → Dict Text (List A)
  unfolding lookup
  columns l d = elim (lookup l d) [ none ↦ [] | some c ↦ c ]

  -- `d[label][name]`, if both are there
  unfoldable pub column : Text → Text → Table A → Option (List A)
  unfolding columns lookup
  column l p d = lookup p (columns l d)

  -- `d[label][name] = xs`, in a dict that is made where it is missing.
  unfoldable pub put_column : Text → Text → List A → Table A → Table A
  unfolding columns insert
  put_column l p xs d = insert l (insert p xs (columns l d)) d

  abbrev pub put_or_drop : Text → Dict Text (List A) → Table A → Table A
  put_or_drop l [] d = without l d
  put_or_drop l (c ∷ cs) d = insert l (c ∷ cs) d

  -- `del d[label][name]`, and of `d[label]` where that leaves it empty.
  unfoldable pub drop_column : Text → Text → Table A → Table A
  unfolding columns without insert
  drop_column l p d = put_or_drop l (without p (columns l d)) d

  columns-insert :
      (l l' : Text) (c : Dict Text (List A)) (d : Table A)
      → columns l' (insert l c d) ≡ (if l == l' then c else columns l' d)
  unfolding columns
  columns-insert l l' c d = ground (arith, lookup-insert l l' c d)

  columns-put_or_drop :
      (l l' : Text) (c : Dict Text (List A)) (d : Table A)
      → columns l' (put_or_drop l c d) ≡ (if l == l' then c else columns l' d)
  unfolding columns
  columns-put_or_drop l l' [] d = ground (arith, lookup-without l l' d)
  columns-put_or_drop l l' (x ∷ c) d = ground (arith, lookup-insert l l' (x ∷ c) d)

  pub column-put_column :
      (l p l' p' : Text) (xs : List A) (d : Table A)
      → column l' p' (put_column l p xs d) ≡ (if same l p l' p' then some xs else column l' p' d)
  unfolding column put_column
  column-put_column l p l' p' xs d = ground (
    arith,
    columns-insert l l' (insert p xs (columns l d)) d,
    lookup-insert p p' xs (columns l d),
    text_beq_iff l l',
  )

  pub column-drop_column :
      (l p l' p' : Text) (d : Table A)
      → column l' p' (drop_column l p d) ≡ (if same l p l' p' then none else column l' p' d)
  unfolding column drop_column
  column-drop_column l p l' p' d = ground (
    arith,
    columns-put_or_drop l l' (without p (columns l d)) d,
    lookup-without p p' (columns l d),
    text_beq_iff l l',
  )
