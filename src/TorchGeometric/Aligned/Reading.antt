-- ===== src/TorchGeometric/Aligned/Reading.antt =====
-- src_py/torch_geometric_result_converter.py, `__extract_properties_from_node`: one node that is new.
use ladybug_python.Base.{
  ℕ, ◌≡◌, refl, ap, ◌∙◌, arith, Bool, true, false, Option, none, some, List, [], ◌∷◌, ◌++◌, length,
  nat_eq, pair_eq, ◌==◌, ◌&&◌, ◌||◌, if◌then◌else◌, Option-cases, inl, inr,
}
use ladybug_python.Outcome.{ok}
use ladybug_python.Dict.{Dict, lookup, contains}
use ladybug_python.Dict.Unique.{IsUnique}
use ladybug_python.Text.{Text, text_eq, text_beq_iff}
use ladybug_python.TorchGeometric.{Columns}
use ladybug_python.TorchGeometric.Column.{Kind, PropertyInfo, Torch, uncaught, tensor_error}
use ladybug_python.TorchGeometric.Nodes.{Schema, error_of, extract_one, extract_each}
use ladybug_python.TorchGeometric.Tables.{column}
use ladybug_python.TorchGeometric.Views.{view, view-extract_one, position-extract_one}

abbrev pub has_key : Schema → Bool
has_key [] = false
has_key ((p, info) ∷ ps) = info.is_primary_key || has_key ps

abbrev pub is_set {ℓ} : {A : Type ℓ} → Option A → Bool
is_set none = false
is_set (some a) = true

abbrev pub position_after : Option ℕ → ℕ → Schema → Option ℕ
position_after pos n [] = pos
position_after pos n (p ∷ ps) = some n

position_some : (i n : ℕ) (ps : Schema) → i ≡ n → position_after (some i) n ps ≡ some n
position_some i n [] h = ap some h
position_some i n (p ∷ ps) h = refl

module _ {V : Type 0} where
  -- The properties of a schema are those of a node.
  unfoldable pub all_in : Schema → Dict Text V → Bool
  unfolding contains
  all_in [] props = true
  all_in ((p, info) ∷ ps) props = contains p props && all_in ps props

  abbrev pub value_list : (V → V) → Option V → List V
  value_list norm none = []
  value_list norm (some v) = norm v ∷ []

module _ {V : Type 0} (torch : Torch V) (norm : V → V)
    (law : (v : V) → norm (torch.to_list v) ≡ norm v)
    (caught : (k : Kind) (v : V) → uncaught (torch.to_tensor k v) ≡ none) where
  no_error :
      (l p : Text) (info : PropertyInfo) (v : V) (c : Columns V)
      → error_of torch l p info v c ≡ none
  unfolding tensor_error column
  no_error l p info v c = elim (Option-cases (column l p c.unconverted)) [
    | inl absent ↦ ground (arith, absent, caught info.kind v)
    | inr (xs, there) ↦ ground (arith, there)
  ]

  -- What is added to the columns when a node is read.
  abbrev pub Added : Text → Dict Text V → Schema → Columns V → Columns V → Type 0
  Added l props ps c c' =
      (l' p' : Text)
      → view norm l' p' c' ≡ (
          if l == l' && contains p' ps
          then view norm l' p' c ++ value_list norm (lookup p' props)
          else view norm l' p' c)

  pub extract_each_adds :
      (l : Text) (props : Dict Text V) (n : ℕ) (ps : Schema) (pos : Option ℕ) (key : Option V)
      (c : Columns V)
      → IsUnique ps
      → all_in ps props ≡ true
      → (is_set key || has_key ps) ≡ true
      → ((p : Text) → contains p ps ≡ true → length (view norm l p c) ≡ n)
      → (k : V) × (c' : Columns V) × (extract_each torch l props ps pos key c
          ≡ (ok (position_after pos n ps, k), c'))
        × Added l props ps c c'
  unfolding extract_each all_in contains lookup
  extract_each_adds l props n [] pos none c u all k even = absurd (ground arith)
  extract_each_adds l props n [] pos (some key) c u all k even =
      (key, c, refl, λ l' p'. ground arith)
  extract_each_adds l props n ((p, info) ∷ ps) pos key c (free, u) all k even =
      elim (Option-cases (lookup p props)) [
        | inl absent ↦ absurd (ground (arith, absent))
        | inr (v, there) ↦
            let c1 = (extract_one torch l p info v c).1 in
            let i = (extract_one torch l p info v c).0 in
            let key' = if info.is_primary_key then some v else key in
            let viewed = view-extract_one torch norm law l p info v c in
            let here_ : contains p ((p, info) ∷ ps) ≡ true = ground (arith, text_beq_iff p p) in
            let at_end : i ≡ n = position-extract_one torch norm law l p info v c ∙ even p here_ in
            let (k', c', run, added) =
              extract_each_adds l props n ps (some i) key' c1 u (ground (arith, there))
                (ground arith)
                (λ p' h. ground (arith, viewed l p', free, h, even p', text_beq_iff p p')) in
            (
              k',
              c',
              ground (arith, there, no_error l p info v c, run, position_some i n ps at_end),
              λ l' p'. ground (
                arith,
                added l' p',
                viewed l' p',
                there,
                free,
                text_beq_iff p p',
                text_beq_iff l l',
              ),
            )
      ]
