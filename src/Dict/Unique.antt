-- ===== src/Dict/Unique.antt =====
-- Dicts in which no key stands twice, as all that are built by assignment.
use ladybug_python.Base.{
  ℕ, ◌<◌, ◌≡◌, refl, none, some, [], ◌∷◌, arith, Eq, ◌==◌, Bool-cases, inl, inr, if_split, ltb,
}
use ladybug_python.Dict.{Dict, lookup, insert, lookup-insert}
use ladybug_python.Dict.Total.{total}

module _ {ℓ κ} {K : Type ℓ} {V : Type κ} ⦃e : Eq K⦄ where
  abbrev pub IsUnique : Dict K V → Type κ
  IsUnique [] = Unit
  IsUnique ((k, v) ∷ d) = (lookup k d ≡ none) × IsUnique d

  pub insert-IsUnique : (k : K) (v : V) (d : Dict K V) → IsUnique d → IsUnique (insert k v d)
  unfolding insert lookup
  insert-IsUnique k v [] h = (refl, tt)
  insert-IsUnique k v ((j, u) ∷ d) (free, h) =
      if_split IsUnique (j == k) ((k, v) ∷ d) ((j, u) ∷ insert k v d)
        (λ same. (ground (arith, free, e.beq_iff j k), h))
        (λ other. (
          ground (arith, free, lookup-insert k j v d, e.beq_iff j k, e.beq_iff k j),
          insert-IsUnique k v d h,
        ))

  -- A sum that is not 0 has a part that is not.
  pub find_weight :
      (w : V → ℕ) (d : Dict K V)
      → IsUnique d
      → 0 < total w d
      → (k : K) × (v : V) × (lookup k d ≡ some v) × (0 < w v)
  unfolding total lookup
  find_weight w [] h p = absurd (omega arith)
  find_weight w ((j, u) ∷ d) (free, h) p = elim (Bool-cases (ltb 0 (w u))) [
    | inl here_ ↦ (j, u, ground (arith, e.beq_iff j j), ground arith)
    | inr not_here ↦
        let (k, v, there, q) = find_weight w d h (ground (arith, p)) in
        (k, v, ground (arith, there, free, e.beq_iff j k), q)
  ]
