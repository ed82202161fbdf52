-- ===== src/Dict/Total.antt =====
-- The sum of a weight over the values of a dict, under an assignment.
use ladybug_python.Base.{
  ℕ, ◌+◌, ◌≡◌, Option, none, some, [], ◌∷◌, arith, Eq, Bool-cases, inl, inr, ◌==◌,
}
use ladybug_python.Dict.{Dict, lookup, insert}

abbrev pub weight {κ} : {V : Type κ} → (V → ℕ) → Option V → ℕ
weight w none = 0
weight w (some v) = w v

unfoldable pub total {ℓ κ} : {K : Type ℓ} {V : Type κ} → (V → ℕ) → Dict K V → ℕ
total w [] = 0
total w ((k, v) ∷ d) = w v + total w d

module _ {ℓ κ} {K : Type ℓ} {V : Type κ} ⦃e : Eq K⦄ (w : V → ℕ) where
  pub total-insert :
      (k : K) (v : V) (d : Dict K V)
      → total w (insert k v d) + weight w (lookup k d) ≡ total w d + w v
  unfolding total insert lookup
  total-insert k v [] = omega arith
  total-insert k v ((j, u) ∷ d) = elim (Bool-cases (j == k)) [
    | inl same ↦ rw same (omega arith)
    | inr other ↦ rw other (omega (arith, total-insert k v d))
  ]
