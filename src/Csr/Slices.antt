-- ===== src/Csr/Slices.antt =====
-- The arrays of getCSR read back: the part of an array between two neighbouring ends.
use ladybug_python.Base.{
  take, drop, concat, ℕ, zero, suc, ◌+◌, ◌-◌, ◌≡◌, refl, sym, ap, ◌∙◌, arith, Option, some, List,
  [], ◌∷◌, ◌++◌, length, length-append, append_assoc, get_elem?, take, drop, concat,
}

module _ {A : Type 0} where
  drop-append : (xs ys : List A) → drop (length xs) (xs ++ ys) ≡ ys
  drop-append [] [] = refl
  drop-append [] (y ∷ ys) = refl
  drop-append (x ∷ xs) ys = drop-append xs ys

  take-append : (xs ys : List A) → take (length xs) (xs ++ ys) ≡ xs
  take-append [] [] = refl
  take-append [] (y ∷ ys) = refl
  take-append (x ∷ xs) ys = ap (λ l. x ∷ l) (take-append xs ys)

  -- The part from the position `start` to before `stop`.
  abbrev pub part : ℕ → ℕ → List A → List A
  part start stop xs = take (stop - start) (drop start xs)

  pub part-append :
      (xs ys zs : List A) → part (length xs) (length xs + length ys) (xs ++ (ys ++ zs)) ≡ ys
  part-append xs ys zs =
      let n : length xs + length ys - length xs ≡ length ys = omega arith in
      rw (n, drop-append xs (ys ++ zs), take-append ys zs)

  abbrev pub get_or_nil : List (List A) → ℕ → List A
  get_or_nil [] i = []
  get_or_nil (xs ∷ xss) zero = xs
  get_or_nil (xs ∷ xss) (suc i) = get_or_nil xss i

-- What the arrays say of a source: nothing where it has no end.
abbrev pub between : {A : Type 0} → Option ℕ → Option ℕ → List A → List A
between (some start) (some stop) xs = part start stop xs
between _ _ xs = []

unfoldable pub slice : {A : Type 0} → ℕ → List ℕ → List A → List A
slice i indptr xs = between (get_elem? indptr i) (get_elem? indptr (suc i)) xs

-- The ends of groups that follow each other from a position on.
abbrev pub ends : {A : Type 0} → ℕ → List (List A) → List ℕ
ends b [] = []
ends b (g ∷ gs) = (b + length g) ∷ ends (b + length g) gs

pub slice-ends :
    {A : Type 0} (i : ℕ) (xs : List A) (gs : List (List A))
    → slice i (length xs ∷ ends (length xs) gs) (xs ++ concat gs) ≡ get_or_nil gs i
unfolding slice
slice-ends zero xs [] = refl
slice-ends (suc i) xs [] = refl
slice-ends zero xs (g ∷ gs) = part-append xs g (concat gs)
slice-ends (suc i) xs (g ∷ gs) =
    ap (λ n. slice i (n ∷ ends n gs) (xs ++ (g ++ concat gs))) (sym (length-append xs g))
    ∙ ap (slice i (length (xs ++ g) ∷ ends (length (xs ++ g)) gs))
        (sym (append_assoc xs g (concat gs)))
    ∙ slice-ends i (xs ++ g) gs
