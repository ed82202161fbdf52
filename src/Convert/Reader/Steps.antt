-- ===== src/Convert/Reader/Steps.antt =====
-- Which objects a reader obtains, and which of them are destroyed or owned after it.
use ladybug_python.Base.{ℕ, zero, suc, ◌+◌, ◌≤◌, ◌≡◌, arith, List, ◌∷◌, if_both}
use ladybug_python.Outcome.{Result, PyError, Exec, continue_both}
use ladybug_python.Binding.Balance.{times, within}
use ladybug_python.Convert.Rendered.{Python}
use ladybug_python.Convert.Reader.{
  Memory, pure, raise, lift, ◌>>=◌, destroy_from, scoped, adopt, recovering, is_runtime_error,
}

-- Each object that is obtained between two states is destroyed once or owned once, and no other
-- object is.
pub record Steps (s t : Memory) : Type 0 where
  pub grows : s.made ≤ t.made
  pub counted :
      (h : ℕ)
      → times h t.destroyed + times h t.owned
        ≡ times h s.destroyed + times h s.owned + within s.made t.made h

pub Steps-refl : (s : Memory) → Steps s s
Steps-refl s = record { grows = omega arith; counted = λ h. ground arith }

pub Steps-trans : (s t u : Memory) → Steps s t → Steps t u → Steps s u
Steps-trans s t u p q = record {
  grows = omega (arith, p.grows, q.grows);
  counted = λ h. ground (arith, p.grows, q.grows, p.counted h, q.counted h);
}

pub record Keeps {A : Type 0} (m : Exec Memory A) : Type 0 where
  pub kept : (s : Memory) → Steps s (m s).1

times-destroy_from :
    (h n k : ℕ) (destroyed : List ℕ)
    → times h (destroy_from n k destroyed) ≡ within n (n + k) h + times h destroyed
unfolding destroy_from
times-destroy_from h n zero destroyed = ground arith
times-destroy_from h n (suc k) destroyed =
    ground (arith, times-destroy_from h (suc n) k (n ∷ destroyed))

module _ {A : Type 0} where
  pub Keeps-pure : (a : A) → Keeps (pure a)
  unfolding pure
  Keeps-pure a = record { kept = Steps-refl }

  pub Keeps-raise : (e : PyError) → Keeps (raise {A = A} e)
  unfolding raise
  Keeps-raise e = record { kept = Steps-refl }

  pub Keeps-lift : (r : Result A) → Keeps (lift r)
  unfolding lift
  Keeps-lift r = record { kept = Steps-refl }

  pub Keeps-scoped : {m : Exec Memory A} (n : ℕ) → Keeps m → Keeps (scoped n m)
  unfolding scoped
  Keeps-scoped {m} n h = record {
    kept = λ s.
        let t : Memory = record s { made = s.made + n } in
        let p = h.kept t in
        record {
          grows = omega (arith, p.grows);
          counted = λ x.
              ground (arith, p.grows, p.counted x, times-destroy_from x s.made n (m t).1.destroyed);
        };
  }

pub Keeps-adopt : Keeps adopt
unfolding adopt
Keeps-adopt = record { kept = λ s. record { grows = omega arith; counted = λ h. ground arith } }

pub Keeps-bind :
    {A B : Type 0} {m : Exec Memory A} {f : A → Exec Memory B}
    → Keeps m
    → ((a : A) → Keeps (f a))
    → Keeps (m >>= f)
unfolding ◌>>=◌
Keeps-bind {m} {f} h k = record {
  kept = λ s.
      continue_both (Steps s) (m s).0 f (m s).1 (h.kept s)
        λ a. Steps-trans s (m s).1 (f a (m s).1).1 (h.kept s) ((k a).kept (m s).1);
}

pub Keeps-after :
    {A B : Type 0} {m : Exec Memory A} {n : Exec Memory B}
    → Keeps m
    → Keeps n
    → Keeps (m >>= λ _. n)
Keeps-after h k = Keeps-bind h λ _. k

pub Keeps-adopted : {B : Type 0} {m : Exec Memory B} → Keeps m → Keeps (adopt >>= λ _. m)
Keeps-adopted h = Keeps-after Keeps-adopt h

pub Keeps-recovering :
    {m : Exec Memory Python} (other : Result Python) → Keeps m → Keeps (recovering m other)
unfolding recovering
Keeps-recovering {m} other h = record {
  kept = λ s.
      let t = (m s).1 in
      let again : Keeps (adopt >>= λ _. lift other) = Keeps-adopted (Keeps-lift other) in
      if_both (λ (x : Result Python × Memory). Steps s x.1) (is_runtime_error (m s).0) _ _
        (Steps-trans s t _ (h.kept s) (again.kept t)) (h.kept s);
}
