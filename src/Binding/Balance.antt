-- ===== src/Binding/Balance.antt =====
-- src_py/_lbug_capi.py: which values were made since a state and not destroyed.
use ladybug_python.Base.{
  ℕ, ◌+◌, ◌≤◌, ◌≡◌, refl, sym, arith, All, ◌&&◌, none, some, Option-cases, inl, inr, List, [], ◌∷◌,
  ◌++◌, nat_beq, leb, ltb, if◌then◌else◌,
}
use mathlib.Core.Path.{subst}
use ladybug_python.Outcome.{Result, ok, err, Exec, continue, continue_both, pure, ◌>>◌}
use ladybug_python.Binding.{
  Handle, Call, Native, Answers, create_value, create_checked, failed, destroy_all,
}
use ladybug_python.Binding.Values.{
  Maker, Local, keep_key, keep_value, append_key, append_value, append_each, append_pairs,
  composite,
}

abbrev pub times : Handle → List Handle → ℕ
times h [] = 0
times h (x ∷ xs) = (if nat_beq x h then 1 else 0) + times h xs

-- 1 for a number between two others.
abbrev pub within : ℕ → ℕ → ℕ → ℕ
within a b h = if leb a h && ltb h b then 1 else 0

-- Each value made since `s` is destroyed once or in the list once, and no other one is.
abbrev pub Balance : Native → List Handle → Native → Type 0
Balance s held t =
    (s.made ≤ t.made)
    × ((h : Handle)
        → times h t.destroyed + times h held ≡ times h s.destroyed + within s.made t.made h)

pub times-append : (h : Handle) (xs ys : List Handle) → times h (xs ++ ys) ≡ times h xs + times h ys
times-append h [] ys = omega arith
times-append h (x ∷ xs) ys = omega (arith, times-append h xs ys)

abbrev pub held_of : Result Handle → List Handle
held_of (ok h) = h ∷ []
held_of (err e) = []

-- What a maker does: it gives out one value, or none, and destroys all others that it made.
abbrev pub Balances : Maker → Type 0
Balances m = (s : Native) → Balance s (held_of (m s).0) (m s).1

-- What is in the two lists of a loop over parts.
abbrev pub Held : Native → Local → Type 0
Held s ((ks, vs), t) = Balance s (ks ++ vs) t

abbrev pub Collects : Exec Local Unit → Type 0
Collects m = (s : Native) (x : Local) → Held s x → Held s (m x).1

pub Balance-trans :
    (s t u : Native) (held more : List Handle)
    → Balance s held t
    → Balance t more u
    → Balance s (held ++ more) u
Balance-trans s t u held more (p, e) (q, f) =
    (omega arith, λ h. ground (arith, p, q, e h, f h, times-append h held more))

destroyed-destroy_all :
    (hs : List Handle) (s : Native) (h : Handle)
    → times h (destroy_all hs s).destroyed ≡ times h hs + times h s.destroyed
unfolding destroy_all
destroyed-destroy_all [] s h = omega arith
destroyed-destroy_all (x ∷ hs) s h =
    omega (arith, destroyed-destroy_all hs (record s { destroyed = x ∷ s.destroyed }) h)

made-destroy_all : (hs : List Handle) (s : Native) → (destroy_all hs s).made ≡ s.made
unfolding destroy_all
made-destroy_all [] s = refl
made-destroy_all (x ∷ hs) s = made-destroy_all hs (record s { destroyed = x ∷ s.destroyed })

-- Destroying the last part of what is held.
pub Balance-destroy_all :
    (s t : Native) (held gone : List Handle)
    → Balance s (held ++ gone) t
    → Balance s held (destroy_all gone t)
Balance-destroy_all s t held gone (p, e) = (
  omega (arith, p, made-destroy_all gone t),
  λ h. ground (
    arith,
    e h,
    made-destroy_all gone t,
    destroyed-destroy_all gone t h,
    times-append h held gone,
  ),
)

pub create_value-Balances : (c : Call) → Balances (create_value c)
unfolding create_value
create_value-Balances c s = (omega arith, λ h. ground arith)

pub Balance-refl : (s : Native) → Balance s [] s
Balance-refl s = (omega arith, λ h. ground arith)

Balance-same :
    (s t : Native) (xs ys : List Handle)
    → ((h : Handle) → times h xs ≡ times h ys)
    → Balance s xs t
    → Balance s ys t
Balance-same s t xs ys same (p, e) = (p, λ h. omega (arith, same h, e h))

pub failed-Balance :
    (s t : Native) → (t.made ≡ s.made) → (t.destroyed ≡ s.destroyed) → Balance s [] t
failed-Balance s t e f = (omega (arith, e), λ h. ground (arith, e, f))

pub create_checked-Balances : (answer : Answers) (c : Call) → Balances (create_checked answer c)
unfolding create_checked
create_checked-Balances answer c s = elim (Option-cases (answer c)) [
  | inl good ↦
      subst (λ o. Balances (elim o [ none ↦ create_value c | some m ↦ failed c m ])) (sym good)
        (create_value-Balances c) s
  | inr (m, bad) ↦
      subst (λ o. Balances (elim o [ none ↦ create_value c | some m ↦ failed c m ])) (sym bad)
        (λ s. failed-Balance s (record s { calls = c ∷ s.calls }) refl refl) s
]

continue-Balance :
    (answer : Answers) (c : Call) (r : Result {0} Unit) (s : Native)
    → Balance s
        (held_of (continue r (λ _. create_checked answer c) s).0)
        (continue r (λ _. create_checked answer c) s).1
continue-Balance answer c (ok u) s = create_checked-Balances answer c s
continue-Balance answer c (err e) s = Balance-refl s

pub Collects-pure : Collects (pure tt)
Collects-pure s x h = h

pub Collects-then : (m n : Exec Local Unit) → Collects m → Collects n → Collects (m >> n)
Collects-then m n a b s x h =
    continue_both (Held s) (m x).0 (λ _. n) (m x).1 (a s x h) (λ _. b s (m x).1 (a s x h))

keep_key-times :
    (r : Result Handle) (ks vs : List Handle) (h : Handle)
    → times h ((ks ++ vs) ++ held_of r)
      ≡ times h ((keep_key r (ks, vs)).1.0 ++ (keep_key r (ks, vs)).1.1)
keep_key-times (ok g) ks vs h = omega (
  arith,
  times-append h (ks ++ vs) (g ∷ []),
  times-append h ks vs,
  times-append h (ks ++ g ∷ []) vs,
  times-append h ks (g ∷ []),
)
keep_key-times (err e) ks vs h = omega (arith, times-append h (ks ++ vs) [])

keep_value-times :
    (r : Result Handle) (ks vs : List Handle) (h : Handle)
    → times h ((ks ++ vs) ++ held_of r)
      ≡ times h ((keep_value r (ks, vs)).1.0 ++ (keep_value r (ks, vs)).1.1)
keep_value-times (ok g) ks vs h = omega (
  arith,
  times-append h (ks ++ vs) (g ∷ []),
  times-append h ks vs,
  times-append h ks (vs ++ g ∷ []),
  times-append h vs (g ∷ []),
)
keep_value-times (err e) ks vs h = omega (arith, times-append h (ks ++ vs) [])

append_key-Collects : (m : Maker) → Balances m → Collects (append_key m)
unfolding append_key
append_key-Collects m b s ((ks, vs), t) h =
    let (r, u) = m t in
    Balance-same s (m t).1 ((ks ++ vs) ++ held_of (m t).0)
      ((keep_key (m t).0 (ks, vs)).1.0 ++ (keep_key (m t).0 (ks, vs)).1.1)
      (keep_key-times (m t).0 ks vs)
      (Balance-trans s t (m t).1 (ks ++ vs) (held_of (m t).0) h (b t))

append_value-Collects : (m : Maker) → Balances m → Collects (append_value m)
unfolding append_value
append_value-Collects m b s ((ks, vs), t) h =
    Balance-same s (m t).1 ((ks ++ vs) ++ held_of (m t).0)
      ((keep_value (m t).0 (ks, vs)).1.0 ++ (keep_value (m t).0 (ks, vs)).1.1)
      (keep_value-times (m t).0 ks vs)
      (Balance-trans s t (m t).1 (ks ++ vs) (held_of (m t).0) h (b t))

pub append_each-Collects : (ms : List Maker) → All Balances ms → Collects (append_each ms)
unfolding append_each
append_each-Collects [] b = Collects-pure
append_each-Collects (m ∷ ms) (b, bs) =
    Collects-then (append_value m) (append_each ms) (append_value-Collects m b)
      (append_each-Collects ms bs)

pub append_pairs-Collects :
    (ks vs : List Maker) → All Balances ks → All Balances vs → Collects (append_pairs ks vs)
unfolding append_pairs
append_pairs-Collects [] vs a b = Collects-pure
append_pairs-Collects (k ∷ ks) [] a b = Collects-pure
append_pairs-Collects (k ∷ ks) (v ∷ vs) (a, as_) (b, bs) =
    Collects-then (append_key k >> append_value v) (append_pairs ks vs)
      (Collects-then (append_key k) (append_value v) (append_key-Collects k a)
        (append_value-Collects v b))
      (append_pairs-Collects ks vs as_ bs)

last_two-times :
    (r ks vs : List Handle) (h : Handle) → times h ((ks ++ vs) ++ r) ≡ times h ((r ++ vs) ++ ks)
last_two-times r ks vs h = omega (
  arith,
  times-append h (ks ++ vs) r,
  times-append h ks vs,
  times-append h (r ++ vs) ks,
  times-append h r vs,
)

pub composite-Balances :
    (answer : Answers) (parts : Exec Local Unit) (call : List Handle → List Handle → Call)
    → Collects parts
    → Balances (composite answer parts call)
unfolding composite
composite-Balances answer parts call c s =
    let start : Local = (([], []), s) in
    let x = (parts start).1 in
    let made_ = continue-Balance answer (call x.0.0 x.0.1) (parts start).0 x.1 in
    let out = continue (parts start).0 (λ _. create_checked answer (call x.0.0 x.0.1)) x.1 in
    let held = held_of out.0 in
    let all_held =
      Balance-trans s x.1 out.1 (x.0.0 ++ x.0.1) held (c s start (Balance-refl s)) made_ in
    let sorted_ =
      Balance-same s out.1 ((x.0.0 ++ x.0.1) ++ held) ((held ++ x.0.1) ++ x.0.0)
        (last_two-times held x.0.0 x.0.1) all_held in
    Balance-destroy_all s (destroy_all x.0.0 out.1) held x.0.1
      (Balance-destroy_all s out.1 (held ++ x.0.1) x.0.0 sorted_)
