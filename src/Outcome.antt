-- ===== src/Outcome.antt =====
-- Python exceptions as values, and methods that change an object and may raise. What was written
-- before a raise stays written, so the state comes back beside the error too.
use ladybug_python.Base.{String, Bool, true, false, ◌≡◌, refl}

-- The exception classes that the code raises, with the message.
pub data PyError : Type 0 where
  runtime_error value_error type_error key_error zero_division_error import_error stop_iteration
        attribute_error name_error index_error not_implemented_error overflow_error os_error :
      String → PyError

pub data Result {ℓ} (A : Type ℓ) : Type ℓ where
  ok : A → Result A
  err : PyError → Result A

abbrev pub bind_result {ℓ κ} : {A : Type ℓ} {B : Type κ} → Result A → (A → Result B) → Result B
bind_result (ok a) f = f a
bind_result (err e) f = err e

abbrev pub Exec {ℓ} : Type ℓ → Type ℓ → Type ℓ
Exec S A = S → Result A × S

module _ {ℓ} {S A : Type ℓ} where
  abbrev pub pure : A → Exec S A
  pure a s = (ok a, s)

  abbrev pub raise : PyError → Exec S A
  raise e s = (err e, s)

  abbrev pub gets : (S → A) → Exec S A
  gets f s = (ok (f s), s)

  abbrev pub lift : Result A → Exec S A
  lift r s = (r, s)

abbrev pub modify {ℓ} : {S : Type ℓ} → (S → S) → Exec S (Unit {ℓ})
modify f s = (ok tt, f s)

abbrev pub raise_if {ℓ} : {S : Type ℓ} → Bool → PyError → Exec S (Unit {ℓ})
raise_if true e s = (err e, s)
raise_if false e s = (ok tt, s)

abbrev pub continue {ℓ} : {S A B : Type ℓ} → Result A → (A → Exec S B) → S → Result B × S
continue (ok a) f s = f a s
continue (err e) f s = (err e, s)

infixl 10 ◌>>=◌ ◌>>◌
abbrev pub ◌>>=◌ {ℓ} : {S A B : Type ℓ} → Exec S A → (A → Exec S B) → Exec S B
◌>>=◌ m f s = let (r, s') = m s in continue r f s'

abbrev pub ◌>>◌ {ℓ} : {S A B : Type ℓ} → Exec S A → Exec S B → Exec S B
m >> n = m >>= λ _. n

-- What holds of the state after a bind, if it holds after the first part and each second part
-- keeps it.
pub continue_both {ℓ κ} :
    {S A B : Type ℓ} (P : S → Type κ) (r : Result A) (f : A → Exec S B) (s : S)
    → P s
    → ((a : A) → P (f a s).1)
    → P (continue r f s).1
continue_both P (ok a) f s p q = q a
continue_both P (err e) f s p q = p

-- The same where the second part needs what the first returned.
pub continue_ok {ℓ κ} :
    {S A B : Type ℓ} (P : S → Type κ) (r : Result A) (f : A → Exec S B) (s : S)
    → P s
    → ((a : A) → r ≡ ok a → P (f a s).1)
    → P (continue r f s).1
continue_ok P (ok a) f s p q = q a refl
continue_ok P (err e) f s p q = p
