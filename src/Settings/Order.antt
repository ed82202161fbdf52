-- ===== src/Settings/Order.antt =====
-- The next query sees the last valid value of each setting.
use ladybug_python.Base.{
  ℕ, ◌^◌, ◌≡◌, refl, ap, ◌∙◌, Option, none, some, List, [], ◌∷◌, String, string_eq, arith, ltb,
  ◌==◌, if◌then◌else◌, if_both,
}
use ladybug_python.Base.Int.{ℤ, pos, negsuc}
use ladybug_python.Outcome.{Result, ok, err}
use ladybug_python.Dict.{Dict, lookup, lookup-insert}
use ladybug_python.Dict.Unique.{IsUnique, insert-IsUnique}
use ladybug_python.Settings.{
  Pending, Opened, setting_value, queue, set_option, apply_all, apply_pending_settings,
}

-- The calls of the setters, each with what `init_connection` gives.
abbrev pub Call : Type 0
Call = String × Option ℤ × Opened

unfoldable pub set_all : {Engine : Type 0} → List Call → Pending Engine → Pending Engine
unfolding set_option
set_all [] s = s
set_all ((setter, value, opened) ∷ calls) s = set_all calls (set_option setter value opened s).1

-- The value of the last call of a setter that succeeded.
abbrev pub accepted : Option ℤ → Opened → Option ℕ
accepted none o = none
accepted (some (negsuc n)) o = none
accepted (some (pos n)) (err e) = none
accepted (some (pos n)) (ok _) = if ltb n (2 ^ 64) then some n else none

abbrev pub override : {A : Type 0} → Option A → Option A → Option A
override none old = old
override (some n) old = some n

unfoldable pub last_value : String → List Call → Option ℕ → Option ℕ
last_value setter [] old = old
last_value setter ((name, value, opened) ∷ calls) old =
    last_value setter calls (if name == setter then override (accepted value opened) old else old)

module _ {Engine : Type 0} where
  lookup-set_option :
      (name setter : String) (value : Option ℤ) (opened : Opened) (s : Pending Engine)
      → lookup setter (set_option name value opened s).1.settings ≡ (
          if name == setter
          then override (accepted value opened) (lookup setter s.settings)
          else lookup setter s.settings)
  unfolding set_option setting_value
  lookup-set_option name setter none opened s = ground arith
  lookup-set_option name setter (some (negsuc n)) opened s = ground arith
  lookup-set_option name setter (some (pos n)) (err e) s = ground arith
  lookup-set_option name setter (some (pos n)) (ok _) s =
      ground (arith, lookup-insert name setter n s.settings)

  set_option-IsUnique :
      (name : String) (value : Option ℤ) (opened : Opened) (s : Pending Engine)
      → IsUnique s.settings
      → IsUnique (set_option name value opened s).1.settings
  unfolding set_option setting_value
  set_option-IsUnique name none opened s h = h
  set_option-IsUnique name (some (negsuc n)) opened s h = h
  set_option-IsUnique name (some (pos n)) (err e) s h =
      if_both (λ r. IsUnique (queue name r (err e) s).1.settings) (ltb n (2 ^ 64)) (ok n) _ h h
  set_option-IsUnique name (some (pos n)) (ok _) s h =
      if_both (λ r. IsUnique (queue name r (ok tt) s).1.settings) (ltb n (2 ^ 64)) (ok n) _
        (insert-IsUnique name n s.settings h) h

  set_all-IsUnique :
      (calls : List Call) (s : Pending Engine)
      → IsUnique s.settings
      → IsUnique (set_all calls s).settings
  unfolding set_all
  set_all-IsUnique [] s h = h
  set_all-IsUnique ((name, value, opened) ∷ calls) s h =
      set_all-IsUnique calls (set_option name value opened s).1
        (set_option-IsUnique name value opened s h)

  lookup-set_all :
      (setter : String) (calls : List Call) (s : Pending Engine)
      → lookup setter (set_all calls s).settings
        ≡ last_value setter calls (lookup setter s.settings)
  unfolding set_all last_value
  lookup-set_all setter [] s = refl
  lookup-set_all setter ((name, value, opened) ∷ calls) s =
      lookup-set_all setter calls (set_option name value opened s).1
      ∙ ap (last_value setter calls) (lookup-set_option name setter value opened s)

  engine-set_option :
      (name : String) (value : Option ℤ) (opened : Opened) (s : Pending Engine)
      → (set_option name value opened s).1.engine ≡ s.engine
  unfolding set_option
  engine-set_option name value opened s = engine-queue (setting_value value) opened
    where
      engine-queue : (r : Result ℕ) (o : Opened) → (queue name r o s).1.engine ≡ s.engine
      engine-queue (err e) o = refl
      engine-queue (ok n) (err e) = refl
      engine-queue (ok n) (ok _) = refl

  engine-set_all : (calls : List Call) (s : Pending Engine) → (set_all calls s).engine ≡ s.engine
  unfolding set_all
  engine-set_all [] s = refl
  engine-set_all ((name, value, opened) ∷ calls) s =
      engine-set_all calls (set_option name value opened s).1
      ∙ engine-set_option name value opened s

  second-set_option :
      (name : String) (value : Option ℤ) (opened : Opened) (s : Pending Engine)
      → (set_option name value opened s).1.second ≡ s.second
  unfolding set_option
  second-set_option name value opened s = second-queue (setting_value value) opened
    where
      second-queue : (r : Result ℕ) (o : Opened) → (queue name r o s).1.second ≡ s.second
      second-queue (err e) o = refl
      second-queue (ok n) (err e) = refl
      second-queue (ok n) (ok _) = refl

  second-set_all : (calls : List Call) (s : Pending Engine) → (set_all calls s).second ≡ s.second
  unfolding set_all
  second-set_all [] s = refl
  second-set_all ((name, value, opened) ∷ calls) s =
      second-set_all calls (set_option name value opened s).1
      ∙ second-set_option name value opened s

  module _ (set_native : String → ℕ → Engine → Engine) (get_native : String → Engine → Option ℕ)
      (get-set : (k j : String) (n : ℕ) (e : Engine)
        → get_native j (set_native k n e) ≡ (if k == j then some n else get_native j e)) where
    get-apply_all :
        (j : String) (d : Dict String ℕ) (e : Engine)
        → IsUnique d
        → get_native j (apply_all set_native d e) ≡ override (lookup j d) (get_native j e)
    unfolding apply_all lookup
    get-apply_all j [] e h = refl
    get-apply_all j ((k, n) ∷ d) e (free, h) =
        ground
          (arith, get-apply_all j d (set_native k n e) h, get-set k j n e, string_eq.beq_iff k j)

-- With native setters that store what they are given: after any calls of the setters on a connection
-- without queued settings, `_apply_pending_settings` leaves each native setting of `_connection` at the
-- value of the last call that succeeded, or as it was if none did, and nothing queued. The second
-- connection, `_py_connection`, keeps the settings that it had.
pub last_setting_wins :
    {Engine : Type 0} (set_native : String → ℕ → Engine → Engine)
    (get_native : String → Engine → Option ℕ)
    → ((k j : String) (n : ℕ) (e : Engine)
        → get_native j (set_native k n e) ≡ (if k == j then some n else get_native j e))
    → (calls : List Call) (e : Engine) (other : Option Engine) (setter : String)
    → let s =
        apply_pending_settings set_native
          (set_all calls (record { settings = []; engine = e; second = other })) in
      (s.settings ≡ [])
      × (s.second ≡ other)
      × (get_native setter s.engine ≡ override (last_value setter calls none) (get_native setter e))
unfolding apply_pending_settings lookup
last_setting_wins set_native get_native get-set calls e other setter =
    let s : Pending _ = record { settings = []; engine = e; second = other } in
    let t = set_all calls s in
    (
      refl,
      second-set_all calls s,
      get-apply_all set_native get_native get-set setter t.settings t.engine
            (set_all-IsUnique calls s tt)
          ∙ cong2 override (lookup-set_all setter calls s)
              (ap (get_native setter) (engine-set_all calls s)),
    )
  where
    cong2 :
        {A B C : Type 0} (f : A → B → C) {a a' : A} {b b' : B} → a ≡ a' → b ≡ b' → f a b ≡ f a' b'
    cong2 f p q = cc
