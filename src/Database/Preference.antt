-- ===== src/Database/Preference.antt =====
-- `Database._resolve_backend_preference` and `_should_use_pybind_backend`.
use ladybug_python.Base.{
  ℕ, ◌≡◌, ◌≢◌, ◌↔◌, ◌⊎◌, inl, inr, refl, Bool, true, false, Option, none, some, [], ◌∷◌, ◌++◌, ap,
  arith, if◌then◌else◌, nat_eq, ◌==◌,
}
use ladybug_python.Outcome.{Result, ok, err, runtime_error, value_error}
use ladybug_python.Text.{
  Text, codes, text_eq, text_beq_iff, is_space, lstrip, rstrip, rstrip_cons, lower,
}

pub data Preference : Type 0 where
  auto capi pybind : Preference

-- The values of `_VALID_BACKENDS`.
abbrev pub name_of : Preference → Text
name_of auto = codes "auto"
name_of capi = codes "capi"
name_of pybind = codes "pybind"

-- `selected.strip().lower()`
unfoldable pub normalize : Text → Text
unfolding lstrip rstrip lower
normalize s = lower (lstrip (rstrip s))

-- Membership in `_VALID_BACKENDS`.
unfoldable pub find_backend : Text → Option Preference
find_backend s =
    if s == codes "auto"
    then some auto
    else if s == codes "capi"
    then some capi
    else if s == codes "pybind"
    then some pybind
    else none

-- The environment variable wins over the argument.
abbrev pub selected : Option Text → Text → Text
selected none argument = argument
selected (some variable) argument = variable

accept : Option Preference → Result Preference
accept none = err (value_error "Invalid backend. Expected one of: auto, capi, pybind.")
accept (some p) = ok p

unfoldable pub resolve_backend_preference : Option Text → Text → Result Preference
unfolding accept
resolve_backend_preference variable argument =
    accept (find_backend (normalize (selected variable argument)))

-- `available` says that the extension module could be imported.
unfoldable pub should_use_pybind_backend : Preference → Bool → Result Bool
should_use_pybind_backend capi available = ok false
should_use_pybind_backend pybind true = ok true
should_use_pybind_backend pybind false =
    err (runtime_error "Requested pybind backend, but ladybug._lbug is not available.")
should_use_pybind_backend auto available = ok available

find_backend-name_of : (s : Text) (p : Preference) → (find_backend s ≡ some p) ↔ (s ≡ name_of p)
unfolding find_backend
find_backend-name_of s p = (
  λ e. ground (
    arith,
    text_beq_iff s (codes "auto"),
    text_beq_iff s (codes "capi"),
    text_beq_iff s (codes "pybind"),
    e,
  ),
  λ e. rw e (find_backend-found p),
)
  where
    find_backend-found : (p : Preference) → find_backend (name_of p) ≡ some p
    find_backend-found auto = refl
    find_backend-found capi = refl
    find_backend-found pybind = refl

lstrip-rstrip_cons : (c : ℕ) (s : Text) → is_space c ≡ true → lstrip (rstrip_cons c s) ≡ lstrip s
unfolding lstrip rstrip_cons
lstrip-rstrip_cons c [] h = ground arith
lstrip-rstrip_cons c (d ∷ s) h = ground (arith, h)

rstrip-append_space : (c : ℕ) (s : Text) → is_space c ≡ true → rstrip (s ++ c ∷ []) ≡ rstrip s
unfolding rstrip
rstrip-append_space c [] h = ground (arith, h)
rstrip-append_space c (d ∷ s) h = ap (rstrip_cons d) (rstrip-append_space c s h)

normalize-cons_space : (c : ℕ) (s : Text) → is_space c ≡ true → normalize (c ∷ s) ≡ normalize s
unfolding normalize
normalize-cons_space c s h = ap lower (lstrip-rstrip_cons c (rstrip s) h)

normalize-append_space :
    (c : ℕ) (s : Text) → is_space c ≡ true → normalize (s ++ c ∷ []) ≡ normalize s
normalize-append_space c s h =
    unfold normalize in ap (λ t. lower (lstrip t)) (rstrip-append_space c s h)

accept-ok : (o : Option Preference) (p : Preference) → (accept o ≡ ok p) ↔ (o ≡ some p)
unfolding accept
accept-ok none p = (λ e. cc, λ e. cc)
accept-ok (some q) p = (λ e. cc, λ e. cc)

-- A backend is accepted exactly when the environment variable, or else the argument, names it; white
-- space before and after the name does not matter.
resolve_names_backend :
    (variable : Option Text) (argument : Text) (p : Preference)
    → ((resolve_backend_preference variable argument ≡ ok p)
        ↔ (normalize (selected variable argument) ≡ name_of p))
      × ((c : ℕ)
          → is_space c ≡ true
          → (resolve_backend_preference none (c ∷ argument)
              ≡ resolve_backend_preference none argument)
            × (resolve_backend_preference none (argument ++ c ∷ [])
                ≡ resolve_backend_preference none argument))
unfolding resolve_backend_preference
resolve_names_backend variable argument p =
    let s = normalize (selected variable argument) in
    let q = accept-ok (find_backend s) p in
    let names = find_backend-name_of s p in
    (
      (λ e. names.0 (q.0 e), λ e. q.1 (names.1 e)),
      λ c h. (
        ap (λ t. accept (find_backend t)) (normalize-cons_space c argument h),
        ap (λ t. accept (find_backend t)) (normalize-append_space c argument h),
      ),
    )

-- The extension is used exactly when it is there and the backend is not `capi`; without it `auto`
-- falls back and `pybind` is refused.
backend_choice :
    (p : Preference) (available : Bool)
    → ((should_use_pybind_backend p available ≡ ok true) ↔ ((available ≡ true) × (p ≢ capi)))
      × ((should_use_pybind_backend p available ≡ ok false)
          ↔ ((p ≡ capi) ⊎ ((p ≡ auto) × (available ≡ false))))
unfolding should_use_pybind_backend
backend_choice capi available = ((λ e. cc, λ (_, ne). absurd (ne refl)), (λ e. inl refl, λ _. refl))
backend_choice auto true =
    ((λ _. (refl, λ e. cc), λ _. refl), (λ e. cc, λ h. elim h [ inl e ↦ cc | inr (_, e) ↦ cc ]))
backend_choice auto false = ((λ e. cc, λ (e, _). cc), (λ _. inr (refl, refl), λ _. refl))
backend_choice pybind true =
    ((λ _. (refl, λ e. cc), λ _. refl), (λ e. cc, λ h. elim h [ inl e ↦ cc | inr (e, _) ↦ cc ]))
backend_choice pybind false =
    ((λ e. cc, λ (e, _). cc), (λ e. cc, λ h. elim h [ inl e ↦ cc | inr (e, _) ↦ cc ]))
