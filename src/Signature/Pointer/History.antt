-- ===== src/Signature/Pointer/History.antt =====
-- Over every history of objects that come, are signed and go: a generation belongs to one object.
use ladybug_python.Base.{
  ℕ, ◌+◌, ◌≤◌, ◌≡◌, ◌≢◌, sym, ◌⊎◌, Bool, true, false, some, List, [], ◌∷◌, arith, member, nat_eq,
  nat_beq, if◌then◌else◌, Bool-cases, Option-cases, inl, inr,
}
use mathlib.Core.Path.{subst}
use ladybug_python.Dict.{Dict, lookup, insert, without, lookup-insert, lookup-without}
use ladybug_python.Signature.Pointer.{Tracker, no_pointers, assign, generation}

-- `list.remove` of every occurrence
abbrev pub remove : ℕ → List ℕ → List ℕ
remove i [] = []
remove i (x ∷ xs) = if nat_beq x i then remove i xs else x ∷ remove i xs

member-remove :
    (i j : ℕ) (xs : List ℕ) → member j (remove i xs) ≡ (if nat_beq i j then false else member j xs)
member-remove i j [] = ground arith
member-remove i j (x ∷ xs) = ground (arith, member-remove i j xs)

-- `(i, g)` is among the signatures that were given out.
abbrev pub issued_in : ℕ → ℕ → List (ℕ × ℕ) → Bool
issued_in i g [] = false
issued_in i g ((j, h) ∷ rest) =
    if nat_beq j i then (if nat_beq h g then true else issued_in i g rest) else issued_in i g rest

-- The tracker, every object made so far, and the generations given out, the last first.
pub record World : Type 0 where
  pub tracker : Tracker
  pub made : List ℕ
  pub issued : List (ℕ × ℕ)

abbrev pub record_issue : ℕ → List ℕ → List (ℕ × ℕ) → ℕ × Tracker → World
record_issue i made issued (g, t) = record { tracker = t; made = made; issued = (i, g) ∷ issued }

-- The objects of the process: the address of each.
module _ (address : ℕ → ℕ) where
  -- A signature of the object `i`.
  unfoldable pub sign : ℕ → World → World
  sign i w = record_issue i w.made w.issued (generation (address i) i w.tracker)

  unfoldable pub birth : ℕ → World → World
  birth i w = record w {
    tracker = record (w.tracker) { live = i ∷ w.tracker.live };
    made = i ∷ w.made;
  }

  unfoldable pub death : ℕ → World → World
  death i w = record w { tracker = record (w.tracker) { live = remove i w.tracker.live } }

  -- An object is made at an address that no live object has; only a live one is signed.
  pub data Reach : World → Type 0 where
    start : Reach (record { tracker = no_pointers; made = []; issued = [] })
    born :
        {w : World} (i : ℕ)
        → Reach w
        → member i w.made ≡ false
        → ((j : ℕ) → member j w.tracker.live ≡ true → address j ≢ address i)
        → Reach (birth i w)
    signed : {w : World} (i : ℕ) → Reach w → member i w.tracker.live ≡ true → Reach (sign i w)
    gone : {w : World} (i : ℕ) → Reach w → Reach (death i w)

  pub record IsSound (w : World) : Type 0 where
    pub apart :
        (i j : ℕ)
        → member i w.tracker.live ≡ true
        → member j w.tracker.live ≡ true
        → address i ≡ address j
        → i ≡ j
    pub known : (i : ℕ) → member i w.tracker.live ≡ true → member i w.made ≡ true
    pub old :
        (i g : ℕ) → issued_in i g w.issued ≡ true → (g ≤ w.tracker.gen) × (member i w.made ≡ true)
    pub entry :
        (a g i : ℕ)
        → lookup a w.tracker.entries ≡ some (g, i)
        → (address i ≡ a) × (issued_in i g w.issued ≡ true)
    pub unique : (i j g : ℕ) → issued_in i g w.issued ≡ true → issued_in j g w.issued ≡ true → i ≡ j
    pub current :
        (i g : ℕ)
        → issued_in i g w.issued ≡ true
        → member i w.tracker.live ≡ true
        → lookup (address i) w.tracker.entries ≡ some (g, i)

  birth-IsSound :
      {w : World} (i : ℕ)
      → IsSound w
      → member i w.made ≡ false
      → ((j : ℕ) → member j w.tracker.live ≡ true → address j ≢ address i)
      → IsSound (birth i w)
  unfolding birth
  birth-IsSound {w} i inv fresh free = record {
    apart = λ j k e e' same. ground (arith, inv.apart j k, free j, free k);
    known = λ j e. ground (arith, inv.known j);
    old = λ j g e. (ground (arith, inv.old j g e), ground (arith, inv.old j g e));
    entry = inv.entry;
    unique = inv.unique;
    current = λ j g e alive. ground (arith, inv.old j g e, inv.current j g e);
  }

  death-IsSound : {w : World} (i : ℕ) → IsSound w → IsSound (death i w)
  unfolding death
  death-IsSound {w} i inv = record {
    apart = λ j k e e' same.
        ground (
          arith,
          inv.apart j k,
          member-remove i j w.tracker.live,
          member-remove i k w.tracker.live,
        );
    known = λ j e. ground (arith, inv.known j, member-remove i j w.tracker.live);
    old = inv.old;
    entry = inv.entry;
    unique = inv.unique;
    current = λ j g e alive. ground (arith, inv.current j g e, member-remove i j w.tracker.live);
  }

  -- A new generation for `i`, with the entries `es`.
  unfoldable assigned : ℕ → Dict ℕ (ℕ × ℕ) → World → World
  assigned i es w = record {
    tracker = record (w.tracker) { gen = w.tracker.gen + 1; entries = es };
    made = w.made;
    issued = (i, w.tracker.gen + 1) ∷ w.issued;
  }

  -- No live object has an entry at the address of `i`, so a new one may stand there.
  assigned-IsSound :
      {w : World} (i : ℕ) (es : Dict ℕ (ℕ × ℕ))
      → IsSound w
      → member i w.tracker.live ≡ true
      → ((a : ℕ)
          → lookup a es ≡ (
              if nat_beq (address i) a
              then some (w.tracker.gen + 1, i)
              else lookup a w.tracker.entries))
      → ((g : ℕ) → issued_in i g w.issued ≡ false)
      → IsSound (assigned i es w)
  unfolding assigned
  assigned-IsSound {w} i es inv alive there never = record {
    apart = inv.apart;
    known = inv.known;
    old = λ j g e. (
      ground (arith, inv.old j g, inv.known i alive),
      ground (arith, inv.old j g, inv.known i alive),
    );
    entry = λ a g j e.
        (ground (arith, there a, inv.entry a g j), ground (arith, there a, inv.entry a g j));
    unique = λ j k g e e'. ground (arith, inv.unique j k g, inv.old j g, inv.old k g);
    current = λ j g e life.
        ground (arith, there (address j), inv.current j g, inv.apart i j alive life, never g);
  }

  -- A generation that was given before is given again.
  again-IsSound :
      {w : World} (i g : ℕ)
      → IsSound w
      → issued_in i g w.issued ≡ true
      → IsSound (record w { issued = (i, g) ∷ w.issued })
  again-IsSound {w} i g inv given = record {
    apart = inv.apart;
    known = inv.known;
    old = λ j h e. ground (arith, inv.old j h, inv.old i g given);
    entry = λ a h j e. ground (arith, inv.entry a h j e);
    unique = λ j k h e e'. ground (arith, inv.unique j k h, inv.unique i k h, inv.unique j i h);
    current = λ j h e life. ground (arith, inv.current j h, inv.current i g given);
  }

  generation-cases :
      (i : ℕ) (w : World)
      → IsSound w
      → member i w.tracker.live ≡ true
      → ((g : ℕ) × (lookup (address i) w.tracker.entries ≡ some (g, i))
          × (generation (address i) i w.tracker ≡ (g, w.tracker)))
        ⊎ ((es : Dict ℕ (ℕ × ℕ)) × ((a : ℕ)
              → lookup a es ≡ (
                  if nat_beq (address i) a
                  then some (w.tracker.gen + 1, i)
                  else lookup a w.tracker.entries))
            × (((g : ℕ) → lookup (address i) w.tracker.entries ≢ some (g, i)))
            × (generation (address i) i w.tracker ≡ (
              w.tracker.gen + 1,
              record (w.tracker) { gen = w.tracker.gen + 1; entries = es },
            )))
  unfolding generation assign
  generation-cases i w inv alive = elim (Option-cases (lookup (address i) w.tracker.entries)) [
    | inl e ↦ inr (
      insert (address i) (w.tracker.gen + 1, i) w.tracker.entries,
      λ a. lookup-insert (address i) a (w.tracker.gen + 1, i) w.tracker.entries,
      λ g e'. ground arith,
      ground arith,
    )
    | inr ((g, o), e) ↦ elim (Bool-cases (member o w.tracker.live)) [
      | inl life ↦ inl (g, ground (arith, inv.entry (address i) g o e, inv.apart o i), ground arith)
      | inr dead ↦ inr (
        insert (address i) (w.tracker.gen + 1, i) (without (address i) w.tracker.entries),
        λ a. ground (
          arith,
          lookup-insert (address i) a (w.tracker.gen + 1, i)
              (without (address i) w.tracker.entries),
          lookup-without (address i) a w.tracker.entries,
        ),
        λ h e'. ground arith,
        ground arith,
      )
    ]
  ]

  -- The entry of a live object is its own.
  sign-IsSound :
      {w : World} (i : ℕ) → IsSound w → member i w.tracker.live ≡ true → IsSound (sign i w)
  unfolding sign assigned
  sign-IsSound {w} i inv alive = elim (generation-cases i w inv alive) [
    | inl (g, e, same) ↦
        subst (λ r. IsSound (record_issue i w.made w.issued r)) (sym same)
          (again-IsSound i g inv ((inv.entry (address i) g i e).1))
    | inr (es, there, other, new) ↦
        subst (λ r. IsSound (record_issue i w.made w.issued r)) (sym new)
          (assigned-IsSound i es inv alive there (λ g. ground (arith, other g, inv.current i g)))
  ]

  Reach-IsSound : {w : World} → Reach w → IsSound w
  unfolding lookup
  Reach-IsSound start = record {
    apart = λ i j e e' same. ground arith;
    known = λ i e. ground arith;
    old = λ i g e. ground arith;
    entry = λ a g i e. ground arith;
    unique = λ i j g e e'. ground arith;
    current = λ i g e life. ground arith;
  }
  Reach-IsSound (born i r fresh free) = birth-IsSound i (Reach-IsSound r) fresh free
  Reach-IsSound (signed i r alive) = sign-IsSound i (Reach-IsSound r) alive
  Reach-IsSound (gone i r) = death-IsSound i (Reach-IsSound r)

  -- In every history of objects that are made, are signed while they live and are collected,
  -- with any address for each as long as no two live objects share one: two objects never had the
  -- same generation in their signatures.
  pub generation_tells_objects_apart :
      {w : World} (i j g : ℕ)
      → Reach w
      → i ≢ j
      → issued_in i g w.issued ≡ true
      → issued_in j g w.issued ≡ false
  generation_tells_objects_apart {w} i j g r ne e = elim (Bool-cases (issued_in j g w.issued)) [
    | inl e' ↦ absurd (ne ((Reach-IsSound r).unique i j g e e'))
    | inr e' ↦ e'
  ]

  -- In every such history: when a live object had the generation `g` in a signature, its next
  -- signature has the generation `g` again and leaves the tracker as it is.
  pub generation_is_stable :
      {w : World} (i g : ℕ)
      → Reach w
      → issued_in i g w.issued ≡ true
      → member i w.tracker.live ≡ true
      → generation (address i) i w.tracker ≡ (g, w.tracker)
  unfolding generation
  generation_is_stable {w} i g r e alive = ground (arith, (Reach-IsSound r).current i g e alive)
