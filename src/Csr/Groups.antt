-- ===== src/Csr/Groups.antt =====
-- The groups of getCSR: one for each source up to the greatest one, with its rows in order.
use ladybug_python.Base.{
  ℕ, zero, suc, ◌≤◌, ◌<◌, ◌≡◌, refl, sym, ap, ◌∙◌, arith, List, [], ◌∷◌, ◌++◌, append_assoc,
  append_nil, length, length-replicate, replicate, nat_eq, ◌==◌, if◌then◌else◌,
}
use ladybug_python.Csr.{Entry, width, append_at, group}
use ladybug_python.Csr.Slices.{get_or_nil}

-- The entries of one source, in order.
unfoldable pub of_source : ℕ → List (ℕ × Entry) → List Entry
of_source i [] = []
of_source i ((src, e) ∷ es) = (if src == i then e ∷ [] else []) ++ of_source i es

length-append_at :
    (i : ℕ) (e : Entry) (gs : List (List Entry)) → length (append_at i e gs) ≡ length gs
unfolding append_at
length-append_at i e [] = refl
length-append_at zero e (g ∷ gs) = refl
length-append_at (suc i) e (g ∷ gs) = ap suc (length-append_at i e gs)

get-append_at :
    (i j : ℕ) (e : Entry) (gs : List (List Entry))
    → i < length gs
    → get_or_nil (append_at i e gs) j ≡ get_or_nil gs j ++ (if i == j then e ∷ [] else [])
unfolding append_at
get-append_at i j e [] h = absurd (omega arith)
get-append_at zero zero e (g ∷ gs) h = refl
get-append_at zero (suc j) e (g ∷ gs) h = ground (arith, append_nil (get_or_nil gs j))
get-append_at (suc i) zero e (g ∷ gs) h = ground (arith, append_nil g)
get-append_at (suc i) (suc j) e (g ∷ gs) h = ground (arith, get-append_at i j e gs)

pub length-group :
    (es : List (ℕ × Entry)) (gs : List (List Entry)) → length (group es gs) ≡ length gs
unfolding group
length-group [] gs = refl
length-group ((src, e) ∷ es) gs = length-group es (append_at src e gs) ∙ length-append_at src e gs

get-group :
    (es : List (ℕ × Entry)) (gs : List (List Entry)) (i : ℕ)
    → width es ≤ length gs
    → get_or_nil (group es gs) i ≡ get_or_nil gs i ++ of_source i es
unfolding group width of_source
get-group [] gs i h = sym (append_nil (get_or_nil gs i))
get-group ((src, e) ∷ es) gs i h =
    let gs' = append_at src e gs in
    get-group es gs' i (omega (arith, h, length-append_at src e gs))
    ∙ ap (λ l. l ++ of_source i es) (get-append_at src i e gs (omega (arith, h)))
    ∙ append_assoc (get_or_nil gs i) (if src == i then e ∷ [] else []) (of_source i es)

get-replicate : (n i : ℕ) → get_or_nil {A = Entry} (replicate n []) i ≡ []
get-replicate zero i = refl
get-replicate (suc n) zero = refl
get-replicate (suc n) (suc i) = get-replicate n i

abbrev pub groups_of : List (ℕ × Entry) → List (List Entry)
groups_of es = group es (replicate (width es) [])

-- The group of a source holds its entries, whether there is such a group or not.
pub get-groups_of : (es : List (ℕ × Entry)) (i : ℕ) → get_or_nil (groups_of es) i ≡ of_source i es
get-groups_of es i =
    let start : List (List Entry) = replicate (width es) [] in
    let wide : length start ≡ width es = length-replicate (width es) [] in
    get-group es start i (omega (arith, wide))
    ∙ ap (λ l. l ++ of_source i es) (get-replicate (width es) i)
