-- ===== src/Calls/Liveness.antt =====
-- `close()` gets to its end: calls return, and then nothing is left to wait for.
use ladybug_python.Base.{
  ℕ, suc, ◌-◌, ◌<◌, ◌≤◌, ◌≡◌, ◌≢◌, refl, sym, ◌∙◌, none, some, List, [], ◌∷◌, arith, nat_eq, inl,
  inr, Option-cases, Bool-cases, if_both, ◌&&◌, ◌||◌, ap, zero, ltb,
}
use native.Mathlib.Decide.{dec_le}
use ladybug_python.Dict.{lookup, insert, lookup-insert, lookup-insert_self}
use ladybug_python.Dict.Total.{total, total-insert}
use ladybug_python.Dict.Unique.{IsUnique, insert-IsUnique, find_weight}
use ladybug_python.Outcome.{Result}
use ladybug_python.Calls.{
  Progress, busy, called_from_udf, on_stack, Frame, call, udf, Conn, World, call_exit, udf_exit,
  close_teardown, call_enter, udf_enter, close_begin, close_abort, connect, stack_of,
}
use ladybug_python.Calls.Step.{
  IsConn, IsFree, Step, leave, end_udf, finish, Reach, here, next, empty_world, create, enter,
  start_udf, close, abort,
}
use ladybug_python.Calls.Invariant.{calls_on, IsTracked, Step-IsTracked, Reach-IsTracked}

-- The moves by which a call or a UDF returns.
pub data Return : World → World → Type 0 where
  from_call :
      {w : World} (t c : ℕ) (k : Conn) (rest : List Frame)
      → IsFree w t
      → IsConn w c k
      → lookup t w.stacks ≡ some (call c ∷ rest)
      → Return w (call_exit t c k rest w)
  from_udf :
      {w : World} (t : ℕ) (rest : List Frame)
      → IsFree w t
      → lookup t w.stacks ≡ some (udf ∷ rest)
      → Return w (udf_exit t rest w)

pub data Returns : World → World → Type 0 where
  stay : {w : World} → Returns w w
  first : {w v u : World} → Return w v → Returns v u → Returns w u

abbrev as_step : {w v : World} → Return w v → Step w v
as_step (from_call t c k rest free is_conn top) = leave t c k rest free is_conn top
as_step (from_udf t rest free top) = end_udf t rest free top

chain : {w v u : World} → Returns w v → Returns v u → Returns w u
chain stay s = s
chain (first m r) s = first m (chain r s)

-- No thread that is inside a call of `c` waits in `close()`.
abbrev pub CanReturn : ℕ → World → Type 0
CanReturn c w =
    (t : ℕ) (fs : List Frame) → lookup t w.stacks ≡ some fs → 0 < calls_on c fs → IsFree w t

-- What lets the calls of `c` return.
record IsLive (c : ℕ) (w : World) : Type 0 where
  tracked : IsTracked w
  unique : IsUnique w.stacks
  known : lookup c w.conns ≢ none
  free : CanReturn c w

Return-IsLive :
    {w v : World} (c t : ℕ) (f : Frame) (rest : List Frame)
    → Return w v
    → IsLive c w
    → lookup t w.stacks ≡ some (f ∷ rest)
    → v.stacks ≡ insert t rest w.stacks
    → v.waiting ≡ w.waiting
    → IsFree w t
    → lookup c v.conns ≢ none
    → IsLive c v
Return-IsLive {w} {v} c t f rest m live top stacks waiting free known = record {
  tracked = Step-IsTracked (as_step m) live.tracked;
  unique = rw stacks (insert-IsUnique t rest w.stacks live.unique);
  known = known;
  free = λ u fs e p.
      ground (arith, live.free u fs, stacks, waiting, e, p, lookup-insert t u rest w.stacks);
}

-- What a run of returns leaves: fewer calls of `c`, and the same threads that wait.
abbrev Fewer : ℕ → World → Type 0
Fewer c w =
    (v : World) × Returns w v
    × (v.waiting ≡ w.waiting)
    × IsLive c v
    × (total (calls_on c) v.stacks < total (calls_on c) w.stacks)

top-IsConn :
    {w : World} (t d : ℕ) (rest : List Frame)
    → IsTracked w
    → lookup t w.stacks ≡ some (call d ∷ rest)
    → (k : Conn) × IsConn w d k
top-IsConn {w} t d rest inv top = elim (Option-cases (lookup d w.conns)) [
  | inl none_ ↦
      absurd (ground (arith, inv.known d, none_, top, total-insert (calls_on d) t rest w.stacks))
  | inr found ↦ found
]

exit-known :
    (w : World) (c t d : ℕ) (k : Conn) (rest : List Frame)
    → lookup c w.conns ≢ none
    → lookup c (call_exit t d k rest w).conns ≢ none
unfolding call_exit
exit-known w c t d k rest h e =
    ground (arith, h, e, lookup-insert d c (record k { in_flight = k.in_flight - 1 }) w.conns)

exit-stacks :
    (w : World) (t d : ℕ) (k : Conn) (rest : List Frame)
    → ((call_exit t d k rest w).stacks ≡ insert t rest w.stacks)
      × ((call_exit t d k rest w).waiting ≡ w.waiting)
unfolding call_exit
exit-stacks w t d k rest = (refl, refl)

udf_exit-stacks :
    (w : World) (t : ℕ) (rest : List Frame)
    → ((udf_exit t rest w).stacks ≡ insert t rest w.stacks)
      × ((udf_exit t rest w).waiting ≡ w.waiting)
      × ((udf_exit t rest w).conns ≡ w.conns)
unfolding udf_exit
udf_exit-stacks w t rest = (refl, refl, refl)

-- The innermost frame of a thread returns.
pop :
    (c : ℕ) {w : World} (t : ℕ) (f : Frame) (rest : List Frame)
    → IsLive c w
    → lookup t w.stacks ≡ some (f ∷ rest)
    → IsFree w t
    → (v : World) × Returns w v
      × (v.waiting ≡ w.waiting)
      × IsLive c v
      × (v.stacks ≡ insert t rest w.stacks)
pop c {w} t (call d) rest live top free =
    let (k, is_conn) = top-IsConn t d rest live.tracked top in
    let (s, q) = exit-stacks w t d k rest in
    let m = from_call t d k rest free is_conn top in
    (
      call_exit t d k rest w,
      first m stay,
      q,
      Return-IsLive c t (call d) rest m live top s q free (exit-known w c t d k rest live.known),
      s,
    )
pop c {w} t udf rest live top free =
    let (s, q, o) = udf_exit-stacks w t rest in
    let m = from_udf t rest free top in
    (
      udf_exit t rest w,
      first m stay,
      q,
      Return-IsLive c t udf rest m live top s q free (λ e. live.known (ap (lookup c) (sym o) ∙ e)),
      s,
    )

drain :
    (c t : ℕ) (fs : List Frame) (w : World)
    → IsLive c w
    → lookup t w.stacks ≡ some fs
    → 0 < calls_on c fs
    → Fewer c w
drain c t [] w live top p = absurd (omega arith)
drain c t (f ∷ rest) w live top p =
    let (v, r, q, live', s) = pop c t f rest live top (live.free t (f ∷ rest) top p) in
    let there : lookup t v.stacks ≡ some rest =
      ap (lookup t) s ∙ lookup-insert_self t rest w.stacks in
    let sum = total-insert (calls_on c) t rest w.stacks in
    elim (Bool-cases (ltb (calls_on c rest) (calls_on c (f ∷ rest)))) [
      | inl less ↦ (v, r, q, live', ground (arith, sum, s, top, less))
      | inr same ↦
          let (u, r', q', live'', less) = drain c t rest v live' there (ground (arith, p, same)) in
          (u, chain r r', q' ∙ q, live'', ground (arith, less, sum, s, top, same))
    ]

drain_all :
    (c n : ℕ) (w : World)
    → IsLive c w
    → total (calls_on c) w.stacks ≤ n
    → (v : World) × Returns w v
      × (v.waiting ≡ w.waiting)
      × IsLive c v
      × (total (calls_on c) v.stacks ≡ 0)
drain_all c zero w live h = (w, stay, refl, live, omega (arith, h))
drain_all c (suc n) w live h = elim (dec_le 1 (total (calls_on c) w.stacks)) [
  | no idle ↦ (w, stay, refl, live, omega (arith, idle))
  | yes busy ↦
      let (t, fs, there, p) = find_weight (calls_on c) w.stacks live.unique busy in
      let (v, r, q, live', less) = drain c t fs w live there p in
      let (u, r', q', live'', done_) = drain_all c n v live' (omega (arith, less, h)) in
      (u, chain r r', q' ∙ q, live'', done_)
]

step-IsUnique : {v w : World} → Step v w → IsUnique v.stacks → IsUnique w.stacks
unfolding call_enter call_exit udf_enter udf_exit close_begin close_abort close_teardown connect
step-IsUnique (create c fresh) h = h
step-IsUnique {v} (enter t c k free is_conn) h =
    if_both {A = Result Unit × World} (λ r. IsUnique r.1.stacks) k.closing _ _ h
      (if_both {A = Result Unit × World} (λ r. IsUnique r.1.stacks)
        (busy k && called_from_udf c (stack_of t v)) _ _ h
        (insert-IsUnique t (call c ∷ stack_of t v) v.stacks h))
step-IsUnique {v} (leave t c k rest free is_conn top) h = insert-IsUnique t rest v.stacks h
step-IsUnique {v} (start_udf t free) h = insert-IsUnique t (udf ∷ stack_of t v) v.stacks h
step-IsUnique {v} (end_udf t rest free top) h = insert-IsUnique t rest v.stacks h
step-IsUnique {v} (close t c k free is_conn) h =
    if_both {A = Result Progress × World} (λ r. IsUnique r.1.stacks) (on_stack c (stack_of t v)) _ _
      h
      (if_both {A = Result Progress × World} (λ r. IsUnique r.1.stacks) (k.is_closed || k.closing) _
        _ h
        (if_both {A = Result Progress × World} (λ r. IsUnique r.1.stacks)
          (busy k && called_from_udf c (stack_of t v)) _ _ h h))
step-IsUnique (abort t c k mine is_conn) h = h
step-IsUnique (finish t c k mine is_conn idle) h = h

stacks-IsUnique : {w : World} → Reach empty_world w → IsUnique w.stacks
stacks-IsUnique here = tt
stacks-IsUnique (next r st) = step-IsUnique st (stacks-IsUnique r)

-- From every state that the threads can come to, in which a thread waits in `close()` and no thread
-- inside a call of that connection waits in a `close()` too: calls and UDFs of other threads can
-- return, one after another, until no call is in flight on the connection and `close()` goes on to
-- its end.
pub close_can_finish :
    (w : World) (t c : ℕ)
    → Reach empty_world w
    → lookup t w.waiting ≡ some c
    → lookup c w.conns ≢ none
    → CanReturn c w
    → (v : World) × (j : Conn) × Returns w v
      × (lookup t v.waiting ≡ some c)
      × (lookup c v.conns ≡ some j)
      × (j.in_flight ≡ 0)
      × Step v (close_teardown t c j v)
close_can_finish w t c r mine known free =
    let live : IsLive c w = record {
      tracked = Reach-IsTracked r;
      unique = stacks-IsUnique r;
      known = known;
      free = free;
    } in
    let (v, s, q, live', done_) = drain_all c (total (calls_on c) w.stacks) w live (omega arith) in
    let mine' : lookup t v.waiting ≡ some c = ap (lookup t) q ∙ mine in
    elim (Option-cases (lookup c v.conns)) [
      | inl none_ ↦ absurd (live'.known none_)
      | inr (j, e) ↦
          let idle : j.in_flight ≡ 0 = live'.tracked.counted c j e ∙ done_ in
          (v, j, s, mine', e, idle, finish t c j mine' e idle)
    ]
