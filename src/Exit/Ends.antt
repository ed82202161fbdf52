-- ===== src/Exit/Ends.antt =====
-- What is open and not lost at the exit is destroyed.
use ladybug_python.Base.{
  ℕ, ◌+◌, ◌≤◌, ◌≡◌, refl, ◌∙◌, arith, Bool, true, false, List, [], ◌∷◌, member, nat_beq,
  if◌then◌else◌, Bool-cases, inl, inr,
}
use ladybug_python.Outcome.{ok, err}
use ladybug_python.Binding.Balance.{times, within}
use ladybug_python.Execution.{discard}
use ladybug_python.Exit.{
  Registry, empty_registry, add_new, close_pointer, close, close_each, Process, Action,
  open_database, connect, close_database, close_connection, collect_pointer, collect,
  collect_database, collect_connection, act, act_all, close_capi_connections,
}

-- Each object is held, destroyed or lost, once, and the weak set has those that are held.
pub record IsKept (r : Registry) : Type 0 where
  pub once : (h : ℕ) → times h r.destroyed + times h r.lost + times h r.held ≡ within 0 r.made h
  pub known : (h : ℕ) → times h r.listed ≡ times h r.held

times-discard :
    (h n : ℕ) (xs : List ℕ) → times h (discard n xs) ≡ (if nat_beq n h then 0 else times h xs)
unfolding discard
times-discard h n [] = ground arith
times-discard h n (x ∷ xs) = ground (arith, times-discard h n xs)

times-member : (h : ℕ) (xs : List ℕ) → member h xs ≡ true → 1 ≤ times h xs
times-member h [] e = cc
times-member h (x ∷ xs) e = ground (arith, times-member h xs, e)

times-no_member : (h : ℕ) (xs : List ℕ) → member h xs ≡ false → times h xs ≡ 0
times-no_member h [] e = refl
times-no_member h (x ∷ xs) e = ground (arith, times-no_member h xs, e)

add_new-IsKept : (r : Registry) → IsKept r → IsKept (add_new r).1
unfolding add_new
add_new-IsKept r k = record {
  once = λ h. ground (arith, k.once h);
  known = λ h. ground (arith, k.known h);
}

close_pointer-IsKept :
    (b : Bool) (n : ℕ) (r : Registry)
    → member n r.held ≡ b
    → IsKept r
    → IsKept (close_pointer b n r)
unfolding close_pointer
close_pointer-IsKept true n r e k =
    let there = times-member n r.held e in
    record {
      once = λ h. ground (arith, k.once h, there, times-discard h n r.held);
      known = λ h. ground (arith, k.known h, times-discard h n r.held, times-discard h n r.listed);
    }
close_pointer-IsKept false n r e k =
    let gone = times-no_member n r.held e in
    record {
      once = k.once;
      known = λ h. ground (arith, k.known h, gone, times-discard h n r.listed);
    }

collect_pointer-IsKept :
    (b : Bool) (n : ℕ) (r : Registry)
    → member n r.held ≡ b
    → IsKept r
    → IsKept (collect_pointer b n r)
unfolding collect_pointer
collect_pointer-IsKept true n r e k =
    let there = times-member n r.held e in
    record {
      once = λ h. ground (arith, k.once h, there, times-discard h n r.held);
      known = λ h. ground (arith, k.known h, times-discard h n r.held, times-discard h n r.listed);
    }
collect_pointer-IsKept false n r e k =
    let gone = times-no_member n r.held e in
    record {
      once = k.once;
      known = λ h. ground (arith, k.known h, gone, times-discard h n r.listed);
    }

collect-IsKept : (n : ℕ) (r : Registry) → IsKept r → IsKept (collect n r)
unfolding collect
collect-IsKept n r k = collect_pointer-IsKept (member n r.held) n r refl k

close-IsKept : (n : ℕ) (r : Registry) → IsKept r → IsKept (close n r)
unfolding close
close-IsKept n r k = close_pointer-IsKept (member n r.held) n r refl k

-- A number is no longer held once it is closed, and what is not held stays so.
close-held :
    (n h : ℕ) (r : Registry)
    → times h (close n r).held ≡ (if nat_beq n h then 0 else times h r.held)
unfolding close close_pointer
close-held n h r = elim (Bool-cases (member n r.held)) [
  | inl e ↦ ground (arith, e, times-discard h n r.held)
  | inr e ↦ ground (arith, e, times-no_member n r.held e)
]

close_each-IsKept : (ns : List ℕ) (r : Registry) → IsKept r → IsKept (close_each ns r)
unfolding close_each
close_each-IsKept [] r k = k
close_each-IsKept (n ∷ ns) r k = close_each-IsKept ns (close n r) (close-IsKept n r k)

close-made : (n : ℕ) (r : Registry) → (close n r).made ≡ r.made
unfolding close close_pointer
close-made n r = elim (Bool-cases (member n r.held)) [
  | inl e ↦ ground (arith, e)
  | inr e ↦ ground (arith, e)
]

close-lost : (n : ℕ) (r : Registry) → (close n r).lost ≡ r.lost
unfolding close close_pointer
close-lost n r = elim (Bool-cases (member n r.held)) [
  | inl e ↦ ground (arith, e)
  | inr e ↦ ground (arith, e)
]

close_each-lost : (ns : List ℕ) (r : Registry) → (close_each ns r).lost ≡ r.lost
unfolding close_each
close_each-lost [] r = refl
close_each-lost (n ∷ ns) r = close_each-lost ns (close n r) ∙ close-lost n r

close_each-made : (ns : List ℕ) (r : Registry) → (close_each ns r).made ≡ r.made
unfolding close_each
close_each-made [] r = refl
close_each-made (n ∷ ns) r = close_each-made ns (close n r) ∙ close-made n r

close_each-held :
    (ns : List ℕ) (h : ℕ) (r : Registry)
    → times h (close_each ns r).held ≡ (if member h ns then 0 else times h r.held)
unfolding close_each
close_each-held [] h r = refl
close_each-held (n ∷ ns) h r = ground (arith, close_each-held ns h (close n r), close-held n h r)

-- All that was listed is closed.
end-held : (r : Registry) (h : ℕ) → IsKept r → times h (close_each r.listed r).held ≡ 0
end-held r h k = elim (Bool-cases (member h r.listed)) [
  | inl e ↦ ground (arith, e, close_each-held r.listed h r)
  | inr e ↦ ground (arith, e, close_each-held r.listed h r, times-no_member h r.listed e, k.known h)
]

end-destroyed :
    (r : Registry) (h : ℕ)
    → IsKept r
    → times h (close_each r.listed r).destroyed + times h r.lost ≡ within 0 r.made h
end-destroyed r h k =
    let last = close_each-IsKept r.listed r k in
    ground
      (arith, last.once h, end-held r h k, close_each-made r.listed r, close_each-lost r.listed r)

pub record AreKept (p : Process) : Type 0 where
  pub databases : IsKept p.databases
  pub connections : IsKept p.connections

act-AreKept : (a : Action) (p : Process) → AreKept p → AreKept (act a p).1
unfolding act
act-AreKept (open_database (err e)) p k = k
act-AreKept (open_database (ok _)) p k = record {
  databases = add_new-IsKept p.databases k.databases;
  connections = k.connections;
}
act-AreKept (connect (err e) threads) p k = k
act-AreKept (connect (ok _) threads) p k = record {
  databases = k.databases;
  connections = add_new-IsKept p.connections k.connections;
}
act-AreKept (close_database n) p k = record {
  databases = close-IsKept n p.databases k.databases;
  connections = k.connections;
}
act-AreKept (close_connection n) p k = record {
  databases = k.databases;
  connections = close-IsKept n p.connections k.connections;
}
act-AreKept (collect_database n) p k = record {
  databases = collect-IsKept n p.databases k.databases;
  connections = k.connections;
}
act-AreKept (collect_connection n) p k = record {
  databases = k.databases;
  connections = collect-IsKept n p.connections k.connections;
}

act_all-AreKept : (actions : List Action) (p : Process) → AreKept p → AreKept (act_all actions p)
unfolding act_all
act_all-AreKept [] p k = k
act_all-AreKept (a ∷ rest) p k = act_all-AreKept rest (act a p).1 (act-AreKept a p k)

abbrev pub new_process : Process
new_process = record { databases = empty_registry; connections = empty_registry }

new-IsKept : IsKept empty_registry
new-IsKept = record { once = λ h. ground arith; known = λ h. refl }

-- Whatever databases and connections a process opens and closes, closing some of them twice, whichever
-- of the constructors raise and whichever of the objects are collected: after `_close_capi_connections`
-- each native database and each native connection that was made is either destroyed exactly once,
-- one that was closed before included, or lost, because its object was collected with its pointer
-- set; nothing else is destroyed.
pub exit_destroys_each :
    (actions : List Action) (h : ℕ)
    → let p = act_all actions new_process in
      let q = close_capi_connections p in
      (times h q.databases.destroyed + times h p.databases.lost ≡ within 0 p.databases.made h)
      × (times h q.connections.destroyed + times h p.connections.lost
          ≡ within 0 p.connections.made h)
unfolding close_capi_connections
exit_destroys_each actions h =
    let p = act_all actions new_process in
    let k =
      act_all-AreKept actions new_process
        (record { databases = new-IsKept; connections = new-IsKept }) in
    (end-destroyed p.databases h k.databases, end-destroyed p.connections h k.connections)
