-- ===== src/Database/Lifecycle.antt =====
-- Every native handle is closed exactly when its database is, and none is made afterwards.
use ladybug_python.Base.{
  ℕ, ◌+◌, ◌<◌, ◌≡◌, inl, inr, refl, sym, ◌∙◌, Bool, true, false, Option, none, some, List, [], ◌∷◌,
  arith, member, option_beq, nat_beq, ◌||◌, Bool-cases, nat_eq,
}
use mathlib.Core.Path.{subst}
use ladybug_python.Outcome.{ok, err, continue_both}
use ladybug_python.Database.{
  Database, Construct, pybind_or_new, init_pybind_database, handle_or_new, init_database, close,
  close_handle, create,
}

pub data Op : Type 0 where
  init : Bool → Construct → Construct → Op
  init_pybind : Bool → Construct → Op
  shut : Op

unfoldable pub apply : Op → Database → Database
unfolding init_database init_pybind_database close
apply (init available native answer) db = (init_database available native answer db).1
apply (init_pybind available answer) db = (init_pybind_database available answer db).1
apply shut db = close db

-- The calls on one database, in the order in which they happen.
unfoldable pub run : List Op → Database → Database
unfolding apply
run [] db = db
run (op ∷ ops) db = run ops (apply op db)

-- `h` is one of the handles that the object holds.
abbrev pub holds : ℕ → Database → Bool
holds h db = option_beq nat_beq db.handle (some h) || option_beq nat_beq db.pybind_handle (some h)

pub record IsSound (db : Database) : Type 0 where
  pub older : (h : ℕ) → member h db.opened ≡ true → h < db.fresh
  pub held : db.is_closed ≡ false → (h : ℕ) → member h db.opened ≡ true → holds h db ≡ true
  pub untouched : db.is_closed ≡ false → db.closed ≡ []
  pub all_closed :
      db.is_closed ≡ true → (h : ℕ) → member h db.opened ≡ true → member h db.closed ≡ true
  pub dropped : db.is_closed ≡ true → (db.handle ≡ none) × (db.pybind_handle ≡ none)

module _ {db : Database} (inv : IsSound db) (open_ : db.is_closed ≡ false) where
  -- A handle is made and takes an empty place.
  new_pybind-IsSound :
      db.pybind_handle ≡ none
      → IsSound (record db {
        fresh = db.fresh + 1;
        opened = db.fresh ∷ db.opened;
        pybind_handle = some db.fresh;
      })
  new_pybind-IsSound free = record {
    older = λ h m. ground (arith, inv.older h);
    held = λ _ h m. ground (arith, inv.held open_ h);
    untouched = inv.untouched;
    all_closed = λ done h m. absurd (ground arith);
    dropped = λ done. absurd (ground arith);
  }

  new_handle-IsSound :
      db.handle ≡ none
      → IsSound (record db {
        fresh = db.fresh + 1;
        opened = db.fresh ∷ db.opened;
        handle = some db.fresh;
      })
  new_handle-IsSound free = record {
    older = λ h m. ground (arith, inv.older h);
    held = λ _ h m. ground (arith, inv.held open_ h);
    untouched = inv.untouched;
    all_closed = λ done h m. absurd (ground arith);
    dropped = λ done. absurd (ground arith);
  }

  -- The pybind handle is kept in the other place too.
  share-IsSound : (o : Option ℕ) → db.handle ≡ none → IsSound (record db { handle = o })
  share-IsSound o free = record {
    older = inv.older;
    held = λ _ h m. ground (arith, inv.held open_ h);
    untouched = inv.untouched;
    all_closed = λ done h m. absurd (ground arith);
    dropped = λ done. absurd (ground arith);
  }

  pybind_or_new-IsSound :
      (answer : Construct) (o : Option ℕ)
      → db.pybind_handle ≡ o
      → IsSound (pybind_or_new answer o db).1
  unfolding pybind_or_new
  pybind_or_new-IsSound answer (some h) e = inv
  pybind_or_new-IsSound (err x) none e = inv
  pybind_or_new-IsSound (ok u) none e = new_pybind-IsSound e

  close-IsSound : IsSound (record db {
    is_closed = true;
    handle = none;
    pybind_handle = none;
    closed = close_handle db.pybind_handle (close_handle db.handle db.closed);
  })
  close-IsSound = record {
    older = inv.older;
    held = λ no_ h m. absurd (ground arith);
    untouched = λ no_. absurd (ground arith);
    all_closed = λ done h m. ground (arith, inv.held open_ h m);
    dropped = λ done. (refl, refl);
  }

  init_pybind-IsSound :
      (available : Bool) (answer : Construct) → IsSound (init_pybind_database available answer db).1
  unfolding init_pybind_database
  init_pybind-IsSound true answer = simp open_ (pybind_or_new-IsSound answer db.pybind_handle refl)
  init_pybind-IsSound false answer = simp open_ inv

-- It leaves the first handle and the flag alone.
init_pybind-same :
    (available : Bool) (answer : Construct) (db : Database)
    → let s = (init_pybind_database available answer db).1 in
      (s.is_closed ≡ db.is_closed) × (s.handle ≡ db.handle)
unfolding init_pybind_database
init_pybind-same available answer db = ground arith

module _ {db : Database} (inv : IsSound db) (open_ : db.is_closed ≡ false) where
  handle_or_new-IsSound :
      (available : Bool) (native answer : Construct) (use_pybind : Bool) (o : Option ℕ)
      → db.handle ≡ o
      → IsSound (handle_or_new available native answer use_pybind o db).1
  unfolding handle_or_new
  handle_or_new-IsSound available native answer use_pybind (some h) e = inv
  handle_or_new-IsSound available native answer true none e =
      let (r, s) = init_pybind_database available answer db in
      let (closed_, free) = init_pybind-same available answer db in
      let sound = init_pybind-IsSound inv open_ available answer in
      continue_both IsSound r _ s sound (λ h. share-IsSound sound (closed_ ∙ open_) h (free ∙ e))
  handle_or_new-IsSound available (err x) answer false none e = inv
  handle_or_new-IsSound available (ok u) answer false none e = new_handle-IsSound inv open_ e

closed_is_final : (op : Op) (db : Database) → db.is_closed ≡ true → apply op db ≡ db
unfolding apply
closed_is_final (init available native answer) db done = ground arith
closed_is_final (init_pybind available answer) db done = ground arith
closed_is_final shut db done = ground arith

init_database-open :
    (available : Bool) (native answer : Construct) (db : Database)
    → db.is_closed ≡ false
    → init_database available native answer db
      ≡ handle_or_new available native answer db.use_pybind db.handle db
unfolding init_database
init_database-open available native answer db open_ = ground arith

open_apply-IsSound :
    (op : Op) (db : Database) → IsSound db → db.is_closed ≡ false → IsSound (apply op db)
unfolding apply
open_apply-IsSound (init available native answer) db inv open_ =
    subst (λ r. IsSound r.1) (sym (init_database-open available native answer db open_))
      (handle_or_new-IsSound inv open_ available native answer db.use_pybind db.handle refl)
open_apply-IsSound (init_pybind available answer) db inv open_ =
    init_pybind-IsSound inv open_ available answer
open_apply-IsSound shut db inv open_ = simp open_ (close-IsSound inv open_)

apply-IsSound : (op : Op) (db : Database) → IsSound db → IsSound (apply op db)
apply-IsSound op db inv = elim (Bool-cases db.is_closed) [
  | inl done ↦ rw (closed_is_final op db done) inv
  | inr open_ ↦ open_apply-IsSound op db inv open_
]

run-IsSound : (ops : List Op) (db : Database) → IsSound db → IsSound (run ops db)
unfolding run
run-IsSound [] db inv = inv
run-IsSound (op ∷ ops) db inv = run-IsSound ops (apply op db) (apply-IsSound op db inv)

create-IsSound : (use_pybind : Bool) → IsSound (create use_pybind)
unfolding create
create-IsSound use_pybind = record {
  older = λ h m. absurd (cc);
  held = λ _ h m. absurd (cc);
  untouched = λ _. refl;
  all_closed = λ done h m. absurd (cc);
  dropped = λ _. (refl, refl);
}

-- After any calls on a new database, whatever the engine answers: while it is open, no native handle
-- was closed and each one made is still held; once it is closed, each one made was closed, none is
-- held, and no further call changes anything.
pub handles_follow_database :
    (use_pybind : Bool) (ops : List Op)
    → let db = run ops (create use_pybind) in
      (db.is_closed ≡ false
        → (db.closed ≡ []) × ((h : ℕ) → member h db.opened ≡ true → holds h db ≡ true))
      × (db.is_closed ≡ true
          → ((h : ℕ) → member h db.opened ≡ true → member h db.closed ≡ true)
            × (db.handle ≡ none)
            × (db.pybind_handle ≡ none)
            × ((op : Op) → apply op db ≡ db))
handles_follow_database use_pybind ops =
    let db = run ops (create use_pybind) in
    let inv = run-IsSound ops (create use_pybind) (create-IsSound use_pybind) in
    (
      λ open_. (inv.untouched open_, inv.held open_),
      λ done. (
        inv.all_closed done,
        (inv.dropped done).0,
        (inv.dropped done).1,
        λ op. closed_is_final op db done,
      ),
    )
