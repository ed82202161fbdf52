-- ===== src/Signature/Pointer.antt =====
-- `_pybind_pointer_tracker`: data frames and Arrow tables are told apart by a generation number,
-- since a new object may come to stand at the address of one that is gone.
pub mod History
use ladybug_python.Base.{
  ℕ, suc, ◌+◌, Bool, true, false, Option, none, some, List, [], ◌∷◌, member, nat_eq, if◌then◌else◌,
}
use ladybug_python.Dict.{Dict, lookup, insert, without}

-- The module's globals. An entry leads from an address to a generation and the object that the weak
-- reference was made for; `live` are the objects that are not collected.
pub record Tracker : Type 0 where
  pub gen : ℕ
  pub entries : Dict ℕ (ℕ × ℕ)
  pub live : List ℕ

abbrev pub no_pointers : Tracker
no_pointers = record { gen = 0; entries = []; live = [] }

-- A generation that no object had.
unfoldable pub assign : ℕ → ℕ → Tracker → ℕ × Tracker
assign addr object s =
    (s.gen + 1, record s { gen = s.gen + 1; entries = insert addr (s.gen + 1, object) s.entries })

-- The generation in the signature of the object at `addr`: that of the entry while the weak
-- reference of the entry is alive, and a new one otherwise.
unfoldable pub generation : ℕ → ℕ → Tracker → ℕ × Tracker
unfolding assign
generation addr object s = elim (lookup addr s.entries) [
  | none ↦ assign addr object s
  | some (g, owner) ↦
      (if member owner s.live
        then (g, s)
        else assign addr object (record s { entries = without addr s.entries }))
]
