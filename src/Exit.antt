-- ===== src/Exit.antt =====
-- src_py/_lbug_capi.py: the native databases and connections, and `_close_capi_connections`, which the
-- first Arrow table registers for the exit of the process. The weak sets do not keep an object: one
-- that nothing else refers to is collected, and its pointer is lost if it was not closed. The library
-- is there.
pub mod Ends
mod Tests
use ladybug_python.Base.{
  ℕ, suc, Bool, true, false, Option, none, some, List, [], ◌∷◌, member, if◌then◌else◌,
}
use ladybug_python.Outcome.{Result, ok, err, PyError, Exec, pure, lift, modify, gets, ◌>>=◌, ◌>>◌}
use ladybug_python.Execution.{discard}

-- The objects of a class, numbered as they are made: `held` are those whose pointer is set, `listed`
-- those of the weak set of the class, `destroyed` the pointers that were destroyed, the last first, and
-- `lost` those of the objects that were collected with their pointer set.
pub record Registry : Type 0 where
  pub made : ℕ
  pub held : List ℕ
  pub listed : List ℕ
  pub destroyed : List ℕ
  pub lost : List ℕ

abbrev pub empty_registry : Registry
empty_registry = record { made = 0; held = []; listed = []; destroyed = []; lost = [] }

-- A new object with its pointer, in the weak set.
unfoldable pub add_new : Exec Registry ℕ
add_new r =
    (ok r.made, record r { made = suc r.made; held = r.made ∷ r.held; listed = r.made ∷ r.listed })

-- `close()`, by whether the pointer is set.
unfoldable pub close_pointer : Bool → ℕ → Registry → Registry
unfolding discard
close_pointer false n r = record r { listed = discard n r.listed }
close_pointer true n r = record r {
  held = discard n r.held;
  listed = discard n r.listed;
  destroyed = n ∷ r.destroyed;
}

unfoldable pub close : ℕ → Registry → Registry
unfolding close_pointer
close n r = close_pointer (member n r.held) n r

-- An object is collected: it leaves the weak set, and there is no `__del__` that would close it.
unfoldable pub collect_pointer : Bool → ℕ → Registry → Registry
unfolding discard
collect_pointer false n r = record r { listed = discard n r.listed }
collect_pointer true n r = record r {
  held = discard n r.held;
  listed = discard n r.listed;
  lost = n ∷ r.lost;
}

unfoldable pub collect : ℕ → Registry → Registry
unfolding collect_pointer
collect n r = collect_pointer (member n r.held) n r

unfoldable pub close_each : List ℕ → Registry → Registry
unfolding close
close_each [] r = r
close_each (n ∷ ns) r = close_each ns (close n r)

pub record Process : Type 0 where
  pub databases : Registry
  pub connections : Registry

abbrev pub on_databases : {A : Type 0} → Exec Registry A → Exec Process A
on_databases m p = let (a, r) = m p.databases in (a, record p { databases = r })

abbrev pub on_connections : {A : Type 0} → Exec Registry A → Exec Process A
on_connections m p = let (a, r) = m p.connections in (a, record p { connections = r })

-- What is done to the objects, by the program or by the collector: `init` is what the library answers to the constructor, `threads` what it
-- answers where a number of threads is set.
pub data Action : Type 0 where
  open_database : Result {0} Unit → Action
  connect : Result {0} Unit → Option (Result {0} Unit) → Action
  close_database close_connection : ℕ → Action
  collect_database collect_connection : ℕ → Action

abbrev pub set_threads : Option (Result {0} Unit) → Result {0} Unit
set_threads none = ok tt
set_threads (some r) = r

unfoldable pub act : Action → Exec Process Unit
unfolding add_new close collect
act (open_database init) = do lift init; on_databases add_new; pure tt
act (connect init threads) = do lift init; on_connections add_new; lift (set_threads threads)
act (close_database n) = on_databases λ r. (ok tt, close n r)
act (close_connection n) = on_connections λ r. (ok tt, close n r)
act (collect_database n) = on_databases λ r. (ok tt, collect n r)
act (collect_connection n) = on_connections λ r. (ok tt, collect n r)

-- Actions one after the other; an error does not keep the caller from the next one.
unfoldable pub act_all : List Action → Process → Process
unfolding act
act_all [] p = p
act_all (a ∷ rest) p = act_all rest (act a p).1

-- `_close_capi_connections`
unfoldable pub close_capi_connections : Process → Process
unfolding close_each
close_capi_connections p =
    let q = record p { connections = close_each p.connections.listed p.connections } in
    record q { databases = close_each q.databases.listed q.databases }
