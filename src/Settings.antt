-- ===== src/Settings.antt =====
-- src_py/connection.py: settings of a connection wait in `_pending_settings` for the next query.
-- The native setters are a parameter.
pub mod Order
mod Tests
use ladybug_python.Base.{
  ℕ, suc, ◌+◌, ◌^◌, ◌≡◌, ◌≢◌, refl, sym, Bool, true, false, ◌&&◌, Option, none, some, List, [], ◌∷◌,
  String, string_eq, arith, ltb, leb, ◌==◌, if◌then◌else◌,
}
use ladybug_python.Base.Int.{ℤ, pos, negsuc}
use ladybug_python.Outcome.{Result, Exec, ok, err, PyError, type_error, value_error, runtime_error}
use ladybug_python.Dict.{Dict, lookup, insert, lookup-insert}

-- The setters that are queued.
abbrev pub threads_setter : String
threads_setter = "set_max_threads_for_exec"

abbrev pub timeout_setter : String
timeout_setter = "set_query_timeout"

-- `engine` is the native state of `_connection`, `second` that of `_py_connection`, which has the queries
-- of a connection that goes to the extension.
pub record Pending (Engine : Type 0) : Type 0 where
  pub settings : Dict String ℕ
  pub engine : Engine
  pub second : Option Engine

-- `operator.index(value)` of an object that may be no integer, and the bounds of a uint64.
unfoldable pub setting_value : Option ℤ → Result ℕ
setting_value none = err (type_error "object cannot be interpreted as an integer")
setting_value (some (negsuc n)) = err (value_error "must be between 0 and 2**64 - 1")
setting_value (some (pos n)) =
    if ltb n (2 ^ 64) then ok n else err (value_error "must be between 0 and 2**64 - 1")

-- What `init_connection` gives.
abbrev pub Opened : Type 0
Opened = Result Unit

module _ {Engine : Type 0} where
  abbrev pub queue : String → Result ℕ → Opened → Exec (Pending Engine) Unit
  queue setter (err e) opened s = (err e, s)
  queue setter (ok n) (err e) s = (err e, s)
  queue setter (ok n) (ok _) s = (ok tt, record s { settings = insert setter n s.settings })

  -- `set_max_threads_for_exec` and `set_query_timeout`, by their setter.
  unfoldable pub set_option : String → Option ℤ → Opened → Exec (Pending Engine) Unit
  unfolding setting_value insert
  set_option setter value opened s = queue setter (setting_value value) opened s

  module _ (set_native : String → ℕ → Engine → Engine) where
    unfoldable pub apply_all : Dict String ℕ → Engine → Engine
    apply_all [] e = e
    apply_all ((setter, n) ∷ rest) e = apply_all rest (set_native setter n e)

    -- `_apply_pending_settings`, which sets them on `_connection` only.
    unfoldable pub apply_pending_settings : Pending Engine → Pending Engine
    unfolding apply_all
    apply_pending_settings s = record {
      settings = [];
      engine = apply_all s.settings s.engine;
      second = s.second;
    }
