-- ===== src/Settings/Tests.antt =====
-- Two settings, one of them set twice and then to a value out of range.
use ladybug_python.Base.{ℕ, ◌≡◌, refl, none, some, List, [], ◌∷◌, String, string_eq}
use ladybug_python.Base.Int.{pos, negsuc}
use ladybug_python.Outcome.{ok}
use ladybug_python.Dict.{Dict, lookup, insert, lookup-insert}
use ladybug_python.Settings.{
  Pending, threads_setter, timeout_setter, set_option, setting_value, apply_pending_settings,
}
use ladybug_python.Settings.Order.{Call, set_all, last_value, override, last_setting_wins}

abbrev calls : List Call
calls =
    (timeout_setter, some (pos 100), ok tt)
    ∷ (threads_setter, some (pos 4), ok tt)
    ∷ (timeout_setter, some (pos 200), ok tt)
    ∷ (timeout_setter, some (negsuc 0), ok tt)
    ∷ []

abbrev before : Pending (Dict String ℕ)
before = record { settings = []; engine = []; second = some ((timeout_setter, 7) ∷ []) }

in_order : (set_all calls before).settings ≡ (timeout_setter, 200) ∷ (threads_setter, 4) ∷ []
unfolding set_all set_option setting_value insert
in_order = refl

last_setting_wins_example :
    ((apply_pending_settings insert (set_all calls before)).settings ≡ [])
    × ((apply_pending_settings insert (set_all calls before)).second
        ≡ some ((timeout_setter, 7) ∷ []))
    × (lookup timeout_setter (apply_pending_settings insert (set_all calls before)).engine
        ≡ override (last_value timeout_setter calls none) none)
unfolding lookup
last_setting_wins_example =
    last_setting_wins insert lookup (λ k j n e. lookup-insert k j n e) calls []
      (some ((timeout_setter, 7) ∷ [])) timeout_setter
