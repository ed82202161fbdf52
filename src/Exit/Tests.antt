-- ===== src/Exit/Tests.antt =====
-- A database that is closed twice, one that is collected unclosed, and a connection whose threads
-- cannot be set, so that its object is collected.
use ladybug_python.Base.{◌+◌, ◌≡◌, refl, none, some, List, [], ◌∷◌}
use ladybug_python.Outcome.{ok, err, runtime_error}
use ladybug_python.Binding.Balance.{times, within}
use ladybug_python.Exit.{
  Action, open_database, connect, close_database, collect_database, collect_connection, act_all,
  close_capi_connections,
}
use ladybug_python.Exit.Ends.{new_process, exit_destroys_each}

abbrev actions : List Action
actions =
    open_database (ok tt)
    ∷ connect (ok tt) none
    ∷ open_database (err (runtime_error "no such file"))
    ∷ connect (ok tt) (some (err (runtime_error "Failed to set max threads")))
    ∷ open_database (ok tt)
    ∷ close_database 0
    ∷ close_database 0
    ∷ collect_connection 1
    ∷ open_database (ok tt)
    ∷ collect_database 2
    ∷ []

exit_destroys_each_example :
    let p = act_all actions new_process in
    let q = close_capi_connections p in
    (times 0 q.databases.destroyed + times 0 p.databases.lost ≡ within 0 p.databases.made 0)
    × (times 0 q.connections.destroyed + times 0 p.connections.lost ≡ within 0 p.connections.made 0)
exit_destroys_each_example = exit_destroys_each actions 0

ends : (close_capi_connections (act_all actions new_process)).databases.destroyed ≡ 1 ∷ 0 ∷ []
unfolding act_all close_capi_connections
ends = refl

connections_end :
    (close_capi_connections (act_all actions new_process)).connections.destroyed ≡ 0 ∷ []
unfolding act_all close_capi_connections
connections_end = refl
