-- ===== src/Calls/Step.antt =====
-- The moves of the threads. A thread inside `close()` makes no other move.
use ladybug_python.Base.{ℕ, ◌≡◌, none, some, List, [], ◌∷◌, nat_eq}
use ladybug_python.Dict.{lookup}
use ladybug_python.Calls.{
  Frame, call, udf, Conn, World, call_enter, call_exit, udf_enter, udf_exit, close_begin,
  close_abort, close_teardown, connect,
}

abbrev pub IsConn : World → ℕ → Conn → Type 0
IsConn w c k = lookup c w.conns ≡ some k

abbrev pub IsFree : World → ℕ → Type 0
IsFree w t = lookup t w.waiting ≡ none

pub data Step (w : World) : World → Type 0 where
  create : (c : ℕ) → lookup c w.conns ≡ none → Step w (connect c w)
  enter : (t c : ℕ) (k : Conn) → IsFree w t → IsConn w c k → Step w (call_enter t c k w).1
  leave :
      (t c : ℕ) (k : Conn) (rest : List Frame)
      → IsFree w t
      → IsConn w c k
      → lookup t w.stacks ≡ some (call c ∷ rest)
      → Step w (call_exit t c k rest w)
  start_udf : (t : ℕ) → IsFree w t → Step w (udf_enter t w)
  end_udf :
      (t : ℕ) (rest : List Frame)
      → IsFree w t
      → lookup t w.stacks ≡ some (udf ∷ rest)
      → Step w (udf_exit t rest w)
  close : (t c : ℕ) (k : Conn) → IsFree w t → IsConn w c k → Step w (close_begin t c k w).1
  abort :
      (t c : ℕ) (k : Conn)
      → lookup t w.waiting ≡ some c
      → IsConn w c k
      → Step w (close_abort t c k w)
  finish :
      (t c : ℕ) (k : Conn)
      → lookup t w.waiting ≡ some c
      → IsConn w c k
      → k.in_flight ≡ 0
      → Step w (close_teardown t c k w)

pub data Reach (w : World) : World → Type 0 where
  here : Reach w w
  next : {v u : World} → Reach w v → Step v u → Reach w u

-- No connection, and no call on any thread.
abbrev pub empty_world : World
empty_world = record { conns = []; stacks = []; waiting = [] }
