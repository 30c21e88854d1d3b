-- ===== src/Timer/Tests.antt =====
-- A timer on concrete inputs.
use lua_node.Base.{◌≡◌, refl, none, some, List, [], ◌∷◌}
use lua_node.Timer.{
  new_timer, timer_start, Script, no_error, aborted, start, stop, Turn, lua_calls, fires, turns,
  turn, remove_at, on_timeout,
}

-- A callback that tries to start its timer again, and stops it.
abbrev tidy : Script
tidy = record { calls = start (some 5) (some 0) ∷ stop ∷ []; results = [] }

abbrev session : List Turn
session =
    lua_calls (start (some 10) (some 10))
    ∷ fires 0 no_error (some tidy)
    ∷ fires 0 no_error (some tidy)
    ∷ lua_calls stop
    ∷ []

cancelled :
    (turns (fires 0 aborted none ∷ []) (timer_start (some 10) (some 10) new_timer).0).waits ≡ []
unfolding turns timer_start new_timer turn remove_at on_timeout
cancelled = refl
