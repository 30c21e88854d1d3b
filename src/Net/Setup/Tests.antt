-- ===== src/Net/Setup/Tests.antt =====
-- Sockets made and destroyed, and an option.
use lua_node.Base.{◌+◌, ◌%◌, ◌^◌, ◌≡◌, refl, true, List, [], ◌∷◌}
use lua_node.Base.Int.{pos}
use lua_node.Lua.{returns}
use lua_node.Net.Setup.{
  Life, constructs, accepted, destroyed, lives, tcp4, made, system_error, socket_set_option,
  keepalive, keep_alive, keep_idle,
}
use lua_node.Net.Setup.Population.{failures, lives-count}

-- One socket is left; the one that could not be made for want of a descriptor (EMFILE) counts, too.
abbrev some_sockets : List Life
some_sockets = constructs tcp4 made ∷ constructs tcp4 (system_error 24) ∷ accepted ∷ destroyed ∷ []

lives-count_example :
    let s = lives some_sockets (record { next_id = 0; count = 0; alive = 0 }) in
    s.count ≡ (s.alive + failures some_sockets) % 2 ^ 64
lives-count_example = lives-count some_sockets

keepalive_for_a_minute :
    socket_set_option (λ done c. true) (keepalive true (pos 60) (pos 0)) []
    ≡ (returns [], keep_idle (pos 60) ∷ keep_alive true ∷ [])
unfolding socket_set_option
keepalive_for_a_minute = refl
