-- ===== src/Net/Setup/Calls.antt =====
-- The calls that an option asks for.
use lua_node.Base.{◌≡◌, ◌≢◌, refl, ◌&&◌, List, [], ◌∷◌, arith, if◌then◌else◌}
use lua_node.Lua.{Outcome, returns}
use lua_node.Net.Setup.{
  SetCall, reuse_address, no_delay, keep_alive, keep_idle, keep_interval, SocketOption, reuseaddr,
  nodelay, keepalive, no_option, unknown_option, System, is_set, set_and_then, socket_set_option,
}

-- In their order; the interval counts only with a time.
abbrev wanted : SocketOption → List SetCall
wanted (reuseaddr value) = reuse_address value ∷ []
wanted (nodelay value) = no_delay value ∷ []
wanted (keepalive value time interval) =
    keep_alive value
    ∷ (if value && is_set time
        then keep_idle time ∷ (if is_set interval then keep_interval interval ∷ [] else [])
        else [])
wanted _ = []

-- One after the other, up to the first that fails.
carry_out : System → List SetCall → List SetCall → Outcome × List SetCall
carry_out system [] done = (returns [], done)
carry_out system (c ∷ cs) done = set_and_then system c (carry_out system cs) done

-- An option that `setoption` knows asks for its calls and nothing else: each in its turn, an error where one
-- fails, and no result where none does.
socket_set_option-carry_out :
    (system : System) (o : SocketOption) (done : List SetCall)
    → o ≢ unknown_option
    → socket_set_option system o done ≡ carry_out system (wanted o) done
unfolding socket_set_option carry_out
socket_set_option-carry_out system (reuseaddr value) done n = refl
socket_set_option-carry_out system (nodelay value) done n = refl
socket_set_option-carry_out system (keepalive value time interval) done n = ground arith
socket_set_option-carry_out system no_option done n = refl
socket_set_option-carry_out system unknown_option done n = absurd (n refl)
