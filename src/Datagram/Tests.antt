-- ===== src/Datagram/Tests.antt =====
-- A datagram socket on concrete inputs.
use lua_node.Base.{◌<◌, refl, none, some, List, [], ◌∷◌, arith, asks, ends, pick, loop_turns}
use lua_node.Lua.{string}
use lua_node.Base.{◌≡◌, true, false}
use lua_node.Base.Int.{pos, negsuc}
use lua_node.Lua.{raises, returns, boolean, boost_error_code_to_lua}
use lua_node.Datagram.Setup.{ttl, datagram_set_option, number, absent, any_address, datagram_bind}
use lua_node.Datagram.Socket.{
  Endpoint, a_function, a_value, Socket, Asio, sendto, read, close, connect, arg_nil, arg_other,
  arg_number, read_callback, new_socket, request, socket_close, socket_sendto, socket_read,
}
use lua_node.Datagram.Handlers.{
  Scripts, Completion, Turn, turns, datagram_loop, complete_op, handle_sendto, handle_receive,
  call_script, close_if_done, shutdown_if_done,
}
use lua_node.Datagram.Handlers.Counts.{IsCounted, loop_turns-IsCounted}
use lua_node.Datagram.Handlers.Closing.{closes, socket_close-loop_turns}

abbrev calm : Asio
calm = record { shutdown_result = λ log how. none; close_result = λ log. none }

abbrev silent : Scripts
silent which = none

abbrev reading_on : Scripts
reading_on read_callback = some (read arg_nil ∷ [])
reading_on _ = none

abbrev arrived : Completion
arrived = record { error = none; bytes = 104 ∷ 105 ∷ []; scripts = reading_on }

abbrev failed : Completion
failed = record { error = some 5; bytes = []; scripts = silent }

abbrev peer : Endpoint
peer = record { address = 49 ∷ []; port = 65537 }

abbrev session : List Turn
session =
    asks (sendto (string (1 ∷ 2 ∷ [])) (some peer) a_function)
    ∷ asks (read arg_nil)
    ∷ asks (read arg_other)
    ∷ asks (read arg_number)
    ∷ asks (connect (some peer))
    ∷ ends 1 arrived
    ∷ asks close
    ∷ ends 2 failed
    ∷ []

loop_turns-IsCounted_example : IsCounted (turns calm session new_socket)
loop_turns-IsCounted_example = loop_turns-IsCounted calm session

abbrev opening : List Turn
opening = asks (sendto (string (1 ∷ [])) (some peer) a_value) ∷ asks (read arg_nil) ∷ []

abbrev sending : Socket
sending = turns calm opening new_socket

abbrev draining : List Turn
draining = ends 1 failed ∷ ends 0 failed ∷ []

socket_close-loop_turns_example : 0 < closes (turns calm draining (socket_close calm sending).0).log
unfolding turns loop_turns datagram_loop new_socket request socket_sendto socket_read pick
    complete_op handle_sendto handle_receive call_script close_if_done shutdown_if_done
socket_close-loop_turns_example =
    socket_close-loop_turns calm draining sending (loop_turns-IsCounted calm opening) (omega arith)
      refl (λ which. tt, (λ which. tt, tt)) refl

-- A "ttl" whose value is the third argument, where the value of an option stands.
ttl_unread : datagram_set_option ttl true (some (pos 64)) none (λ c. none) ≡ (none, raises)
unfolding datagram_set_option
ttl_unread = refl

-- A port of -1 is 65535.
any_port :
    datagram_bind (number (negsuc 0) []) absent (λ ip. false) (λ p. none)
    ≡ (some (any_address 65535), returns (boolean true ∷ []))
unfolding datagram_bind boost_error_code_to_lua
any_port = refl
