-- ===== src/Net/Acceptor.antt =====
-- `LuaNode::Net::Acceptor` (src/luanode_net_acceptor.h, src/luanode_net_acceptor.cpp). Boost.Asio is outside
-- of the model: its error codes are arguments, and it completes the accepts in flight with any result.
pub mod Balance
mod Tests
use lua_node.Base.{
  ℕ, ◌+◌, ◌-◌, Bool, true, false, Option, none, some, List, [], ◌∷◌, ◌++◌, suc, zero, pick,
}
use lua_node.Base.Int.{ℤ}
use lua_node.Lua.{
  Value, nil, self, string, integer, message, ErrorCode, Outcome, returns, raises,
  boost_error_code_to_lua, boost_error_to_callback,
}

-- The protocol that `open` is asked for.
pub data Protocol : Type 0 where
  tcp4 tcp6 unknown_protocol : Protocol

-- Open; the code is what Asio answers, and `not_supported` the number of the platform's error.
unfoldable pub acceptor_open : Protocol → ErrorCode → ℕ → Outcome
acceptor_open unknown_protocol ec not_supported =
    returns (nil ∷ message not_supported ∷ integer not_supported ∷ [])
acceptor_open _ ec not_supported = returns (boost_error_code_to_lua ec)

-- Bind: the answer for the address, and the one for the endpoint.
unfoldable pub acceptor_bind : ErrorCode → ErrorCode → Outcome
acceptor_bind (some e) bound = returns (boost_error_code_to_lua (some e))
acceptor_bind none bound = returns (boost_error_code_to_lua bound)

-- SetOption: `reuseaddr` with the answer to the call, or another option; `invalid_argument` is the number of
-- Asio's error.
unfoldable pub acceptor_set_option : Bool → ErrorCode → ℕ → Outcome
acceptor_set_option true ec invalid_argument = returns (boost_error_code_to_lua ec)
acceptor_set_option false ec invalid_argument =
    returns (boost_error_code_to_lua (some invalid_argument))

-- Listen, which uses the largest queue where none is given: the length that Asio is given, and the answer.
unfoldable pub acceptor_listen : Option ℤ → ℤ → ErrorCode → ℤ × Outcome
acceptor_listen none max_connections ec = (max_connections, returns (boost_error_code_to_lua ec))
acceptor_listen (some backlog) max_connections ec = (backlog, returns (boost_error_code_to_lua ec))

-- Close
unfoldable pub acceptor_close : ErrorCode → Outcome
acceptor_close ec = returns (boost_error_code_to_lua ec)

-- GetLocalAddress
unfoldable pub acceptor_local_address : ErrorCode → List ℕ → ℕ → Outcome
acceptor_local_address none address port = returns (string address ∷ integer port ∷ [])
acceptor_local_address (some e) address port = raises

-- The table that the callback is given: a new socket, and where it comes from.
pub record Peer : Type 0 where
  pub address : List ℕ
  pub port : ℕ

-- What an accept in flight ends with: an error; a connection whose remote endpoint cannot be had any
-- more; or a connection.
pub data Completion : Type 0 where
  failed gone : ℕ → Completion
  connected : Peer → Completion

-- A call of the callback of an object, with `nil` and the peer, or with what tells of an error.
pub data Event : Type 0 where
  called_with_peer : Value → Peer → Event
  called_with_error : Value → List Value → Event

-- `waiting` holds, for each accept in flight, the value that its registry reference stands for; `bottom` is what
-- a handler has left at the bottom of the Lua stack, which all objects share. `asked` counts the calls of
-- `accept` by Lua; the program does not keep it.
pub record Acceptor : Type 0 where
  pub waiting : List Value
  pub refs : ℕ
  pub bottom : Option Value
  pub log : List Event
  pub asked : ℕ

unfoldable pub new_acceptor : Acceptor
new_acceptor = record { waiting = []; refs = 0; bottom = none; log = []; asked = 0 }

-- Accept, with the value that stands at the bottom of its stack.
unfoldable pub acceptor_accept : Value → Acceptor → Acceptor
acceptor_accept v a = record a { waiting = v ∷ a.waiting; refs = a.refs + 1 }

-- Calls of `accept` by Lua, as many as the number says. A function that Lua calls has a stack of its own.
unfoldable pub accepts : ℕ → Acceptor → Acceptor
unfolding acceptor_accept
accepts zero a = a
accepts (suc n) a = accepts n (acceptor_accept self (record a { asked = a.asked + 1 }))

abbrev note : Event → Acceptor → Acceptor
note e a = record a { log = a.log ++ e ∷ [] }

-- The object at the bottom of the stack, in which the handler looks for its callback: its own, unless
-- another one was left there.
unfoldable pub object_below : Option Value → Value → Value
object_below none target = target
object_below (some v) target = v

abbrev release : Acceptor → Acceptor
release a = record a { refs = a.refs - 1 }

abbrev settop : Acceptor → Acceptor
settop a = record a { bottom = none }

-- HandleAccept, for the value of its reference, with a callback that calls `accept` that many times. Where the
-- peer is gone the handler returns with an object on the stack, the one whose reference it takes again.
unfoldable pub handle_accept : Value → Completion → ℕ → Acceptor → Acceptor
unfolding accepts acceptor_accept object_below
handle_accept target (failed e) n a = settop (
    accepts n (
      note (called_with_error (object_below a.bottom target) (boost_error_to_callback (some e)))
        (release a)))
handle_accept target (gone e) n a =
    let v = object_below a.bottom target in
    record (acceptor_accept v (release a)) { bottom = some v }
handle_accept target (connected peer) n a =
    settop (accepts n (note (called_with_peer (object_below a.bottom target) peer) (release a)))

-- One turn of the event loop: Lua calls `accept`, one of the accepts in flight ends, or the handler of another
-- object runs, and leaves the stack empty or with a value at its bottom.
pub data Turn : Type 0 where
  lua_accepts : Turn
  completes : ℕ → Completion → ℕ → Turn
  runs_elsewhere : Option Value → Turn

unfoldable pub turn : Turn → Acceptor → Acceptor
unfolding accepts handle_accept
turn lua_accepts a = accepts 1 a
turn (completes i c n) a = elim (pick i a.waiting) [
  | none ↦ a
  | some (v, rest) ↦ handle_accept v c n (record a { waiting = rest })
]
turn (runs_elsewhere left) a = record a { bottom = left }

unfoldable pub turns : List Turn → Acceptor → Acceptor
turns [] a = a
turns (t ∷ rest) a = turns rest (turn t a)
