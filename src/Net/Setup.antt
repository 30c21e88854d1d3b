-- ===== src/Net/Setup.antt =====
-- The construction, the options and the addresses of `LuaNode::Net::Socket` (src/luanode_net.cpp), on Linux.
-- What Boost.Asio and the system answer is an argument; an exception that a method does not catch becomes an
-- error of Lua in the binding.
pub mod Calls
pub mod Population
mod Tests
use lua_node.Base.{
  ℕ, zero, suc, ◌+◌, ◌-◌, ◌%◌, ◌^◌, Bool, true, false, ◌&&◌, not, Option, none, some, List, [], ◌∷◌,
  ◌++◌, if◌then◌else◌, ◌==◌,
}
use lua_node.Base.Int.{ℤ, pos, negsuc}
use lua_node.Lua.{
  Value, nil, boolean, string, integer, message, ErrorCode, Outcome, returns, raises,
  boost_error_code_to_lua,
}

-- What is asked of the system.
pub data SetCall : Type 0 where
  reuse_address no_delay keep_alive : Bool → SetCall
  keep_idle keep_interval : ℤ → SetCall

-- The arguments of `setoption`: one of its names with its values, `no_option`, or another name.
pub data SocketOption : Type 0 where
  reuseaddr nodelay : Bool → SocketOption
  keepalive : Bool → ℤ → ℤ → SocketOption
  no_option unknown_option : SocketOption

-- Whether the system carries a call out, by the calls before it.
abbrev pub System : Type 0
System = List SetCall → SetCall → Bool

unfoldable pub is_set : ℤ → Bool
is_set (pos zero) = false
is_set _ = true

-- A call, latest first, and the rest unless it fails.
abbrev pub set_and_then :
    System
    → SetCall
    → (List SetCall → Outcome × List SetCall)
    → List SetCall
    → Outcome × List SetCall
set_and_then system c next done = elim (system done c) [
  | true ↦ next (c ∷ done)
  | false ↦ (raises, c ∷ done)
]

-- SetOption
unfoldable pub socket_set_option : System → SocketOption → List SetCall → Outcome × List SetCall
unfolding is_set
socket_set_option system (reuseaddr value) done =
    set_and_then system (reuse_address value) (λ d. (returns [], d)) done
socket_set_option system (nodelay value) done =
    set_and_then system (no_delay value) (λ d. (returns [], d)) done
socket_set_option system (keepalive value time interval) done =
    set_and_then system (keep_alive value)
      (λ d.
        let intervals =
          if is_set interval
          then set_and_then system (keep_interval interval) (λ e. (returns [], e))
          else (λ e. (returns [], e)) in
        if value && is_set time
        then set_and_then system (keep_idle time) intervals d
        else (returns [], d))
      done
socket_set_option system no_option done = (returns [], done)
socket_set_option system unknown_option done = (raises, done)

-- Bind, when the address cannot be read, or with the answer to the call.
unfoldable pub socket_bind : Bool → ErrorCode → Outcome
socket_bind false bound = raises
socket_bind true bound = returns (boost_error_code_to_lua bound)

-- What Asio answers when it is asked for an endpoint.
pub data EndpointAnswer : Type 0 where
  endpoint : List ℕ → ℕ → EndpointAnswer
  no_endpoint : ℕ → EndpointAnswer

-- GetRemoteAddress and GetLocalAddress
unfoldable pub socket_address : EndpointAnswer → Outcome
socket_address (endpoint address port) = returns (string address ∷ integer port ∷ [])
socket_address (no_endpoint e) = returns (nil ∷ message e ∷ [])

-- IsIP, with what the two readings of the address answer.
unfoldable pub is_ip : ErrorCode → ErrorCode → Outcome
is_ip none v6 = returns (boolean true ∷ integer 4 ∷ [])
is_ip (some e) none = returns (boolean true ∷ integer 6 ∷ [])
is_ip (some e) (some f) = returns (boost_error_code_to_lua (some f))

-- `s_nextSocketId` and `s_socketCount`, and how many sockets there are, which the program does not keep.
pub record Sockets : Type 0 where
  pub next_id : ℕ
  pub count : ℕ
  pub alive : ℕ

-- The argument of the constructor.
pub data SocketKind : Type 0 where
  tcp4 tcp6 unknown_kind : SocketKind

-- What the making of the socket ends with.
pub data MakeAnswer : Type 0 where
  made : MakeAnswer
  system_error : ℕ → MakeAnswer
  other_exception : MakeAnswer

abbrev counted : Sockets → Sockets
counted s = record s { next_id = (s.next_id + 1) % 2 ^ 64; count = (s.count + 1) % 2 ^ 64 }

-- The value of the object that is pushed.
abbrev pub socket_value : ℕ → Value
socket_value id = Value.other id

-- new_T and the constructor that it calls.
unfoldable pub new_t : SocketKind → MakeAnswer → Sockets → Outcome × Sockets
new_t unknown_kind answer s = (raises, counted s)
new_t _ made s =
    let t = counted s in (returns (socket_value t.next_id ∷ []), record t { alive = t.alive + 1 })
new_t _ (system_error e) s = (returns (nil ∷ message e ∷ integer e ∷ []), counted s)
new_t _ other_exception s = (raises, counted s)

-- The constructor for a connection that was accepted.
unfoldable pub new_accepted : Sockets → Sockets
new_accepted s = let t = counted s in record t { alive = t.alive + 1 }

-- The destructor, without the end of an open connection.
unfoldable pub destroy : Sockets → Sockets
destroy s = record s { count = (s.count + 2 ^ 64 - 1) % 2 ^ 64; alive = s.alive - 1 }

pub data Life : Type 0 where
  constructs : SocketKind → MakeAnswer → Life
  accepted destroyed : Life

unfoldable pub live : Life → Sockets → Sockets
unfolding new_t new_accepted destroy
live (constructs kind answer) s = (new_t kind answer s).1
live accepted s = new_accepted s
live destroyed s = if s.alive == 0 then s else destroy s

unfoldable pub lives : List Life → Sockets → Sockets
lives [] s = s
lives (l ∷ rest) s = lives rest (live l s)
