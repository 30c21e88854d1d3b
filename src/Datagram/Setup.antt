-- ===== src/Datagram/Setup.antt =====
-- The construction, the options and the addresses of `LuaNode::Datagram::Socket`
-- (src/luanode_datagram_udp.cpp). What Boost.Asio and the system answer is an argument.
use lua_node.Base.{ℕ, ◌-◌, ◌%◌, ◌^◌, Bool, true, false, Option, none, some, List, [], ◌∷◌}
use lua_node.Base.Int.{ℤ, pos, negsuc}
use lua_node.Lua.{
  nil, string, integer, message, ErrorCode, Outcome, returns, raises, boost_error_code_to_lua,
}

-- The constructor: with a kind that it does not know there is no socket behind the object, which is made all
-- the same.
pub data DatagramKind : Type 0 where
  udp4 udp6 unknown_kind : DatagramKind

pub data Made : Type 0 where
  with_socket without_socket not_made : Made

-- The flag is what Asio answers.
unfoldable pub construct : DatagramKind → Bool → Made
construct unknown_kind opened = without_socket
construct _ true = with_socket
construct _ false = not_made

-- The name of the option; its value is the third argument of the method, and the fourth may stand behind it.
pub data DatagramOption : Type 0 where
  broadcast ttl no_option unknown_option : DatagramOption

-- What is asked of the system.
pub data SetCall : Type 0 where
  set_broadcast : Bool → SetCall
  set_ttl : ℤ → SetCall

abbrev number_of : Option ℤ → (ℤ → Option SetCall × Outcome) → Option SetCall × Outcome
number_of none f = (none, raises)
number_of (some n) f = f n

-- SetOption, with the truth of the third argument, its number and that of the fourth, and the system's answer.
unfoldable pub datagram_set_option :
    DatagramOption → Bool → Option ℤ → Option ℤ → (SetCall → ErrorCode) → Option SetCall × Outcome
datagram_set_option broadcast value third fourth system =
    (some (set_broadcast value), returns (boost_error_code_to_lua (system (set_broadcast value))))
datagram_set_option ttl value third fourth system =
    number_of fourth
      λ n. (some (set_ttl n), elim (system (set_ttl n)) [ none ↦ returns [] | some e ↦ raises ])
datagram_set_option no_option value third fourth system = (none, returns [])
datagram_set_option unknown_option value third fourth system = (none, raises)

-- Where Bind binds to: a port of every address, or of one.
pub data Place : Type 0 where
  any_address : ℕ → Place
  address : List ℕ → ℕ → Place

-- The second argument of Bind: a number, another string, or neither; a number is also its text.
pub data BindArg : Type 0 where
  number : ℤ → List ℕ → BindArg
  text : List ℕ → BindArg
  neither : BindArg

-- The third argument: none or nil, an integer, or another value.
pub data PortArg : Type 0 where
  absent : PortArg
  port : ℤ → PortArg
  no_number : PortArg

-- unsigned short
unfoldable pub to_port : ℤ → ℕ
to_port (pos n) = n % 2 ^ 16
to_port (negsuc n) = (2 ^ 16 - 1) - n % 2 ^ 16

abbrev at_address :
    List ℕ → PortArg → (List ℕ → Bool) → (Place → ErrorCode) → Option Place × Outcome
at_address ip absent reads bind = (none, raises)
at_address ip no_number reads bind = (none, raises)
at_address ip (port n) reads bind = elim (reads ip) [
  | true ↦ (
    some (address ip (to_port n)),
    returns (boost_error_code_to_lua (bind (address ip (to_port n)))),
  )
  | false ↦ (none, raises)
]

-- Bind; `reads` tells which texts are addresses.
unfoldable pub datagram_bind :
    BindArg → PortArg → (List ℕ → Bool) → (Place → ErrorCode) → Option Place × Outcome
unfolding to_port
datagram_bind (number n ip) absent reads bind = (
  some (any_address (to_port n)),
  returns (boost_error_code_to_lua (bind (any_address (to_port n)))),
)
datagram_bind (number n ip) third reads bind = at_address ip third reads bind
datagram_bind (text ip) third reads bind = at_address ip third reads bind
datagram_bind neither third reads bind = (none, raises)

pub data EndpointAnswer : Type 0 where
  endpoint : List ℕ → ℕ → EndpointAnswer
  no_endpoint : ℕ → EndpointAnswer

-- GetRemoteAddress and GetLocalAddress
unfoldable pub datagram_address : EndpointAnswer → Outcome
datagram_address (endpoint ip n) = returns (string ip ∷ integer n ∷ [])
datagram_address (no_endpoint e) = returns (nil ∷ message e ∷ [])
