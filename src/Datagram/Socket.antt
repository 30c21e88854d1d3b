-- ===== src/Datagram/Socket.antt =====
-- `LuaNode::Datagram::Socket`: its state, and the methods that change it (src/luanode_datagram_udp.h,
-- src/luanode_datagram_udp.cpp). The operations that Boost.Asio has been handed stand in a list until the
-- environment completes one.
use lua_node.Base.{
  ℕ, ◌+◌, ◌%◌, ◌^◌, Bool, true, false, Option, none, some, List, [], ◌∷◌, ◌++◌, ltb, if◌then◌else◌,
}
use lua_node.Lua.{
  Value, boolean, string, ErrorCode, Outcome, returns, raises, boost_error_code_to_lua,
}
use lua_node.Net.Socket.{
  How, receive, send, both_ways, increment, ShutdownOption, opt_read, opt_write, opt_both, opt_none,
  opt_unknown, not_string,
}

-- An address that `from_string` reads, and a port, which is cut to 16 bits. The text of an address that it
-- does not read throws an exception, which is not modelled.
pub record Endpoint : Type 0 where
  pub address : List ℕ
  pub port : ℕ

-- The last argument of `sendto`: none or nil, a function, or another value; all but the first take a
-- reference of their own.
pub data SendCallback : Type 0 where
  no_function a_function a_value : SendCallback

-- An operation in flight; each holds one reference of the registry, and one for its callback.
pub data Op : Type 0 where
  send_op : List ℕ → Endpoint → SendCallback → Op
  receive_op : Op
  connect_op : Endpoint → Op

pub data Callback : Type 0 where
  send_callback read_callback connect_callback : Callback

-- What the outside sees.
pub data Event : Type 0 where
  called : Callback → List Value → Event
  did_shutdown : How → Event
  did_close : Event

-- `unserved` counts the reads that took a reference and started nothing, and `lost` the references that were
-- taken when an error was raised.
pub record Socket : Type 0 where
  pub close_pending : Bool
  pub write_shutdown_pending : Bool
  pub pending_writes : ℕ
  pub pending_reads : ℕ
  pub ops : List Op
  pub refs : ℕ
  pub unserved : ℕ
  pub lost : ℕ
  pub log : List Event

-- What Boost.Asio answers, by the events so far.
pub record Asio : Type 0 where
  pub shutdown_result : List Event → How → ErrorCode
  pub close_result : List Event → ErrorCode

-- The argument of `read`: none or nil, a number or the text of one, or any other value.
pub data ReadArg : Type 0 where
  arg_nil arg_number arg_other : ReadArg

-- `none` for the endpoint: the port is no integer, or the address no string.
pub data Request : Type 0 where
  sendto : Value → Option Endpoint → SendCallback → Request
  read : ReadArg → Request
  close : Request
  shutdown : ShutdownOption → Request
  connect : Option Endpoint → Request

-- The constructor with a kind.
unfoldable pub new_socket : Socket
new_socket = record {
  close_pending = false;
  write_shutdown_pending = false;
  pending_writes = 0;
  pending_reads = 0;
  ops = [];
  refs = 0;
  unserved = 0;
  lost = 0;
  log = [];
}

abbrev pub callback_refs : SendCallback → ℕ
callback_refs no_function = 0
callback_refs _ = 1

-- The references that the handler of an operation releases.
abbrev pub held_refs : Op → ℕ
held_refs (send_op bytes endpoint callback) = 1 + callback_refs callback
held_refs _ = 1

abbrev start : Op → Socket → Socket
start o s = record s { ops = o ∷ s.ops; refs = s.refs + held_refs o }

abbrev pub note : Event → Socket → Socket
note e s = record s { log = s.log ++ e ∷ [] }

abbrev cut_port : Endpoint → Endpoint
cut_port e = record e { port = e.port % 2 ^ 16 }

-- From the references on.
begin_send : Value → Endpoint → SendCallback → Socket → Socket × Outcome
begin_send (string bytes) endpoint callback s = (
  start (send_op bytes (cut_port endpoint) callback)
      (record s { pending_writes = increment s.pending_writes }),
  returns (boolean true ∷ []),
)
begin_send _ endpoint callback s = (
  record s {
    refs = s.refs + (1 + callback_refs callback);
    lost = s.lost + (1 + callback_refs callback);
  },
  raises,
)

-- SendTo
unfoldable pub socket_sendto : Value → Option Endpoint → SendCallback → Socket → Socket × Outcome
unfolding begin_send
socket_sendto v endpoint callback s =
    if ltb 0 s.pending_writes
    then (s, returns (boolean false ∷ []))
    else elim endpoint [ none ↦ (s, raises) | some e ↦ begin_send v e callback s ]

-- Read
unfoldable pub socket_read : ReadArg → Socket → Socket × Outcome
socket_read arg_nil s =
    (start receive_op (record s { pending_reads = increment s.pending_reads }), returns [])
socket_read arg_other s = (
  record s {
    pending_reads = increment s.pending_reads;
    refs = s.refs + 1;
    unserved = s.unserved + 1;
  },
  returns [],
)
socket_read arg_number s = (record s { refs = s.refs + 1; lost = s.lost + 1 }, raises)

-- Connect
unfoldable pub socket_connect : Option Endpoint → Socket → Socket × Outcome
socket_connect none s = (s, raises)
socket_connect (some endpoint) s =
    (start (connect_op (cut_port endpoint)) s, returns (boolean true ∷ []))

module _ (asio : Asio) where
  -- The error code of the last call, and the socket.
  abbrev do_shutdown : How → Socket → Socket × ErrorCode
  do_shutdown how s = (note (did_shutdown how) s, asio.shutdown_result s.log how)

  -- Close
  unfoldable pub socket_close : Socket → Socket × Outcome
  socket_close s =
      if ltb 0 s.pending_writes
      then (record s { close_pending = true }, returns (boolean true ∷ []))
      else let t = note (did_shutdown both_ways) s in
        (note did_close t, returns (boost_error_code_to_lua (asio.close_result t.log)))

  -- The sending side now, or after the write in flight.
  shutdown_send : Socket → Socket × ErrorCode
  shutdown_send s =
      if ltb 0 s.pending_writes
      then (record s { write_shutdown_pending = true }, none)
      else do_shutdown send s

  shutdown_both : Socket → Socket × ErrorCode
  unfolding shutdown_send
  shutdown_both s = do_shutdown receive (shutdown_send s).0

  abbrev answer : Socket × ErrorCode → Socket × Outcome
  answer (s, e) = (s, returns (boost_error_code_to_lua e))

  -- Shutdown
  unfoldable pub socket_shutdown : ShutdownOption → Socket → Socket × Outcome
  unfolding shutdown_send shutdown_both
  socket_shutdown opt_read s = answer (do_shutdown receive s)
  socket_shutdown opt_write s = answer (shutdown_send s)
  socket_shutdown opt_both s = answer (shutdown_both s)
  socket_shutdown opt_none s = (s, returns (boost_error_code_to_lua none))
  socket_shutdown opt_unknown s = (s, raises)
  socket_shutdown not_string s = answer (shutdown_both s)

  unfoldable pub request : Request → Socket → Socket
  unfolding socket_sendto socket_read socket_close socket_shutdown socket_connect
  request (sendto v endpoint callback) s = (socket_sendto v endpoint callback s).0
  request (read arg) s = (socket_read arg s).0
  request close s = (socket_close s).0
  request (shutdown option) s = (socket_shutdown option s).0
  request (connect endpoint) s = (socket_connect endpoint s).0
