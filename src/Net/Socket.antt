-- ===== src/Net/Socket.antt =====
-- `LuaNode::Net::Socket` (src/luanode_net.h, src/luanode_net.cpp). Boost.Asio is outside of the model:
-- what it answers is an argument, and the operations that it has been handed stand in a list until the
-- environment completes one. Lua code that a callback runs is a list of requests on the same socket.
use lua_node.Base.{
  ℕ, ◌+◌, ◌-◌, ◌%◌, ◌^◌, Bool, true, false, Option, none, some, List, [], ◌∷◌, ◌++◌, ltb, leb,
  if◌then◌else◌, length,
}
use lua_node.Lua.{
  Value, boolean, string, ErrorCode, Outcome, returns, raises, boost_error_code_to_lua,
}

pub data ReadKind : Type 0 where
  some_bytes delimited until_eof : ReadKind
  exact : ℕ → ReadKind

-- An operation in flight, or a handler that was posted; each holds one reference of the registry.
pub data Op : Type 0 where
  write_op : List ℕ → Op
  read_op : ReadKind → Op
  posted_read : ℕ → Op
  connect_op : Op
  posted_close : Op
  posted_shutdown : Op

pub data How : Type 0 where
  receive send both_ways : How

pub data Callback : Type 0 where
  write_callback read_callback connect_callback close_callback shutdown_callback : Callback

-- What the outside sees.
pub data Event : Type 0 where
  called : Callback → List Value → Event
  did_shutdown : How → Event
  did_close : Event

pub record Socket : Type 0 where
  pub close_pending : Bool
  pub write_shutdown_pending : Bool
  pub pending_writes : ℕ
  pub pending_reads : ℕ
  pub input_buffer : List ℕ
  pub ops : List Op
  pub refs : ℕ
  pub log : List Event

-- What Boost.Asio answers, by the events so far.
pub record Asio : Type 0 where
  pub shutdown_result : List Event → How → ErrorCode
  pub close_result : List Event → ErrorCode
  pub address_result : List ℕ → ErrorCode

-- The argument of `shutdown`: one of the strings of its table, another string, or no string.
pub data ShutdownOption : Type 0 where
  opt_read opt_write opt_both opt_none opt_unknown not_string : ShutdownOption

-- The argument of `read`.
pub data ReadArg : Type 0 where
  arg_nil arg_line arg_all arg_unknown_string arg_other : ReadArg
  arg_number : ℕ → ReadArg

pub data Request : Type 0 where
  write : Value → Request
  read : ReadArg → Request
  close : Bool → Request
  shutdown : ShutdownOption → Request
  connect : List ℕ → Request

-- unsigned long
abbrev pub increment : ℕ → ℕ
increment n = (n + 1) % 2 ^ 64

abbrev pub decrement : ℕ → ℕ
decrement n = (n + 2 ^ 64 - 1) % 2 ^ 64

unfoldable pub new_socket : Socket
new_socket = record {
  close_pending = false;
  write_shutdown_pending = false;
  pending_writes = 0;
  pending_reads = 0;
  input_buffer = [];
  ops = [];
  refs = 0;
  log = [];
}

-- luaL_ref, and the operation that takes the reference along.
abbrev hold : Socket → Socket
hold s = record s { refs = s.refs + 1 }

abbrev start : Op → Socket → Socket
start o s = record s { ops = o ∷ s.ops }

abbrev pub note : Event → Socket → Socket
note e s = record s { log = s.log ++ e ∷ [] }

unfoldable pub socket_write : Value → Socket → Socket × Outcome
socket_write v s =
    if ltb 0 s.pending_writes then (s, returns (boolean false ∷ [])) else accept v (hold s)
  where
    accept : Value → Socket → Socket × Outcome
    accept (string bytes) t = (
      start (write_op bytes) (record t { pending_writes = increment t.pending_writes }),
      returns (boolean true ∷ []),
    )
    accept _ t = (t, raises)

-- A number that the buffer can already serve is answered by a posted handler.
unfoldable pub socket_read : ReadArg → Socket → Socket × Outcome
socket_read arg s = begin arg (hold s)
  where
    reading : Op → Socket → Socket
    reading o t = start o (record t { pending_reads = increment t.pending_reads })

    begin : ReadArg → Socket → Socket × Outcome
    begin arg_nil t = (reading (read_op some_bytes) t, returns [])
    begin arg_line t = (reading (read_op delimited) t, returns [])
    begin arg_all t = (reading (read_op until_eof) t, returns [])
    begin arg_unknown_string t = (t, raises)
    begin (arg_number n) t = (
      (if leb n (length t.input_buffer)
          then reading (posted_read n) t
          else reading (read_op (exact (n - length t.input_buffer))) t),
      returns [],
    )
    begin arg_other t = (record t { refs = t.refs - 1 }, raises)

module _ (asio : Asio) where
  -- The error code of the last call, and the socket.
  abbrev pub do_shutdown : How → Socket → Socket × ErrorCode
  do_shutdown how s = (note (did_shutdown how) s, asio.shutdown_result s.log how)

  abbrev pub do_close : Socket → Socket × ErrorCode
  do_close s = (note did_close s, asio.close_result s.log)

  -- The flag tells whether the object's `close_callback` is a function.
  unfoldable pub socket_close : Bool → Socket → Socket × Outcome
  socket_close has_callback s =
      if ltb 0 s.pending_writes
      then (record s { close_pending = true }, returns (boolean true ∷ []))
      else let (t, e) = do_close (do_shutdown both_ways s).0 in
        (closed e t, returns (boost_error_code_to_lua e))
    where
      closed : ErrorCode → Socket → Socket
      closed none t = if has_callback then start posted_close (hold t) else t
      closed (some e) t = t

  -- The sending side now, or after the write in flight.
  shutdown_send : Socket → Socket × ErrorCode
  shutdown_send s =
      if ltb 0 s.pending_writes
      then (record s { write_shutdown_pending = true }, none)
      else do_shutdown send s

  shutdown_both : Socket → Socket × ErrorCode
  unfolding shutdown_send
  shutdown_both s = do_shutdown receive (shutdown_send s).0

  shutdown_parts : ShutdownOption → Socket → Option (Socket × ErrorCode)
  unfolding shutdown_send shutdown_both
  shutdown_parts opt_read s = some (do_shutdown receive s)
  shutdown_parts opt_write s = some (shutdown_send s)
  shutdown_parts opt_both s = some (shutdown_both s)
  shutdown_parts opt_none s = some (s, none)
  shutdown_parts opt_unknown s = none
  shutdown_parts not_string s = some (shutdown_both s)

  unfoldable pub socket_shutdown : ShutdownOption → Socket → Socket × Outcome
  unfolding shutdown_parts
  socket_shutdown option s = finish (shutdown_parts option s)
    where
      finish : Option (Socket × ErrorCode) → Socket × Outcome
      finish none = (s, raises)
      finish (some (t, none)) =
          (start posted_shutdown (hold t), returns (boost_error_code_to_lua none))
      finish (some (t, some e)) = (t, returns (boost_error_code_to_lua (some e)))

  unfoldable pub socket_connect : List ℕ → Socket → Socket × Outcome
  socket_connect ip s = elim (asio.address_result ip) [
    | some e ↦ (s, returns (boost_error_code_to_lua (some e)))
    | none ↦ (start connect_op (hold s), returns (boolean true ∷ []))
  ]

  unfoldable pub request : Request → Socket → Socket × Outcome
  unfolding socket_write socket_read socket_close socket_shutdown socket_connect
  request (write v) s = socket_write v s
  request (read arg) s = socket_read arg s
  request (close has_callback) s = socket_close has_callback s
  request (shutdown option) s = socket_shutdown option s
  request (connect ip) s = socket_connect ip s

  unfoldable pub requests : List Request → Socket → Socket
  requests [] s = s
  requests (r ∷ rest) s = requests rest (request r s).0
