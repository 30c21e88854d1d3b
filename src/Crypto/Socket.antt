-- ===== src/Crypto/Socket.antt =====
-- `LuaNode::Crypto::Socket`: its state, and the methods that change it (src/luanode_crypto.h,
-- src/luanode_crypto.cpp). The TLS stream and the connection under it are Boost.Asio's: the operations
-- that it has been handed stand in a list until the environment completes one.
use lua_node.Base.{ℕ, ◌+◌, Bool, true, false, List, [], ◌∷◌, ◌++◌, ltb, if◌then◌else◌}
use lua_node.Lua.{
  Value, boolean, string, ErrorCode, Outcome, returns, raises, boost_error_code_to_lua,
}
use lua_node.Net.Socket.{How, increment}

pub data ReadKind : Type 0 where
  some_bytes delimited : ReadKind

-- An operation in flight; each holds one reference of the registry.
pub data Op : Type 0 where
  handshake_op : Op
  write_op : List ℕ → Op
  read_op : ReadKind → Op

pub data Callback : Type 0 where
  handshake_callback write_callback read_callback : Callback

-- What the outside sees.
pub data Event : Type 0 where
  called : Callback → List Value → Event
  did_shutdown : How → Event
  did_close : Event

-- `unserved` counts the reads, and `refused` the writes, that took a reference and started nothing.
-- `stray` is the number of values that this socket's handlers have left on the Lua stack.
pub record Socket : Type 0 where
  pub shutdown_pending : Bool
  pub close_pending : Bool
  pub shutdown_send : Bool
  pub pending_writes : ℕ
  pub pending_reads : ℕ
  pub input_buffer : List ℕ
  pub ops : List Op
  pub refs : ℕ
  pub unserved : ℕ
  pub refused : ℕ
  pub stray : ℕ
  pub log : List Event

-- The argument of `read`: none or nil, a number or the text of one, or any other value.
pub data ReadArg : Type 0 where
  arg_nil arg_number arg_other : ReadArg

-- The argument of `shutdown`: "write", another string or a number, or no string.
pub data ShutdownArg : Type 0 where
  opt_write opt_other not_string : ShutdownArg

pub data Request : Type 0 where
  handshake : Request
  write : Value → Request
  read : ReadArg → Request
  close : Request
  shutdown : ShutdownArg → Request

-- The constructor gives `m_shutdown_send` no value: what its memory held is the argument.
unfoldable pub new_socket : Bool → Socket
new_socket garbage = record {
  shutdown_pending = false;
  close_pending = false;
  shutdown_send = garbage;
  pending_writes = 0;
  pending_reads = 0;
  input_buffer = [];
  ops = [];
  refs = 0;
  unserved = 0;
  refused = 0;
  stray = 0;
  log = [];
}

abbrev start : Op → Socket → Socket
start o s = record s { ops = o ∷ s.ops; refs = s.refs + 1 }

abbrev pub note : Event → Socket → Socket
note e s = record s { log = s.log ++ e ∷ [] }

-- DoHandShake
unfoldable pub do_handshake : Socket → Socket × Outcome
do_handshake s = (start handshake_op s, returns [])

unfoldable pub socket_write : Value → Socket → Socket × Outcome
socket_write v s = if ltb 0 s.pending_writes then (s, returns (boolean false ∷ [])) else accept v
  where
    accept : Value → Socket × Outcome
    accept (string bytes) = (
      start (write_op bytes) (record s { pending_writes = increment s.pending_writes }),
      returns (boolean true ∷ []),
    )
    accept _ = (record s { refs = s.refs + 1; refused = s.refused + 1 }, raises)

unfoldable pub socket_read : ReadArg → Socket → Socket × Outcome
socket_read arg s = (begin arg (record s { pending_reads = increment s.pending_reads }), returns [])
  where
    begin : ReadArg → Socket → Socket
    begin arg_nil t = start (read_op some_bytes) t
    begin arg_other t = start (read_op delimited) t
    begin arg_number t = record t { refs = t.refs + 1; unserved = t.unserved + 1 }

-- The flag is set before the argument is looked at.
unfoldable pub socket_shutdown : ShutdownArg → Socket → Socket × Outcome
socket_shutdown arg s = choose arg (record s { shutdown_pending = true })
  where
    choose : ShutdownArg → Socket → Socket × Outcome
    choose opt_write t = (record t { shutdown_send = true }, returns (boolean true ∷ []))
    choose opt_other t = (t, returns (boolean true ∷ []))
    choose not_string t = (t, raises)

-- What `close` of the connection answers, by the events so far.
module _ (close_result : List Event → ErrorCode) where
  unfoldable pub socket_close : Socket → Socket × Outcome
  socket_close s =
      if ltb 0 s.pending_writes
      then (record s { close_pending = true }, returns (boolean true ∷ []))
      else (note did_close s, returns (boost_error_code_to_lua (close_result s.log)))

  unfoldable pub request : Request → Socket → Socket × Outcome
  unfolding do_handshake socket_write socket_read socket_close socket_shutdown
  request handshake s = do_handshake s
  request (write v) s = socket_write v s
  request (read arg) s = socket_read arg s
  request close s = socket_close s
  request (shutdown arg) s = socket_shutdown arg s

  unfoldable pub requests : List Request → Socket → Socket
  requests [] s = s
  requests (r ∷ rest) s = requests rest (request r s).0
