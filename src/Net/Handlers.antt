-- ===== src/Net/Handlers.antt =====
-- The completion handlers of `LuaNode::Net::Socket` (src/luanode_net.cpp), and the event loop that
-- runs them: at any time Lua may make a request, or any operation in flight may complete.
pub mod Counts
pub mod Invariant
pub mod Closing
pub mod Faults
mod Tests
use lua_node.Base.{
  ℕ, zero, suc, ◌-◌, Bool, true, false, ◌&&◌, Option, none, some, List, [], ◌∷◌, ◌++◌, ltb, ◌==◌,
  if◌then◌else◌, length, take, drop, pick,
}
use lua_node.Lua.{Value, boolean, string, self, ErrorCode, boost_error_code_to_lua}
use lua_node.Net.Socket.{
  Op, write_op, read_op, posted_read, connect_op, posted_close, posted_shutdown, some_bytes,
  delimited, until_eof, exact, send, both_ways, Callback, write_callback, read_callback,
  connect_callback, close_callback, shutdown_callback, Event, called, Socket, Asio, Request,
  decrement, note, do_shutdown, do_close, request, requests,
}

-- A Lua function that a handler calls: the requests that it makes, and what it returns (no function
-- among these). One that raises an error is not modelled.
pub record Script : Type 0 where
  pub calls : List Request
  pub results : List Value

-- What the fields of the Lua object hold when a handler runs: a function, or none.
abbrev pub Scripts : Type 0
Scripts = Callback → Option Script

-- Whether the second place of the Lua stack, where every handler looks for its callback, is free after one:
-- the `nil` of a callback that is not there stays, and so do the values that a callback returns.
abbrev pub leaves_clear : Option Script → Bool
leaves_clear none = false
leaves_clear (some script) = length script.results == 0

-- With that place taken, by a value that is no function, a second callback is not called.
abbrev pub masked : Bool → Option Script → Option Script
masked true script = script
masked false script = none

-- Whether the place is free after `shutdown_if_pending`.
abbrev pub clear_after : Bool → Scripts → Socket → Bool
clear_after clear scripts s =
    if s.write_shutdown_pending && s.pending_writes == 0
    then clear && leaves_clear (scripts shutdown_callback)
    else clear

-- What Boost.Asio reports: the bytes that came in, and, of a delimited read, how many of the buffer
-- there are up to the end of the line.
pub record Completion : Type 0 where
  pub error : ErrorCode
  pub bytes : List ℕ
  pub line : ℕ

-- A read into the stream buffer has appended its bytes when the handler runs.
abbrev received : Completion → Socket → Socket
received c s = record s { input_buffer = s.input_buffer ++ c.bytes }

module _ (asio : Asio) where
  unfoldable pub call_script : Option Script → Event → Socket → Socket
  call_script none e s = s
  call_script (some script) e s = requests asio script.calls (note e s)

  abbrev release : Socket → Socket
  release s = record s { refs = s.refs - 1 }

  abbrev done_args : ErrorCode → List Value
  done_args none = self ∷ boolean true ∷ []
  done_args (some e) = self ∷ boost_error_code_to_lua (some e)

  -- CallShutdownCallback
  call_shutdown_callback : Bool → Scripts → Socket → Socket
  call_shutdown_callback clear scripts s =
      call_script (masked clear (scripts shutdown_callback))
        (called shutdown_callback (self ∷ boolean true ∷ [])) s

  -- CallCloseCallback
  unfoldable pub call_close_callback : Bool → Scripts → Socket → Socket
  call_close_callback clear scripts s =
      if s.pending_writes == 0
      then call_script (masked clear (scripts close_callback))
          (called close_callback (self ∷ boolean true ∷ []))
          (do_close asio (do_shutdown asio both_ways (record s { close_pending = false })).0).0
      else s

  unfoldable pub close_if_pending : Bool → Scripts → Socket → Socket
  close_if_pending clear scripts s =
      if s.close_pending then call_close_callback clear scripts s else s

  unfoldable pub shutdown_if_pending : Bool → Scripts → Socket → Socket
  unfolding call_shutdown_callback
  shutdown_if_pending clear scripts s =
      if s.write_shutdown_pending && s.pending_writes == 0
      then call_shutdown_callback clear scripts (do_shutdown asio send s).0
      else s

  -- HandleWrite
  unfoldable pub handle_write : ErrorCode → Scripts → Socket → Socket
  handle_write error scripts s =
      let s1 = record s { refs = s.refs - 1; pending_writes = decrement s.pending_writes } in
      let s2 = call_script (scripts write_callback) (called write_callback (done_args error)) s1 in
      let clear = leaves_clear (scripts write_callback) in
      close_if_pending (clear_after clear scripts s2) scripts (shutdown_if_pending clear scripts s2)

  -- The head of the three read handlers.
  abbrev end_read : Socket → Socket
  end_read s = record s { refs = s.refs - 1; pending_reads = decrement s.pending_reads }

  abbrev read_args : ErrorCode → List ℕ → List Value
  read_args none bytes = self ∷ string bytes ∷ []
  read_args (some e) [] = self ∷ boost_error_code_to_lua (some e)
  read_args (some e) (b ∷ bytes) =
      self ∷ (boost_error_code_to_lua (some e) ++ string (b ∷ bytes) ∷ [])

  -- The first `n` bytes of the buffer go to the callback, if there is one.
  unfoldable pub deliver_buffered : Option Script → ErrorCode → ℕ → Socket → Socket
  deliver_buffered none error n s = s
  deliver_buffered (some script) error n s = requests asio script.calls (
      note (called read_callback (read_args error (take n s.input_buffer)))
        (record s { input_buffer = drop n s.input_buffer }))

  -- HandleReadDelimited: on an error the whole buffer is handed over.
  unfoldable pub handle_read_delimited : ErrorCode → ℕ → Scripts → Socket → Socket
  handle_read_delimited error n scripts s =
      close_if_pending (leaves_clear (scripts read_callback)) scripts
        (deliver_buffered (scripts read_callback) error (amount error) (end_read s))
    where
      amount : ErrorCode → ℕ
      amount none = n
      amount (some e) = length s.input_buffer

  -- HandleReadSome: the bytes stand in the input array, and are handed over if there was no error.
  unfoldable pub handle_read_some : ErrorCode → List ℕ → Scripts → Socket → Socket
  handle_read_some error bytes scripts s =
      close_if_pending (leaves_clear (scripts read_callback)) scripts
        (call_script (scripts read_callback) (called read_callback (args error)) (end_read s))
    where
      args : ErrorCode → List Value
      args none = self ∷ string bytes ∷ []
      args (some e) = self ∷ boost_error_code_to_lua (some e)

  -- HandleReadSize
  unfoldable pub handle_read_size : ErrorCode → ℕ → Scripts → Socket → Socket
  handle_read_size error n scripts s =
      close_if_pending (leaves_clear (scripts read_callback)) scripts
        (deliver_buffered (scripts read_callback) error n (end_read s))

  -- HandleConnect
  unfoldable pub handle_connect : ErrorCode → Scripts → Socket → Socket
  handle_connect error scripts s =
      call_script (scripts connect_callback) (called connect_callback (done_args error)) (release s)

  -- HandleCloseCallback
  unfoldable pub handle_close_callback : Scripts → Socket → Socket
  handle_close_callback scripts s =
      call_script (scripts close_callback) (called close_callback (self ∷ boolean true ∷ []))
        (release s)

  -- HandleShutdownCallback
  unfoldable pub handle_shutdown_callback : Scripts → Socket → Socket
  handle_shutdown_callback scripts s =
      call_script (scripts shutdown_callback) (called shutdown_callback (self ∷ boolean true ∷ []))
        (release s)

  unfoldable pub complete_op : Op → Completion → Scripts → Socket → Socket
  complete_op (write_op bytes) c scripts s = handle_write c.error scripts s
  complete_op (read_op some_bytes) c scripts s = handle_read_some c.error c.bytes scripts s
  complete_op (read_op delimited) c scripts s =
      handle_read_delimited c.error c.line scripts (received c s)
  complete_op (read_op until_eof) c scripts s =
      handle_read_size c.error (length c.bytes) scripts (received c s)
  complete_op (read_op (exact n)) c scripts s =
      handle_read_size c.error (length c.bytes) scripts (received c s)
  complete_op (posted_read n) c scripts s = handle_read_size none n scripts s
  complete_op connect_op c scripts s = handle_connect c.error scripts s
  complete_op posted_close c scripts s = handle_close_callback scripts s
  complete_op posted_shutdown c scripts s = handle_shutdown_callback scripts s

-- One turn of the event loop.
pub data Turn : Type 0 where
  lua_calls : Request → Turn
  completes : ℕ → Completion → Scripts → Turn

module _ (asio : Asio) where
  pub turn : Turn → Socket → Socket
  turn (lua_calls r) s = (request asio r s).0
  turn (completes n c scripts) s = elim (pick n s.ops) [
    | none ↦ s
    | some (o, rest) ↦ complete_op asio o c scripts (record s { ops = rest })
  ]

  pub turns : List Turn → Socket → Socket
  turns [] s = s
  turns (t ∷ rest) s = turns rest (turn t s)
