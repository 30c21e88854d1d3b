-- ===== src/Crypto/Handlers.antt =====
-- The completion handlers of `LuaNode::Crypto::Socket` (src/luanode_crypto.cpp), and the event loop
-- that runs them: at any time Lua may make a request, or any operation in flight may complete.
pub mod Counts
pub mod Closing
pub mod Kept
pub mod Turns
pub mod Shutdown
pub mod Held
pub mod Stray
use lua_node.Base.{
  ℕ, ◌+◌, ◌-◌, Bool, true, false, ◌&&◌, Option, none, some, List, [], ◌∷◌, ◌++◌, ◌==◌,
  if◌then◌else◌, pick,
}
use lua_node.Lua.{Value, boolean, string, self, ErrorCode, boost_error_code_to_lua}
use lua_node.Net.Socket.{receive, send, decrement}
use lua_node.Crypto.Socket.{
  Op, handshake_op, write_op, read_op, some_bytes, delimited, Callback, handshake_callback,
  write_callback, read_callback, Event, called, did_shutdown, did_close, Socket, Request, note,
  request, requests,
}

-- The requests that the Lua function in a field of the object makes when a handler calls it, if there
-- is a function. One that raises an error is not modelled.
abbrev pub Scripts : Type 0
Scripts = Callback → Option (List Request)

-- A handler looks for its callback in the object at the bottom of the Lua stack, and at the second place
-- of the stack. With a stray value below its own object, neither is what it takes it for: the second
-- place holds an object, and no function.
abbrev pub found : Scripts → Callback → Socket → Option (List Request)
found scripts which s = if s.stray == 0 then scripts which else none

-- What Boost.Asio reports: the bytes that came in.
pub record Completion : Type 0 where
  pub error : ErrorCode
  pub bytes : List ℕ

module _ (close_result : List Event → ErrorCode) where
  unfoldable pub call_script : Option (List Request) → Event → Socket → Socket
  call_script none e s = s
  call_script (some rs) e s = requests close_result rs (note e s)

  -- After an error the callback is told of it, and what it has left of the input is thrown away.
  unfoldable pub call_error : Option (List Request) → Callback → ℕ → Socket → Socket
  call_error none which e s = s
  call_error (some rs) which e s =
      record (requests close_result rs
        (note (called which (self ∷ boost_error_code_to_lua (some e))) s)) { input_buffer = [] }

  -- The part that the handlers share: the callback is called with these values, or with the error.
  unfoldable pub tell : ErrorCode → List Value → Callback → Scripts → Socket → Socket
  tell none args which scripts s =
      call_script (found scripts which s) (called which (self ∷ args)) s
  tell (some e) args which scripts s = call_error (found scripts which s) which e s

  abbrev settop : Socket → Socket
  settop s = record s { stray = 0 }

  abbrev release : Socket → Socket
  release s = record s { refs = s.refs - 1 }

  unfoldable pub close_if_done : Socket → Socket
  close_if_done s =
      if s.close_pending && (s.pending_writes == 0 && s.pending_reads == 0)
      then note did_close s
      else s

  unfoldable pub shutdown_if_done : Socket → Socket
  shutdown_if_done s =
      if s.pending_writes == 0 && s.shutdown_pending
      then note (did_shutdown (if s.shutdown_send then send else receive)) s
      else s

  unfoldable pub handle_handshake : ErrorCode → Scripts → Socket → Socket
  handle_handshake error scripts s =
      settop (tell error (boolean true ∷ []) handshake_callback scripts (release s))

  unfoldable pub handle_write : ErrorCode → Scripts → Socket → Socket
  handle_write error scripts s = settop (
      close_if_done (
        shutdown_if_done (
          tell error (boolean true ∷ []) write_callback scripts
            (record (release s) { pending_writes = decrement s.pending_writes }))))

  abbrev pub end_read : Socket → Socket
  end_read s = record (release s) { pending_reads = decrement s.pending_reads }

  -- The callback gets the whole buffer, which is emptied before the call.
  unfoldable pub deliver_input : Option (List Request) → Socket → Socket
  deliver_input none s = s
  deliver_input (some rs) s =
      call_script (some rs) (called read_callback (self ∷ string s.input_buffer ∷ []))
        (record s { input_buffer = [] })

  -- HandleRead. With a shutdown pending an error goes unheard, and the
  -- handler's own object stays on the Lua stack.
  unfoldable pub handle_read : ErrorCode → Scripts → Socket → Socket
  handle_read error scripts s = finish error (end_read s)
    where
      finish : ErrorCode → Socket → Socket
      finish none t = settop (close_if_done (deliver_input (found scripts read_callback t) t))
      finish (some e) t =
          if t.shutdown_pending
          then record t { stray = t.stray + 1 }
          else settop (close_if_done (tell (some e) [] read_callback scripts t))

  -- HandleReadSome: the bytes stand in the input array.
  unfoldable pub handle_read_some : ErrorCode → List ℕ → Scripts → Socket → Socket
  handle_read_some error bytes scripts s =
      settop (close_if_done (tell error (string bytes ∷ []) read_callback scripts (end_read s)))

  -- A delimited read has appended its bytes to the stream buffer when its handler runs.
  abbrev received : Completion → Socket → Socket
  received c s = record s { input_buffer = s.input_buffer ++ c.bytes }

  unfoldable pub complete_op : Op → Completion → Scripts → Socket → Socket
  complete_op handshake_op c scripts s = handle_handshake c.error scripts s
  complete_op (write_op bytes) c scripts s = handle_write c.error scripts s
  complete_op (read_op some_bytes) c scripts s = handle_read_some c.error c.bytes scripts s
  complete_op (read_op delimited) c scripts s = handle_read c.error scripts (received c s)

-- One turn of the event loop. The handlers of other objects empty the Lua stack.
pub data Turn : Type 0 where
  lua_calls : Request → Turn
  completes : ℕ → Completion → Scripts → Turn
  runs_elsewhere : Turn

module _ (close_result : List Event → ErrorCode) where
  unfoldable pub turn : Turn → Socket → Socket
  turn (lua_calls r) s = (request close_result r s).0
  turn (completes n c scripts) s = elim (pick n s.ops) [
    | none ↦ s
    | some (o, rest) ↦ complete_op close_result o c scripts (record s { ops = rest })
  ]
  turn runs_elsewhere s = record s { stray = 0 }

  unfoldable pub turns : List Turn → Socket → Socket
  unfolding turn
  turns [] s = s
  turns (t ∷ rest) s = turns rest (turn t s)
