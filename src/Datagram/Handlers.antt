-- ===== src/Datagram/Handlers.antt =====
-- The completion handlers of `LuaNode::Datagram::Socket` (src/luanode_datagram_udp.cpp), and the event loop
-- that runs them.
pub mod Counts
pub mod Closing
use lua_node.Base.{
  ℕ, ◌+◌, ◌-◌, true, false, ◌&&◌, Option, none, some, List, [], ◌∷◌, ◌++◌, ◌==◌, if◌then◌else◌,
  requests_of, EventLoop, LoopTurn, loop_turns,
}
use lua_node.Lua.{Value, boolean, string, message, self, ErrorCode, boost_error_code_to_lua}
use lua_node.Net.Socket.{send, decrement}
use lua_node.Datagram.Socket.{
  SendCallback, a_function, Op, send_op, receive_op, connect_op, Callback, send_callback,
  read_callback, connect_callback, Event, called, did_shutdown, did_close, Socket, Asio, Request,
  callback_refs, note, request,
}

-- The requests that a Lua function makes when a handler calls it: the function in a field of the object, if
-- there is one, and the one that was passed to `sendto`. One that raises an error is not modelled.
abbrev pub Scripts : Type 0
Scripts = Callback → Option (List Request)

-- What Boost.Asio reports: the bytes that came in.
pub record Completion : Type 0 where
  pub error : ErrorCode
  pub bytes : List ℕ
  pub scripts : Scripts

-- A callback of `sendto` is called if it is a function.
abbrev pub sent_script : SendCallback → Scripts → Option (List Request)
sent_script a_function scripts = scripts send_callback
sent_script _ scripts = none

module _ (asio : Asio) where
  unfoldable pub call_script : Option (List Request) → Callback → List Value → Socket → Socket
  call_script none which args s = s
  call_script (some rs) which args s =
      requests_of (request asio) rs (note (called which (self ∷ args)) s)

-- The values after `self`: of the bytes or nothing, or of the error.
abbrev pub done_args : ErrorCode → List Value → List Value
done_args none vs = vs
done_args (some e) vs = boost_error_code_to_lua (some e)

-- HandleConnect tells of an error with false and the message.
abbrev pub connect_args : ErrorCode → List Value
connect_args none = boolean true ∷ []
connect_args (some e) = boolean false ∷ message e ∷ []

unfoldable pub close_if_done : Socket → Socket
close_if_done s =
    if s.close_pending && (s.pending_writes == 0 && s.pending_reads == 0)
    then note did_close s
    else s

unfoldable pub shutdown_if_done : Socket → Socket
shutdown_if_done s =
    if s.write_shutdown_pending && s.pending_writes == 0 then note (did_shutdown send) s else s

module _ (asio : Asio) where
  -- HandleSendTo
  unfoldable pub handle_sendto : SendCallback → Completion → Socket → Socket
  handle_sendto callback c s = close_if_done (
      shutdown_if_done (
        call_script asio (sent_script callback c.scripts) send_callback (done_args c.error [])
          (record s { pending_writes = decrement s.pending_writes })))

  -- HandleReceive
  unfoldable pub handle_receive : Completion → Socket → Socket
  handle_receive c s = close_if_done (
      call_script asio (c.scripts read_callback) read_callback
        (done_args c.error (string c.bytes ∷ []))
        (record s { pending_reads = decrement s.pending_reads }))

  -- HandleConnect
  unfoldable pub handle_connect : Completion → Socket → Socket
  handle_connect c s =
      call_script asio (c.scripts connect_callback) connect_callback (connect_args c.error) s

  -- Every handler first releases the references of its operation.
  unfoldable pub complete_op : Op → Completion → Socket → Socket
  complete_op (send_op bytes endpoint callback) c s =
      handle_sendto callback c (record s { refs = s.refs - (1 + callback_refs callback) })
  complete_op receive_op c s = handle_receive c (record s { refs = s.refs - 1 })
  complete_op (connect_op endpoint) c s = handle_connect c (record s { refs = s.refs - 1 })

  unfoldable pub datagram_loop : EventLoop Socket Op Request Completion
  datagram_loop = record {
    ops_of = λ s. s.ops;
    with_ops = λ rest s. record s { ops = rest };
    ask = request asio;
    handle = complete_op;
  }

-- A turn is a request of Lua, or the completion of one of the operations in flight.
abbrev pub Turn : Type 0
Turn = LoopTurn Request Completion

unfoldable pub turns : Asio → List Turn → Socket → Socket
turns asio ts s = loop_turns (datagram_loop asio) ts s
