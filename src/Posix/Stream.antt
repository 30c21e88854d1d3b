-- ===== src/Posix/Stream.antt =====
-- `LuaNode::Posix::Stream` (src/luanode_posix_stream.h, src/luanode_posix_stream.cpp): its methods, its
-- completion handlers, and the event loop that runs them.
pub mod Counts
use lua_node.Base.{
  ℕ, ◌+◌, ◌-◌, Bool, true, false, ◌&&◌, Option, none, some, List, [], ◌∷◌, ◌++◌, ltb, ◌==◌,
  if◌then◌else◌, requests_of, EventLoop, LoopTurn, loop_turns,
}
use lua_node.Lua.{
  Value, boolean, string, self, ErrorCode, Outcome, returns, raises, boost_error_code_to_lua,
}
use lua_node.Net.Socket.{increment, decrement}

-- An operation in flight; each holds one reference of the registry.
pub data Op : Type 0 where
  write_op : List ℕ → Op
  read_op : Op

pub data Callback : Type 0 where
  write_callback read_callback : Callback

-- What the outside sees.
pub data Event : Type 0 where
  called : Callback → List Value → Event
  did_close : Event

-- `lost` counts the references that were taken when an error was raised.
pub record Stream : Type 0 where
  pub close_pending : Bool
  pub pending_writes : ℕ
  pub pending_reads : ℕ
  pub ops : List Op
  pub refs : ℕ
  pub lost : ℕ
  pub log : List Event

-- A `none` for a write is a value that is no text; a read has an argument, or none or nil.
pub data Request : Type 0 where
  write : Option (List ℕ) → Request
  read : Bool → Request
  close : Request

-- The constructor gives `m_close_pending` no value: what its memory held is the argument.
unfoldable pub new_stream : Bool → Stream
new_stream garbage = record {
  close_pending = garbage;
  pending_writes = 0;
  pending_reads = 0;
  ops = [];
  refs = 0;
  lost = 0;
  log = [];
}

abbrev start : Op → Stream → Stream
start o s = record s { ops = o ∷ s.ops; refs = s.refs + 1 }

abbrev lose : Stream → Stream
lose s = record s { refs = s.refs + 1; lost = s.lost + 1 }

abbrev pub note : Event → Stream → Stream
note e s = record s { log = s.log ++ e ∷ [] }

-- Write. That the bytes are still those of the string when they are written is not a matter of the model.
unfoldable pub stream_write : Option (List ℕ) → Stream → Stream × Outcome
stream_write text s =
    if ltb 0 s.pending_writes then (s, returns (boolean false ∷ [])) else elim text [
      | none ↦ (lose s, raises)
      | some bytes ↦ (
        start (write_op bytes) (record s { pending_writes = increment s.pending_writes }),
        returns (boolean true ∷ []),
      )
    ]

-- Read
unfoldable pub stream_read : Bool → Stream → Stream × Outcome
stream_read true s = (lose s, raises)
stream_read false s =
    (start read_op (record s { pending_reads = increment s.pending_reads }), returns [])

-- Close
unfoldable pub stream_close : Stream → Stream × Outcome
stream_close s = (s, returns [])

unfoldable pub request : Request → Stream → Stream
unfolding stream_write stream_read stream_close
request (write text) s = (stream_write text s).0
request (read with_argument) s = (stream_read with_argument s).0
request close s = (stream_close s).0

-- The requests that the Lua function in a field of the object makes when a handler calls it, if there is a
-- function. One that raises an error is not modelled.
abbrev pub Scripts : Type 0
Scripts = Callback → Option (List Request)

-- What Boost.Asio reports: the bytes that came in.
pub record Completion : Type 0 where
  pub error : ErrorCode
  pub bytes : List ℕ
  pub scripts : Scripts

unfoldable pub call_script : Option (List Request) → Callback → List Value → Stream → Stream
call_script none which args s = s
call_script (some rs) which args s = requests_of request rs (note (called which (self ∷ args)) s)

-- HandleWrite: no callback hears of an error.
unfoldable pub handle_write : Completion → Stream → Stream
handle_write c s =
    finish c.error (record s { refs = s.refs - 1; pending_writes = decrement s.pending_writes })
  where
    finish : ErrorCode → Stream → Stream
    finish none t = call_script (c.scripts write_callback) write_callback (boolean true ∷ []) t
    finish (some e) t = t

unfoldable pub close_if_done : Stream → Stream
close_if_done s =
    if s.close_pending && (s.pending_writes == 0 && s.pending_reads == 0)
    then note did_close s
    else s

abbrev pub read_args : Completion → List Value
read_args c = elim c.error [
  | none ↦ string c.bytes ∷ []
  | some e ↦ boost_error_code_to_lua (some e)
]

-- HandleReadSome
unfoldable pub handle_read_some : Completion → Stream → Stream
handle_read_some c s = close_if_done (
    call_script (c.scripts read_callback) read_callback (read_args c)
      (record s { refs = s.refs - 1; pending_reads = decrement s.pending_reads }))

unfoldable pub complete_op : Op → Completion → Stream → Stream
complete_op (write_op bytes) c s = handle_write c s
complete_op read_op c s = handle_read_some c s

unfoldable pub stream_loop : EventLoop Stream Op Request Completion
stream_loop = record {
  ops_of = λ s. s.ops;
  with_ops = λ rest s. record s { ops = rest };
  ask = request;
  handle = complete_op;
}

-- A turn is a request of Lua, or the completion of one of the operations in flight.
abbrev pub Turn : Type 0
Turn = LoopTurn Request Completion

unfoldable pub turns : List Turn → Stream → Stream
turns ts s = loop_turns stream_loop ts s
