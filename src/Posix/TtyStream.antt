-- ===== src/Posix/TtyStream.antt =====
-- `TtyStream` of POSIX systems (src/detail/posix/tty_stream.h, src/detail/posix/tty_stream.cpp): its
-- construction and its methods but `setRawMode`, its completion handler, and the event loop that runs it.
pub mod Pending
use lua_node.Base.{
  ℕ, ◌+◌, ◌-◌, Bool, true, false, Option, none, some, List, [], ◌∷◌, ◌++◌, if◌then◌else◌, take,
  requests_of, EventLoop, LoopTurn, loop_turns,
}
use lua_node.Lua.{
  Value, boolean, integer, string, self, ErrorCode, Outcome, returns, raises,
  boost_error_code_to_lua,
}
use lua_node.Net.Socket.{increment, decrement}

-- The status flags of an open file: O_NONBLOCK, and the others.
pub record FileFlags : Type 0 where
  pub nonblock : Bool
  pub others : ℕ

-- A read in flight; it holds one reference of the registry.
pub data Op : Type 0 where
  read_op : Op

-- The stream, and what the system and Asio keep for it: the flags of the terminal's open file, the reads in
-- flight, and the references in the registry, `lost` of which no handler will give back. `flags` is
-- `m_flags`, where the constructor has set it.
pub record TtyStream : Type 0 where
  pub fd : ℕ
  pub flags : Option FileFlags
  pub pending_reads : ℕ
  pub file_flags : FileFlags
  pub is_open : Bool
  pub written : List ℕ
  pub ops : List Op
  pub refs : ℕ
  pub lost : ℕ
  pub log : List (List Value)

-- What fcntl, dup and the constructor of the descriptor answer: whether the flags can be read and set, the
-- new descriptor, and whether Asio takes it.
pub record MakeAnswers : Type 0 where
  pub gets : Bool
  pub sets : Bool
  pub dup : Option ℕ
  pub taken : Bool

pub data Made : Type 0 where
  made : TtyStream → Made
  raised : FileFlags → Made
  thrown : FileFlags → Made

abbrev fresh : ℕ → Option FileFlags → FileFlags → TtyStream
fresh fd flags file_flags = record {
  fd = fd;
  flags = flags;
  pending_reads = 0;
  file_flags = file_flags;
  is_open = true;
  written = [];
  ops = [];
  refs = 0;
  lost = 0;
  log = [];
}

-- The constructor, for a number that is the descriptor of an open file with the flags `file`; the first
-- argument tells whether it is to be read. The result holds the flags that the file is left with.
unfoldable pub construct : Bool → ℕ → FileFlags → MakeAnswers → Made
construct readable fd file a = if readable then to_read a.gets a.sets else to_write a.dup
  where
    attach : ℕ → Option FileFlags → FileFlags → Made
    attach n flags left = if a.taken then made (fresh n flags left) else thrown left

    to_read : Bool → Bool → Made
    to_read false sets = raised file
    to_read true false = raised file
    to_read true true = attach fd (some file) (record file { nonblock = true })

    -- A dup that fails gives the descriptor -1, which Asio does not take.
    to_write : Option ℕ → Made
    to_write none = thrown file
    to_write (some n) = attach n none file

-- The destructor: it resets the mode of the terminal (`reset_mode`), and its descriptor is closed. What is
-- in flight is not a matter of the model then; the flags are left as they are.
unfoldable pub destroy : TtyStream → FileFlags
destroy s = s.file_flags

-- Read: the reference is taken before the argument is looked at.
unfoldable pub tty_read : Bool → TtyStream → TtyStream × Outcome
tty_read true s = (record s { refs = s.refs + 1; lost = s.lost + 1 }, raises)
tty_read false s = (
  record s { refs = s.refs + 1; ops = read_op ∷ s.ops; pending_reads = increment s.pending_reads },
  returns [],
)

-- Pause
unfoldable pub tty_pause : TtyStream → TtyStream × Outcome
tty_pause s = (s, returns [])

-- Write, of a value that is a text or none. Asio writes all of it, or so many bytes before an error.
unfoldable pub tty_write : Option (List ℕ) → Option ℕ → TtyStream → TtyStream × Outcome
tty_write none answer s = (s, raises)
tty_write (some bytes) none s =
    (record s { written = s.written ++ bytes }, returns (boolean true ∷ []))
tty_write (some bytes) (some n) s = (record s { written = s.written ++ take n bytes }, raises)

-- Close: an exception of Asio's `close` becomes an error of Lua.
unfoldable pub tty_close : Bool → TtyStream → TtyStream × Outcome
tty_close true s = (record s { is_open = false }, returns [])
tty_close false s = (record s { is_open = false }, raises)

-- GetWindowSize: `ioctl` gives the columns and the rows, or fails.
unfoldable pub get_window_size : Option (ℕ × ℕ) → TtyStream → TtyStream × Outcome
get_window_size none s = (s, raises)
get_window_size (some size) s = (s, returns (integer size.0 ∷ integer size.1 ∷ []))

pub data Request : Type 0 where
  read : Bool → Request
  pause : Request
  write : Option (List ℕ) → Option ℕ → Request
  close : Bool → Request
  window_size : Option (ℕ × ℕ) → Request

unfoldable pub request : Request → TtyStream → TtyStream
unfolding tty_read tty_pause tty_write tty_close get_window_size
request (read with_argument) s = (tty_read with_argument s).0
request pause s = (tty_pause s).0
request (write text answer) s = (tty_write text answer s).0
request (close done) s = (tty_close done s).0
request (window_size size) s = (get_window_size size s).0

-- What Asio reports of a read, and the requests that `read_callback` makes when the handler calls it, where the
-- field holds a function. One that raises an error is not modelled.
pub record Completion : Type 0 where
  pub error : ErrorCode
  pub bytes : List ℕ
  pub script : Option (List Request)

abbrev pub read_args : Completion → List Value
read_args c = elim c.error [
  | none ↦ string c.bytes ∷ []
  | some e ↦ boost_error_code_to_lua (some e)
]

-- HandleReadSome
unfoldable pub handle_read_some : Completion → TtyStream → TtyStream
handle_read_some c s =
    call c.script (record s { refs = s.refs - 1; pending_reads = decrement s.pending_reads })
  where
    call : Option (List Request) → TtyStream → TtyStream
    call none t = t
    call (some rs) t =
        requests_of request rs (record t { log = t.log ++ (self ∷ read_args c) ∷ [] })

unfoldable pub complete_op : Op → Completion → TtyStream → TtyStream
complete_op read_op c s = handle_read_some c s

unfoldable pub tty_loop : EventLoop TtyStream Op Request Completion
tty_loop = record {
  ops_of = λ s. s.ops;
  with_ops = λ rest s. record s { ops = rest };
  ask = request;
  handle = complete_op;
}

-- A turn is a request of Lua, or the completion of one of the reads in flight.
abbrev pub Turn : Type 0
Turn = LoopTurn Request Completion

unfoldable pub turns : List Turn → TtyStream → TtyStream
turns ts s = loop_turns tty_loop ts s
