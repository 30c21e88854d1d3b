-- ===== src/Fs/File.antt =====
-- `LuaNode::Fs::File` on Windows (src/luanode_file_win32.h, src/luanode_file_win32.cpp): its methods, its
-- completion handler, and the array that all its reads share.
pub mod Shared
pub mod Alone
use lua_node.Base.{
  ℕ, zero, suc, ◌+◌, ◌-◌, ◌%◌, ◌^◌, Bool, true, false, Option, none, some, List, [], ◌∷◌, ◌++◌,
  length, take, drop, if◌then◌else◌, requests_of, pick,
}
use lua_node.Lua.{
  Value, nil, boolean, integer, message, string, other, self, Outcome, returns, raises,
}

-- The size of `m_inputArray`.
unfoldable pub array_size : ℕ
array_size = 8192

-- A read in flight, with what it was given: `got` bytes of it have come. It holds two references, of the file
-- and of the callback; that of nil counts, though it takes no place in the registry.
pub record Read : Type 0 where
  pub position : ℕ
  pub callback : Value
  pub got : ℕ

-- How a read ends: the array is full, boost::asio::error::eof, or another error.
pub data End : Type 0 where
  filled at_eof : End
  failed : ℕ → End

-- `array` is `m_inputArray`. `ended` are the reads whose handlers are due.
pub record File : Type 0 where
  pub array : List ℕ
  pub reading : List Read
  pub ended : List (Read × End)
  pub refs : ℕ
  pub log : List (Value × List Value)

-- Open and the constructor; the array is what the memory held.
unfoldable pub new_file : List ℕ → File
new_file garbage = record { array = garbage; reading = []; ended = []; refs = 0; log = [] }

-- Read, of a length, a position and a callback; `none` is a value that is no number. The length is not used.
unfoldable pub file_read : Option ℕ → Option ℕ → Value → File → File × Outcome
file_read none position callback s = (s, raises)
file_read (some len) none callback s = (s, raises)
file_read (some len) (some position) callback s = (
  record s {
    reading = record { position = position % 2 ^ 32; callback = callback; got = 0 } ∷ s.reading;
    refs = s.refs + 2;
  },
  returns [],
)

-- Write
unfoldable pub file_write : File → File × Outcome
file_write s = (s, returns [])

-- Seek, of its third argument; the flag is the answer of SetFilePointerEx, and `other 0` the text of the error.
unfoldable pub file_seek : Option ℕ → Bool → File → File × Outcome
file_seek none moves s = (s, raises)
file_seek (some to) true s = (s, returns (boolean true ∷ []))
file_seek (some to) false s = (s, returns (boolean false ∷ other 0 ∷ []))

-- Close
unfoldable pub file_close : File → File × Outcome
file_close s = (s, returns [])

pub data Request : Type 0 where
  read : Option ℕ → Option ℕ → Value → Request
  write : Request
  seek : Option ℕ → Bool → Request
  close : Request

unfoldable pub request : Request → File → File
unfolding file_read file_write file_seek file_close
request (read len position callback) s = (file_read len position callback s).0
request write s = (file_write s).0
request (seek to moves) s = (file_seek to moves s).0
request close s = (file_close s).0

-- Bytes in the array from a place on, those that fit.
abbrev pub stored : ℕ → List ℕ → List ℕ → List ℕ
stored n bytes array = take n array ++ bytes ++ drop (n + length bytes) array

-- Asio's read puts more bytes of the file into the array, behind those that it has already put there.
unfoldable pub land : List ℕ → Read → File → Read × File
land bytes r s =
    let fitting = take (array_size - r.got) bytes in
    (record r { got = r.got + length fitting }, record s { array = stored r.got fitting s.array })

abbrev told_bytes : List ℕ → List Value
told_bytes bytes = self ∷ nil ∷ string bytes ∷ integer (length bytes) ∷ []

-- What HandleRead gives to the callback.
abbrev pub read_args : End → List ℕ → List Value
read_args filled bytes = told_bytes bytes
read_args at_eof bytes = told_bytes bytes
read_args (failed e) bytes = self ∷ integer e ∷ message e ∷ []

-- HandleRead; the requests are what the callback makes, where it is a function. One that raises an error is not
-- modelled.
unfoldable pub handle_read : Read → End → Option (List Request) → File → File
handle_read r end none s = record s { refs = s.refs - 2 }
handle_read r end (some rs) s = requests_of request rs (record s {
  refs = s.refs - 2;
  log = s.log ++ (r.callback, read_args end (take r.got s.array)) ∷ [];
})

-- A request of Lua; bytes of the file that come for one of the reads; the end of one;
-- or the handler of one that has ended.
pub data Turn : Type 0 where
  asks : Request → Turn
  lands : ℕ → List ℕ → Turn
  finishes : ℕ → End → Turn
  handles : ℕ → Option (List Request) → Turn

abbrev landed : List Read → Read × File → File
landed rest (r, s) = record s { reading = r ∷ rest }

unfoldable pub turn : Turn → File → File
turn (asks r) s = request r s
turn (lands n bytes) s = elim (pick n s.reading) [
  | none ↦ s
  | some (r, rest) ↦ landed rest (land bytes r s)
]
turn (finishes n end) s = elim (pick n s.reading) [
  | none ↦ s
  | some (r, rest) ↦ record s { reading = rest; ended = (r, end) ∷ s.ended }
]
turn (handles n script) s = elim (pick n s.ended) [
  | none ↦ s
  | some ((r, end), rest) ↦ handle_read r end script (record s { ended = rest })
]

unfoldable pub turns : List Turn → File → File
unfolding turn
turns [] s = s
turns (t ∷ rest) s = turns rest (turn t s)
