-- ===== src/Tty/Message.antt =====
-- The loop of `ProcessMessage` (src/detail/windows/output_tty.cpp): bytes in, calls on the console
-- out. The calls do not act on the parser, so they are collected in the order they are made.
pub mod Safety
pub mod Text
pub mod Lines
pub mod Args
pub mod Sequence
pub mod Chunks
mod Tests
use lua_node.Base.{
  ℕ, ◌+◌, Bool, Option, none, some, List, [], ◌∷◌, ◌++◌, ltb, ◌==◌, if◌then◌else◌, length, ◌>>=◌,
}
use lua_node.Tty.Utf8.{decode_byte}
use lua_node.Tty.Ansi.{Parser, Command, Output, silent, text, command, parse_escape, print}

pub data Action : Type 0 where
  write_text : List ℕ → Action
  call : Command → Action

-- After the escape parser: `continue`, or print.
finish : Parser × Option Output → Parser × Output
unfolding print
finish (s, none) = print s
finish (s, some o) = (s, o)

-- One round of the loop; the flag tells whether the byte was used up.
unfoldable pub iteration : Parser → ℕ → Option (Parser × Output × Bool)
unfolding decode_byte parse_escape finish
iteration p c =
    let (d, consumed) = decode_byte p.decoder c in
    let s = record p { decoder = d } in
    if d.bytes_left == 0
    then (parse_escape s d.codepoint >>= λ r. let (s', o) = finish r in some (s', o, consumed))
    else some (s, silent, consumed)

-- A byte that is read again is a start byte the second time, and that is always used up.
unfoldable pub process_byte : Parser → ℕ → Option (Parser × List Output)
process_byte s c = iteration s c >>= λ (s1, o1, consumed).
    if consumed
    then some (s1, o1 ∷ [])
    else (iteration s1 c >>= λ (s2, o2, _). some (s2, o1 ∷ o2 ∷ []))

unfoldable pub parse : Parser → List ℕ → Option (Parser × List Output)
parse s [] = some (s, [])
parse s (c ∷ cs) = process_byte s c >>= λ (s1, o1). parse s1 cs >>= λ (s2, o2). some (s2, o1 ++ o2)

abbrev pub buffer_size : ℕ
buffer_size = 8192

-- FLUSH_TEXT
flush : List ℕ → List Action
flush [] = []
flush (u ∷ us) = write_text (u ∷ us) ∷ []

-- What one output does to `utf16_buf`, and the calls that it makes.
deliver : List ℕ → Output → List ℕ × List Action
unfolding flush
deliver buffer silent = (buffer, [])
deliver buffer (text units) =
    if ltb buffer_size (length buffer + length units)
    then (units, write_text buffer ∷ [])
    else (buffer ++ units, [])
deliver buffer (command c) = ([], flush buffer ++ call c ∷ [])

unfoldable pub deliver_all : List ℕ → List Output → List Action
unfolding deliver
deliver_all buffer [] = flush buffer
deliver_all buffer (o ∷ os) =
    let (buffer', actions) = deliver buffer o in actions ++ deliver_all buffer' os

unfoldable pub process_message : Parser → List ℕ → Option (Parser × List Action)
process_message s message = parse s message >>= λ (s', outputs). some (s', deliver_all [] outputs)

-- The messages that `Write` is given, one after the other.
unfoldable pub process_messages : Parser → List (List ℕ) → Option (Parser × List Action)
process_messages s [] = some (s, [])
process_messages s (message ∷ rest) = process_message s message >>= λ (s1, x).
    process_messages s1 rest >>= λ (s2, y). some (s2, x ++ y)
