-- ===== src/Tty/Message/Sequence.antt =====
-- The cursor sequences, from their bytes to the call on the console.
use lua_node.Base.{
  ℕ, ◌+◌, ◌≤◌, ◌<◌, ◌≡◌, refl, ◌∙◌, true, false, some, List, [], ◌∷◌, ◌++◌, map, arith, ◌==◌,
  if◌then◌else◌, length, get_or, All,
}
use lua_node.Base.Int.{pos, neg}
use lua_node.Tty.Ansi.{
  Parser, Output, Command, silent, command, move_caret, ansi_csi, ansi_normal, ansi_escape_seen,
  is_escape_seen, csi_command,
}
use lua_node.Tty.Ansi.Handlers.{
  get_or-set_self, parse_escape_command, parse_escape_open, parse_escape_bracket,
}
use lua_node.Tty.Message.Chunks.{
  items, items-append, parse-append, content, content-deliver_all, done,
}
use lua_node.Tty.Message.Text.{IsReady}
use lua_node.Tty.Message.{Action, parse, deliver_all, process_message}
use lua_node.Tty.Message.Args.{byte_ascii, value, digit_char, arg_state, first_digit, parse-digits}

pub data Direction : Type 0 where
  up down forward back : Direction

pub letter : Direction → ℕ
letter up = b'A'
letter down = b'B'
letter forward = b'C'
letter back = b'D'

pub motion : Direction → ℕ → Command
motion up n = move_caret (pos 0) true (neg n) true
motion down n = move_caret (pos 0) true (pos n) true
motion forward n = move_caret (pos n) true (pos 0) true
motion back n = move_caret (neg n) true (pos 0) true

csi_command-letter :
    (s : Parser) (m : Direction) (n : ℕ)
    → (if s.argc == 0 then 1 else get_or s.argv 0 0) ≡ n
    → csi_command s (letter m) ≡ command (motion m n)
unfolding csi_command letter motion
csi_command-letter s up n e = rw e
csi_command-letter s down n e = rw e
csi_command-letter s forward n e = rw e
csi_command-letter s back n e = rw e

letter_range : (m : Direction) → (65 ≤ letter m) × (letter m ≤ 90)
unfolding letter
letter_range up = omega arith
letter_range down = omega arith
letter_range forward = omega arith
letter_range back = omega arith

-- The state after the command byte.
after_command : Parser → ℕ → Parser
after_command s c = record s {
  decoder = record { bytes_left = 0; codepoint = c };
  ansi = ansi_normal;
}

last_byte :
    (s : Parser) (m : Direction) (n : ℕ)
    → s.bytes_left ≡ 0
    → s.csi ≡ true
    → s.ignore ≡ false
    → is_escape_seen s.ansi ≡ false
    → (if s.argc == 0 then 1 else get_or s.argv 0 0) ≡ n
    → parse s (letter m ∷ []) ≡ some (after_command s (letter m), command (motion m n) ∷ [])
unfolding parse after_command
last_byte s m n z k g e v =
    let t = record s { decoder = record { bytes_left = 0; codepoint = letter m } } in
    let (lo, hi) = letter_range m in
    rw
      (byte_ascii s (letter m) z (omega arith)
        (parse_escape_command t (letter m) k g e (ground arith) (ground arith)))
      (rw (csi_command-letter t m n v))

-- The number that a sequence asks for; with no digits, 1.
unfoldable pub amount : List ℕ → ℕ
amount [] = 1
amount (d ∷ ds) = value d ds

pub sequence : Direction → List ℕ → List ℕ
sequence m ds = 27 ∷ b'[' ∷ (map digit_char ds ++ letter m ∷ [])

opened : Parser → Parser
opened s = record s {
  decoder = record { bytes_left = 0; codepoint = b'[' };
  ansi = ansi_csi;
  argc = 0;
}

parse_opening :
    (s : Parser) (rest : List ℕ) {t : Parser} {os : List Output}
    → IsReady s
    → parse (opened s) rest ≡ some (t, os)
    → parse s (27 ∷ b'[' ∷ rest) ≡ some (t, silent ∷ silent ∷ os)
unfolding parse opened
parse_opening s rest r e =
    let s1 = record s { decoder = record { bytes_left = 0; codepoint = 27 } } in
    let s2 = record s1 { ansi = ansi_escape_seen } in
    let s3 = record s2 { decoder = record { bytes_left = 0; codepoint = b'[' } } in
    rw (
      byte_ascii s 27 r.whole (omega arith) (parse_escape_open s1 r.normal),
      byte_ascii s2 b'[' refl (omega arith) (parse_escape_bracket s3 refl),
      e,
    )

arg_command :
    (s : Parser) (v c : ℕ) (m : Direction)
    → s.argc ≡ 0
    → 0 < length s.argv
    → parse (arg_state s v c) (letter m ∷ [])
      ≡ some (after_command (arg_state s v c) (letter m), command (motion m v) ∷ [])
unfolding arg_state
arg_command s v c m z h =
    last_byte (arg_state s v c) m v refl refl refl refl (rw z (get_or-set_self s.argv 0 v 0 h))

parse_body :
    (s : Parser) (m : Direction) (ds : List ℕ)
    → 0 < length s.argv
    → All (λ d. d < 10) ds
    → amount ds ≤ 65535
    → (t : Parser) × (os : List Output) × (parse (opened s) (map digit_char ds ++ letter m ∷ [])
        ≡ some (t, os))
      × (items os ≡ done (motion m (amount ds)) ∷ [])
      × IsReady t
unfolding opened amount after_command
parse_body s m [] h a b = (
  after_command (opened s) (letter m),
  command (motion m 1) ∷ [],
  last_byte (opened s) m 1 refl refl refl refl refl,
  refl,
  record { whole = refl; normal = refl },
)
parse_body s m (d ∷ ds) h a b =
    let (c, os, e, i) = parse-digits (opened s) d (48 + d) ds h a.1 b in
    let u = arg_state (opened s) (value d ds) c in
    (
      after_command u (letter m),
      silent ∷ (os ++ command (motion m (value d ds)) ∷ []),
      (unfold parse in
          rw (
            first_digit (opened s) d refl refl (omega arith) a.0,
            parse-append _ (map digit_char ds) (letter m ∷ []) e
                (arg_command (opened s) (value d ds) c m refl h),
          )),
      rw (items-append os, i),
      record { whole = refl; normal = refl },
    )

-- `ESC [ n A`, and so with `B`, `C` and `D`, given to a parser that is between characters, makes one
-- call on the console: to move the caret by `n`, for every `n` up to 65535 in decimal (leading zeros
-- allowed), and by 1 where no digit stands. The parser is between characters again.
pub process_message-sequence :
    (s : Parser) (m : Direction) (ds : List ℕ)
    → IsReady s
    → 0 < length s.argv
    → All (λ d. d < 10) ds
    → amount ds ≤ 65535
    → (t : Parser) × (actions : List Action) × (process_message s (sequence m ds)
        ≡ some (t, actions))
      × (content actions ≡ done (motion m (amount ds)) ∷ [])
      × IsReady t
unfolding process_message sequence
process_message-sequence s m ds r h a b =
    let (t, os, e, i, r') = parse_body s m ds h a b in
    (
      t,
      deliver_all [] (silent ∷ silent ∷ os),
      rw (parse_opening s _ r e),
      content-deliver_all [] (silent ∷ silent ∷ os) ∙ i,
      r',
    )
