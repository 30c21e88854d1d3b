-- ===== src/Tty/Message/Lines.antt =====
-- The whole of a plain text: UTF-8 in, 16-bit units with `\r\n` line ends out.
use lua_node.Base.{
  ℕ, ◌<◌, ◌≡◌, refl, sym, ◌∙◌, Bool, not, ◌&&◌, ◌||◌, some, List, [], ◌∷◌, ◌++◌, map, arith, ltb,
  ◌==◌, if◌then◌else◌, All,
}
use lua_node.Tty.Utf8.Encode.{encode}
use lua_node.Tty.Ansi.{Parser, Output, print}
use lua_node.Tty.Message.{Action, parse, deliver_all, process_message}
use lua_node.Tty.Message.Chunks.{
  unit, content, items, items-append, content-deliver_all, parse-append,
}
use lua_node.Tty.Message.Text.{IsReady, IsPlain, printed, parse-encode}

abbrev is_eol : ℕ → Bool
is_eol c = c == 10 || c == 13

-- Each of `\r\n`, `\n\r`, `\r` and `\n` is one end of line.
pub crlf : List ℕ → List ℕ
crlf [] = []
crlf (c ∷ []) = if is_eol c then 13 ∷ 10 ∷ [] else c ∷ []
crlf (c ∷ d ∷ rest) =
    let after_pair = crlf rest in
    let after_one = crlf (d ∷ rest) in
    if is_eol c
    then (if is_eol d && not (d == c) then 13 ∷ 10 ∷ after_pair else 13 ∷ 10 ∷ after_one)
    else c ∷ after_one

-- What the console can show of a character.
pub to_unit : ℕ → ℕ
to_unit c = if ltb 0xffff c then 0xfffd else c

pub encode_all : List ℕ → List ℕ
encode_all [] = []
encode_all (c ∷ cs) = encode c ++ encode_all cs

-- With the end of line that was last printed.
eol_from : ℕ → List ℕ → List ℕ
eol_from p [] = []
eol_from p (c ∷ cs) =
    let anew = 13 ∷ 10 ∷ eol_from c cs in
    let skipped = eol_from 0 cs in
    let other = c ∷ eol_from 0 cs in
    if is_eol c then (if p == 0 || c == p then anew else skipped) else other

eol_from-crlf : (cs : List ℕ) → eol_from 0 cs ≡ crlf cs
unfolding eol_from crlf
eol_from-crlf [] = refl
eol_from-crlf (c ∷ []) = ground arith
eol_from-crlf (c ∷ d ∷ cs) = ground (arith, eol_from-crlf cs, eol_from-crlf (d ∷ cs))

printed-IsReady : (s : Parser) (c : ℕ) → IsReady s → IsReady (printed s c).0
unfolding print
printed-IsReady s c r = ground arith

printed-eol_from :
    (s : Parser) (c : ℕ) (us : List ℕ)
    → map unit (eol_from s.previous_eol (to_unit c ∷ us))
      ≡ items ((printed s c).1 ∷ []) ++ map unit (eol_from (printed s c).0.previous_eol us)
unfolding print eol_from to_unit
printed-eol_from s c us = ground arith

abbrev pub IsText : ℕ → Type 0
IsText c = IsPlain c × (c < 0x110000)

parse-encode_all :
    (s : Parser) (cs : List ℕ)
    → IsReady s
    → All IsText cs
    → (t : Parser) × (os : List Output) × (parse s (encode_all cs) ≡ some (t, os))
      × (items os ≡ map unit (eol_from s.previous_eol (map to_unit cs)))
      × IsReady t
unfolding encode_all
parse-encode_all s [] r h = (s, [], unfold parse in refl, unfold eol_from in refl, r)
parse-encode_all s (c ∷ cs) r h =
    let (os, e, i) = parse-encode s c r h.0.0 h.0.1 in
    let (t, os', e', i', r') = parse-encode_all (printed s c).0 cs (printed-IsReady s c r) h.1 in
    (
      t,
      os ++ os',
      parse-append s (encode c) (encode_all cs) e e',
      rw (items-append os os', i, i') (sym (printed-eol_from s c (map to_unit cs))),
      r',
    )

-- A text without ESC and the one-character CSI, given in UTF-8 to a parser that is between characters
-- and has no end of line pending, is processed to its end, and what reaches the console is
-- the text in 16-bit units: U+FFFD for each character above U+FFFF, and one `\r\n` for each of
-- `\r\n`, `\n\r`, `\r` and `\n`. The parser is between characters again.
pub process_message-encode_all :
    (s : Parser) (cs : List ℕ)
    → IsReady s
    → s.previous_eol ≡ 0
    → All IsText cs
    → (t : Parser) × (actions : List Action) × (process_message s (encode_all cs)
        ≡ some (t, actions))
      × (content actions ≡ map unit (crlf (map to_unit cs)))
      × IsReady t
unfolding process_message
process_message-encode_all s cs r z h =
    let (t, os, e, i, r') = parse-encode_all s cs r h in
    (
      t,
      deliver_all [] os,
      rw e,
      content-deliver_all [] os ∙ i ∙ rw (z, eol_from-crlf (map to_unit cs)),
      r',
    )
