-- ===== src/Tty/Message/Tests.antt =====
-- Messages on concrete inputs.
use lua_node.Base.{ℕ, ◌≡◌, refl, ◌++◌, some, List, [], ◌∷◌, All, map, arith}
use lua_node.Tty.Ansi.{Parser, new_parser, Output, parse_escape, print}
use lua_node.Tty.Ansi.Safety.{IsValid}
use lua_node.Tty.Message.{
  Action, write_text, process_message, process_messages, parse, process_byte, iteration,
  deliver_all,
}
use lua_node.Tty.Utf8.{decode_byte}
use lua_node.Tty.Message.Safety.{IsWrite, process_messages-IsValid}
use lua_node.Tty.Message.Text.{IsReady, printed, parse-encode}
use lua_node.Tty.Message.Lines.{IsText, crlf, to_unit, encode_all, process_message-encode_all}
use lua_node.Tty.Message.Chunks.{unit, done, content, items, process_message-append}
use lua_node.Tty.Message.Sequence.{up, motion, amount, sequence, process_message-sequence}
use lua_node.Tty.Message.Args.{value}
use lua_node.Tty.Utf8.Encode.{encode}

abbrev fresh : Parser
fresh = new_parser 0 (0 ∷ 0 ∷ 0 ∷ 0 ∷ [])

fresh-IsValid : IsValid fresh
fresh-IsValid = ground arith

fresh-IsReady : IsReady fresh
fresh-IsReady = record { whole = refl; normal = refl }

-- `ESC [ 7 ; A é`
abbrev mixed : List ℕ
mixed = 27 ∷ 91 ∷ 55 ∷ 59 ∷ 65 ∷ 195 ∷ 169 ∷ []

process_messages-IsValid_example :
    (r : Parser × List Action) × (process_messages
        (new_parser 200 (1 ∷ 2 ∷ 3 ∷ 4 ∷ []))
        (mixed ∷ [] ∷ mixed ∷ [])
      ≡ some r)
    × IsValid r.0
    × All IsWrite r.1
process_messages-IsValid_example =
    process_messages-IsValid 200 (1 ∷ 2 ∷ 3 ∷ 4 ∷ []) (mixed ∷ [] ∷ mixed ∷ []) refl (ground arith)

-- `é`, a carriage return, a line feed and the euro sign.
abbrev two_lines : List ℕ
two_lines = 233 ∷ 13 ∷ 10 ∷ 8364 ∷ []

two_lines-IsText : All IsText two_lines
two_lines-IsText = ground arith

process_message-encode_all_example :
    (t : Parser) × (actions : List Action) × (process_message fresh (encode_all two_lines)
      ≡ some (t, actions))
    × (content actions ≡ map unit (crlf (map to_unit two_lines)))
    × IsReady t
process_message-encode_all_example =
    process_message-encode_all fresh two_lines fresh-IsReady refl two_lines-IsText

parse-encode_example :
    (os : List Output) × (parse fresh (encode 8364) ≡ some ((printed fresh 8364).0, os))
    × (items os ≡ items ((printed fresh 8364).1 ∷ []))
parse-encode_example = parse-encode fresh 8364 fresh-IsReady (ground arith) (omega arith)

process_message-sequence_example :
    (t : Parser) × (actions : List Action) × (process_message fresh (sequence up (1 ∷ 2 ∷ []))
      ≡ some (t, actions))
    × (content actions ≡ done (motion up (amount (1 ∷ 2 ∷ []))) ∷ [])
    × IsReady t
process_message-sequence_example =
    process_message-sequence fresh up (1 ∷ 2 ∷ []) fresh-IsReady (omega arith) (ground arith)
      (unfold amount value in omega arith)

-- The bytes of the euro sign, cut after the first.
abbrev cut : Parser
cut = record fresh { decoder = record { bytes_left = 2; codepoint = 2 } }

head_runs : process_message fresh (226 ∷ []) ≡ some (cut, [])
unfolding process_message parse process_byte iteration deliver_all decode_byte parse_escape print
head_runs = refl

-- The euro sign has been sent, on the way from its last byte.
abbrev after_euro : Parser
after_euro = record fresh { decoder = record { bytes_left = 0; codepoint = 8364 } }

abbrev sent_euro : List Action
sent_euro = write_text (8364 ∷ []) ∷ []

tail_runs : process_message cut (130 ∷ 172 ∷ []) ≡ some (after_euro, sent_euro)
unfolding process_message parse process_byte iteration deliver_all decode_byte parse_escape print
tail_runs = refl

process_message-append_example :
    (z : List Action) × (process_message fresh (226 ∷ 130 ∷ 172 ∷ []) ≡ some (after_euro, z))
    × (content z ≡ content [] ++ content sent_euro)
process_message-append_example =
    process_message-append fresh (226 ∷ []) (130 ∷ 172 ∷ []) head_runs tail_runs
