-- ===== src/Tty/Message/Args.antt =====
-- The numerical argument of a control sequence, from its decimal digits.
use lua_node.Base.{
  ℕ, ◌+◌, ◌-◌, ◌*◌, ◌%◌, ◌^◌, ◌≤◌, ◌<◌, ◌≡◌, refl, ◌∙◌, false, some, List, [], ◌∷◌, map, arith, ltb,
  length, set, All,
}
use lua_node.Tty.Utf8.Encode.{start_ascii}
use lua_node.Tty.Ansi.{Parser, Output, silent, ansi_csi, parse_escape}
use lua_node.Tty.Ansi.Handlers.{
  csi_in_arg, get_or-set_self, set-set, parse_escape_first, parse_escape_next,
}
use lua_node.Tty.Message.Chunks.{items}
use lua_node.Tty.Message.{iteration, process_byte, parse}

pub byte_ascii :
    (s : Parser) (c : ℕ) {t : Parser} {o : Output}
    → s.bytes_left ≡ 0
    → c < 128
    → parse_escape (record s { decoder = record { bytes_left = 0; codepoint = c } }) c
      ≡ some (t, some o)
    → process_byte s c ≡ some (t, o ∷ [])
unfolding process_byte iteration
byte_ascii s c z h e = ground (arith, start_ascii s.decoder c z h)

-- Decimal digits, the most significant first, after the value `v`.
unfoldable pub value : ℕ → List ℕ → ℕ
value v [] = v
value v (d ∷ ds) = value (10 * v + d) ds

le-value : (v : ℕ) (ds : List ℕ) → v ≤ value v ds
unfolding value
le-value v [] = omega arith
le-value v (d ∷ ds) = omega (arith, le-value (10 * v + d) ds)

abbrev pub digit_char : ℕ → ℕ
digit_char d = 48 + d

-- In a sequence, with the argument `v` read so far, and `c` the last byte.
unfoldable pub arg_state : Parser → ℕ → ℕ → Parser
arg_state s v c = record s {
  decoder = record { bytes_left = 0; codepoint = c };
  ansi = csi_in_arg;
  argc = s.argc + 1;
  argv = set s.argv s.argc v;
}

pub first_digit :
    (s : Parser) (d : ℕ)
    → s.bytes_left ≡ 0
    → s.ansi ≡ ansi_csi
    → s.argc < 4
    → d < 10
    → process_byte s (48 + d) ≡ some (arg_state s d (48 + d), silent ∷ [])
unfolding arg_state
first_digit s d z e h k = byte_ascii s (48 + d) z (omega arith) (
    parse_escape_first (record s { decoder = record { bytes_left = 0; codepoint = 48 + d } }) d e h
      k)

next_digit :
    (s : Parser) (v c d : ℕ)
    → s.argc < length s.argv
    → d < 10
    → 10 * v + d ≤ 65535
    → process_byte (arg_state s v c) (48 + d)
      ≡ some (arg_state s (10 * v + d) (48 + d), silent ∷ [])
unfolding arg_state
next_digit s v c d h k b =
    let t = arg_state s v c in
    let t' = record t { decoder = record { bytes_left = 0; codepoint = 48 + d } } in
    let i : s.argc + 1 - 1 ≡ s.argc = omega arith in
    let e : (10 * v + d) % 2 ^ 16 ≡ 10 * v + d = omega arith in
    let w : ltb 65535 (10 * v) ≡ false = ground arith in
    byte_ascii t (48 + d) refl (omega arith) (
      parse_escape_next t' v d refl (omega arith) (rw i (get_or-set_self s.argv s.argc v 0 h)) k
      ∙ rw (i, w, e, set-set s.argv s.argc v (10 * v + d)))

pub parse-digits :
    (s : Parser) (v c : ℕ) (ds : List ℕ)
    → s.argc < length s.argv
    → All (λ d. d < 10) ds
    → value v ds ≤ 65535
    → (c' : ℕ) × (os : List Output) × (parse (arg_state s v c) (map digit_char ds)
        ≡ some (arg_state s (value v ds) c', os))
      × (items os ≡ [])
unfolding parse value
parse-digits s v c [] h a b = (c, [], refl, refl)
parse-digits s v c (d ∷ ds) h a b =
    let (c', os, e, i) = parse-digits s (10 * v + d) (48 + d) ds h a.1 b in
    (c', silent ∷ os, rw (next_digit s v c d h a.0 (omega (arith, le-value (10 * v + d) ds)), e), i)
