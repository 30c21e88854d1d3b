-- ===== src/Tty/Message/Text.antt =====
-- Plain text: what is printed for a character that starts no escape sequence.
use lua_node.Base.{
  ℕ, ◌+◌, ◌*◌, ◌/◌, ◌%◌, ◌^◌, ◌<◌, ◌≡◌, ◌≢◌, refl, subst, true, some, List, [], ◌∷◌, ◌++◌, arith,
  ltb, Bool-cases, inl, inr,
}
use lua_node.Tty.Utf8.{Decoder, decode_byte}
use lua_node.Tty.Utf8.Encode.{encode, start_ascii, start_two, start_three, start_four, continuation}
use lua_node.Tty.Ansi.{Parser, Output, silent, is_normal, print}
use lua_node.Tty.Ansi.Safety.{parse_escape_plain}
use lua_node.Tty.Message.Chunks.{items}
use lua_node.Tty.Message.{process_byte, parse, iteration}

-- Between two characters, and outside of an escape sequence.
pub record IsReady (s : Parser) : Type 0 where
  pub whole : s.bytes_left ≡ 0
  pub normal : is_normal s.ansi ≡ true

-- Neither ESC nor the one-character CSI.
abbrev pub IsPlain : ℕ → Type 0
IsPlain c = (c ≢ 27) × (c ≢ 155)

module _ (s : Parser) (c : ℕ) (d : Decoder) (decoded : decode_byte s.decoder c ≡ (d, true)) where
  byte_more : d.bytes_left ≢ 0 → process_byte s c ≡ some (record s { decoder = d }, silent ∷ [])
  unfolding process_byte iteration
  byte_more h = rw (decoded, iteration) (ground arith)

  byte_last :
      d.bytes_left ≡ 0
      → is_normal s.ansi ≡ true
      → IsPlain d.codepoint
      → process_byte s c
        ≡ some ((print (record s { decoder = d })).0, (print (record s { decoder = d })).1 ∷ [])
  unfolding process_byte iteration
  byte_last z n p =
      ground (arith, decoded, parse_escape_plain (record s { decoder = d }) d.codepoint n p.0 p.1)

-- A character of the text, printed from the state in which its bytes were read.
abbrev pub printed : Parser → ℕ → Parser × Output
printed s c = print (record s { decoder = record { bytes_left = 0; codepoint = c } })

module _ (s : Parser) (c : ℕ) (d : Decoder) (decoded : decode_byte s.decoder c ≡ (d, true)) where
  parse_more :
      (rest : List ℕ) {t : Parser} {os : List Output}
      → d.bytes_left ≢ 0
      → parse (record s { decoder = d }) rest ≡ some (t, os)
      → parse s (c ∷ rest) ≡ some (t, silent ∷ os)
  unfolding parse
  parse_more rest h e = rw (byte_more s c d decoded h, e)

  parse_last :
      d.bytes_left ≡ 0
      → is_normal s.ansi ≡ true
      → IsPlain d.codepoint
      → parse s (c ∷ [])
        ≡ some ((print (record s { decoder = d })).0, (print (record s { decoder = d })).1 ∷ [])
  unfolding parse
  parse_last z n p = rw (byte_last s c d decoded z n p)

abbrev mid : Parser → ℕ → ℕ → Parser
mid s k p = record s { decoder = record { bytes_left = k; codepoint = p } }

parse_tail1 :
    (s : Parser) (p q : ℕ)
    → is_normal s.ansi ≡ true
    → p < 2 ^ 16
    → q < 64
    → IsPlain (p * 64 + q)
    → parse (mid s 1 p) ((128 + q) ∷ [])
      ≡ some ((printed s (p * 64 + q)).0, (printed s (p * 64 + q)).1 ∷ [])
parse_tail1 s p q n h g plain =
    parse_last (mid s 1 p) (128 + q) (record { bytes_left = 0; codepoint = p * 64 + q })
      (continuation 0 p q h g) refl n plain

parse_tail2 :
    (s : Parser) (p q r : ℕ)
    → is_normal s.ansi ≡ true
    → p < 2 ^ 10
    → q < 64
    → r < 64
    → IsPlain ((p * 64 + q) * 64 + r)
    → parse (mid s 2 p) ((128 + q) ∷ (128 + r) ∷ [])
      ≡ some (
        (printed s ((p * 64 + q) * 64 + r)).0,
        silent ∷ (printed s ((p * 64 + q) * 64 + r)).1 ∷ [],
      )
parse_tail2 s p q r n h g k plain =
    parse_more (mid s 2 p) (128 + q) (record { bytes_left = 1; codepoint = p * 64 + q })
      (continuation 1 p q (omega arith) g) ((128 + r) ∷ []) (omega arith)
      (parse_tail1 s (p * 64 + q) r n (omega arith) k plain)

abbrev Prints : Parser → ℕ → List ℕ → List Output → Type 0
Prints s c bytes before = parse s bytes ≡ some ((printed s c).0, before ++ (printed s c).1 ∷ [])

module _ (s : Parser) (c : ℕ) (r : IsReady s) (p : IsPlain c) where
  Prints-one : c < 0x80 → Prints s c (c ∷ []) []
  Prints-one h = parse_last s c _ (start_ascii s.decoder c r.whole h) refl r.normal p

  Prints-two : c < 0x800 → Prints s c ((192 + c / 64) ∷ (128 + c % 64) ∷ []) (silent ∷ [])
  Prints-two h =
      let e : c / 64 * 64 + c % 64 ≡ c = omega arith in
      subst (λ k. Prints s k ((192 + c / 64) ∷ (128 + c % 64) ∷ []) (silent ∷ [])) e
        (parse_more s (192 + c / 64) (record { bytes_left = 1; codepoint = c / 64 })
          (start_two s.decoder (c / 64) r.whole (omega arith)) _ (omega arith)
          (parse_tail1 s (c / 64) (c % 64) r.normal (omega arith) (omega arith) (rw e p)))

  Prints-three :
      c < 0x10000
      → Prints s c
          ((224 + c / 4096) ∷ (128 + (c / 64) % 64) ∷ (128 + c % 64) ∷ [])
          (silent ∷ silent ∷ [])
  Prints-three h =
      let e : (c / 4096 * 64 + (c / 64) % 64) * 64 + c % 64 ≡ c = omega arith in
      subst
        (λ k.
          Prints s k ((224 + c / 4096) ∷ (128 + (c / 64) % 64) ∷ (128 + c % 64) ∷ [])
            (silent ∷ silent ∷ []))
        e
        (parse_more s (224 + c / 4096) (record { bytes_left = 2; codepoint = c / 4096 })
          (start_three s.decoder (c / 4096) r.whole (omega arith)) _ (omega arith)
          (parse_tail2 s (c / 4096) ((c / 64) % 64) (c % 64) r.normal (omega arith) (omega arith)
            (omega arith) (rw e p)))

  Prints-four :
      c < 0x110000
      → Prints s c
          ((240 + c / 262144)
            ∷ (128 + (c / 4096) % 64)
            ∷ (128 + (c / 64) % 64)
            ∷ (128 + c % 64)
            ∷ [])
          (silent ∷ silent ∷ silent ∷ [])
  Prints-four h =
      let q : ℕ = c / 262144 * 64 + (c / 4096) % 64 in
      let e : (q * 64 + (c / 64) % 64) * 64 + c % 64 ≡ c = omega arith in
      subst
        (λ k.
          Prints s k
            ((240 + c / 262144)
              ∷ (128 + (c / 4096) % 64)
              ∷ (128 + (c / 64) % 64)
              ∷ (128 + c % 64)
              ∷ [])
            (silent ∷ silent ∷ silent ∷ []))
        e
        (parse_more s (240 + c / 262144) (record { bytes_left = 3; codepoint = c / 262144 })
          (start_four s.decoder (c / 262144) r.whole (omega arith)) _ (omega arith)
          (parse_more (mid s 3 (c / 262144)) (128 + (c / 4096) % 64)
            (record { bytes_left = 2; codepoint = q })
            (continuation 2 (c / 262144) ((c / 4096) % 64) (omega arith) (omega arith)) _
            (omega arith)
            (parse_tail2 s q ((c / 64) % 64) (c % 64) r.normal (omega arith) (omega arith)
              (omega arith) (rw e p))))

-- Every character of Unicode up to 0x10ffff that starts no escape sequence, given in UTF-8 to a parser
-- that is between characters, is printed as that character (its bytes themselves print nothing).
-- How it is printed, the replacement of those above 0xffff included, is `print`.
pub parse-encode :
    (s : Parser) (c : ℕ)
    → IsReady s
    → IsPlain c
    → c < 0x110000
    → (os : List Output) × (parse s (encode c) ≡ some ((printed s c).0, os))
      × (items os ≡ items ((printed s c).1 ∷ []))
unfolding encode
parse-encode s c r p h = elim (Bool-cases (ltb c 0x80)) [
  | inl e1 ↦ ((printed s c).1 ∷ [], rw (e1, encode) (Prints-one s c r p (ground arith)), refl)
  | inr e1 ↦ elim (Bool-cases (ltb c 0x800)) [
    | inl e2 ↦ (
      silent ∷ (printed s c).1 ∷ [],
      rw (e1, e2, encode) (Prints-two s c r p (ground arith)),
      refl,
    )
    | inr e2 ↦ elim (Bool-cases (ltb c 0x10000)) [
      | inl e3 ↦ (
        silent ∷ silent ∷ (printed s c).1 ∷ [],
        rw (e1, e2, e3, encode) (Prints-three s c r p (ground arith)),
        refl,
      )
      | inr e3 ↦ (
        silent ∷ silent ∷ silent ∷ (printed s c).1 ∷ [],
        rw (e1, e2, e3, encode) (Prints-four s c r p h),
        refl,
      )
    ]
  ]
]
