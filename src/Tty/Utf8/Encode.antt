-- ===== src/Tty/Utf8/Encode.antt =====
-- The standard encoder (RFC 3629), as the specification of the decoder.
use lua_node.Base.{
  ℕ, ◌+◌, ◌*◌, ◌/◌, ◌%◌, ◌^◌, ◌<◌, ◌≡◌, true, List, [], ◌∷◌, arith, ltb, if◌then◌else◌,
}
use lua_node.Tty.Utf8.{Decoder, decode_byte}

unfoldable pub encode : ℕ → List ℕ
encode c =
    if ltb c 0x80
    then c ∷ []
    else if ltb c 0x800
    then (192 + c / 64) ∷ (128 + c % 64) ∷ []
    else if ltb c 0x10000
    then (224 + c / 4096) ∷ (128 + (c / 64) % 64) ∷ (128 + c % 64) ∷ []
    else (240 + c / 262144) ∷ (128 + (c / 4096) % 64) ∷ (128 + (c / 64) % 64) ∷ (128 + c % 64) ∷ []

pub start_ascii :
    (d : Decoder) (c : ℕ)
    → d.bytes_left ≡ 0
    → c < 128
    → decode_byte d c ≡ (record { bytes_left = 0; codepoint = c }, true)
unfolding decode_byte
start_ascii d c e h = ground arith

pub start_two :
    (d : Decoder) (q : ℕ)
    → d.bytes_left ≡ 0
    → q < 32
    → decode_byte d (192 + q) ≡ (record { bytes_left = 1; codepoint = q }, true)
unfolding decode_byte
start_two d q e h = ground arith

pub start_three :
    (d : Decoder) (q : ℕ)
    → d.bytes_left ≡ 0
    → q < 16
    → decode_byte d (224 + q) ≡ (record { bytes_left = 2; codepoint = q }, true)
unfolding decode_byte
start_three d q e h = ground arith

pub start_four :
    (d : Decoder) (q : ℕ)
    → d.bytes_left ≡ 0
    → q < 8
    → decode_byte d (240 + q) ≡ (record { bytes_left = 3; codepoint = q }, true)
unfolding decode_byte
start_four d q e h = ground arith

pub continuation :
    (k p q : ℕ)
    → p < 2 ^ 16
    → q < 64
    → decode_byte (record { bytes_left = 1 + k; codepoint = p }) (128 + q)
      ≡ (record { bytes_left = k; codepoint = p * 64 + q }, true)
unfolding decode_byte
continuation k p q h g = ground arith
