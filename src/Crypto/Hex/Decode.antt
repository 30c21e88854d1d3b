-- ===== src/Crypto/Hex/Decode.antt =====
-- What was encoded can be read back.
use lua_node.Base.{
  ℕ, ◌+◌, ◌-◌, ◌*◌, ◌/◌, ◌%◌, ◌<◌, ◌≡◌, refl, Option, none, some, List, [], ◌∷◌, ◌++◌, ltb,
  if◌then◌else◌, All, arith, ◌>>=◌, append_assoc,
}
use lua_node.Crypto.Hex.{IsByte, hex_digit, tohex, hex_of}

-- A reader of the digits: 0 to 9 and a to f.
unfoldable digit_value : ℕ → Option ℕ
digit_value c =
    if ltb c 48
    then none
    else if ltb c 58
    then some (c - 48)
    else if ltb c 97
    then none
    else if ltb c 103
    then some (c - 87)
    else none

unfoldable pub decode_hex : List ℕ → Option (List ℕ)
unfolding digit_value
decode_hex [] = some []
decode_hex (c ∷ []) = none
decode_hex (c ∷ d ∷ rest) =
    digit_value c
    >>= (λ h. digit_value d >>= (λ l. decode_hex rest >>= (λ cs. some ((h * 16 + l) ∷ cs))))

digit_value-hex_digit : (n : ℕ) → n < 16 → digit_value (hex_digit n) ≡ some n
unfolding digit_value hex_digit
digit_value-hex_digit n h = ground arith

nibbles : (c : ℕ) → IsByte c → (c / 16 < 16) × (c % 16 < 16) × (c / 16 * 16 + c % 16 ≡ c)
nibbles c h = omega arith

-- Reading the hexadecimal digits that were written of any bytes gives the bytes.
pub decode_hex-hex_of : (bytes : List ℕ) → All IsByte bytes → decode_hex (hex_of bytes) ≡ some bytes
unfolding decode_hex hex_of tohex
decode_hex-hex_of [] h = refl
decode_hex-hex_of (c ∷ cs) h =
    let (hi, lo, e) = nibbles c h.0 in
    rw
      (
        digit_value-hex_digit (c / 16) hi,
        digit_value-hex_digit (c % 16) lo,
        decode_hex-hex_of cs h.1,
        e,
      )
      refl

pub hex_of-append : (xs ys : List ℕ) → hex_of (xs ++ ys) ≡ hex_of xs ++ hex_of ys
unfolding hex_of
hex_of-append [] ys = refl
hex_of-append (x ∷ xs) ys =
    rw (hex_of-append xs ys, append_assoc (tohex x) (hex_of xs) (hex_of ys)) refl
