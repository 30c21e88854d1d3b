-- ===== src/Crypto/Hex.antt =====
-- Bytes as text: `tohex`, `encode_output` and the fingerprint of a certificate (src/luanode_crypto.cpp).
pub mod Decode
pub mod Fingerprint
use lua_node.Base.{
  ℕ, ◌+◌, ◌-◌, ◌*◌, ◌/◌, ◌%◌, ◌<◌, Bool, true, false, List, [], ◌∷◌, ◌++◌, ltb, ◌==◌, if◌then◌else◌,
  length, set, get_or,
}

abbrev pub IsByte : ℕ → Type 0
IsByte c = c < 256

-- m_outputMode: an index of `encoding_options`.
pub data OutputMode : Type 0 where
  binary hex : OutputMode

-- A digit of `tohex`, of a value below 16.
unfoldable pub hex_digit : ℕ → ℕ
hex_digit n = if ltb 9 n then n + (97 - 10) else n + 48

-- A byte's two digits: `c >> 4` and `c & 15`.
unfoldable pub tohex : ℕ → List ℕ
tohex c = hex_digit (c / 16) ∷ hex_digit (c % 16) ∷ []

unfoldable pub hex_of : List ℕ → List ℕ
hex_of [] = []
hex_of (c ∷ cs) = tohex c ++ hex_of cs

unfoldable pub encode_output : OutputMode → List ℕ → List ℕ
encode_output binary bytes = bytes
encode_output hex bytes = hex_of bytes

-- "0123456789ABCDEF"
abbrev pub upper_digits : List ℕ
upper_digits = 48 ∷ 49 ∷ 50 ∷ 51 ∷ 52 ∷ 53 ∷ 54 ∷ 55 ∷ 56 ∷ 57 ∷ 65 ∷ 66 ∷ 67 ∷ 68 ∷ 69 ∷ 70 ∷ []

abbrev pub upper_digit : ℕ → ℕ
upper_digit n = get_or upper_digits n 0

-- The loop over the digest, which writes three characters for each byte: `(md[i] & 0xf0) >> 4` and
-- `md[i] & 0x0f` choose the digits.
unfoldable pub fingerprint_digits : List ℕ → List ℕ
fingerprint_digits [] = []
fingerprint_digits (c ∷ cs) =
    upper_digit (c / 16) ∷ upper_digit (c % 16) ∷ 58 ∷ fingerprint_digits cs

-- What `lua_pushstring` reads of the buffer, up to the end of the string.
unfoldable pub c_string : List ℕ → List ℕ
c_string [] = []
c_string (c ∷ cs) = let rest = c_string cs in if c == 0 then [] else c ∷ rest

-- The last colon becomes the end of the string.
unfoldable pub fingerprint : List ℕ → List ℕ
fingerprint md =
    c_string (
      if ltb 0 (length md) then set (fingerprint_digits md) (3 * (length md - 1) + 2) 0 else 0 ∷ [])
