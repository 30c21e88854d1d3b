-- ===== src/Tty/Utf8.antt =====
-- The UTF-8 decoder at the head of the loop of `ProcessMessage` (src/detail/windows/output_tty.cpp),
-- as built with `_BitScanReverse`. A byte is a number below 256; `x & (2^k - 1)` is `x % 2 ^ k`.
pub mod Encode
use lua_node.Base.{
  ℕ, zero, suc, ◌+◌, ◌-◌, ◌*◌, ◌/◌, ◌%◌, ◌^◌, Bool, true, false, Option, none, some, leb, ◌==◌,
  if◌then◌else◌,
}

pub record Decoder : Type 0 where
  pub bytes_left : ℕ
  pub codepoint : ℕ

abbrev pub replacement_character : ℕ
replacement_character = 0xfffd

scan_bits : ℕ → ℕ → Option ℕ
scan_bits zero n = none
scan_bits (suc k) n = let rest = scan_bits k n in if leb (2 ^ k) n then some k else rest

-- `_BitScanReverse` on a byte: the position of the highest bit that is set.
bit_scan_reverse : ℕ → Option ℕ
unfolding scan_bits
bit_scan_reverse n = scan_bits 8 n

-- A byte read where no continuation is due; `none` is the byte 0xff.
start_byte : ℕ → Decoder
unfolding bit_scan_reverse
start_byte c = elim (bit_scan_reverse (255 - c)) [
  | none ↦ record { bytes_left = 0; codepoint = replacement_character }
  | some first_zero_bit ↦
      if first_zero_bit == 7
      then record { bytes_left = 0; codepoint = c }
      else if leb first_zero_bit 5
      then record { bytes_left = 6 - first_zero_bit; codepoint = c % 2 ^ first_zero_bit }
      else record { bytes_left = 0; codepoint = replacement_character }
]

-- The flag is false where the code steps back (`j--`), to read the byte again.
unfoldable pub decode_byte : Decoder → ℕ → Decoder × Bool
unfolding start_byte
decode_byte d c =
    if d.bytes_left == 0
    then (start_byte c, true)
    else if c / 64 == 2
    then (
      record { bytes_left = d.bytes_left - 1; codepoint = (d.codepoint * 64) % 2 ^ 32 + c % 64 },
      true,
    )
    else (record { bytes_left = 0; codepoint = replacement_character }, false)
