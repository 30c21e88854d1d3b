-- ===== src/Tty/Style.antt =====
-- `tty_SetStyle` of src/detail/windows/output_tty.cpp: the arguments of `ESC [ ... m` and the
-- attribute word of the console. `none` stands for the value -1 of the source's variables.
pub mod Fields
pub mod Compose
use lua_node.Base.{
  ℕ, ◌+◌, ◌-◌, ◌*◌, ◌/◌, ◌%◌, Bool, true, false, ◌&&◌, ◌||◌, Option, none, some, List, [], ◌∷◌, leb,
  ◌==◌, if◌then◌else◌,
}

pub record Style : Type 0 where
  pub fg_color : Option ℕ
  pub bg_color : Option ℕ
  pub fg_bright : Option Bool
  pub bg_bright : Option Bool

abbrev pub no_style : Style
no_style = record { fg_color = none; bg_color = none; fg_bright = none; bg_bright = none }

abbrev pub reset_style : Style
reset_style = record {
  fg_color = some 7;
  bg_color = some 0;
  fg_bright = some false;
  bg_bright = some false;
}

abbrev in_range : ℕ → ℕ → ℕ → Bool
in_range lo hi n = leb lo n && leb n hi

-- The body of the loop over the arguments.
unfoldable pub style_arg : Style → ℕ → Style
style_arg s arg =
    if arg == 0
    then reset_style
    else if arg == 1
    then record s { fg_bright = some true }
    else if arg == 2
    then record s { fg_bright = some false; bg_bright = some false }
    else if arg == 5
    then record s { bg_bright = some true }
    else if arg == 21 || arg == 22
    then record s { fg_bright = some false }
    else if arg == 25
    then record s { bg_bright = some false }
    else if in_range 30 37 arg
    then record s { fg_color = some (arg - 30) }
    else if arg == 39
    then record s { fg_color = some 7; fg_bright = some false }
    else if in_range 40 47 arg
    then record s { bg_color = some (arg - 40) }
    else if arg == 49
    then record s { bg_color = some 0 }
    else if in_range 90 97 arg
    then record s { fg_bright = some true; fg_color = some (arg - 90) }
    else if in_range 100 107 arg
    then record s { bg_bright = some true; bg_color = some (arg - 100) }
    else s

style_args : Style → List ℕ → Style
style_args s [] = s
style_args s (arg ∷ rest) = style_args (style_arg s arg) rest

unfoldable pub read_style : List ℕ → Style
unfolding style_args
read_style [] = reset_style
read_style (arg ∷ rest) = style_args no_style (arg ∷ rest)

-- `word | bit` and `word & ~bit`, for one bit.
abbrev pub bit_is_set : ℕ → ℕ → Bool
bit_is_set bit word = (word / bit) % 2 == 1

abbrev pub or_bit : ℕ → ℕ → ℕ
or_bit bit word = if bit_is_set bit word then word else word + bit

abbrev pub and_not_bit : ℕ → ℕ → ℕ
and_not_bit bit word = if bit_is_set bit word then word - bit else word

abbrev or_bit_if : Bool → ℕ → ℕ → ℕ
or_bit_if b bit word = if b then or_bit bit word else word

-- The colour bits, blue lowest, of the text (scale 1) or of the background (scale 16).
set_color : ℕ → Option ℕ → ℕ → ℕ
set_color scale none word = word
set_color scale (some c) word =
    let cleared =
      and_not_bit (1 * scale) (and_not_bit (2 * scale) (and_not_bit (4 * scale) word)) in
    let red = or_bit_if (bit_is_set 1 c) (4 * scale) cleared in
    let green = or_bit_if (bit_is_set 2 c) (2 * scale) red in
    or_bit_if (bit_is_set 4 c) (1 * scale) green

set_bright : ℕ → Option Bool → ℕ → ℕ
set_bright bit none word = word
set_bright bit (some true) word = or_bit bit word
set_bright bit (some false) word = and_not_bit bit word

-- The new attribute word; the constants are those of the console's interface.
unfoldable pub apply_style : Style → ℕ → ℕ
unfolding set_color set_bright
apply_style s word0 =
    let word1 = set_color 1 s.fg_color word0 in
    let word2 = set_bright 8 s.fg_bright word1 in
    let word3 = set_color 16 s.bg_color word2 in set_bright 128 s.bg_bright word3

-- Nothing is to be changed.
unfoldable pub is_empty : Style → Bool
is_empty s =
    no_color s.fg_color && no_color s.bg_color && no_bright s.fg_bright && no_bright s.bg_bright
  where
    no_color : Option ℕ → Bool
    no_color none = true
    no_color (some c) = false

    no_bright : Option Bool → Bool
    no_bright none = true
    no_bright (some b) = false
