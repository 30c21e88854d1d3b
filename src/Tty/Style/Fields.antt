-- ===== src/Tty/Style/Fields.antt =====
-- What a change of style does to the fields of the attribute word.
use lua_node.Base.{
  ℕ, ◌+◌, ◌*◌, ◌/◌, ◌%◌, ◌≡◌, refl, ap, ◌∙◌, Bool, true, false, Option, none, some, arith,
}
use lua_node.Tty.Style.{
  Style, set_color, set_bright, apply_style, or_bit_if, and_not_bit, bit_is_set,
}

-- The three colour bits stand the other way round in the word.
unfoldable pub mirror : ℕ → ℕ
mirror c = c % 2 * 4 + c / 2 % 2 * 2 + c / 4 % 2

unfoldable pub color_or : Option ℕ → ℕ → ℕ
color_or none old = old
color_or (some c) old = mirror c

unfoldable pub bright_or : Option Bool → ℕ → ℕ
bright_or none old = old
bright_or (some true) old = 1
bright_or (some false) old = 0

clear_text :
    (word : ℕ)
    → let r = and_not_bit 1 (and_not_bit 2 (and_not_bit 4 word)) in (r % 8 ≡ 0) × (r / 8 ≡ word / 8)
clear_text word = ground arith

paint_text :
    (r : ℕ) (c : ℕ)
    → r % 8 ≡ 0
    → let p =
        or_bit_if
          (bit_is_set 4 c)
          1
          (or_bit_if (bit_is_set 2 c) 2 (or_bit_if (bit_is_set 1 c) 4 r)) in
      (p % 8 ≡ mirror c) × (p / 8 ≡ r / 8)
unfolding mirror
paint_text r c h = ground arith

clear_back :
    (word : ℕ)
    → let r = and_not_bit 16 (and_not_bit 32 (and_not_bit 64 word)) in
      (r / 16 % 8 ≡ 0) × (r % 16 ≡ word % 16) × (r / 128 ≡ word / 128)
clear_back word = ground arith

paint_back :
    (r : ℕ) (c : ℕ)
    → r / 16 % 8 ≡ 0
    → let p =
        or_bit_if
          (bit_is_set 4 c)
          16
          (or_bit_if (bit_is_set 2 c) 32 (or_bit_if (bit_is_set 1 c) 64 r)) in
      (p / 16 % 8 ≡ mirror c) × (p % 16 ≡ r % 16) × (p / 128 ≡ r / 128)
unfolding mirror
paint_back r c h = ground arith

color_text :
    (o : Option ℕ) (word : ℕ)
    → (set_color 1 o word % 8 ≡ color_or o (word % 8)) × (set_color 1 o word / 8 ≡ word / 8)
unfolding set_color color_or
color_text none word = (refl, refl)
color_text (some c) word =
    let (z, same) = clear_text word in
    let (m, kept) = paint_text (and_not_bit 1 (and_not_bit 2 (and_not_bit 4 word))) c z in
    (m, kept ∙ same)

color_back :
    (o : Option ℕ) (word : ℕ)
    → (set_color 16 o word / 16 % 8 ≡ color_or o (word / 16 % 8))
      × (set_color 16 o word % 16 ≡ word % 16)
      × (set_color 16 o word / 128 ≡ word / 128)
unfolding set_color color_or
color_back none word = (refl, refl, refl)
color_back (some c) word =
    let (z, low, high) = clear_back word in
    let (m, l, h) = paint_back (and_not_bit 16 (and_not_bit 32 (and_not_bit 64 word))) c z in
    (m, l ∙ low, h ∙ high)

bright_text :
    (o : Option Bool) (word : ℕ)
    → (set_bright 8 o word / 8 % 2 ≡ bright_or o (word / 8 % 2))
      × (set_bright 8 o word % 8 ≡ word % 8)
      × (set_bright 8 o word / 16 ≡ word / 16)
unfolding set_bright bright_or
bright_text none word = (refl, refl, refl)
bright_text (some true) word = ground arith
bright_text (some false) word = ground arith

bright_back :
    (o : Option Bool) (word : ℕ)
    → (set_bright 128 o word / 128 % 2 ≡ bright_or o (word / 128 % 2))
      × (set_bright 128 o word % 128 ≡ word % 128)
      × (set_bright 128 o word / 256 ≡ word / 256)
unfolding set_bright bright_or
bright_back none word = (refl, refl, refl)
bright_back (some true) word = ground arith
bright_back (some false) word = ground arith

-- The four fields of an attribute word, and the bits above them.
pub record Fields (word : ℕ) (text back text_bright back_bright above : ℕ) : Type 0 where
  pub text_is : word % 8 ≡ text
  pub text_bright_is : word / 8 % 2 ≡ text_bright
  pub back_is : word / 16 % 8 ≡ back
  pub back_bright_is : word / 128 % 2 ≡ back_bright
  pub above_is : word / 256 ≡ above

-- A style sets the fields that it names, a colour with its three bits mirrored, and leaves each other
-- field and the bits above them as they were.
pub apply_style-Fields :
    (s : Style) (word : ℕ)
    → Fields
        (apply_style s word)
        (color_or s.fg_color (word % 8))
        (color_or s.bg_color (word / 16 % 8))
        (bright_or s.fg_bright (word / 8 % 2))
        (bright_or s.bg_bright (word / 128 % 2))
        (word / 256)
unfolding apply_style
apply_style-Fields s word =
    let word1 = set_color 1 s.fg_color word in
    let word2 = set_bright 8 s.fg_bright word1 in
    let word3 = set_color 16 s.bg_color word2 in
    let (a, a1) = color_text s.fg_color word in
    let (b, b1, b2) = bright_text s.fg_bright word1 in
    let (c, c1, c2) = color_back s.bg_color word2 in
    let (d, d1, d2) = bright_back s.bg_bright word3 in
    record {
      text_is = omega (arith, a, b1, c1, d1);
      text_bright_is = omega (arith, b, c1, d1) ∙ ap (λ k. bright_or s.fg_bright (k % 2)) a1;
      back_is =
          omega (arith, c, d1) ∙ ap (λ k. color_or s.bg_color (k % 8)) (b2 ∙ omega (arith, a1));
      back_bright_is = d ∙ ap (λ k. bright_or s.bg_bright (k % 2)) (c2 ∙ omega (arith, b2, a1));
      above_is = omega (arith, d2, c2, b2, a1);
    }

-- Attribute words with the same fields are the same.
pub Fields-unique : (v w : ℕ) {a b c d e : ℕ} → Fields v a b c d e → Fields w a b c d e → v ≡ w
Fields-unique v w f g = omega arith
