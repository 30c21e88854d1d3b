-- ===== src/Tty/Style/Compose.antt =====
-- Several arguments in one sequence, against as many sequences.
use lua_node.Base.{
  ℕ, ◌≡◌, refl, ap, ◌∙◌, sym, Bool, true, false, Option, none, some, List, [], ◌∷◌, ◌++◌, arith,
}
use lua_node.Tty.Style.{Style, no_style, style_arg, style_args, read_style, apply_style}
use lua_node.Tty.Style.Fields.{Fields-unique, apply_style-Fields, color_or, bright_or}

or_else {ℓ} : {A : Type ℓ} → Option A → Option A → Option A
or_else none old = old
or_else (some a) old = some a

-- The style `s`, and over it `t`.
overlay : Style → Style → Style
overlay s t = record {
  fg_color = or_else t.fg_color s.fg_color;
  bg_color = or_else t.bg_color s.bg_color;
  fg_bright = or_else t.fg_bright s.fg_bright;
  bg_bright = or_else t.bg_bright s.bg_bright;
}

overlay-style_arg :
    (s t : Style) (arg : ℕ) → style_arg (overlay s t) arg ≡ overlay s (style_arg t arg)
unfolding style_arg overlay or_else
overlay-style_arg s t arg = ground arith

overlay-style_args :
    (s t : Style) (args : List ℕ) → style_args (overlay s t) args ≡ overlay s (style_args t args)
unfolding style_args
overlay-style_args s t [] = refl
overlay-style_args s t (arg ∷ rest) =
    rw (overlay-style_arg s t arg) (overlay-style_args s (style_arg t arg) rest)

overlay-no_style : (s : Style) → overlay s no_style ≡ s
unfolding overlay or_else
overlay-no_style s = refl

style_args-append :
    (s : Style) (xs ys : List ℕ) → style_args s (xs ++ ys) ≡ style_args (style_args s xs) ys
unfolding style_args
style_args-append s [] ys = refl
style_args-append s (x ∷ xs) ys = style_args-append (style_arg s x) xs ys

color_or-or_else : (s t : Option ℕ) (k : ℕ) → color_or (or_else t s) k ≡ color_or t (color_or s k)
unfolding or_else color_or
color_or-or_else s none k = refl
color_or-or_else s (some c) k = refl

bright_or-or_else :
    (s t : Option Bool) (k : ℕ) → bright_or (or_else t s) k ≡ bright_or t (bright_or s k)
unfolding or_else bright_or
bright_or-or_else s none k = refl
bright_or-or_else s (some true) k = refl
bright_or-or_else s (some false) k = refl

apply_style-overlay :
    (s t : Style) (word : ℕ) → apply_style (overlay s t) word ≡ apply_style t (apply_style s word)
unfolding overlay
apply_style-overlay s t word =
    let f = apply_style-Fields s word in
    let g = apply_style-Fields t (apply_style s word) in
    let h = apply_style-Fields (overlay s t) word in
    Fields-unique _ _ h (record {
      text_is = g.text_is ∙ ap (color_or t.fg_color) f.text_is ∙ sym (color_or-or_else _ _ _);
      text_bright_is =
          g.text_bright_is
          ∙ ap (bright_or t.fg_bright) f.text_bright_is
          ∙ sym (bright_or-or_else _ _ _);
      back_is = g.back_is ∙ ap (color_or t.bg_color) f.back_is ∙ sym (color_or-or_else _ _ _);
      back_bright_is =
          g.back_bright_is
          ∙ ap (bright_or t.bg_bright) f.back_bright_is
          ∙ sym (bright_or-or_else _ _ _);
      above_is = g.above_is ∙ f.above_is;
    })

-- For two lists of style arguments that are not empty: the attribute word that their concatenation makes of a word
-- is the one that the second makes of what the first makes of it. How many arguments a sequence may have is
-- the parser's concern.
pub apply_style-append :
    (x : ℕ) (xs : List ℕ) (y : ℕ) (ys : List ℕ) (word : ℕ)
    → apply_style (read_style ((x ∷ xs) ++ (y ∷ ys))) word
      ≡ apply_style (read_style (y ∷ ys)) (apply_style (read_style (x ∷ xs)) word)
unfolding read_style
apply_style-append x xs y ys word =
    let s = style_args no_style (x ∷ xs) in
    ap (λ k. apply_style k word)
      (style_args-append no_style (x ∷ xs) (y ∷ ys)
        ∙ ap (λ k. style_args k (y ∷ ys)) (sym (overlay-no_style s))
        ∙ overlay-style_args s no_style (y ∷ ys))
    ∙ apply_style-overlay s (style_args no_style (y ∷ ys)) word
