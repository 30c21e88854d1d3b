-- ===== src/Base/Text.antt =====
-- Texts as lists of bytes, compared.
use Prim.Native.Char.{code}
use Prim.Native.String.{String}
use Prim.Native.Nat.{ℕ}
use mathlib.Core.Path.{◌≡◌, refl}
use mathlib.Core.Logic.{◌↔◌}
use mathlib.Core.Bool.{Bool, true, false, ◌&&◌}
use mathlib.Core.List.{List, [], ◌∷◌}
use native.Mathlib.Omega.{arith}
use lua_node.Base.Tests.{◌==◌}

abbrev pub Text : Type 0
Text = List ℕ

-- The bytes of a literal.
abbrev pub codes : String → Text
codes String.[] = []
codes (String.◌∷◌ c s) = code c ∷ codes s

-- strcmp(a, b) == 0
unfoldable pub same_text : Text → Text → Bool
same_text [] [] = true
same_text [] (c ∷ cs) = false
same_text (b ∷ bs) [] = false
same_text (b ∷ bs) (c ∷ cs) = b == c && same_text bs cs

-- strstr(text, prefix) == text
unfoldable pub starts_with : Text → Text → Bool
starts_with [] text = true
starts_with (b ∷ bs) [] = false
starts_with (b ∷ bs) (c ∷ cs) = b == c && starts_with bs cs

pub same_text_iff : (a b : Text) → (same_text a b ≡ true) ↔ (a ≡ b)
unfolding same_text
same_text_iff [] [] = (λ h. refl, λ h. refl)
same_text_iff [] (c ∷ cs) = (λ h. cc, λ h. cc)
same_text_iff (b ∷ bs) [] = (λ h. cc, λ h. cc)
same_text_iff (b ∷ bs) (c ∷ cs) =
    (λ h. ground (arith, same_text_iff bs cs), λ h. ground (arith, same_text_iff bs cs))
