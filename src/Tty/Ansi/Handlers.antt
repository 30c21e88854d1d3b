-- ===== src/Tty/Ansi/Handlers.antt =====
-- What a digit does in the middle of a control sequence.
use lua_node.Base.{
  ℕ, zero, suc, ◌+◌, ◌-◌, ◌*◌, ◌%◌, ◌^◌, ◌<◌, ◌≡◌, refl, true, false, some, List, [], ◌∷◌, arith,
  ltb, leb, if◌then◌else◌, length, get_or, set,
}
use lua_node.Tty.Ansi.{
  AnsiState, Parser, silent, ansi_normal, ansi_escape_seen, ansi_csi, is_normal, is_escape_seen,
  on_normal, on_escape, csi_command, on_csi, parse_escape,
}

module _ {ℓ} {A : Type ℓ} where
  pub get_or-set_self :
      (xs : List A) (i : ℕ) (v d : A) → i < length xs → get_or (set xs i v) i d ≡ v
  get_or-set_self [] i v d h = elim h [ ]
  get_or-set_self (x ∷ xs) zero v d h = refl
  get_or-set_self (x ∷ xs) (suc i) v d h = get_or-set_self xs i v d (omega arith)

  pub set-set : (xs : List A) (i : ℕ) (v w : A) → set (set xs i v) i w ≡ set xs i w
  set-set [] i v w = refl
  set-set (x ∷ xs) zero v w = refl
  set-set (x ∷ xs) (suc i) v w = rw (set-set xs i v w)

abbrev pub csi_in_arg : AnsiState
csi_in_arg = record ansi_csi { in_arg = true }

pub parse_escape_first :
    (s : Parser) (d : ℕ)
    → s.ansi ≡ ansi_csi
    → s.argc < 4
    → d < 10
    → parse_escape s (48 + d)
      ≡ some (
        record s { ansi = csi_in_arg; argc = s.argc + 1; argv = set s.argv s.argc d },
        some silent,
      )
unfolding parse_escape on_csi
parse_escape_first s d e h k = ground arith

-- The guard of a further digit: with the value so far `v`, the digit `d` gives `10 * v + d` where that fits
-- 16 bits; where already `10 * v` does not, the rest of the sequence is ignored; and between the two
-- the value wraps round and is kept.
pub parse_escape_next :
    (s : Parser) (v d : ℕ)
    → s.ansi ≡ csi_in_arg
    → 0 < s.argc
    → get_or s.argv (s.argc - 1) 0 ≡ v
    → d < 10
    → parse_escape s (48 + d)
      ≡ some (
        if ltb 65535 (10 * v)
            then record s { ansi = record csi_in_arg { ignore = true } }
            else record s { argv = set s.argv (s.argc - 1) ((10 * v + d) % 2 ^ 16) },
        some silent,
      )
unfolding parse_escape on_csi
parse_escape_next s v d e h g k = ground arith

-- A command byte ends the sequence.
pub parse_escape_command :
    (s : Parser) (c : ℕ)
    → s.csi ≡ true
    → s.ignore ≡ false
    → is_escape_seen s.ansi ≡ false
    → leb b'A' c ≡ true
    → leb c b'Z' ≡ true
    → parse_escape s c ≡ some (record s { ansi = ansi_normal }, some (csi_command s c))
unfolding parse_escape on_csi
parse_escape_command s c k g e h h' = ground arith

pub parse_escape_open :
    (s : Parser)
    → is_normal s.ansi ≡ true
    → parse_escape s 27 ≡ some (record s { ansi = ansi_escape_seen }, some silent)
unfolding parse_escape on_normal
parse_escape_open s n = rw n

pub parse_escape_bracket :
    (s : Parser)
    → s.ansi ≡ ansi_escape_seen
    → parse_escape s b'[' ≡ some (record s { ansi = ansi_csi; argc = 0 }, some silent)
unfolding parse_escape on_escape
parse_escape_bracket s n = ground arith
