-- ===== src/Tty/Ansi/Safety.antt =====
-- The invariant of the parser, for every character that reaches it.
use lua_node.Base.{
  ℕ, ◌+◌, ◌-◌, ◌*◌, ◌%◌, ◌^◌, ◌≤◌, ◌<◌, ◌≡◌, ◌≢◌, Bool, true, false, not, ◌&&◌, ◌||◌, Option, none,
  some, arith, leb, ◌==◌, length, get_or, Bool-cases, inl, inr, All, All-set, length-set,
}
use lua_node.Tty.Ansi.{
  AnsiState, Parser, Output, text, is_normal, is_escape_seen, on_normal, on_escape, csi_command,
  on_digit, on_semicolon, on_csi, on_st_control, ignore_rest, parse_escape, print,
}

-- The values that `ansi_parser_state` takes.
abbrev pub is_consistent : AnsiState → Bool
is_consistent a =
    is_normal a
    || is_escape_seen a
    || (a.csi && not (a.escape_seen || a.st_control || a.in_string || a.backslash_seen))
    || (a.st_control
        && not (
            a.csi
            || a.ignore
            || a.in_arg
            || (a.in_string && a.escape_seen)
            || (a.backslash_seen && not a.in_string)))

abbrev IsShort : ℕ → Type 0
IsShort x = x < 65536

pub record IsValid (p : Parser) : Type 0 where
  pub consistent : is_consistent p.ansi ≡ true
  pub arg_started : p.csi ≡ true → p.in_arg ≡ true → 0 < p.argc
  pub argc_fits : p.csi ≡ true → p.argc ≤ 4
  pub argv_size : length p.argv ≡ 4
  pub argv_short : All (λ x. x < 65536) p.argv
  pub eol : (p.previous_eol == 0 || p.previous_eol == 10 || p.previous_eol == 13) ≡ true

on_normal-IsValid : (s : Parser) (c : ℕ) → IsValid s → IsValid (on_normal s c).0
unfolding on_normal
on_normal-IsValid s c v = ground arith

on_escape-IsValid : (s : Parser) (c : ℕ) → IsValid s → IsValid (on_escape s c).0
unfolding on_escape
on_escape-IsValid s c v = ground arith

on_digit-IsValid :
    (s : Parser) (c : ℕ) → s.csi ≡ true → leb c 57 ≡ true → IsValid s → IsValid (on_digit s c)
unfolding on_digit
on_digit-IsValid s c k h v =
    let new : ℕ = c - b'0' in
    let next : ℕ = (10 * get_or s.argv (s.argc - 1) 0 + (c - b'0')) % 2 ^ 16 in
    ground (
      arith,
      length-set s.argv s.argc new,
      length-set s.argv (s.argc - 1) next,
      λ (p : IsShort new). All-set (λ x. x < 65536) s.argv s.argc new v.argv_short p,
      λ (p : IsShort next). All-set (λ x. x < 65536) s.argv (s.argc - 1) next v.argv_short p,
    )

on_semicolon-IsValid : (s : Parser) → s.csi ≡ true → IsValid s → IsValid (on_semicolon s)
unfolding on_semicolon
on_semicolon-IsValid s k v = ground (
  arith,
  length-set s.argv s.argc 0,
  All-set (λ x. x < 65536) s.argv s.argc 0 v.argv_short (omega arith),
)

ignore_rest-IsValid : (s : Parser) → s.csi ≡ true → IsValid s → IsValid (ignore_rest s)
unfolding ignore_rest
ignore_rest-IsValid s k v = ground arith

on_csi-IsValid : (s : Parser) (c : ℕ) → s.csi ≡ true → IsValid s → IsValid (on_csi s c).0
unfolding on_csi
on_csi-IsValid s c k v =
    ground (arith, on_digit-IsValid s c k, on_semicolon-IsValid s k v, ignore_rest-IsValid s k v)

on_st_control-IsValid :
    (s : Parser) (c : ℕ)
    → s.csi ≡ false
    → s.st_control ≡ true
    → IsValid s
    → IsValid (on_st_control s c).0
unfolding on_st_control
on_st_control-IsValid s c n k v = ground arith

-- A valid parser is never in the inconsistent state, and stays valid.
pub parse_escape-IsValid :
    (s : Parser) (c : ℕ)
    → IsValid s
    → (r : Parser × Option Output) × (parse_escape s c ≡ some r) × IsValid r.0
unfolding parse_escape
parse_escape-IsValid s c v = elim (Bool-cases (is_normal s.ansi)) [
  | inl n ↦ (on_normal s c, rw n, on_normal-IsValid s c v)
  | inr n ↦ elim (Bool-cases (is_escape_seen s.ansi)) [
    | inl e ↦ (on_escape s c, rw (n, e), on_escape-IsValid s c v)
    | inr e ↦ elim (Bool-cases s.csi) [
      | inl k ↦ (on_csi s c, rw (n, e, k), on_csi-IsValid s c k v)
      | inr k ↦
          let t : s.st_control ≡ true = ground (arith, v.consistent) in
          (on_st_control s c, rw (n, e, k, t), on_st_control-IsValid s c k t v)
    ]
  ]
]

pub print-IsValid : (s : Parser) → IsValid s → IsValid (print s).0
unfolding print
print-IsValid s v = ground arith

-- The escape parser sends no text.
abbrev pub IsQuiet : Option Output → Type 0
IsQuiet (some (text us)) = ⊥
IsQuiet _ = Unit {0}

csi_command-IsQuiet : (s : Parser) (c : ℕ) → IsQuiet (some (csi_command s c))
unfolding csi_command
csi_command-IsQuiet s c = ground arith

on_csi-IsQuiet : (s : Parser) (c : ℕ) → IsQuiet (on_csi s c).1
unfolding on_csi
on_csi-IsQuiet s c = ground (arith, csi_command-IsQuiet s c)

pub parse_escape-IsQuiet :
    (s : Parser) (c : ℕ) {r : Parser × Option Output} → parse_escape s c ≡ some r → IsQuiet r.1
unfolding parse_escape on_normal on_escape on_st_control
parse_escape-IsQuiet s c e = ground (arith, on_csi-IsQuiet s c)

pub parse_escape_plain :
    (s : Parser) (c : ℕ)
    → is_normal s.ansi ≡ true
    → c ≢ 27
    → c ≢ 155
    → parse_escape s c ≡ some (s, none)
unfolding parse_escape on_normal
parse_escape_plain s c n p q = rw n (ground arith)
