-- ===== src/Tty/Ansi.antt =====
-- The escape sequence parser of `ProcessMessage` (src/detail/windows/output_tty.cpp).
pub mod Safety
pub mod Handlers
use lua_node.Base.{
  ℕ, ◌+◌, ◌-◌, ◌*◌, ◌%◌, ◌^◌, Bool, true, false, not, ◌&&◌, ◌||◌, Option, none, some, List, [], ◌∷◌,
  ltb, leb, ◌==◌, if◌then◌else◌, get_or, set, take,
}
use lua_node.Base.Int.{ℤ, pos, neg}
use lua_node.Tty.Utf8.{Decoder, replacement_character}

-- The bits of `ansi_parser_state`.
pub record AnsiState : Type 0 where
  pub escape_seen : Bool
  pub csi : Bool
  pub st_control : Bool
  pub ignore : Bool
  pub in_arg : Bool
  pub in_string : Bool
  pub backslash_seen : Bool

abbrev pub ansi_normal : AnsiState
ansi_normal = record {
  escape_seen = false;
  csi = false;
  st_control = false;
  ignore = false;
  in_arg = false;
  in_string = false;
  backslash_seen = false;
}

abbrev pub ansi_escape_seen : AnsiState
ansi_escape_seen = record ansi_normal { escape_seen = true }

abbrev pub ansi_csi : AnsiState
ansi_csi = record ansi_normal { csi = true }

abbrev pub ansi_st_control : AnsiState
ansi_st_control = record ansi_normal { st_control = true }

-- `ansi_parser_state == ANSI_NORMAL`, and `== ANSI_ESCAPE_SEEN`.
abbrev pub is_normal : AnsiState → Bool
is_normal a = not (
    a.escape_seen || a.csi || a.st_control || a.ignore || a.in_arg || a.in_string
    || a.backslash_seen)

abbrev pub is_escape_seen : AnsiState → Bool
is_escape_seen a = a.escape_seen && is_normal (record a { escape_seen = false })

-- The part of `tty_context_t` that the parser keeps.
pub record Parser : Type 0 where
  pub decoder : Decoder
  pub open decoder use *
  pub previous_eol : ℕ
  pub ansi : AnsiState
  pub open ansi use *
  pub argc : ℕ
  pub argv : List ℕ  -- unsigned short[4]

-- The constructor. It sets neither `ansi_csi_argc` nor `ansi_csi_argv`: these two are what the memory held.
abbrev pub new_parser : ℕ → List ℕ → Parser
new_parser argc argv = record {
  decoder = record { bytes_left = 0; codepoint = 0 };
  previous_eol = 0;
  ansi = ansi_normal;
  argc = argc;
  argv = argv;
}

abbrev pub max_args : ℕ
max_args = 4

-- A call on the console; its text is flushed first. `nothing` is the flush alone.
pub data Command : Type 0 where
  nothing : Command
  reset : Command
  save_state : Bool → Command
  restore_state : Bool → Command
  move_caret : ℤ → Bool → ℤ → Bool → Command
  clear : ℕ → Bool → Command
  set_style : List ℕ → Command

pub data Output : Type 0 where
  silent : Output
  text : List ℕ → Output
  command : Command → Output

abbrev in_range : ℕ → ℕ → ℕ → Bool
in_range lo hi c = leb lo c && leb c hi

-- In each handler `none` beside the parser means that the character is to be printed.
on_normal : Parser → ℕ → Parser × Option Output
on_normal s c =
    if c == 27
    then (record s { ansi = ansi_escape_seen }, some silent)
    else if c == 155
    then (record s { ansi = ansi_csi; argc = 0 }, some silent)
    else (s, none)

on_escape : Parser → ℕ → Parser × Option Output
on_escape s c =
    if c == b'['
    then (record s { ansi = ansi_csi; argc = 0 }, some silent)
    else if c == b'^' || c == b'_' || c == b'P' || c == b']'
    then (record s { ansi = ansi_st_control }, some silent)
    else if c == 27
    then (s, some silent)
    else if c == b'c'
    then (record s { ansi = ansi_normal }, some (command reset))
    else if c == b'7'
    then (record s { ansi = ansi_normal }, some (command (save_state true)))
    else if c == b'8'
    then (record s { ansi = ansi_normal }, some (command (restore_state true)))
    else if in_range b'@' b'_' c
    then (record s { ansi = ansi_normal }, some silent)
    else (record s { ansi = ansi_normal }, none)

ignore_rest : Parser → Parser
ignore_rest s = record s { ansi = record s.ansi { ignore = true } }

-- A digit of a numerical argument. The array holds unsigned shorts, and the guard looks at the value
-- before the digit is added.
unfoldable pub on_digit : Parser → ℕ → Parser
unfolding ignore_rest
on_digit s c =
    if not s.in_arg
    then (if leb max_args s.argc then ignore_rest s else record s {
      ansi = record s.ansi { in_arg = true };
      argc = s.argc + 1;
      argv = set s.argv s.argc (c - b'0');
    })
    else let value = 10 * get_or s.argv (s.argc - 1) 0 in
      if ltb 65535 value
      then ignore_rest s
      else record s { argv = set s.argv (s.argc - 1) ((value + (c - b'0')) % 2 ^ 16) }

on_semicolon : Parser → Parser
unfolding ignore_rest
on_semicolon s =
    if s.in_arg
    then record s { ansi = record s.ansi { in_arg = false } }
    else if leb max_args s.argc
    then ignore_rest s
    else record s { argc = s.argc + 1; argv = set s.argv s.argc 0 }

-- `argc ? argv[0] : d`
abbrev first_arg : Parser → ℕ → ℕ
first_arg s d = if s.argc == 0 then d else get_or s.argv 0 0

-- `(argc >= i + 1 && argv[i]) ? argv[i] - 1 : 0`; `-` on ℕ has the value 0 at 0.
abbrev one_based : Parser → ℕ → ℕ
one_based s i = if leb (i + 1) s.argc then get_or s.argv i 0 - 1 else 0

-- The `switch` on the command byte.
unfoldable pub csi_command : Parser → ℕ → Output
csi_command s c =
    if c == b'A'
    then command (move_caret (pos 0) true (neg (first_arg s 1)) true)
    else if c == b'B'
    then command (move_caret (pos 0) true (pos (first_arg s 1)) true)
    else if c == b'C'
    then command (move_caret (pos (first_arg s 1)) true (pos 0) true)
    else if c == b'D'
    then command (move_caret (neg (first_arg s 1)) true (pos 0) true)
    else if c == b'E'
    then command (move_caret (pos 0) false (pos (first_arg s 1)) true)
    else if c == b'F'
    then command (move_caret (pos 0) false (neg (first_arg s 1)) true)
    else if c == b'G'
    then command (move_caret (pos (one_based s 0)) false (pos 0) true)
    else if c == b'H' || c == b'f'
    then command (move_caret (pos (one_based s 1)) false (pos (one_based s 0)) false)
    else if c == b'J'
    then command (if leb (first_arg s 0) 2 then clear (first_arg s 0) true else nothing)
    else if c == b'K'
    then command (if leb (first_arg s 0) 2 then clear (first_arg s 0) false else nothing)
    else if c == b'm'
    then command (set_style (take s.argc s.argv))
    else if c == b's'
    then command (save_state false)
    else if c == b'u'
    then command (restore_state false)
    else silent

on_csi : Parser → ℕ → Parser × Option Output
unfolding on_digit on_semicolon ignore_rest csi_command
on_csi s c =
    if not s.ignore
    then (if in_range b'0' b'9' c
        then (on_digit s c, some silent)
        else if c == b';'
        then (on_semicolon s, some silent)
        else if in_range b'@' b'~' c && (ltb 0 s.argc || not (c == b'['))
        then (record s { ansi = ansi_normal }, some (csi_command s c))
        else (ignore_rest s, some silent))
    else if in_range b'@' b'~' c
    then (record s { ansi = ansi_normal }, some silent)
    else (s, some silent)

abbrev st_step : AnsiState → ℕ → AnsiState
st_step a c =
    if a.in_string
    then (if not a.backslash_seen
        then (if c == b'"'
            then record a { in_string = false }
            else if c == 92
            then record a { backslash_seen = true }
            else a)
        else record a { backslash_seen = false })
    else if c == 7 || (c == 92 && a.escape_seen)
    then ansi_normal
    else if c == 27
    then record a { escape_seen = true }
    else if c == b'"'
    then record a { in_string = true; escape_seen = false; backslash_seen = false }
    else record a { escape_seen = false }

on_st_control : Parser → ℕ → Parser × Option Output
on_st_control s c = (record s { ansi = st_step s.ansi c }, some silent)

-- The tests on the state. `none` is the inconsistent state, where the program calls `abort`.
unfoldable pub parse_escape : Parser → ℕ → Option (Parser × Option Output)
unfolding on_normal on_escape on_csi on_st_control
parse_escape s c =
    if is_normal s.ansi
    then some (on_normal s c)
    else if is_escape_seen s.ansi
    then some (on_escape s c)
    else if s.csi
    then some (on_csi s c)
    else if s.st_control
    then some (on_st_control s c)
    else none

-- What is sent to the console for a character that is no part of an escape sequence.
unfoldable pub print : Parser → Parser × Output
print p =
    let c = if ltb 0xffff p.codepoint then replacement_character else p.codepoint in
    let s = record p { decoder = record p.decoder { codepoint = c } } in
    if c == 10 || c == 13
    then (if s.previous_eol == 0 || c == s.previous_eol
        then (record s { previous_eol = c }, text (13 ∷ 10 ∷ []))
        else (record s { previous_eol = 0 }, silent))
    else if leb c 0xffff
    then (record s { previous_eol = 0 }, text (c ∷ []))
    else (s, silent)
