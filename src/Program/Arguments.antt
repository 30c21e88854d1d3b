-- ===== src/Program/Arguments.antt =====
-- The command line: `ParseArgs`, `collectargs`, `runargs` and the table `process.argv` of `Load`
-- (src/luanode.cpp). Of `argv` the program's name is left out, so that the list begins at the index 1.
pub mod Safe
pub mod Agree
pub mod Shadow
use lua_node.Base.{
  ℕ, zero, suc, ◌+◌, ◌-◌, Bool, true, false, Option, none, some, List, [], ◌∷◌, ◌==◌, ◌||◌, ltb,
  length, drop, if◌then◌else◌,
}
use lua_node.Base.Int.{ℤ, pos, negsuc}
use lua_node.Base.Text.{Text, codes, same_text, starts_with}

-- What `ParseArgs` makes of an argument.
pub data ArgKind : Type 0 where
  debug version vars help logname operand other_option : ArgKind

is_operand : Text → Bool
is_operand [] = true
is_operand (c ∷ rest) = if c == b'-' then false else true

unfoldable pub arg_kind : Text → ArgKind
unfolding starts_with same_text is_operand
arg_kind arg =
    if starts_with (codes "--debug") arg
    then debug
    else if same_text arg (codes "--version") || same_text arg (codes "-v")
    then version
    else if same_text arg (codes "--vars")
    then vars
    else if same_text arg (codes "--help") || same_text arg (codes "-h")
    then help
    else if same_text arg (codes "--logname")
    then logname
    else if is_operand arg
    then operand
    else other_option

-- `args` as they are left, `option_end_index`, `debug_mode`, and the name of the logger.
pub record Parsed : Type 0 where
  pub args : List Text
  pub option_end : ℕ
  pub debug_mode : Bool
  pub logger : Option Text

-- `exits`: the program ends with success. `overruns`: `--logname` is last, and the null pointer that ends
-- `argv` is taken for a name and written over.
pub data ParseResult : Type 0 where
  parsed : Parsed → ParseResult
  exits : ParseResult
  overruns : ParseResult

unfoldable pub and_then : ParseResult → (Parsed → Parsed) → ParseResult
and_then (parsed p) f = parsed (f p)
and_then exits f = exits
and_then overruns f = overruns

abbrev pub keep : Text → Parsed → Parsed
keep arg p = record p { args = arg ∷ p.args }

abbrev set_logger : Text → Parsed → Parsed
set_logger name p = record p {
  args = [] ∷ [] ∷ p.args;
  logger = elim p.logger [ none ↦ some name | some later ↦ some later ];
}

abbrev pub stop_at : ℕ → List Text → ParseResult
stop_at i args = parsed (record { args = args; option_end = i; debug_mode = false; logger = none })

unfoldable pub parse_from : ℕ → List Text → ParseResult
unfolding arg_kind and_then
parse_from i [] = stop_at i []
parse_from i (arg ∷ []) = elim (arg_kind arg) [
  | debug ↦ and_then (parse_from (i + 1) []) (λ p. record (keep [] p) { debug_mode = true })
  | version ↦ exits
  | vars ↦ exits
  | help ↦ exits
  | logname ↦ overruns
  | operand ↦ stop_at i (arg ∷ [])
  | other_option ↦ and_then (parse_from (i + 1) []) (keep arg)
]
parse_from i (arg ∷ next ∷ rest) = elim (arg_kind arg) [
  | debug ↦
      and_then (parse_from (i + 1) (next ∷ rest)) (λ p. record (keep [] p) { debug_mode = true })
  | version ↦ exits
  | vars ↦ exits
  | help ↦ exits
  | logname ↦ and_then (parse_from (i + 2) rest) (set_logger next)
  | operand ↦ stop_at i (arg ∷ next ∷ rest)
  | other_option ↦ and_then (parse_from (i + 1) (next ∷ rest)) (keep arg)
]

unfoldable pub parse_args : List Text → ParseResult
parse_args args = parse_from 1 args

-- What the interpreter's own `collectargs` and `runargs` make of an argument, with what follows the letter.
pub data OptionKind : Type 0 where
  not_option dash unknown : OptionKind
  dashes interactive show_version execute library : Text → OptionKind

letter_kind : Text → OptionKind
letter_kind [] = dash
letter_kind (c ∷ tail) =
    if c == b'-'
    then dashes tail
    else if c == b'i'
    then interactive tail
    else if c == b'v'
    then show_version tail
    else if c == b'e'
    then execute tail
    else if c == b'l'
    then library tail
    else unknown

unfoldable pub option_kind : Text → OptionKind
unfolding letter_kind
option_kind [] = not_option
option_kind (c ∷ rest) = if c == b'-' then letter_kind rest else not_option

-- `*pi`, `*pv` and `*pe`.
pub record Flags : Type 0 where
  pub has_i : Bool
  pub has_v : Bool
  pub has_e : Bool

abbrev invalid : Flags → ℤ × Flags
invalid f = (negsuc 0, f)

unfoldable pub is_empty : Text → Bool
is_empty [] = true
is_empty (c ∷ cs) = false

-- The index of the script, 0 without one, and -1 for invalid options.
unfoldable pub collect_from : ℕ → List Text → Flags → ℤ × Flags
unfolding option_kind is_empty
collect_from i [] f = (pos 0, f)
collect_from i (arg ∷ []) f = elim (option_kind arg) [
  | not_option ↦ (pos i, f)
  | dash ↦ (pos i, f)
  | unknown ↦ invalid f
  | dashes tail ↦ if is_empty tail then (pos 0, f) else invalid f
  | interactive tail ↦
      if is_empty tail
      then collect_from (i + 1) [] (record f { has_i = true; has_v = true })
      else invalid f
  | show_version tail ↦
      if is_empty tail then collect_from (i + 1) [] (record f { has_v = true }) else invalid f
  | execute tail ↦
      if is_empty tail
      then invalid (record f { has_e = true })
      else collect_from (i + 1) [] (record f { has_e = true })
  | library tail ↦ if is_empty tail then invalid f else collect_from (i + 1) [] f
]
collect_from i (arg ∷ next ∷ rest) f = elim (option_kind arg) [
  | not_option ↦ (pos i, f)
  | dash ↦ (pos i, f)
  | unknown ↦ invalid f
  | dashes tail ↦ if is_empty tail then (pos (i + 1), f) else invalid f
  | interactive tail ↦
      let more = collect_from (i + 1) (next ∷ rest) (record f { has_i = true; has_v = true }) in
      if is_empty tail then more else invalid f
  | show_version tail ↦
      let more = collect_from (i + 1) (next ∷ rest) (record f { has_v = true }) in
      if is_empty tail then more else invalid f
  | execute tail ↦
      let two = collect_from (i + 2) rest (record f { has_e = true }) in
      let one = collect_from (i + 1) (next ∷ rest) (record f { has_e = true }) in
      if is_empty tail then two else one
  | library tail ↦
      let two = collect_from (i + 2) rest f in
      let one = collect_from (i + 1) (next ∷ rest) f in if is_empty tail then two else one
]

unfoldable pub collectargs : List Text → Flags → ℤ × Flags
collectargs args f = collect_from 1 args f

-- A string to run, or a library to load.
pub data Command : Type 0 where
  run_string run_library : Text → Command

-- What was run, and the status; `asserts`: one of the assertions does not hold.
pub data RunResult : Type 0 where
  ran : List Command → ℕ → RunResult
  asserts : RunResult

-- Lua's answer to a command after those that were run.
abbrev pub Runner : Type 0
Runner = List Command → Command → Bool

-- One command, and the rest of the loop unless it fails.
abbrev pub do_command : Runner → List Command → Command → (List Command → RunResult) → RunResult
do_command works before c more = elim (works before c) [
  | true ↦ more (c ∷ before)
  | false ↦ ran (c ∷ before) 1
]

-- `left` arguments are left before the limit. The commands stand latest first.
unfoldable pub run_from : Runner → ℕ → List Text → List Command → RunResult
unfolding option_kind is_empty
run_from works left [] before = ran before 0
run_from works zero (arg ∷ rest) before = ran before 0
run_from works (suc left) (arg ∷ []) before = elim (option_kind arg) [
  | not_option ↦ asserts
  | execute tail ↦
      if is_empty tail
      then asserts
      else do_command works before (run_string tail) (λ done. run_from works left [] done)
  | library tail ↦
      if is_empty tail
      then asserts
      else do_command works before (run_library tail) (λ done. run_from works left [] done)
  | _ ↦ run_from works left [] before
]
run_from works (suc left) (arg ∷ next ∷ rest) before = elim (option_kind arg) [
  | not_option ↦ asserts
  | execute tail ↦
      if is_empty tail
      then do_command works before (run_string next) (λ done. run_from works (left - 1) rest done)
      else do_command works before (run_string tail)
          (λ done. run_from works left (next ∷ rest) done)
  | library tail ↦
      if is_empty tail
      then do_command works before (run_library next) (λ done. run_from works (left - 1) rest done)
      else do_command works before (run_library tail)
          (λ done. run_from works left (next ∷ rest) done)
  | _ ↦ run_from works left (next ∷ rest) before
]

-- `n` is the limit of the loop.
unfoldable pub runargs : Runner → List Text → ℕ → RunResult
unfolding run_from
runargs works args n = run_from works (n - 1) args []

-- What `Load` does with them; `none`: the usage is printed.
unfoldable pub load_options : Runner → List Text → Flags → Option RunResult
unfolding collectargs runargs
load_options works args f = elim (collectargs args f).0 [
  | negsuc n ↦ none
  | pos s ↦ some (runargs works args (if ltb 0 s then s else length args + 1))
]

-- `process.argv` from the index 0 on; at -1 stands the program's name.
unfoldable pub process_argv : Parsed → List Text
process_argv p = drop (p.option_end - 1) p.args
