-- ===== src/Program/Tests.antt =====
-- The program on concrete arguments, environments, errors and sessions.
use lua_node.Base.{
  ℕ, ◌≡◌, ◌≢◌, ◌<◌, ◌⊎◌, refl, true, false, Option, none, some, List, [], ◌∷◌, arith, length, ◌+◌,
  map,
}
use lua_node.Base.Int.{pos}
use lua_node.Base.Text.{Text, codes, same_text}
use lua_node.Lua.{Value, string, other}
use lua_node.Program.Arguments.{
  Flags, parse_args, parsed, Parsed, collectargs, collect_from, process_argv, Runner, load_options,
  runargs, run_from, ran, asserts, run_string, run_library, option_kind, arg_kind,
}
use lua_node.Program.Arguments.Safe.{load_options-ne-asserts}
use lua_node.Program.Arguments.Agree.{IsSimple, script, option, e_option, parse_args-collectargs}
use lua_node.Program.Environment.{get_field, process_env}
use lua_node.Program.Environment.Lookup.{entry_of, get_field-process_env}
use lua_node.Program.Errors.{
  Interpreter, Answer, finished, failed, Chunk, exit_line, emit_line, function, no_function, Vm,
  is_nil, reports, stops, runs, error_text, fatal_error,
}
use lua_node.Program.Errors.Nesting.{has_handler, fatal_error-answers}
use lua_node.Program.Exit.{
  handler, ticks, signal, exits, wants_tick, run, new_program, main_status, load_status, turn,
  is_zero, exit_status, number, raised, Session, to_int,
}
use lua_node.Program.Exit.Status.{status, main-status}

-- `collectargs` is called with variables that were never set.
abbrev unset : Flags
unset = record { has_i = true; has_v = false; has_e = true }

abbrev all_work : Runner
all_work before c = true

-- `luanode -eprint() -l socket server.lua 80`
abbrev line : List Text
line = codes "-eprint()" ∷ codes "-l" ∷ codes "socket" ∷ codes "server.lua" ∷ codes "80" ∷ []

load_options-ne-asserts_example : load_options all_work line unset ≢ some asserts
load_options-ne-asserts_example = load_options-ne-asserts all_work line unset

run_line :
    load_options all_work line unset
    ≡ some (ran (run_library (codes "socket") ∷ run_string (codes "print()") ∷ []) 0)
unfolding load_options collectargs collect_from runargs run_from
run_line = refl

-- Where an option is the blank that `--debug` leaves, none that follows it is run.
debug_hides :
    load_options all_work ([] ∷ codes "-eprint()" ∷ codes "server.lua" ∷ []) unset ≡ some (ran [] 0)
unfolding load_options collectargs collect_from runargs run_from
debug_hides = refl

abbrev simple_line : List Text
simple_line = codes "-eprint()" ∷ codes "server.lua" ∷ codes "-x" ∷ []

simple_line-IsSimple : IsSimple simple_line
unfolding option_kind arg_kind
simple_line-IsSimple = option (e_option b'p' (codes "rint()") refl) refl (script refl refl)

parse_args-collectargs_example :
    (p : Parsed) × (parse_args simple_line ≡ parsed p)
    × (p.args ≡ simple_line)
    × (((collectargs simple_line unset).0 ≡ pos 0) × (process_argv p ≡ [])
        ⊎ ((collectargs simple_line unset).0 ≡ pos p.option_end)
          × (p.option_end < length simple_line + 1))
parse_args-collectargs_example = parse_args-collectargs simple_line unset simple_line-IsSimple

-- `B=2`, `A=x=1`, `B=3`
abbrev entries : List (Text × Text)
entries = (codes "B", codes "2") ∷ (codes "A", codes "x=1") ∷ (codes "B", codes "3") ∷ []

get_field-process_env_example :
    get_field (codes "B") (process_env (map entry_of entries)) ≡ some (codes "3")
unfolding same_text
get_field-process_env_example = get_field-process_env (codes "B") entries (ground arith)

-- An interpreter in which every function raises "no", the handler of the program, too.
abbrev answer : Chunk → Answer
answer exit_line = finished []
answer emit_line = failed (string (codes "no"))
answer (function f) = failed (string (codes "no"))

abbrev text_of : Value → Option Text
text_of (string t) = some t
text_of _ = none

abbrev broken : Interpreter
broken = record {
  State = ℕ;
  has_events = λ s. true;
  handler = λ s. other 5;
  console = λ s. no_function;
  run = λ chunk args s. (answer chunk, s);
  text = text_of;
  print = λ t s. s;
}

abbrev idle : Vm ℕ
idle = record { lua = 0; stack = []; counter = 0; need_tick = true; log = [] }

fatal_error-answers_example :
    (w : Vm ℕ) × (fatal_error broken 2 (codes "oh") idle ≡ some (has_handler broken 0, w))
    × (w.counter ≡ 0)
    × (has_handler broken 0 ≡ true → w.stack ≡ [])
    × (w.log
        ≡ reports (error_text true (some (codes "no")))
          ∷ stops
          ∷ runs emit_line (string (codes "oh") ∷ [])
          ∷ [])
unfolding is_nil
fatal_error-answers_example = fatal_error-answers broken 1 (codes "oh") idle refl

-- A handler of "exit" that calls `_exit` again, after an error, with 2 ^ 32 + 3.
abbrev session : Session
session = record {
  before = wants_tick ∷ [];
  turns = ticks (exits none ∷ exits (some (pos 7)) ∷ []) ∷ signal ∷ [];
  after = [];
  answer = raised (exits (some (pos 4294967299)) ∷ []);
}

main-status_example : main_status session new_program ≡ pos 3
unfolding status is_zero exit_status
main-status_example = main-status session

-- A signal ends the program with the number of node.lua.
abbrev interrupted_session : Session
interrupted_session = record {
  before = [];
  turns = signal ∷ handler (exits none ∷ []) ∷ [];
  after = [];
  answer = number (pos 0);
}

interrupted : main_status interrupted_session new_program ≡ pos 0
unfolding run turn new_program main_status load_status to_int
interrupted = refl

-- A status of 2 ^ 32 is none.
cut :
    main_status
      (record interrupted_session { before = exits (some (pos 4294967296)) ∷ [] })
      new_program
    ≡ pos 0
unfolding run turn new_program main_status load_status exit_status to_int
cut = refl
