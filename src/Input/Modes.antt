-- ===== src/Input/Modes.antt =====
-- The modes of the console for input: `uv_tty_set_mode` (src/detail/windows/windows_tty.cpp), `SetRawMode`, and
-- the constructor and the destructor of `InputTtyStream` (src/detail/windows/input_tty.cpp) as far as the modes go.
pub mod Cooked
use lua_node.Base.{ℕ, Bool, true, false, List, [], ◌∷◌, if◌then◌else◌}
use lua_node.Lua.{Outcome, returns, raises}

-- The flags of a mode: those of the SDK that the code names, and the others.
pub record InputMode : Type 0 where
  pub processed_input : Bool
  pub line_input : Bool
  pub echo_input : Bool
  pub window_input : Bool
  pub insert_mode : Bool
  pub quick_edit_mode : Bool
  pub extended_flags : Bool
  pub others : ℕ

-- The mode of the console; `original_console_mode`, and the flag UV_HANDLE_TTY_RAW, of the stream.
pub record ConsoleInput : Type 0 where
  pub mode : InputMode
  pub original : InputMode
  pub is_raw : Bool

-- The constructor: where GetConsoleMode fails, `original_console_mode` is what the memory held.
unfoldable pub new_console_input : Bool → InputMode → InputMode → ConsoleInput
new_console_input gets mode garbage = record {
  mode = mode;
  original = if gets then mode else garbage;
  is_raw = false;
}

-- The flags that uv_tty_set_mode puts together.
unfoldable pub wanted_mode : Bool → InputMode → InputMode
wanted_mode raw original = record {
  processed_input = if raw then false else true;
  line_input = if raw then false else true;
  echo_input = if raw then false else true;
  window_input = raw;
  insert_mode = if raw then false else true;
  quick_edit_mode = original.quick_edit_mode;
  extended_flags = if raw then original.quick_edit_mode else true;
  others = 0;
}

abbrev same_flag : Bool → Bool → Bool
same_flag true b = b
same_flag false true = false
same_flag false false = true

-- uv_tty_set_mode; `sets` is the answer to SetConsoleMode, and the result tells whether 0 is returned.
unfoldable pub set_mode : Bool → Bool → ConsoleInput → ConsoleInput × Bool
set_mode raw sets s =
    if same_flag raw s.is_raw
    then (s, true)
    else if sets
    then (record s { mode = wanted_mode raw s.original; is_raw = raw }, true)
    else (s, false)

-- SetRawMode: an error is told only where the raw mode was wanted.
unfoldable pub set_raw_mode : Bool → Bool → ConsoleInput → ConsoleInput × Outcome
set_raw_mode false sets s = ((set_mode false sets s).0, returns [])
set_raw_mode true sets s =
    let (t, done) = set_mode true sets s in (t, if done then returns [] else raises)

-- Calls of SetRawMode, each with the answer of the console.
unfoldable pub set_raw_modes : List (Bool × Bool) → ConsoleInput → ConsoleInput
set_raw_modes [] s = s
set_raw_modes ((raw, sets) ∷ rest) s = set_raw_modes rest (set_raw_mode raw sets s).0

-- The destructor, before it stops the thread.
unfoldable pub destroy : Bool → ConsoleInput → ConsoleInput
destroy sets s = (set_mode false sets s).0
