-- ===== src/Tty/Device.antt =====
-- The calls of the Win32 console that src/detail/windows/output_tty.cpp makes, each with its result and its
-- effect, and what the stream keeps between its own calls.
use lua_node.Base.{ℕ, Bool, List}
use lua_node.Base.Int.{ℤ}
use lua_node.Tty.Window.{Coord, ScreenInfo, Window}

-- A call that fails leaves an error code.
pub data Reply (A : Type 0) : Type 0 where
  ok : A → Reply A
  fail : ℕ → Reply A

-- `uninitialized` is what a local variable holds before it is written.
pub record Console : Type 1 where
  pub State : Type 0
  pub get_info : State → Reply ScreenInfo × State
  pub set_text_attribute : ℕ → State → Reply (Unit {0}) × State
  pub set_cursor_position : Coord → State → Reply (Unit {0}) × State
  pub fill_output_character : ℕ → ℕ → Coord → State → Reply ℕ × State
  pub fill_output_attribute : ℕ → ℕ → Coord → State → Reply ℕ × State
  pub write_console : List ℕ → State → Reply (Unit {0}) × State
  pub uninitialized : ScreenInfo

-- The part of `tty_context_t` that the calls keep, the static window, the error of the message, and
-- the console.
pub record Stream (State : Type 0) : Type 0 where
  pub saved_x : ℕ
  pub saved_y : ℤ
  pub saved_attributes : ℕ
  pub has_position : Bool
  pub has_attributes : Bool
  pub window : Window
  pub error : ℕ
  pub console : State

-- ERROR_INVALID_PARAMETER
abbrev pub invalid_parameter : ℕ
invalid_parameter = 87
