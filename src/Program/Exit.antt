-- ===== src/Program/Exit.antt =====
-- How the program ends: `Exit`, `NeedTickCallback`, `Loop`, the signals and the console's events, and the
-- status of `Load` and `main` (src/luanode.cpp). The handlers that Boost.Asio runs, and what Lua does in each,
-- are an argument.
pub mod Status
use lua_node.Base.{
  ℕ, zero, suc, ◌+◌, ◌-◌, ◌%◌, ◌^◌, Bool, true, false, Option, none, some, List, [], ◌∷◌, ltb,
  if◌then◌else◌,
}
use lua_node.Base.Int.{ℤ, pos, negsuc}
use lua_node.Lua.{ErrorCode}

-- `exit_code`, `need_tick_cb`, whether the event loop is stopped, and the ticks that were posted to it.
pub record Program : Type 0 where
  pub exit_code : ℤ
  pub need_tick : Bool
  pub stopped : Bool
  pub ticks : ℕ

unfoldable pub new_program : Program
new_program = record { exit_code = pos 0; need_tick = false; stopped = false; ticks = 0 }

-- A lua_Integer as an `int` of 32 bits.
unfoldable pub to_int : ℤ → ℤ
to_int (pos n) = let k = n % 2 ^ 32 in if ltb k (2 ^ 31) then pos k else negsuc (2 ^ 32 - 1 - k)
to_int (negsuc n) = let k = n % 2 ^ 32 in if ltb k (2 ^ 31) then negsuc k else pos (2 ^ 32 - 1 - k)

unfoldable pub exit_status : Option ℤ → ℤ
unfolding to_int
exit_status none = pos 1
exit_status (some code) = to_int code

-- _exit, with its argument.
unfoldable pub exit : Option ℤ → Program → Program
unfolding exit_status
exit code p = record p { exit_code = exit_status code; stopped = true }

unfoldable pub need_tick_callback : Program → Program
need_tick_callback p = record p { need_tick = true; ticks = p.ticks + 1 }

unfoldable pub signal_exit : Program → Program
signal_exit p = record p { stopped = true }

-- The console's events.
pub data ConsoleEvent : Type 0 where
  logoff ctrl_c ctrl_break close shutdown unknown : ConsoleEvent

-- The flag tells Windows that the event was handled.
unfoldable pub console_control_handler : ConsoleEvent → Program → Program × Bool
unfolding signal_exit
console_control_handler logoff p = (p, true)
console_control_handler ctrl_c p = (signal_exit p, true)
console_control_handler ctrl_break p = (signal_exit p, true)
console_control_handler close p = (signal_exit p, true)
console_control_handler shutdown p = (signal_exit p, true)
console_control_handler unknown p = (p, false)

-- What Lua calls in a handler.
pub data Effect : Type 0 where
  exits : Option ℤ → Effect
  wants_tick : Effect

unfoldable pub effects : List Effect → Program → Program
unfolding exit need_tick_callback
effects [] p = p
effects (exits code ∷ rest) p = effects rest (exit code p)
effects (wants_tick ∷ rest) p = effects rest (need_tick_callback p)

-- A handler of Asio, a tick that was posted, a signal or an event of the console.
pub data Turn : Type 0 where
  handler ticks : List Effect → Turn
  signal : Turn
  console_event : ConsoleEvent → Turn

unfoldable pub tick_turn : ℕ → List Effect → Program → Program
unfolding effects
tick_turn zero es p = p
tick_turn (suc n) es p = effects es (record p { need_tick = false; ticks = n })

unfoldable pub turn : Turn → Program → Program
unfolding effects tick_turn signal_exit console_control_handler
turn (handler es) p = effects es p
turn (ticks es) p = tick_turn p.ticks es p
turn signal p = signal_exit p
turn (console_event e) p = (console_control_handler e p).0

-- io_service::run, until it is stopped or there is nothing left.
unfoldable pub run : List Turn → Program → Program
run [] p = p
run (t ∷ rest) p = elim p.stopped [ true ↦ p | false ↦ run rest (turn t p) ]

-- What `process:loop` returns: nil and a message, nil and the status, or true.
pub data LoopResult : Type 0 where
  failed : ℕ → LoopResult
  ended : ℤ → LoopResult
  done : LoopResult

unfoldable pub is_zero : ℤ → Bool
is_zero (pos zero) = true
is_zero _ = false

unfoldable pub loop : ErrorCode → List Turn → Program → LoopResult × Program
unfolding is_zero
loop (some e) ts p = (failed e, run ts p)
loop none ts p =
    let q = run ts p in (elim (is_zero q.exit_code) [ true ↦ done | false ↦ ended q.exit_code ], q)

-- How the function of node.lua ends: by an error, after which "exit" is emitted, with what Lua calls in the
-- handlers of that; with a number; or otherwise.
pub data NodeAnswer : Type 0 where
  raised : List Effect → NodeAnswer
  number : ℤ → NodeAnswer
  other : NodeAnswer

-- What the function of node.lua does: what it calls before `process:loop`, what the loop runs, and what it
-- calls after it.
pub record Session : Type 0 where
  pub before : List Effect
  pub turns : List Turn
  pub after : List Effect
  pub answer : NodeAnswer

unfoldable pub load_status : NodeAnswer → ℤ
unfolding to_int
load_status (raised es) = pos 1
load_status (number n) = to_int n
load_status other = pos 0

-- The emission of "exit" by `Load`.
unfoldable pub emit_exit : NodeAnswer → Program → Program
unfolding effects
emit_exit (raised es) p = effects es p
emit_exit (number n) p = p
emit_exit other p = p

-- The end of `Load`, from the call of the function of node.lua on.
unfoldable pub load : Session → Program → ℤ × Program
unfolding load_status emit_exit
load s p =
    (load_status s.answer, emit_exit s.answer (effects s.after (run s.turns (effects s.before p))))

-- main, from the call of `Load` on.
unfoldable pub main_status : Session → Program → ℤ
unfolding is_zero load
main_status s p =
    let (result, q) = load s p in elim (is_zero q.exit_code) [ true ↦ result | false ↦ q.exit_code ]
