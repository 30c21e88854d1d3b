-- ===== src/Program/Errors.antt =====
-- Errors of Lua code: `FatalError`, `ReportError` and `Tick` (src/luanode.cpp), `CLuaVM::OnError`
-- (src/lua_vm.cpp), and `dostring` and `call` of `CLuaRuntime` (src/lua_runtime.h). The Lua interpreter is a
-- parameter. The stack is a list, its top first.
pub mod Nesting
pub mod Twice
use lua_node.Base.{
  ℕ, zero, suc, ◌+◌, ◌-◌, Bool, true, false, ◌&&◌, Option, none, some, List, [], ◌∷◌, ◌++◌, ltb,
  length, drop, take, get_or, if◌then◌else◌, ◌>>=◌, not,
}
use mathlib.Core.List.{reverse}
use lua_node.Base.Text.{Text, codes}
use lua_node.Lua.{Value, nil, boolean, integer, string, message, self, other}

-- What is run: one of the program's own lines, or a function on the stack.
pub data Chunk : Type 0 where
  exit_line emit_line : Chunk
  function : Value → Chunk

-- How a protected call ends. Each value is as it is after the traceback function.
pub data Answer : Type 0 where
  finished : List Value → Answer
  failed : Value → Answer
  not_loaded : Value → Answer

-- What the global `console` is.
pub data ConsoleKind : Type 0 where
  no_table no_function has_error : ConsoleKind

-- `has_events` tells whether `process._events` is a table, and `handler` what stands in it under
-- "unhandledError". `text` is lua_isstring and lua_tostring: the text of a string or a number. `print` is what `console.error` does, which raises no error.
pub record Interpreter : Type 1 where
  pub State : Type 0
  pub has_events : State → Bool
  pub handler : State → Value
  pub console : State → ConsoleKind
  pub run : Chunk → List Value → State → Answer × State
  pub text : Value → Option Text
  pub print : Text → State → State

-- `log` holds what is done to the outside, latest first: a line that is run with its arguments, a text for
-- stderr or the console, the stop of the event loop.
pub data Event : Type 0 where
  runs : Chunk → List Value → Event
  reports : Text → Event
  stops : Event

-- `counter` is `uncaught_exception_counter`.
pub record Vm (State : Type 0) : Type 0 where
  pub lua : State
  pub stack : List Value
  pub counter : ℕ
  pub need_tick : Bool
  pub log : List Event

-- `process` and `process._events` on the stack.
abbrev process_value : Value
process_value = other 0

abbrev events_value : Value
events_value = other 1

unfoldable pub error_text : Bool → Option Text → Text
error_text true none = codes "(error object is not a string)"
error_text true (some t) = t ++ codes "\r\n"
error_text false none = codes "Stack Traceback\n===============\n\r"
error_text false (some t) = (t ++ codes "\r\n") ++ codes "Stack Traceback\n===============\n\r"

unfoldable pub is_nil : Value → Bool
is_nil nil = true
is_nil _ = false

module _ (it : Interpreter) where
  open it use {State}

  abbrev pub top_text : Vm it.State → Option Text
  top_text v = it.text (get_or v.stack 0 nil)

  abbrev push : Value → Vm it.State → Vm it.State
  push x v = record v { stack = x ∷ v.stack }

  abbrev note : Event → Vm it.State → Vm it.State
  note e v = record v { log = e ∷ v.log }

  -- ReportError, and the end of OnError.
  unfoldable pub report_error : Text → Vm it.State → Vm it.State
  report_error m v = elim (it.console v.lua) [
    | no_table ↦ note (reports m) v
    | no_function ↦ note (reports m) v
    | has_error ↦ record (note (reports m) v) { lua = it.print m v.lua }
  ]

  -- `FatalError` as the others call it. `none`: the fuel ran out.
  abbrev pub Fatal : Type 0
  Fatal = Text → Vm it.State → Option (Bool × Vm it.State)

  unfoldable pub on_error : Fatal → Bool → Vm it.State → Option (Vm it.State)
  unfolding report_error error_text
  on_error fatal has_stack_trace v =
      let m = error_text has_stack_trace (top_text v) in
      fatal m v >>= λ (handled, w). some (if handled then w else report_error m w)

  -- What `dostring` makes of the answer to a chunk with `n` arguments.
  unfoldable pub after_chunk : Fatal → ℕ → Answer → Vm it.State → Option (Vm it.State)
  unfolding on_error
  after_chunk fatal n (finished results) v =
      some (record v { stack = reverse results ++ drop n v.stack })
  after_chunk fatal n (failed e) v = on_error fatal true (record v { stack = e ∷ drop n v.stack })
  after_chunk fatal n (not_loaded e) v =
      on_error fatal false (push e v) >>= λ w. some (record w { stack = drop n w.stack })

  unfoldable pub dostring : Fatal → Chunk → ℕ → Vm it.State → Option (Vm it.State)
  unfolding after_chunk
  dostring fatal chunk n v =
      let args = reverse (take n v.stack) in
      let (answer, lua) = it.run chunk args v.lua in
      after_chunk fatal n answer (record (note (runs chunk args) v) { lua = lua })

  -- `call` with LUA_MULTRET: the function stands under its arguments. It is loaded already.
  unfoldable pub call : Fatal → ℕ → Vm it.State → Option (Vm it.State)
  unfolding after_chunk
  call fatal n v =
      let args = reverse (take n v.stack) in
      let chunk = function (get_or v.stack n nil) in
      let (answer, lua) = it.run chunk args v.lua in
      after_chunk fatal (n + 1) (loaded answer) (record (note (runs chunk args) v) { lua = lua })
    where
      loaded : Answer → Answer
      loaded (finished results) = finished results
      loaded (failed e) = failed e
      loaded (not_loaded e) = failed e

  abbrev answering : Bool → Option (Vm it.State) → Option (Bool × Vm it.State)
  answering b none = none
  answering b (some w) = some (b, w)

  -- A line that is run while the error is being handled.
  unfoldable pub handling : Fatal → Chunk → ℕ → Vm it.State → Option (Vm it.State)
  unfolding dostring
  handling fatal chunk n v = dostring fatal chunk n (record v { counter = v.counter + 1 }) >>= λ w.
      some (record w { counter = w.counter - 1 })

  -- `FatalError` where no error is being handled.
  unfoldable pub first_error : Fatal → Text → Vm it.State → Option (Bool × Vm it.State)
  unfolding is_nil
  first_error fatal m v =
      let w = push events_value (push process_value v) in
      let exits = λ (u : Vm it.State). answering false (handling fatal exit_line 0 u) in
      let emits = handling fatal emit_line 1 (push (string m) (push (it.handler v.lua) w)) in
      let emitted = answering true (emits >>= λ t. some (record t { stack = v.stack })) in
      if it.has_events v.lua
      then (if is_nil (it.handler v.lua) then exits (push nil w) else emitted)
      else exits w

  -- The fuel is the number of errors that may nest.
  unfoldable pub fatal_error : ℕ → Fatal
  unfolding first_error
  fatal_error zero m v = if ltb 0 v.counter then some (false, note stops v) else none
  fatal_error (suc n) m v =
      if ltb 0 v.counter then some (false, note stops v) else first_error (fatal_error n) m v

  -- A message that a callback left on the stack.
  unfoldable pub tell_fatal : Fatal → Option Text → Vm it.State → Option (Vm it.State)
  tell_fatal fatal none w = some w
  tell_fatal fatal (some m) w =
      fatal m w >>= λ (handled, u). some (if handled then u else report_error m u)

  -- Tick, with the callback that stands in the registry.
  unfoldable pub tick : Fatal → Value → Vm it.State → Option (Vm it.State)
  unfolding tell_fatal
  tick fatal callback v = call fatal 0 (push callback (record v { need_tick = false })) >>= λ w.
      (if ltb 0 (length w.stack - length v.stack) then tell_fatal fatal (top_text w) w else some w)
      >>= λ u. some (record u { stack = [] })
