-- ===== src/Program/Chunks.antt =====
-- The code of Lua that the command line and LUA_INIT name (src/luanode.cpp): `report`, `traceback`, `docall`,
-- `dofile`, `dostring`, `dolibrary` and `handle_luainit`. The Lua interpreter is a parameter.
pub mod Failures
use lua_node.Base.{
  ℕ, suc, ◌+◌, Bool, true, false, Option, none, some, List, [], ◌∷◌, ◌++◌, ◌==◌, take, drop, get_or,
  if◌then◌else◌,
}
use lua_node.Base.Text.{Text, codes}
use lua_node.Lua.{Value, nil, string}

-- What lua_pcall answers, without results: the error before `traceback` has seen it.
pub data Called : Type 0 where
  finished : Called
  threw : Value → Called

-- The interpreter: loading a file or a text gives a function or an error; a call; the text of a value that is
-- one or a number; `debug.traceback`, where that is a function; and the global `require`.
pub record Standalone : Type 0 where
  pub load_file : Text → Bool × Value
  pub load_buffer : Text → Bool × Value
  pub pcall : Value → List Value → Called
  pub text : Value → Option Text
  pub traceback : Option (Text → Value)
  pub require : Value

-- The stack of Lua, the lines on stderr without the name of the program before them, whether SIGINT goes to
-- `laction`, and how often the collector was run.
pub record Session : Type 0 where
  pub stack : List Value
  pub stderr : List Text
  pub catches_interrupt : Bool
  pub collections : ℕ

module _ (lua : Standalone) where
  line_of : Value → Option Text
  line_of nil = none
  line_of v =
      some (elim (lua.text v) [ none ↦ codes "(error object is not a string)" | some t ↦ t ])

  -- The line is written, and its value taken off the stack.
  unfoldable pub print_line : Option Text → Session → Session
  print_line none s = s
  print_line (some t) s = record s { stack = drop 1 s.stack; stderr = s.stderr ++ t ∷ [] }

  -- report, of a status that tells whether it fails; a nil on top of the stack is left there.
  unfoldable pub report : Bool → Session → Bool × Session
  unfolding line_of print_line
  report true s = (true, print_line (line_of (get_or s.stack 0 nil)) s)
  report false s = (false, s)

  -- traceback, the handler of errors.
  unfoldable pub traceback : Value → Value
  traceback e = elim (lua.text e) [
    | none ↦ e
    | some t ↦ elim lua.traceback [ none ↦ e | some trace ↦ trace t ]
  ]

  -- What docall makes of the answer.
  unfoldable pub called : Called → List Value → Session → Bool × Session
  unfolding traceback
  called finished rest s = (false, record s { stack = rest; catches_interrupt = false })
  called (threw e) rest s = (
    true,
    record s {
      stack = traceback e ∷ rest;
      catches_interrupt = false;
      collections = s.collections + 1;
    },
  )

  -- docall, with `clear` set: the function stands under its `n` arguments.
  unfoldable pub docall : ℕ → Session → Bool × Session
  unfolding called
  docall n s = called (lua.pcall (get_or s.stack n nil) (take n s.stack)) (drop (suc n) s.stack) s

  unfoldable pub after_load : Bool × Value → Session → Bool × Session
  unfolding docall
  after_load (true, chunk) s = docall 0 (record s { stack = chunk ∷ s.stack })
  after_load (false, e) s = (true, record s { stack = e ∷ s.stack })

  abbrev pub reported : Bool × Session → Bool × Session
  reported (fails, s) = report fails s

  unfoldable pub dofile : Text → Session → Bool × Session
  unfolding report docall after_load
  dofile name s = reported (after_load (lua.load_file name) s)

  unfoldable pub dostring : Text → Session → Bool × Session
  unfolding report docall after_load
  dostring chunk s = reported (after_load (lua.load_buffer chunk) s)

  unfoldable pub dolibrary : Text → Session → Bool × Session
  unfolding report docall
  dolibrary name s = reported (docall 1 (record s { stack = string name ∷ lua.require ∷ s.stack }))

  -- handle_luainit, of the value of LUA_INIT: after an @ the name of a file.
  unfoldable pub handle_luainit : Option Text → Session → Bool × Session
  unfolding dofile dostring
  handle_luainit none s = (false, s)
  handle_luainit (some []) s = dostring [] s
  handle_luainit (some (c ∷ rest)) s = if c == 64 then dofile rest s else dostring (c ∷ rest) s
