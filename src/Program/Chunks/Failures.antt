-- ===== src/Program/Chunks/Failures.antt =====
-- What is left of the chunks that fail.
use lua_node.Base.{
  ℕ, ◌+◌, ◌≡◌, refl, ap, ◌∙◌, Bool, true, false, Option, none, some, List, [], ◌∷◌, ◌==◌, arith,
  length, length-append, if◌then◌else◌,
}
use lua_node.Base.Text.{Text}
use lua_node.Lua.{Value, string}
use lua_node.Program.Chunks.{
  Standalone, Session, Called, finished, threw, print_line, reported, called, report, docall,
  after_load, dofile, dostring, dolibrary, handle_luainit,
}

-- What a session holds of the failures: lines on stderr, and values that were left on the stack.
abbrev held : Session → ℕ
held s = length s.stack + length s.stderr

-- A failure adds one, and SIGINT is left to the system.
abbrev IsLine : Session → Bool × Session → Type 0
IsLine s (fails, t) =
    (held t ≡ held s + (if fails then 1 else 0))
    × (s.catches_interrupt ≡ false → t.catches_interrupt ≡ false)

module _ (lua : Standalone) where
  print_line-held :
      (o : Option Text) (e : Value) (s : Session) (rest : List Value)
      → (held (print_line lua o (record s { stack = e ∷ rest }))
          ≡ length rest + length s.stderr + 1)
        × ((print_line lua o (record s { stack = e ∷ rest })).catches_interrupt
            ≡ s.catches_interrupt)
  unfolding print_line
  print_line-held none e s rest = (omega arith, refl)
  print_line-held (some t) e s rest = (omega (arith, length-append s.stderr (t ∷ [])), refl)

  failed-IsLine :
      (o : Option Text) (e : Value) (s u : Session)
      → u.stderr ≡ s.stderr
      → (s.catches_interrupt ≡ false → u.catches_interrupt ≡ false)
      → IsLine s (true, print_line lua o (record u { stack = e ∷ s.stack }))
  failed-IsLine o e s u h k =
      let (held_after, kept) = print_line-held o e u s.stack in
      (omega (arith, held_after, ap length h), λ c. kept ∙ k c)

  called-IsLine :
      (c : Called) (s u : Session)
      → u.stderr ≡ s.stderr
      → IsLine s (reported lua (called lua c s.stack u))
  unfolding called report
  called-IsLine finished s u h = (omega (arith, ap length h), λ c. refl)
  called-IsLine (threw e) s u h =
      failed-IsLine _ _ s (record u { catches_interrupt = false; collections = u.collections + 1 })
        h (λ c. refl)

  after_load-IsLine :
      (answer : Bool × Value) (s : Session) → IsLine s (reported lua (after_load lua answer s))
  unfolding after_load docall report
  after_load-IsLine (true, chunk) s = called-IsLine _ s (record s { stack = chunk ∷ s.stack }) refl
  after_load-IsLine (false, e) s = failed-IsLine _ e s s refl (λ c. c)

  dofile-IsLine : (name : Text) (s : Session) → IsLine s (dofile lua name s)
  unfolding dofile
  dofile-IsLine name s = after_load-IsLine (lua.load_file name) s

  dostring-IsLine : (chunk : Text) (s : Session) → IsLine s (dostring lua chunk s)
  unfolding dostring
  dostring-IsLine chunk s = after_load-IsLine (lua.load_buffer chunk) s

  -- A library that cannot be required leaves one line on stderr, or one nil on the stack.
  dolibrary-IsLine : (name : Text) (s : Session) → IsLine s (dolibrary lua name s)
  unfolding dolibrary docall
  dolibrary-IsLine name s =
      called-IsLine _ s (record s { stack = string name ∷ lua.require ∷ s.stack }) refl

  -- Whatever LUA_INIT holds: where its code fails, there is one more line on stderr, or one more value (a nil) on
  -- the stack, and where it does not, there is none; and SIGINT goes to the system again, if it did before.
  handle_luainit-IsLine : (init : Option Text) (s : Session) → IsLine s (handle_luainit lua init s)
  unfolding handle_luainit
  handle_luainit-IsLine none s = (omega arith, λ c. c)
  handle_luainit-IsLine (some []) s = dostring-IsLine [] s
  handle_luainit-IsLine (some (c ∷ rest)) s = of_first (c == 64)
    where
      of_first : (b : Bool) → IsLine s (if b then dofile lua rest s else dostring lua (c ∷ rest) s)
      of_first true = dofile-IsLine rest s
      of_first false = dostring-IsLine (c ∷ rest) s
