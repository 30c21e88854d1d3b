-- ===== src/Program/Errors/Twice.antt =====
-- The error of a tick callback.
use lua_node.Base.{
  ℕ, suc, ◌+◌, ◌-◌, ◌≡◌, refl, Bool, ap, ◌∙◌, true, false, some, List, [], ◌∷◌, arith, ltb, length,
  get_or, if◌then◌else◌,
}
use lua_node.Base.Text.{Text}
use lua_node.Lua.{Value, nil, string}
use lua_node.Program.Errors.{
  Interpreter, Chunk, Answer, finished, not_loaded, failed, exit_line, emit_line, function, Event,
  runs, stops, reports, Vm, fatal_error, tick, call, after_chunk, on_error, error_text,
}
use lua_node.Program.Errors.Nesting.{has_handler, line_of, outcome, fatal_error-answers}

-- How often "unhandledError" was emitted.
abbrev pub emissions : List Event → ℕ
emissions [] = 0
emissions (runs emit_line args ∷ rest) = suc (emissions rest)
emissions (runs exit_line args ∷ rest) = emissions rest
emissions (runs (function f) args ∷ rest) = emissions rest
emissions (reports t ∷ rest) = emissions rest
emissions (stops ∷ rest) = emissions rest

module _ (it : Interpreter) (steady : (s : it.State) → has_handler it s ≡ true) where
  emissions-outcome : (a : Answer) (log : List Event) → emissions (outcome it a log) ≡ emissions log
  emissions-outcome (finished results) log = refl
  emissions-outcome (failed e) log = refl
  emissions-outcome (not_loaded e) log = refl

  handled_once :
      (n : ℕ) (m : Text) (v : Vm it.State)
      → v.counter ≡ 0
      → (w : Vm it.State) × (fatal_error it (suc n) m v ≡ some (true, w))
        × (w.counter ≡ 0)
        × (w.stack ≡ v.stack)
        × (emissions w.log ≡ emissions v.log + 1)
  handled_once n m v z =
      let (w, e, c, b, l) = fatal_error-answers it n m v z in
      let (chunk, args) = line_of it m v.lua in
      let line : emissions (runs chunk args ∷ v.log) ≡ emissions v.log + 1 =
        ap
          (λ (b : Bool).
            let (c, a) : Chunk × List Value =
              if b then (emit_line, string m ∷ []) else (exit_line, []) in
            emissions (runs c a ∷ v.log))
          (steady v.lua)
        ∙ (omega arith) in
      (
        w,
        e ∙ ap (λ h. some (h, w)) (steady v.lua),
        c,
        b (steady v.lua),
        ap emissions l
            ∙ emissions-outcome (it.run chunk args v.lua).0 (runs chunk args ∷ v.log)
            ∙ line,
      )

  call_once :
      (n : ℕ) (callback e : Value) (t : Text) (v : Vm it.State)
      → v.counter ≡ 0
      → (it.run (function callback) [] v.lua).0 ≡ failed e
      → it.text e ≡ some t
      → (w : Vm it.State) × (call it
            (fatal_error it (suc n))
            0
            (record v { stack = callback ∷ v.stack })
          ≡ some w)
        × (w.counter ≡ 0)
        × (w.stack ≡ e ∷ v.stack)
        × (emissions w.log ≡ emissions v.log + 1)
  unfolding call after_chunk on_error
  call_once n callback e t v z f x =
      let u : Vm it.State = record v {
        lua = (it.run (function callback) [] v.lua).1;
        stack = e ∷ v.stack;
        log = runs (function callback) [] ∷ v.log;
      } in
      let (w, d, c, s, l) = handled_once n (error_text true (some t)) u z in
      (w, rw (f, x, d) refl, c, s, l)

  -- Where Lua has a handler for "unhandledError" that stays, and the tick callback raises a string or a number:
  -- the error is told to the handler twice.
  tick-tells_twice :
      (n : ℕ) (callback e : Value) (t : Text) (v : Vm it.State)
      → v.counter ≡ 0
      → (it.run (function callback) [] v.lua).0 ≡ failed e
      → it.text e ≡ some t
      → (w : Vm it.State) × (tick it (fatal_error it (suc n)) callback v ≡ some w)
        × (emissions w.log ≡ emissions v.log + 2)
  unfolding tick
  tick-tells_twice n callback e t v z f x =
      let (w1, e1, c1, s1, l1) = call_once n callback e t (record v { need_tick = false }) z f x in
      let (w2, e2, c2, s2, l2) = handled_once n t w1 c1 in
      let longer : ltb 0 (length w1.stack - length v.stack) ≡ true =
        ground (arith, ap (λ (l : List Value). length l) s1) in
      let said : it.text (get_or w1.stack 0 nil) ≡ some t =
        ap (λ l. it.text (get_or l 0 nil)) s1 ∙ x in
      (record w2 { stack = [] }, rw (e1, longer, said, e2) refl, omega (arith, l1, l2))
