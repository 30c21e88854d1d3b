-- ===== src/Program/Errors/Nesting.antt =====
-- An error while an error is being handled.
use lua_node.Base.{
  ℕ, zero, suc, ◌+◌, ◌-◌, ◌≡◌, ◌≢◌, inl, inr, refl, Bool, true, false, not, ◌&&◌, some, List, [],
  ◌∷◌, arith, ltb, drop, take, Bool-cases, ap, ◌∙◌, if◌then◌else◌,
}
use mathlib.Core.List.{reverse}
use lua_node.Lua.{Value, nil, string}
use lua_node.Base.Text.{Text}
use lua_node.Program.Errors.{
  Interpreter, Answer, finished, failed, not_loaded, Chunk, exit_line, emit_line, Event, runs,
  stops, reports, Vm, fatal_error, top_text, process_value, events_value, first_error, handling,
  dostring, after_chunk, on_error, report_error, is_nil, error_text,
}

module _ (it : Interpreter) where
  open it use {State}

  -- With an error that is being handled already: the loop is stopped, and nothing is run.
  nested :
      (n : ℕ) (m : Text) (v : Vm it.State)
      → v.counter ≢ 0
      → fatal_error it n m v ≡ some (false, record v { log = stops ∷ v.log })
  unfolding fatal_error
  nested zero m v h = ground arith
  nested (suc n) m v h = ground arith

  -- What comes of a line that is run while an error is being handled: nothing where it ends well, and else the
  -- stop of the loop and the report of the line's own error.
  abbrev pub outcome : Answer → List Event → List Event
  outcome (finished results) log = log
  outcome (failed e) log = reports (error_text true (it.text e)) ∷ stops ∷ log
  outcome (not_loaded e) log = reports (error_text false (it.text e)) ∷ stops ∷ log

  report_error-fields :
      (m : Text) (v : Vm it.State)
      → ((report_error it m v).counter ≡ v.counter)
        × ((report_error it m v).log ≡ reports m ∷ v.log)
  unfolding report_error
  report_error-fields m v = ground arith

  record IsReported (b : Bool) (v w : Vm it.State) : Type 0 where
    counted : w.counter ≡ v.counter
    logged : w.log ≡ reports (error_text b (top_text it v)) ∷ stops ∷ v.log

  on_error-IsReported :
      (n : ℕ) (b : Bool) (v : Vm it.State)
      → v.counter ≢ 0
      → (w : Vm it.State) × (on_error it (fatal_error it n) b v ≡ some w) × IsReported b v w
  unfolding on_error
  on_error-IsReported n b v h =
      let m = error_text b (top_text it v) in
      let u = record v { log = stops ∷ v.log } in
      let (c, l) = report_error-fields m u in
      (report_error it m u, rw (nested n m v h) refl, record { counted = c; logged = l })

  record IsQuiet (a : Answer) (v w : Vm it.State) : Type 0 where
    counted : w.counter ≡ v.counter
    logged : w.log ≡ outcome a v.log

  after_chunk-IsQuiet :
      (n k : ℕ) (a : Answer) (v : Vm it.State)
      → v.counter ≢ 0
      → (w : Vm it.State) × (after_chunk it (fatal_error it n) k a v ≡ some w) × IsQuiet a v w
  unfolding after_chunk
  after_chunk-IsQuiet n k (finished results) v h =
      (_, refl, record { counted = refl; logged = refl })
  after_chunk-IsQuiet n k (failed e) v h =
      let (w, d, q) = on_error-IsReported n true (record v { stack = e ∷ drop k v.stack }) h in
      (w, d, record { counted = q.counted; logged = q.logged })
  after_chunk-IsQuiet n k (not_loaded e) v h =
      let (w, d, q) = on_error-IsReported n false (record v { stack = e ∷ v.stack }) h in
      (
        record w { stack = drop k w.stack },
        rw d refl,
        record { counted = q.counted; logged = q.logged },
      )

  record IsHandled (chunk : Chunk) (args : List Value) (v w : Vm it.State) : Type 0 where
    counted : w.counter ≡ v.counter
    logged : w.log ≡ outcome (it.run chunk args v.lua).0 (runs chunk args ∷ v.log)

  handling-IsHandled :
      (n k : ℕ) (chunk : Chunk) (v : Vm it.State)
      → (w : Vm it.State) × (handling it (fatal_error it n) chunk k v ≡ some w)
        × IsHandled chunk (reverse (take k v.stack)) v w
  unfolding handling dostring
  handling-IsHandled n k chunk v =
      let args = reverse (take k v.stack) in
      let r = it.run chunk args v.lua in
      let u = record v { lua = r.1; counter = v.counter + 1; log = runs chunk args ∷ v.log } in
      let (w, e, q) = after_chunk-IsQuiet n k r.0 u (λ h. absurd (omega arith)) in
      (
        record w { counter = w.counter - 1 },
        rw e refl,
        record { counted = omega (arith, q.counted); logged = q.logged },
      )

  -- Whether the program has a handler of its own for errors, and the line that an error runs then, with its
  -- arguments.
  abbrev pub has_handler : it.State → Bool
  has_handler lua = it.has_events lua && not (is_nil (it.handler lua))

  abbrev pub line_of : Text → it.State → Chunk × List Value
  line_of m lua = if has_handler lua then (emit_line, string m ∷ []) else (exit_line, [])

  -- The log after an error: the line, and what comes of it.
  abbrev pub answered_log : Text → Vm it.State → List Event
  answered_log m v =
      let (chunk, args) = line_of m v.lua in
      outcome (it.run chunk args v.lua).0 (runs chunk args ∷ v.log)

  record IsAnswered (m : Text) (v w : Vm it.State) : Type 0 where
    counted : w.counter ≡ v.counter
    balanced : has_handler v.lua ≡ true → w.stack ≡ v.stack
    logged : w.log ≡ answered_log m v

  first_error-IsAnswered :
      (n : ℕ) (m : Text) (v : Vm it.State)
      → (w : Vm it.State) × (first_error it (fatal_error it n) m v ≡ some (has_handler v.lua, w))
        × IsAnswered m v w
  unfolding first_error
  first_error-IsAnswered n m v = elim (Bool-cases (it.has_events v.lua)) [
    | inl e ↦ elim (Bool-cases (is_nil (it.handler v.lua))) [
      | inl f ↦
          let (w, d, h) =
            handling-IsHandled n 0 exit_line
              (record v { stack = nil ∷ events_value ∷ process_value ∷ v.stack }) in
          (
            w,
            rw (e, f, d) refl,
            record {
              counted = h.counted;
              balanced = rw (e, f) (λ q. cc);
              logged = rw (e, f) h.logged;
            },
          )
      | inr f ↦
          let (w, d, h) = handling-IsHandled n 1 emit_line (record v {
            stack = string m ∷ it.handler v.lua ∷ events_value ∷ process_value ∷ v.stack;
          }) in
          (
            record w { stack = v.stack },
            rw (e, f, d) refl,
            record { counted = h.counted; balanced = λ _. refl; logged = rw (e, f) h.logged },
          )
    ]
    | inr e ↦
        let (w, d, h) =
          handling-IsHandled n 0 exit_line
            (record v { stack = events_value ∷ process_value ∷ v.stack }) in
        (
          w,
          rw (e, d) refl,
          record { counted = h.counted; balanced = rw e (λ q. cc); logged = rw e h.logged },
        )
  ]

  -- An error outside of the handling of another one, however deep the calls nest from there: exactly one of
  -- the program's lines is run, the emission of "unhandledError" with the error's text where Lua has a handler,
  -- and `process:exit(1)` where it has none; the answer tells which, and where Lua has a handler the stack is
  -- as it was. Where that line ends well nothing else is noted; where it raises an error, or cannot be loaded,
  -- this runs no other line: it stops the loop, and its own text is reported, once. The counter is 0 again.
  pub fatal_error-answers :
      (n : ℕ) (m : Text) (v : Vm it.State)
      → v.counter ≡ 0
      → (w : Vm it.State) × (fatal_error it (suc n) m v ≡ some (has_handler v.lua, w))
        × (w.counter ≡ 0)
        × (has_handler v.lua ≡ true → w.stack ≡ v.stack)
        × (w.log ≡ answered_log m v)
  unfolding fatal_error
  fatal_error-answers n m v z =
      let (w, e, a) = first_error-IsAnswered n m v in
      (w, rw (ap (λ k. ltb 0 k) z) e, a.counted ∙ z, a.balanced, a.logged)
