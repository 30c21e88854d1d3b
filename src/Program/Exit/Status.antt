-- ===== src/Program/Exit/Status.antt =====
-- The status that the program ends with.
use lua_node.Base.{
  ℕ, zero, suc, ◌+◌, ◌≡◌, Option-cases, inl, inr, refl, ap, ◌∙◌, Bool, true, false, Option, none,
  some, List, [], ◌∷◌, arith, if◌then◌else◌,
}
use lua_node.Base.Int.{ℤ, pos}
use lua_node.Program.Exit.{
  Program, new_program, exit_status, effects, Effect, exits, wants_tick, Turn, handler, ticks,
  signal, console_event, ConsoleEvent, logoff, ctrl_c, ctrl_break, close, shutdown, unknown, turn,
  run, tick_turn, main_status, load_status, NodeAnswer, raised, number, other, Session, emit_exit,
  load, is_zero, console_control_handler, exit, need_tick_callback,
}

-- The last call of `_exit` among what Lua does.
abbrev pub last_exit : List Effect → Option ℤ
last_exit [] = none
last_exit (exits code ∷ rest) = elim (last_exit rest) [
  | none ↦ some (exit_status code)
  | some later ↦ some later
]
last_exit (wants_tick ∷ rest) = last_exit rest

abbrev pub wanted : List Effect → ℕ
wanted [] = 0
wanted (exits code ∷ rest) = wanted rest
wanted (wants_tick ∷ rest) = suc (wanted rest)

-- Whether an event of the console ends the program.
abbrev pub ends : ConsoleEvent → Bool
ends logoff = false
ends unknown = false
ends _ = true

-- The status that a session leaves: that of the last call of `_exit` in the first handler or tick that has
-- one, unless a signal or an event of the console that ends the program comes before; the status is then, and
-- at the end of a session without any of these, the one from before. A tick that was not posted does not run.
unfoldable pub status : ℕ → ℤ → List Turn → ℤ
status n s [] = s
status n s (handler es ∷ rest) = elim (last_exit es) [
  | none ↦ status (n + wanted es) s rest
  | some c ↦ c
]
status zero s (ticks es ∷ rest) = status zero s rest
status (suc n) s (ticks es ∷ rest) = elim (last_exit es) [
  | none ↦ status (n + wanted es) s rest
  | some c ↦ c
]
status n s (signal ∷ rest) = s
status n s (console_event e ∷ rest) = elim (ends e) [ true ↦ s | false ↦ status n s rest ]

record IsRun (es : List Effect) (p q : Program) : Type 0 where
  code : q.exit_code ≡ elim (last_exit es) [ none ↦ p.exit_code | some c ↦ c ]
  stop : q.stopped ≡ elim (last_exit es) [ none ↦ p.stopped | some c ↦ true ]
  posted : q.ticks ≡ p.ticks + wanted es

effects-IsRun : (es : List Effect) (p : Program) → IsRun es p (effects es p)
unfolding effects
effects-IsRun [] p = record { code = refl; stop = refl; posted = omega arith }
effects-IsRun (exits code ∷ rest) p =
    let h = effects-IsRun rest (exit code p) in ground (arith, h.code, h.stop, h.posted)
effects-IsRun (wants_tick ∷ rest) p =
    let h = effects-IsRun rest (need_tick_callback p) in ground (arith, h.code, h.stop, h.posted)

run-stopped : (ts : List Turn) (p : Program) → p.stopped ≡ true → run ts p ≡ p
unfolding run
run-stopped [] p h = refl
run-stopped (t ∷ ts) p h = ground arith

-- The rest of a session after a handler or a tick.
run-IsRun :
    (rest : List Turn) (es : List Effect) (p q : Program)
    → IsRun es p q
    → p.stopped ≡ false
    → (q.stopped ≡ false → (run rest q).exit_code ≡ status q.ticks q.exit_code rest)
    → (run rest q).exit_code
      ≡ elim (last_exit es) [ none ↦ status (p.ticks + wanted es) p.exit_code rest | some c ↦ c ]
run-IsRun rest es p q r f h = elim (Option-cases (last_exit es)) [
  | inl e ↦ rw e (
      let c : q.exit_code ≡ p.exit_code = ground arith in
      h (ground arith)
      ∙ ap (λ n. status n q.exit_code rest) r.posted
      ∙ ap (λ z. status (p.ticks + wanted es) z rest) c)
  | inr (c, e) ↦
      rw e (ap (λ (u : Program). u.exit_code) (run-stopped rest q (ground arith)) ∙ (ground arith))
]

run-turn :
    (t : Turn) (rest : List Turn) (p : Program)
    → p.stopped ≡ false
    → (run (t ∷ rest) p).exit_code ≡ (run rest (turn t p)).exit_code
unfolding run
run-turn t rest p f =
    ap (λ b. (elim b as (λ x. Program) [ true ↦ p | false ↦ run rest (turn t p) ]).exit_code) f

run-effects :
    (rest : List Turn) (es : List Effect) (p : Program)
    → p.stopped ≡ false
    → ((q : Program) → q.stopped ≡ false → (run rest q).exit_code ≡ status q.ticks q.exit_code rest)
    → (run rest (effects es p)).exit_code
      ≡ elim (last_exit es) [ none ↦ status (p.ticks + wanted es) p.exit_code rest | some c ↦ c ]
run-effects rest es p f h =
    run-IsRun rest es p (effects es p) (effects-IsRun es p) f (h (effects es p))

tick-status :
    (n : ℕ) (es : List Effect) (rest : List Turn) (p : Program)
    → p.stopped ≡ false
    → p.ticks ≡ n
    → ((q : Program) → q.stopped ≡ false → (run rest q).exit_code ≡ status q.ticks q.exit_code rest)
    → (run rest (tick_turn n es p)).exit_code ≡ status n p.exit_code (ticks es ∷ rest)
unfolding tick_turn status
tick-status zero es rest p f e h = h p f ∙ ap (λ n. status n p.exit_code rest) e
tick-status (suc n) es rest p f e h =
    run-effects rest es (record p { need_tick = false; ticks = n }) f h

console-status :
    (e : ConsoleEvent) (rest : List Turn) (p : Program)
    → p.stopped ≡ false
    → ((q : Program) → q.stopped ≡ false → (run rest q).exit_code ≡ status q.ticks q.exit_code rest)
    → (run rest (console_control_handler e p).0).exit_code
      ≡ status p.ticks p.exit_code (console_event e ∷ rest)
unfolding console_control_handler status
console-status logoff rest p f h = h p f
console-status unknown rest p f h = h p f
console-status ctrl_c rest p f h = ap (λ (u : Program). u.exit_code) (run-stopped rest _ refl)
console-status ctrl_break rest p f h = ap (λ (u : Program). u.exit_code) (run-stopped rest _ refl)
console-status close rest p f h = ap (λ (u : Program). u.exit_code) (run-stopped rest _ refl)
console-status shutdown rest p f h = ap (λ (u : Program). u.exit_code) (run-stopped rest _ refl)

run-status :
    (ts : List Turn) (p : Program)
    → p.stopped ≡ false
    → (run ts p).exit_code ≡ status p.ticks p.exit_code ts
unfolding status turn
run-status [] p f = unfold run in refl
run-status (handler es ∷ rest) p f =
    run-turn (handler es) rest p f ∙ run-effects rest es p f (run-status rest)
run-status (ticks es ∷ rest) p f =
    run-turn (ticks es) rest p f ∙ tick-status p.ticks es rest p f refl (run-status rest)
run-status (signal ∷ rest) p f =
    run-turn signal rest p f ∙ ap (λ (u : Program). u.exit_code) (run-stopped rest _ refl)
run-status (console_event e ∷ rest) p f =
    run-turn (console_event e) rest p f ∙ console-status e rest p f (run-status rest)

-- The status after some calls of Lua, given the one before.
abbrev pub overridden : List Effect → ℤ → ℤ
overridden es s = elim (last_exit es) [ none ↦ s | some c ↦ c ]

-- The status that the loop leaves, which is stopped at once where node.lua has called `_exit` before.
abbrev pub loop_status : Session → ℤ
loop_status s = overridden s.before (status (wanted s.before) (pos 0) s.turns)

-- What Lua calls on the emission of "exit" by `Load`.
abbrev pub at_exit : NodeAnswer → List Effect
at_exit (raised es) = es
at_exit (number n) = []
at_exit other = []

-- The status of a session: of the last call of `_exit` on the emission of "exit" after an error; else after
-- the loop; else of the loop.
abbrev pub session_status : Session → ℤ
session_status s = overridden (at_exit s.answer) (overridden s.after (loop_status s))

emit_exit-code :
    (a : NodeAnswer) (p : Program) → (emit_exit a p).exit_code ≡ overridden (at_exit a) p.exit_code
unfolding emit_exit
emit_exit-code (raised es) p = (effects-IsRun es p).code
emit_exit-code (number n) p = refl
emit_exit-code other p = refl

load-code : (s : Session) → (load s new_program).1.exit_code ≡ session_status s
unfolding load new_program
load-code s =
    let p = effects s.before new_program in
    let q = run s.turns p in
    emit_exit-code s.answer (effects s.after q)
    ∙ ap (overridden (at_exit s.answer)) (
        (effects-IsRun s.after q).code
        ∙ ap (overridden s.after) (
            run-effects s.turns s.before new_program refl (run-status s.turns)
            ∙ ap (λ n. overridden s.before (status n (pos 0) s.turns)) (omega arith)))

pick_status :
    (c r : ℤ)
    → (elim (is_zero c) as (λ b. ℤ) [ true ↦ r | false ↦ c ]) ≡ (if is_zero c then r else c)
pick_status c r = ground arith

-- Whatever Lua does before, in and after the loop, and whatever signals and events of the console come, in
-- whatever order: the program ends with the status of its session, unless that is 0: then with 1 where node.lua
-- raised an error, with the number that it returned, as an `int`, or with 0. The status of the session is that of
-- the last call of `_exit` on the emission of "exit" after an error; else of the last one behind the loop; else
-- of the last one before the loop; else of the last one in the first handler or tick that has one, before any
-- signal. What the loop would run after its end does not count. Each status is cut to 32 bits.
pub main-status :
    (s : Session)
    → main_status s new_program
      ≡ (if is_zero (session_status s) then load_status s.answer else session_status s)
unfolding main_status load
main-status s =
    ap (λ c. elim (is_zero c) as (λ b. ℤ) [ true ↦ load_status s.answer | false ↦ c ]) (load-code s)
    ∙ pick_status (session_status s) (load_status s.answer)
