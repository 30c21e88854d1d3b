-- ===== src/Net/Handlers/Closing.antt =====
-- A close that was put off is carried out by the handler of the write in flight.
use lua_node.Base.{
  Bool, ℕ, ◌+◌, ◌-◌, ◌≤◌, ◌≡◌, refl, ◌∙◌, true, false, ◌&&◌, Option, none, some, List, [], ◌∷◌,
  ◌++◌, arith, ◌==◌, All, if_cases,
}
use lua_node.Lua.{string, self, boolean, ErrorCode}
use lua_node.Net.Socket.{
  Event, did_shutdown, did_close, called, receive, send, both_ways, write_callback,
  shutdown_callback, close_callback, Socket, Asio, Request, write, read, close, shutdown, connect,
  decrement, request, requests, note, do_shutdown, do_close,
}
use lua_node.Net.Handlers.{
  Script, Scripts, masked, leaves_clear, clear_after, call_script, call_close_callback, done_args,
  close_if_pending, shutdown_if_pending, handle_write,
}

abbrev is_close : Event → ℕ
is_close did_close = 1
is_close _ = 0

abbrev pub closes : List Event → ℕ
closes [] = 0
closes (e ∷ es) = is_close e + closes es

closes-note : (es : List Event) (e : Event) → closes (es ++ e ∷ []) ≡ closes es + is_close e
closes-note [] e = omega arith
closes-note (f ∷ es) e = omega (arith, closes-note es e)

abbrev Grows : Socket → Socket → Type 0
Grows s t = closes s.log ≤ closes t.log

-- A request that starts no write.
abbrev pub IsQuiet : Request → Type 0
IsQuiet (write v) = ⊥
IsQuiet _ = Unit {0}

abbrev pub IsQuietScript : Option Script → Type 0
IsQuietScript none = Unit
IsQuietScript (some script) = All IsQuiet script.calls

module _ (asio : Asio) where
  request-Grows : (r : Request) (s : Socket) → Grows s (request asio r s).0
  unfolding request
  request-Grows (write (string bytes)) s = ground arith
  request-Grows (write _) s = ground arith
  request-Grows (read arg) s = ground arith
  request-Grows (close b) s = ground (
    arith,
    closes-note s.log (did_shutdown both_ways),
    closes-note (s.log ++ did_shutdown both_ways ∷ []) did_close,
  )
  request-Grows (shutdown _) s = ground (
    arith,
    closes-note s.log (did_shutdown send),
    closes-note s.log (did_shutdown receive),
    closes-note (s.log ++ did_shutdown send ∷ []) (did_shutdown receive),
  )
  request-Grows (connect ip) s = ground arith

  -- With no write in flight, a quiet request starts none and leaves a pending close pending.
  request-IsQuiet :
      (r : Request) (s : Socket)
      → IsQuiet r
      → s.pending_writes ≡ 0
      → ((request asio r s).0.pending_writes ≡ 0)
        × ((request asio r s).0.close_pending ≡ s.close_pending)
  unfolding request
  request-IsQuiet (write v) s q z = absurd q
  request-IsQuiet (read arg) s q z = ground arith
  request-IsQuiet (close b) s q z = ground arith
  request-IsQuiet (shutdown _) s q z = ground arith
  request-IsQuiet (connect ip) s q z = ground arith

  requests-Grows : (rs : List Request) (s : Socket) → Grows s (requests asio rs s)
  unfolding requests
  requests-Grows [] s = omega arith
  requests-Grows (r ∷ rs) s =
      omega (arith, request-Grows r s, requests-Grows rs (request asio r s).0)

  call_script-Grows :
      (sc : Option Script) (e : Event) (s : Socket) → Grows s (call_script asio sc e s)
  unfolding call_script
  call_script-Grows none e s = omega arith
  call_script-Grows (some sc) e s =
      omega (arith, closes-note s.log e, requests-Grows sc.calls (note e s))

  requests-IsQuiet :
      (rs : List Request) (s : Socket)
      → All IsQuiet rs
      → s.pending_writes ≡ 0
      → ((requests asio rs s).pending_writes ≡ 0)
        × ((requests asio rs s).close_pending ≡ s.close_pending)
  unfolding requests
  requests-IsQuiet [] s q z = (z, refl)
  requests-IsQuiet (r ∷ rs) s q z =
      let (a, b) = request-IsQuiet r s q.0 z in
      let (c, d) = requests-IsQuiet rs (request asio r s).0 q.1 a in (c, d ∙ b)

  call_script-IsQuiet :
      (sc : Option Script) (e : Event) (s : Socket)
      → IsQuietScript sc
      → s.pending_writes ≡ 0
      → ((call_script asio sc e s).pending_writes ≡ 0)
        × ((call_script asio sc e s).close_pending ≡ s.close_pending)
  unfolding call_script
  call_script-IsQuiet none e s q z = (z, refl)
  call_script-IsQuiet (some sc) e s q z = requests-IsQuiet sc.calls (note e s) q z

  close_if_pending-closes :
      (clear : Bool) (scripts : Scripts) (s : Socket)
      → s.pending_writes ≡ 0
      → s.close_pending ≡ true
      → closes s.log + 1 ≤ closes (close_if_pending asio clear scripts s).log
  unfolding close_if_pending call_close_callback
  close_if_pending-closes clear scripts s z e =
      let t =
        (do_close asio (do_shutdown asio both_ways (record s { close_pending = false })).0).0 in
      let ev = called close_callback (self ∷ boolean true ∷ []) in
      if_cases (λ (u : Socket). closes s.log + 1 ≤ closes u.log) s.close_pending _ s
        (λ _.
          if_cases (λ (u : Socket). closes s.log + 1 ≤ closes u.log) (s.pending_writes == 0) _ s
            (λ _. omega (
              arith,
              closes-note s.log (did_shutdown both_ways),
              closes-note (s.log ++ did_shutdown both_ways ∷ []) did_close,
              call_script-Grows (masked clear (scripts close_callback)) ev t,
            ))
            (λ n. absurd (ground arith)))
        (λ n. absurd (ground arith))

  masked-IsQuietScript :
      (clear : Bool) (script : Option Script)
      → IsQuietScript script
      → IsQuietScript (masked clear script)
  masked-IsQuietScript true script q = q
  masked-IsQuietScript false script q = tt

  shutdown_if_pending-IsQuiet :
      (clear : Bool) (scripts : Scripts) (s : Socket)
      → IsQuietScript (scripts shutdown_callback)
      → s.pending_writes ≡ 0
      → ((shutdown_if_pending asio clear scripts s).pending_writes ≡ 0)
        × ((shutdown_if_pending asio clear scripts s).close_pending ≡ s.close_pending)
        × Grows s (shutdown_if_pending asio clear scripts s)
  unfolding shutdown_if_pending
  shutdown_if_pending-IsQuiet clear scripts s q z =
      let t = (do_shutdown asio send s).0 in
      let ev = called shutdown_callback (self ∷ boolean true ∷ []) in
      let (a, b) =
        call_script-IsQuiet (masked clear (scripts shutdown_callback)) ev t
          (masked-IsQuietScript clear (scripts shutdown_callback) q) z in
      if_cases
        (λ (u : Socket). (u.pending_writes ≡ 0) × (u.close_pending ≡ s.close_pending) × Grows s u)
        (s.write_shutdown_pending && s.pending_writes == 0) _ s
        (λ _. (
          a,
          b,
          omega (
            arith,
            closes-note s.log (did_shutdown send),
            call_script-Grows (masked clear (scripts shutdown_callback)) ev t,
          ),
        ))
        (λ _. (z, refl, omega arith))

  -- When the write in flight completes, with or without an error, and neither its callback nor the
  -- shutdown callback starts another write, a close that was put off is carried out by its handler.
  pub handle_write-closes :
      (error : ErrorCode) (scripts : Scripts) (s : Socket)
      → s.pending_writes ≡ 1
      → s.close_pending ≡ true
      → IsQuietScript (scripts write_callback)
      → IsQuietScript (scripts shutdown_callback)
      → closes s.log + 1 ≤ closes (handle_write asio error scripts s).log
  unfolding handle_write
  handle_write-closes error scripts s z e q q' =
      let s1 = record s { refs = s.refs - 1; pending_writes = decrement s.pending_writes } in
      let ev = called write_callback (done_args asio error) in
      let s2 = call_script asio (scripts write_callback) ev s1 in
      let (a, b) = call_script-IsQuiet (scripts write_callback) ev s1 q (omega arith) in
      let (c, d, g) =
        shutdown_if_pending-IsQuiet (leaves_clear (scripts write_callback)) scripts s2 q' a in
      omega (
        arith,
        call_script-Grows (scripts write_callback) ev s1,
        g,
        close_if_pending-closes (clear_after (leaves_clear (scripts write_callback)) scripts s2)
            scripts (shutdown_if_pending asio (leaves_clear (scripts write_callback)) scripts s2) c
            (d ∙ b ∙ e),
      )
