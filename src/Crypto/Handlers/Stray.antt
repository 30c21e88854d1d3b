-- ===== src/Crypto/Handlers/Stray.antt =====
-- What a handler that returns early leaves on the Lua stack.
use lua_node.Base.{
  ℕ, ◌+◌, ◌≡◌, refl, true, ◌<◌, ◌==◌, ap, if_cases, if◌then◌else◌, [], none, some, List, arith,
}
use lua_node.Lua.{Value, ErrorCode}
use lua_node.Crypto.Socket.{
  Op, handshake_op, write_op, read_op, some_bytes, delimited, Callback, read_callback, Event,
  Socket,
}
use lua_node.Crypto.Handlers.{
  Scripts, Completion, found, close_if_done, shutdown_if_done, end_read, tell, handle_handshake,
  handle_write, handle_read, handle_read_some, complete_op,
}

abbrev pub silent : Scripts
silent which = none

found-silent :
    (scripts : Scripts) (which : Callback) (s : Socket) → 0 < s.stray → found scripts which s ≡ none
found-silent scripts which s h =
    if_cases (λ o. o ≡ none) (s.stray == 0) _ _ (λ e. absurd (ground arith)) (λ e. refl)

module _ (close_result : List Event → ErrorCode) where
  -- With a stray value on the stack, `tell` and the handlers do what they do without callbacks.
  tell-silent :
      (error : ErrorCode) (args : List Value) (which : Callback) (scripts : Scripts) (s : Socket)
      → 0 < s.stray
      → tell close_result error args which scripts s ≡ tell close_result error args which silent s
  unfolding tell
  tell-silent none args which scripts s h =
      rw (found-silent scripts which s h, found-silent silent which s h) refl
  tell-silent (some x) args which scripts s h =
      rw (found-silent scripts which s h, found-silent silent which s h) refl

  read-silent :
      (error : ErrorCode) (scripts : Scripts) (s : Socket)
      → 0 < s.stray
      → handle_read close_result error scripts s ≡ handle_read close_result error silent s
  unfolding handle_read
  read-silent none scripts s h =
      rw
        (
          found-silent scripts read_callback (end_read close_result s) h,
          found-silent silent read_callback (end_read close_result s) h,
        )
        refl
  read-silent (some x) scripts s h =
      ap
        (λ t.
          if s.shutdown_pending
          then record (end_read close_result s) { stray = s.stray + 1 }
          else record (close_if_done close_result t) { stray = 0 })
        (tell-silent (some x) [] _ scripts _ h)

  complete_op-silent :
      (o : Op) (c : Completion) (scripts : Scripts) (s : Socket)
      → 0 < s.stray
      → complete_op close_result o c scripts s ≡ complete_op close_result o c silent s
  unfolding complete_op handle_handshake handle_write handle_read_some
  complete_op-silent handshake_op c scripts s h =
      ap {A = Socket} (λ t. record t { stray = 0 }) (tell-silent c.error _ _ scripts _ h)
  complete_op-silent (write_op bytes) c scripts s h =
      ap {A = Socket}
        (λ t. record (close_if_done close_result (shutdown_if_done close_result t)) { stray = 0 })
        (tell-silent c.error _ _ scripts _ h)
  complete_op-silent (read_op some_bytes) c scripts s h =
      ap {A = Socket} (λ t. record (close_if_done close_result t) { stray = 0 })
        (tell-silent c.error _ _ scripts _ h)
  complete_op-silent (read_op delimited) c scripts s h = read-silent c.error scripts _ h

  unheard :
      (e : ℕ) (before : Scripts) (s : Socket)
      → s.shutdown_pending ≡ true
      → ((handle_read close_result (some e) before s).log ≡ s.log)
        × (0 < (handle_read close_result (some e) before s).stray)
  unfolding handle_read
  unheard e before s p = rw p (refl, omega arith)

  -- With a shutdown pending, a delimited read that fails goes unheard, and the next handler of the event loop
  -- that is this socket's, whatever has completed, calls no callback: what it does is what it would do
  -- if the object had none. The log is left as it was by the failed read.
  handle_read-silent :
      (e : ℕ) (before : Scripts) (s : Socket) (o : Op) (c : Completion) (scripts : Scripts)
      → s.shutdown_pending ≡ true
      → ((handle_read close_result (some e) before s).log ≡ s.log)
        × (complete_op close_result o c scripts (handle_read close_result (some e) before s)
            ≡ complete_op close_result o c silent (handle_read close_result (some e) before s))
  handle_read-silent e before s o c scripts p =
      let (l, h) = unheard e before s p in (l, complete_op-silent o c scripts _ h)
