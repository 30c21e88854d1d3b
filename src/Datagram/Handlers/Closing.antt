-- ===== src/Datagram/Handlers/Closing.antt =====
-- A close of a datagram socket that was put off.
use lua_node.Base.{
  ℕ, ◌+◌, ◌<◌, ◌≡◌, true, Option, none, some, List, [], ◌∷◌, ◌++◌, All, arith, total, requests_of,
  requests_of-kept, IsLoopTurn, IsTakenFrom, loop_turns-kept,
}
use lua_node.Lua.{Value, string, self}
use lua_node.Net.Socket.{both_ways, send, receive}
use lua_node.Datagram.Socket.{
  SendCallback, a_function, send_callback, read_callback, connect_callback, Op, send_op, receive_op,
  connect_op, Callback, Event, called, did_close, did_shutdown, Socket, Asio, Request, sendto, read,
  close, shutdown, connect, arg_other, Endpoint, request, socket_close, socket_sendto,
}
use lua_node.Datagram.Handlers.{
  sent_script, Completion, call_script, close_if_done, shutdown_if_done, handle_sendto,
  handle_receive, handle_connect, complete_op, datagram_loop, Turn, turns,
}
use lua_node.Datagram.Handlers.Counts.{
  sends, receives, is_send, is_receive, IsCounted, taken-IsCounted,
}

abbrev is_close : Event → ℕ
is_close did_close = 1
is_close _ = 0

abbrev pub closes : List Event → ℕ
closes es = total is_close es

closes-append : (es fs : List Event) → closes (es ++ fs) ≡ closes es + closes fs
closes-append [] fs = omega arith
closes-append (e ∷ es) fs = omega (arith, closes-append es fs)

-- No read but with nil or without an argument, or of a number, which raises an error.
abbrev pub IsServed : Request → Type 0
IsServed (read arg_other) = ⊥
IsServed _ = Unit {0}

abbrev pub AreServed : Option (List Request) → Type 0
AreServed none = Unit
AreServed (some rs) = All IsServed rs

abbrev pub IsServedCompletion : Completion → Type 0
IsServedCompletion c = (which : Callback) → AreServed (c.scripts which)

-- Marked for closing, with no read that was never started.
abbrev IsWaiting : Socket → Type 0
IsWaiting s = IsCounted s × (s.close_pending ≡ true) × (s.unserved ≡ 0)

-- Closed, or with an operation to wait for.
abbrev Moves : Socket → Type 0
Moves s = 0 < closes s.log + sends s.ops + receives s.ops

abbrev IsClosing : Socket → Type 0
IsClosing s = IsWaiting s × Moves s

module _ (asio : Asio) where
  sendto-keeps :
      (v : Value) (endpoint : Option Endpoint) (callback : SendCallback) (s : Socket)
      → IsWaiting s
      → IsWaiting (socket_sendto v endpoint callback s).0
        × (Moves s → Moves (socket_sendto v endpoint callback s).0)
  unfolding socket_sendto
  sendto-keeps v none callback s w = (ground arith, λ m. ground arith)
  sendto-keeps (string bytes) (some e) callback s w = (ground arith, λ m. ground arith)
  sendto-keeps _ (some e) callback s w = (ground arith, λ m. ground arith)

  request-keeps :
      (r : Request) (s : Socket)
      → IsServed r
      → IsWaiting s
      → IsWaiting (request asio r s) × (Moves s → Moves (request asio r s))
  unfolding request
  request-keeps (sendto v endpoint callback) s q w = sendto-keeps v endpoint callback s w
  request-keeps (read arg) s q w = (ground (arith, q), λ m. ground (arith, q))
  request-keeps close s q w = (
    ground arith,
    λ m. ground (
      arith,
      closes-append s.log (did_shutdown both_ways ∷ []),
      closes-append (s.log ++ did_shutdown both_ways ∷ []) (did_close ∷ []),
    ),
  )
  request-keeps (shutdown how) s q w = (
    ground arith,
    λ m. ground (
      arith,
      closes-append s.log (did_shutdown send ∷ []),
      closes-append s.log (did_shutdown receive ∷ []),
      closes-append (s.log ++ did_shutdown send ∷ []) (did_shutdown receive ∷ []),
    ),
  )
  request-keeps (connect endpoint) s q w = (ground arith, λ m. ground arith)

  requests-IsWaiting :
      (rs : List Request) (s : Socket)
      → All IsServed rs
      → IsWaiting s
      → IsWaiting (requests_of (request asio) rs s)
  requests-IsWaiting =
      requests_of-kept (request asio) IsServed IsWaiting (λ r s q w. (request-keeps r s q w).0)

  requests-IsClosing :
      (rs : List Request) (s : Socket)
      → All IsServed rs
      → IsClosing s
      → IsClosing (requests_of (request asio) rs s)
  requests-IsClosing =
      requests_of-kept (request asio) IsServed IsClosing
        (λ r s q c. let (w, m) = request-keeps r s q c.0 in (w, m c.1))

  call_script-IsWaiting :
      (sc : Option (List Request)) (which : Callback) (args : List Value) (s : Socket)
      → AreServed sc
      → IsWaiting s
      → IsWaiting (call_script asio sc which args s)
  unfolding call_script
  call_script-IsWaiting none which args s q w = w
  call_script-IsWaiting (some rs) which args s q w = requests-IsWaiting rs _ q (ground arith)

  call_script-IsClosing :
      (sc : Option (List Request)) (which : Callback) (args : List Value) (s : Socket)
      → AreServed sc
      → IsClosing s
      → IsClosing (call_script asio sc which args s)
  unfolding call_script
  call_script-IsClosing none which args s q c = c
  call_script-IsClosing (some rs) which args s q c =
      requests-IsClosing rs _ q
        (ground arith, ground (arith, closes-append s.log (called which (self ∷ args) ∷ [])))

  -- A handler that may close has closed, or leaves an operation to wait for.
  close_if_done-IsClosing : (s : Socket) → IsWaiting s → IsClosing (close_if_done s)
  unfolding close_if_done
  close_if_done-IsClosing s w = (ground arith, ground (arith, closes-append s.log (did_close ∷ [])))

  shutdown_if_done-IsWaiting : (s : Socket) → IsWaiting s → IsWaiting (shutdown_if_done s)
  unfolding shutdown_if_done
  shutdown_if_done-IsWaiting s w = ground arith

  sent_script-AreServed :
      (callback : SendCallback) (c : Completion)
      → IsServedCompletion c
      → AreServed (sent_script callback c.scripts)
  sent_script-AreServed a_function c q = q send_callback
  sent_script-AreServed _ c q = tt

  complete_op-IsClosing :
      (o : Op) (c : Completion) (s : Socket)
      → IsServedCompletion c
      → IsClosing (record s { ops = o ∷ s.ops })
      → IsClosing (complete_op asio o c s)
  unfolding complete_op handle_sendto handle_receive handle_connect
  complete_op-IsClosing (send_op bytes endpoint callback) c s q h = close_if_done-IsClosing _ (
      shutdown_if_done-IsWaiting _
        (call_script-IsWaiting _ _ _ _ (sent_script-AreServed callback c q) (ground (arith, h))))
  complete_op-IsClosing receive_op c s q h =
      close_if_done-IsClosing _
        (call_script-IsWaiting _ _ _ _ (q read_callback) (ground (arith, h)))
  complete_op-IsClosing (connect_op endpoint) c s q h =
      call_script-IsClosing _ _ _ _ (q connect_callback) (ground (arith, h))

  taken-IsClosing :
      (o : Op) (rest : List Op) (s : Socket)
      → IsTakenFrom s.ops o rest
      → IsClosing s
      → IsClosing (record s { ops = o ∷ rest })
  taken-IsClosing o rest s t c = (
    (taken-IsCounted asio o rest s t c.0.0, c.0.1, c.0.2),
    ground (arith, c.1, t.total_left is_send, t.total_left is_receive),
  )

  -- When a close is put off because a datagram is being sent, on a socket that was never asked to read anything but
  -- a datagram, and from then on Lua makes any requests but such a read, then the socket has been closed
  -- by the time that no operation is in flight: in whatever order they complete, with whatever results.
  pub socket_close-loop_turns :
      (ts : List Turn) (s : Socket)
      → IsCounted s
      → 0 < s.pending_writes
      → s.unserved ≡ 0
      → All (IsLoopTurn IsServed IsServedCompletion) ts
      → (turns asio ts (socket_close asio s).0).ops ≡ []
      → 0 < closes (turns asio ts (socket_close asio s).0).log
  unfolding turns datagram_loop socket_close
  socket_close-loop_turns ts s h p u q e =
      let c =
        loop_turns-kept (datagram_loop asio) IsServed IsServedCompletion IsClosing
          (λ r t a d. let (w, m) = request-keeps r t a d.0 in (w, m d.1))
          (λ o rest c t k a d. complete_op-IsClosing o c _ a (taken-IsClosing o rest t k d)) ts
          (socket_close asio s).0 q (ground arith) in
      ground arith
