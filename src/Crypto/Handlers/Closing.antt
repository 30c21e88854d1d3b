-- ===== src/Crypto/Handlers/Closing.antt =====
-- A close that was put off, carried out by the handler of the last operation that it waits for.
use lua_node.Base.{
  ℕ, ◌+◌, ◌<◌, ◌≡◌, true, false, none, some, List, [], ◌∷◌, ◌++◌, arith, total, All, if_cases,
}
use lua_node.Lua.{string, ErrorCode}
use lua_node.Crypto.Socket.{
  Op, handshake_op, write_op, read_op, some_bytes, delimited, Event, called, did_close, Socket,
  Request, handshake, write, read, close, shutdown, arg_number, request, socket_close,
}
use lua_node.Crypto.Handlers.{
  Scripts, Completion, close_if_done, shutdown_if_done, handle_handshake, handle_write, handle_read,
  handle_read_some, complete_op, Turn, turns,
}
use lua_node.Crypto.Handlers.Turns.{writes, reads, IsTurn, IsKeptByTurns, turns-kept}
use lua_node.Crypto.Handlers.Kept.{AreScripts, IsKept, tell-kept, deliver_found-kept}
use lua_node.Crypto.Handlers.Counts.{IsCounted, HasTaken, request-IsCounted, taken-IsCounted}

abbrev is_close : Event → ℕ
is_close did_close = 1
is_close _ = 0

abbrev pub closes : List Event → ℕ
closes es = total is_close es

pub closes-append : (es fs : List Event) → closes (es ++ fs) ≡ closes es + closes fs
closes-append [] fs = omega arith
closes-append (e ∷ es) fs = omega (arith, closes-append es fs)

-- No read of a number, and no shutdown.
abbrev pub IsPolite : Request → Type 0
IsPolite (read arg_number) = ⊥
IsPolite (shutdown arg) = ⊥
IsPolite _ = Unit {0}

-- Marked for closing, with nothing that would keep a handler from doing it.
record IsMarked (s : Socket) : Type 0 where
  marked : s.close_pending ≡ true
  unshut : s.shutdown_pending ≡ false
  served : s.unserved ≡ 0

-- Closed, or with an operation to wait for.
abbrev Moves : Socket → Type 0
Moves s = 0 < closes s.log + writes s.ops + reads s.ops

abbrev IsWaiting : Socket → Type 0
IsWaiting s = IsCounted s × IsMarked s

abbrev IsClosing : Socket → Type 0
IsClosing s = IsWaiting s × Moves s

module _ (close_result : List Event → ErrorCode) where
  request-IsMarked :
      (r : Request) (s : Socket) → IsPolite r → IsMarked s → IsMarked (request close_result r s).0
  unfolding request
  request-IsMarked handshake s p m = ground arith
  request-IsMarked (write (string b)) s p m = ground arith
  request-IsMarked (write _) s p m = ground arith
  request-IsMarked (read arg) s p m = ground (arith, p)
  request-IsMarked close s p m = ground arith
  request-IsMarked (shutdown arg) s p m = absurd p

  request-Moves :
      (r : Request) (s : Socket) → IsPolite r → Moves s → Moves (request close_result r s).0
  unfolding request
  request-Moves handshake s p m = ground arith
  request-Moves (write (string b)) s p m = ground arith
  request-Moves (write _) s p m = ground arith
  request-Moves (read arg) s p m = ground (arith, p)
  request-Moves close s p m = ground (arith, closes-append s.log (did_close ∷ []))
  request-Moves (shutdown arg) s p m = absurd p

  waiting : IsKept close_result IsPolite IsWaiting
  waiting = record {
    by_request = λ r s p w. (request-IsCounted close_result r s w.0, request-IsMarked r s p w.1);
    by_call = λ which args s w. ground arith;
    by_emptying = λ s w. ground arith;
  }

  moving : IsKept close_result IsPolite Moves
  moving = record {
    by_request = request-Moves;
    by_call = λ which args s m. ground (arith, closes-append s.log (called which args ∷ []));
    by_emptying = λ s m. ground arith;
  }

  -- A handler that may close has closed, or leaves an operation to wait for.
  close_if_done-IsClosing :
      (s : Socket) → IsWaiting s → IsClosing (record (close_if_done close_result s) { stray = 0 })
  unfolding close_if_done
  close_if_done-IsClosing s w =
      ((ground arith, ground arith), ground (arith, closes-append s.log (did_close ∷ [])))

  settop-IsClosing : (s : Socket) → IsClosing s → IsClosing (record s { stray = 0 })
  settop-IsClosing s c = ground arith

  shutdown_if_done-IsWaiting :
      (s : Socket) → IsWaiting s → IsWaiting (shutdown_if_done close_result s)
  unfolding shutdown_if_done
  shutdown_if_done-IsWaiting s w = ground arith

  module _ (scripts : Scripts) (q : AreScripts IsPolite scripts) where
    handle_read-IsClosing :
        (error : ErrorCode) (s : Socket)
        → HasTaken (read_op delimited) s
        → IsMarked s
        → IsClosing (handle_read close_result error scripts s)
    unfolding handle_read
    handle_read-IsClosing none s h m =
        close_if_done-IsClosing _
          (deliver_found-kept waiting scripts _ _ q (ground (arith, h), ground arith))
    handle_read-IsClosing (some e) s h m =
        if_cases IsClosing s.shutdown_pending _ _ (λ p. absurd (ground arith))
          (λ p.
            close_if_done-IsClosing _
              (tell-kept waiting _ _ _ scripts _ q (ground (arith, h), ground arith)))

    complete_op-IsClosing :
        (o : Op) (c : Completion) (s : Socket)
        → HasTaken o s
        → IsMarked s
        → Moves (record s { ops = o ∷ s.ops })
        → IsClosing (complete_op close_result o c scripts s)
    unfolding complete_op handle_handshake handle_write handle_read_some
    complete_op-IsClosing handshake_op c s h m v = settop-IsClosing _ (
      tell-kept waiting _ _ _ scripts _ q (ground (arith, h), ground arith),
      tell-kept moving _ _ _ scripts _ q (ground arith),
    )
    complete_op-IsClosing (write_op bytes) c s h m v = close_if_done-IsClosing _ (
        shutdown_if_done-IsWaiting _
          (tell-kept waiting _ _ _ scripts _ q (ground (arith, h), ground arith)))
    complete_op-IsClosing (read_op some_bytes) c s h m v =
        close_if_done-IsClosing _
          (tell-kept waiting _ _ _ scripts _ q (ground (arith, h), ground arith))
    complete_op-IsClosing (read_op delimited) c s h m v =
        handle_read-IsClosing c.error _ (ground (arith, h)) (ground arith)

  closing : IsKeptByTurns close_result IsPolite IsClosing
  closing = record {
    by_request = λ r s p c. (waiting.by_request r s p c.0, request-Moves r s p c.1);
    by_settop = settop-IsClosing;
    by_handler = λ o rest d scripts s t q c.
        complete_op-IsClosing scripts q o d _ (taken-IsCounted o rest s t c.0.0) (ground arith)
          (ground arith);
  }

  -- When a close is put off because of a write in flight, on a socket that is not shutting down and was never
  -- asked to read a number, and from then on Lua makes any requests but those two, then the connection has
  -- been closed by the time that no operation is in flight: in whatever order they complete, with
  -- whatever results.
  pub close-turns :
      (ts : List Turn) (s : Socket)
      → IsCounted s
      → 0 < s.pending_writes
      → s.shutdown_pending ≡ false
      → s.unserved ≡ 0
      → All (IsTurn IsPolite) ts
      → (turns close_result ts (socket_close close_result s).0).ops ≡ []
      → 0 < closes (turns close_result ts (socket_close close_result s).0).log
  unfolding socket_close
  close-turns ts s h w d u p e =
      let c = turns-kept closing ts (socket_close close_result s).0 p (ground arith) in ground arith
