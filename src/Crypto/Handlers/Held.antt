-- ===== src/Crypto/Handlers/Held.antt =====
-- A close of a crypto socket that a read of a number holds up.
use lua_node.Base.{ℕ, ◌+◌, ◌^◌, ◌<◌, ◌≡◌, none, some, List, [], ◌∷◌, arith, All, if_cases}
use lua_node.Lua.{string, ErrorCode}
use lua_node.Net.Socket.{send, receive}
use lua_node.Crypto.Socket.{
  Op, handshake_op, write_op, read_op, some_bytes, delimited, Event, called, did_shutdown, Socket,
  Request, handshake, write, read, close, shutdown, request, socket_read, arg_number,
}
use lua_node.Crypto.Handlers.{
  Scripts, Completion, close_if_done, shutdown_if_done, handle_handshake, handle_write, handle_read,
  handle_read_some, complete_op, Turn, turns,
}
use lua_node.Crypto.Handlers.Kept.{AreScripts, IsKept, tell-kept, deliver_found-kept}
use lua_node.Crypto.Handlers.Turns.{reads, IsTaken, IsTurn, IsKeptByTurns, turns-kept}
use lua_node.Crypto.Handlers.Counts.{IsCounted}
use lua_node.Crypto.Handlers.Closing.{closes, closes-append}

-- No read, and no close.
abbrev pub IsWriting : Request → Type 0
IsWriting (read arg) = ⊥
IsWriting close = ⊥
IsWriting _ = Unit {0}

-- A read that was never started is counted, and there were `n` closes so far.
record IsHeld (n : ℕ) (s : Socket) : Type 0 where
  reads_counted : s.pending_reads ≡ reads s.ops + s.unserved
  held : 0 < s.unserved
  few : reads s.ops + s.unserved < 2 ^ 64
  closed : closes s.log ≡ n

module _ (close_result : List Event → ErrorCode) (n : ℕ) where
  request-IsHeld :
      (r : Request) (s : Socket) → IsWriting r → IsHeld n s → IsHeld n (request close_result r s).0
  unfolding request
  request-IsHeld handshake s q h = ground arith
  request-IsHeld (write (string bytes)) s q h = ground arith
  request-IsHeld (write _) s q h = ground arith
  request-IsHeld (read arg) s q h = absurd q
  request-IsHeld close s q h = absurd q
  request-IsHeld (shutdown arg) s q h = ground arith

  held : IsKept close_result IsWriting (IsHeld n)
  held = record {
    by_request = request-IsHeld;
    by_call = λ which args s h. ground (arith, closes-append s.log (called which args ∷ []));
    by_emptying = λ s h. ground arith;
  }

  settop-IsHeld : (s : Socket) → IsHeld n s → IsHeld n (record s { stray = 0 })
  settop-IsHeld s h = ground arith

  close_if_done-IsHeld :
      (s : Socket) → IsHeld n s → IsHeld n (record (close_if_done close_result s) { stray = 0 })
  unfolding close_if_done
  close_if_done-IsHeld s h = ground arith

  shutdown_if_done-IsHeld : (s : Socket) → IsHeld n s → IsHeld n (shutdown_if_done close_result s)
  unfolding shutdown_if_done
  shutdown_if_done-IsHeld s h = ground (
    arith,
    closes-append s.log (did_shutdown send ∷ []),
    closes-append s.log (did_shutdown receive ∷ []),
  )

  module _ (scripts : Scripts) (q : AreScripts IsWriting scripts) where
    handle_read-IsHeld :
        (error : ErrorCode) (s : Socket)
        → IsHeld n (record s { ops = read_op delimited ∷ s.ops })
        → IsHeld n (handle_read close_result error scripts s)
    unfolding handle_read
    handle_read-IsHeld none s h =
        close_if_done-IsHeld _ (deliver_found-kept held scripts _ _ q (ground (arith, h)))
    handle_read-IsHeld (some e) s h =
        if_cases (IsHeld n) s.shutdown_pending _ _ (λ p. ground (arith, h))
          (λ p. close_if_done-IsHeld _ (tell-kept held _ _ _ scripts _ q (ground (arith, h))))

    complete_op-IsHeld :
        (o : Op) (c : Completion) (s : Socket)
        → IsHeld n (record s { ops = o ∷ s.ops })
        → IsHeld n (complete_op close_result o c scripts s)
    unfolding complete_op handle_handshake handle_write handle_read_some
    complete_op-IsHeld handshake_op c s h =
        settop-IsHeld _ (tell-kept held _ _ _ scripts _ q (ground (arith, h)))
    complete_op-IsHeld (write_op bytes) c s h =
        close_if_done-IsHeld _
          (shutdown_if_done-IsHeld _ (tell-kept held _ _ _ scripts _ q (ground (arith, h))))
    complete_op-IsHeld (read_op some_bytes) c s h =
        close_if_done-IsHeld _ (tell-kept held _ _ _ scripts _ q (ground (arith, h)))
    complete_op-IsHeld (read_op delimited) c s h = handle_read-IsHeld c.error _ (ground (arith, h))

  taken-IsHeld :
      (o : Op) (rest : List Op) (s : Socket)
      → IsTaken s.ops o rest
      → IsHeld n s
      → IsHeld n (record s { ops = o ∷ rest })
  taken-IsHeld o rest s t h = ground arith

  kept_by_turns : IsKeptByTurns close_result IsWriting (IsHeld n)
  kept_by_turns = record {
    by_request = request-IsHeld;
    by_settop = settop-IsHeld;
    by_handler =
        λ o rest c scripts s t q h. complete_op-IsHeld scripts q o c _ (taken-IsHeld o rest s t h);
  }

module _ (close_result : List Event → ErrorCode) where
  -- After a read of a number no handler closes the connection, however long a close has been pending: through
  -- any turns of the event loop in which Lua asks for no further read and no further close, and fewer
  -- than 2^64 reads being counted, the number of times that it was closed stays what it was.
  pub read-turns :
      (ts : List Turn) (s : Socket)
      → IsCounted s
      → reads s.ops + s.unserved + 1 < 2 ^ 64
      → All (IsTurn IsWriting) ts
      → closes (turns close_result ts (socket_read arg_number s).0).log ≡ closes s.log
  unfolding socket_read
  read-turns ts s h few q =
      (turns-kept (kept_by_turns close_result (closes s.log)) ts (socket_read arg_number s).0 q
        (ground arith)).closed
