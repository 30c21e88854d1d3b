-- ===== src/Crypto/Handlers/Counts.antt =====
-- The counters of a crypto socket against the operations in flight.
use lua_node.Base.{
  ◌+◌, ◌%◌, ◌^◌, ◌≤◌, ◌≡◌, Bool, Option, none, some, List, [], ◌∷◌, arith, length, All, if_cases,
}
use lua_node.Lua.{Value, string, ErrorCode}
use lua_node.Crypto.Socket.{
  Op, handshake_op, write_op, read_op, some_bytes, delimited, Callback, Event, Socket, Request,
  handshake, write, read, close, shutdown, request, socket_write, new_socket,
}
use lua_node.Crypto.Handlers.Turns.{writes, reads, IsTaken, IsTurn, IsKeptByTurns, turns-kept}
use lua_node.Crypto.Handlers.Kept.{IsScript, IsKept, tell-kept, deliver_found-kept}
use lua_node.Crypto.Handlers.{
  Scripts, Completion, tell, close_if_done, shutdown_if_done, handle_handshake, handle_write,
  handle_read, handle_read_some, complete_op, Turn, lua_calls, completes, runs_elsewhere, turns,
}

-- `m_pending_writes` is the number of writes in flight, at most one; `m_pending_reads` is that of the reads,
-- those that were never started among them; and each of these, each write that was refused, and each
-- other operation has a reference of the registry.
pub record IsCounted (s : Socket) : Type 0 where
  pub writes_counted : s.pending_writes ≡ writes s.ops
  pub one_write : writes s.ops ≤ 1
  pub reads_counted : s.pending_reads ≡ (reads s.ops + s.unserved) % 2 ^ 64
  pub refs_counted : s.refs ≡ length s.ops + s.unserved + s.refused

-- A socket whose counters still count the operation `o`, which has been taken out.
abbrev pub HasTaken : Op → Socket → Type 0
HasTaken o s = IsCounted (record s { ops = o ∷ s.ops })

emptied-IsCounted : (s : Socket) → IsCounted s → IsCounted (record s { input_buffer = [] })
emptied-IsCounted s h = ground arith

any : (rs : List Request) → All (λ r. Unit {0}) rs
any [] = tt
any (r ∷ rs) = (tt, any rs)

pub any-IsScript : (sc : Option (List Request)) → IsScript (λ r. Unit) sc
any-IsScript none = tt
any-IsScript (some rs) = any rs

any_turn : (t : Turn) → IsTurn (λ r. Unit) t
any_turn (lua_calls r) = tt
any_turn (completes n c scripts) = λ which. any-IsScript (scripts which)
any_turn runs_elsewhere = tt

any_turns : (ts : List Turn) → All (IsTurn (λ r. Unit)) ts
any_turns [] = tt
any_turns (t ∷ ts) = (any_turn t, any_turns ts)

pub taken-IsCounted :
    (o : Op) (rest : List Op) (s : Socket)
    → IsTaken s.ops o rest
    → IsCounted s
    → HasTaken o (record s { ops = rest })
taken-IsCounted o rest s t h = ground arith

module _ (close_result : List Event → ErrorCode) where
  write-IsCounted : (v : Value) (s : Socket) → IsCounted s → IsCounted (socket_write v s).0
  unfolding socket_write
  write-IsCounted (string bytes) s h = ground arith
  write-IsCounted _ s h = ground arith

  pub request-IsCounted :
      (r : Request) (s : Socket) → IsCounted s → IsCounted (request close_result r s).0
  unfolding request
  request-IsCounted handshake s h = ground arith
  request-IsCounted (write v) s h = write-IsCounted v s h
  request-IsCounted (read arg) s h = ground arith
  request-IsCounted close s h = ground arith
  request-IsCounted (shutdown arg) s h = ground arith

  counted : IsKept close_result (λ r. Unit {0}) IsCounted
  counted = record {
    by_request = λ r s q h. request-IsCounted r s h;
    by_call = λ which args s h. ground arith;
    by_emptying = emptied-IsCounted;
  }

  pub tell-IsCounted :
      (error : ErrorCode) (args : List Value) (which : Callback) (scripts : Scripts) (s : Socket)
      → IsCounted s
      → IsCounted (tell close_result error args which scripts s)
  tell-IsCounted error args which scripts s h =
      tell-kept counted error args which scripts s (λ w. any-IsScript (scripts w)) h

  pub shutdown_if_done-IsCounted :
      (s : Socket) → IsCounted s → IsCounted (shutdown_if_done close_result s)
  unfolding shutdown_if_done
  shutdown_if_done-IsCounted s h = ground arith

  close_if_done-IsCounted : (s : Socket) → IsCounted s → IsCounted (close_if_done close_result s)
  unfolding close_if_done
  close_if_done-IsCounted s h = ground arith

  settop-IsCounted : (s : Socket) → IsCounted s → IsCounted (record s { stray = 0 })
  settop-IsCounted s h = ground arith

  closed-IsCounted :
      (s : Socket) → IsCounted s → IsCounted (record (close_if_done close_result s) { stray = 0 })
  closed-IsCounted s h = settop-IsCounted _ (close_if_done-IsCounted s h)

  handle_read-IsCounted :
      (error : ErrorCode) (scripts : Scripts) (s : Socket)
      → HasTaken (read_op delimited) s
      → IsCounted (handle_read close_result error scripts s)
  unfolding handle_read
  handle_read-IsCounted none scripts s h =
      closed-IsCounted _
        (deliver_found-kept counted scripts _ _ (λ w. any-IsScript (scripts w)) (ground (arith, h)))
  handle_read-IsCounted (some e) scripts s h =
      if_cases IsCounted s.shutdown_pending _ _ (λ p. ground (arith, h))
        (λ p. closed-IsCounted _ (tell-IsCounted _ _ _ scripts _ (ground (arith, h))))

  pub complete_op-IsCounted :
      (o : Op) (c : Completion) (scripts : Scripts) (s : Socket)
      → HasTaken o s
      → IsCounted (complete_op close_result o c scripts s)
  unfolding complete_op handle_handshake handle_write handle_read_some
  complete_op-IsCounted handshake_op c scripts s h =
      settop-IsCounted _ (tell-IsCounted _ _ _ scripts _ (ground (arith, h)))
  complete_op-IsCounted (write_op bytes) c scripts s h =
      closed-IsCounted _
        (shutdown_if_done-IsCounted _ (tell-IsCounted _ _ _ scripts _ (ground (arith, h))))
  complete_op-IsCounted (read_op some_bytes) c scripts s h =
      closed-IsCounted _ (tell-IsCounted _ _ _ scripts _ (ground (arith, h)))
  complete_op-IsCounted (read_op delimited) c scripts s h =
      handle_read-IsCounted c.error scripts _ (ground (arith, h))

  kept_by_turns : IsKeptByTurns close_result (λ r. Unit {0}) IsCounted
  kept_by_turns = record {
    by_request = λ r s q h. request-IsCounted r s h;
    by_settop = settop-IsCounted;
    by_handler = λ o rest c scripts s t q h.
        complete_op-IsCounted o c scripts _ (taken-IsCounted o rest s t h);
  }

  -- After any turns of the event loop, in any order, with whatever results and whatever requests the
  -- callbacks make, and whatever the memory of the object held before: `m_pending_writes` is the number of
  -- writes in flight, which is at most one; `m_pending_reads` is, modulo 2^64, the number of reads in flight
  -- and of reads of a number, which are never started; and the references that the registry holds are
  -- those of the operations in flight, of the reads of a number, and of the writes that were refused.
  pub turns-IsCounted :
      (garbage : Bool) (ts : List Turn) → IsCounted (turns close_result ts (new_socket garbage))
  unfolding new_socket
  turns-IsCounted garbage ts = turns-kept kept_by_turns ts _ (any_turns ts) (ground arith)
