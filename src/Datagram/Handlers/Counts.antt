-- ===== src/Datagram/Handlers/Counts.antt =====
-- The counters of a datagram socket against the operations in flight.
use lua_node.Base.{
  ℕ, ◌+◌, ◌%◌, ◌^◌, ◌≤◌, ◌≡◌, Option, none, some, List, [], ◌∷◌, All, arith, total,
  requests_of-kept, IsTakenFrom, loop_turns-kept, any_turns,
}
use lua_node.Lua.{Value, string}
use lua_node.Datagram.Socket.{
  SendCallback, Op, send_op, receive_op, connect_op, Callback, Socket, Asio, Request, sendto, read,
  close, shutdown, connect, Endpoint, held_refs, request, new_socket, socket_sendto,
}
use lua_node.Datagram.Handlers.{
  Completion, call_script, close_if_done, shutdown_if_done, handle_sendto, handle_receive,
  handle_connect, complete_op, datagram_loop, Turn, turns,
}

abbrev pub is_send : Op → ℕ
is_send (send_op bytes endpoint callback) = 1
is_send _ = 0

abbrev pub is_receive : Op → ℕ
is_receive receive_op = 1
is_receive _ = 0

abbrev pub sends : List Op → ℕ
sends os = total is_send os

abbrev pub receives : List Op → ℕ
receives os = total is_receive os

-- `m_pending_writes` is the number of datagrams that are being sent, at most one; `m_pending_reads` is that of
-- the reads, those that were never started among them; and the registry holds the references of the
-- operations, of their callbacks, of those reads, and those that were lost.
pub record IsCounted (s : Socket) : Type 0 where
  pub sends_counted : s.pending_writes ≡ sends s.ops
  pub one_send : sends s.ops ≤ 1
  pub receives_counted : s.pending_reads ≡ (receives s.ops + s.unserved) % 2 ^ 64
  pub refs_counted : s.refs ≡ total held_refs s.ops + s.unserved + s.lost

module _ (asio : Asio) where
  sendto-IsCounted :
      (v : Value) (endpoint : Option Endpoint) (callback : SendCallback) (s : Socket)
      → IsCounted s
      → IsCounted (socket_sendto v endpoint callback s).0
  unfolding socket_sendto
  sendto-IsCounted v none callback s h = ground arith
  sendto-IsCounted (string bytes) (some e) callback s h = ground arith
  sendto-IsCounted _ (some e) callback s h = ground arith

  pub request-IsCounted : (r : Request) (s : Socket) → IsCounted s → IsCounted (request asio r s)
  unfolding request
  request-IsCounted (sendto v endpoint callback) s h = sendto-IsCounted v endpoint callback s h
  request-IsCounted (read arg) s h = ground arith
  request-IsCounted close s h = ground arith
  request-IsCounted (shutdown how) s h = ground arith
  request-IsCounted (connect endpoint) s h = ground arith

  any : (rs : List Request) → All (λ r. Unit {0}) rs
  any [] = tt
  any (r ∷ rs) = (tt, any rs)

  pub call_script-IsCounted :
      (sc : Option (List Request)) (which : Callback) (args : List Value) (s : Socket)
      → IsCounted s
      → IsCounted (call_script asio sc which args s)
  unfolding call_script
  call_script-IsCounted none which args s h = h
  call_script-IsCounted (some rs) which args s h =
      requests_of-kept (request asio) (λ r. Unit {0}) IsCounted (λ r s q h. request-IsCounted r s h)
        rs _ (any rs) (ground arith)

  pub close_if_done-IsCounted : (s : Socket) → IsCounted s → IsCounted (close_if_done s)
  unfolding close_if_done
  close_if_done-IsCounted s h = ground arith

  pub shutdown_if_done-IsCounted : (s : Socket) → IsCounted s → IsCounted (shutdown_if_done s)
  unfolding shutdown_if_done
  shutdown_if_done-IsCounted s h = ground arith

  pub complete_op-IsCounted :
      (o : Op) (c : Completion) (s : Socket)
      → IsCounted (record s { ops = o ∷ s.ops })
      → IsCounted (complete_op asio o c s)
  unfolding complete_op handle_sendto handle_receive handle_connect
  complete_op-IsCounted (send_op bytes endpoint callback) c s h =
      close_if_done-IsCounted _
        (shutdown_if_done-IsCounted _ (call_script-IsCounted _ _ _ _ (ground (arith, h))))
  complete_op-IsCounted receive_op c s h =
      close_if_done-IsCounted _ (call_script-IsCounted _ _ _ _ (ground (arith, h)))
  complete_op-IsCounted (connect_op endpoint) c s h =
      call_script-IsCounted _ _ _ _ (ground (arith, h))

  pub taken-IsCounted :
      (o : Op) (rest : List Op) (s : Socket)
      → IsTakenFrom s.ops o rest
      → IsCounted s
      → IsCounted (record s { ops = o ∷ rest })
  taken-IsCounted o rest s t h = ground (
    arith,
    t.total_left is_send,
    t.total_left is_receive,
    t.total_left held_refs,
    h.refs_counted,
    h.receives_counted,
  )

  -- After any turns of the event loop, in any order, with whatever results and whatever requests the
  -- callbacks make: `m_pending_writes` is the number of datagrams that are being sent, which is at most one;
  -- `m_pending_reads` is, modulo 2^64, the number of reads in flight and of those that were never started;
  -- and the registry holds the references of the operations, of the callbacks of `sendto`, of the reads
  -- that were never started, and those that were taken when an error was raised.
  pub loop_turns-IsCounted : (ts : List Turn) → IsCounted (turns asio ts new_socket)
  unfolding turns datagram_loop new_socket
  loop_turns-IsCounted ts =
      loop_turns-kept (datagram_loop asio) (λ r. Unit {0}) (λ c. Unit {0}) IsCounted
        (λ r s q h. request-IsCounted r s h)
        (λ o rest c s t q h. complete_op-IsCounted o c _ (taken-IsCounted o rest s t h)) ts
        new_socket (any_turns ts) (ground arith)
