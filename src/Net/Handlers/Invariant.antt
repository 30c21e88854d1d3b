-- ===== src/Net/Handlers/Invariant.antt =====
-- The invariant of a socket, over every order of requests and completions.
use lua_node.Base.{
  Bool, ℕ, ◌<◌, ◌≡◌, true, ◌&&◌, Option, none, some, List, [], ◌∷◌, arith, ◌==◌, length, if_cases,
  pick, pick-IsPicked, Option-cases, inl, inr,
}
use lua_node.Lua.{ErrorCode}
use lua_node.Net.Socket.{
  Op, write_op, read_op, posted_read, connect_op, posted_close, posted_shutdown, some_bytes,
  delimited, until_eof, exact, Event, Socket, Asio, new_socket,
}
use lua_node.Net.Handlers.{
  Script, Scripts, Completion, call_script, call_close_callback, close_if_pending,
  shutdown_if_pending, handle_write, deliver_buffered, handle_read_delimited, handle_read_some,
  handle_read_size, handle_connect, handle_close_callback, handle_shutdown_callback, complete_op,
  Turn, lua_calls, completes, turn, turns,
}
use lua_node.Net.Handlers.Counts.{
  is_write, is_read, writes, reads, IsCounted, CloseWaits, request-IsCounted, request-CloseWaits,
  requests-IsCounted, call_script-IsCounted, call_script-CloseWaits,
}

-- Between two turns of the event loop: the counters are those of the operations in flight, at
-- most one of which is a write; each operation has a reference of the registry; and a close that was put
-- off has a write to wait for.
pub record IsValid (s : Socket) : Type 0 where
  pub counted : IsCounted s
  pub close_waits : s.close_pending ≡ true → 0 < s.pending_writes

abbrev SameCounts : List Op → List Op → Type 0
SameCounts os ps = (writes os ≡ writes ps) × (reads os ≡ reads ps) × (length os ≡ length ps)

picked_counts :
    (n : ℕ) (os : List Op) (o : Op) (rest : List Op)
    → pick n os ≡ some (o, rest)
    → SameCounts os (o ∷ rest)
picked_counts n os o rest e =
    let (w, l) = pick-IsPicked is_write n os o rest e in
    (w, (pick-IsPicked is_read n os o rest e).0, l)

-- A socket whose counters still count the operation `o`, which has been taken out.
abbrev HasTaken : Op → Socket → Type 0
HasTaken o s = IsValid (record s { ops = o ∷ s.ops })

module _ (asio : Asio) (scripts : Scripts) where
  script-IsValid :
      (sc : Option Script) (e : Event) (s : Socket)
      → IsCounted s
      → CloseWaits s
      → IsValid (call_script asio sc e s)
  script-IsValid sc e s h w = record {
    counted = call_script-IsCounted asio sc e s h;
    close_waits = call_script-CloseWaits asio sc e s h w;
  }

  close_if_pending-IsValid :
      (clear : Bool) (s : Socket) → IsCounted s → IsValid (close_if_pending asio clear scripts s)
  unfolding close_if_pending call_close_callback
  close_if_pending-IsValid clear s h =
      if_cases IsValid s.close_pending _ s
        (λ e.
          if_cases IsValid (s.pending_writes == 0) _ s
            (λ z. script-IsValid _ _ _ (ground arith) (λ f. cc))
            (λ z. record { counted = h; close_waits = λ f. ground arith }))
        (λ e. record { counted = h; close_waits = λ f. cc })

  shutdown_if_pending-IsCounted :
      (clear : Bool) (s : Socket)
      → IsCounted s
      → IsCounted (shutdown_if_pending asio clear scripts s)
  unfolding shutdown_if_pending
  shutdown_if_pending-IsCounted clear s h =
      if_cases IsCounted (s.write_shutdown_pending && s.pending_writes == 0) _ s
        (λ e. call_script-IsCounted asio _ _ _ (ground arith)) (λ e. h)

  handle_write-IsValid :
      (error : ErrorCode) (bytes : List ℕ) (s : Socket)
      → HasTaken (write_op bytes) s
      → IsValid (handle_write asio error scripts s)
  unfolding handle_write
  handle_write-IsValid error bytes s v = close_if_pending-IsValid _ _ (
      shutdown_if_pending-IsCounted _ _
        (call_script-IsCounted asio _ _ _ (ground (arith, v.counted))))

  deliver_buffered-IsCounted :
      (sc : Option Script) (error : ErrorCode) (n : ℕ) (s : Socket)
      → IsCounted s
      → IsCounted (deliver_buffered asio sc error n s)
  unfolding deliver_buffered
  deliver_buffered-IsCounted none error n s h = h
  deliver_buffered-IsCounted (some rs) error n s h =
      requests-IsCounted asio rs.calls _ (ground arith)

  complete_op-IsValid :
      (o : Op) (c : Completion) (s : Socket)
      → HasTaken o s
      → IsValid (complete_op asio o c scripts s)
  unfolding complete_op handle_read_delimited handle_read_some handle_read_size handle_connect
      handle_close_callback handle_shutdown_callback
  complete_op-IsValid (write_op bytes) c s v = handle_write-IsValid c.error bytes s v
  complete_op-IsValid (read_op some_bytes) c s v =
      close_if_pending-IsValid _ _ (call_script-IsCounted asio _ _ _ (ground (arith, v.counted)))
  complete_op-IsValid (read_op delimited) c s v =
      close_if_pending-IsValid _ _ (deliver_buffered-IsCounted _ _ _ _ (ground (arith, v.counted)))
  complete_op-IsValid (read_op until_eof) c s v =
      close_if_pending-IsValid _ _ (deliver_buffered-IsCounted _ _ _ _ (ground (arith, v.counted)))
  complete_op-IsValid (read_op (exact n)) c s v =
      close_if_pending-IsValid _ _ (deliver_buffered-IsCounted _ _ _ _ (ground (arith, v.counted)))
  complete_op-IsValid (posted_read n) c s v =
      close_if_pending-IsValid _ _ (deliver_buffered-IsCounted _ _ _ _ (ground (arith, v.counted)))
  complete_op-IsValid connect_op c s v =
      script-IsValid _ _ _ (ground (arith, v.counted)) v.close_waits
  complete_op-IsValid posted_close c s v =
      script-IsValid _ _ _ (ground (arith, v.counted)) v.close_waits
  complete_op-IsValid posted_shutdown c s v =
      script-IsValid _ _ _ (ground (arith, v.counted)) v.close_waits

module _ (asio : Asio) where
  turn-IsValid : (t : Turn) (s : Socket) → IsValid s → IsValid (turn asio t s)
  unfolding turn
  turn-IsValid (lua_calls r) s v = record {
    counted = request-IsCounted asio r s v.counted;
    close_waits = request-CloseWaits asio r s v.counted v.close_waits;
  }
  turn-IsValid (completes n c scripts) s v = elim (Option-cases (pick n s.ops)) [
    | inl e ↦ rw (e, turn) v
    | inr ((o, rest), e) ↦
        rw (e, turn)
          (complete_op-IsValid asio scripts o c (record s { ops = rest })
            (taken o rest (picked_counts n s.ops o rest e)))
  ]
    where
      taken :
          (o : Op) (rest : List Op)
          → SameCounts s.ops (o ∷ rest)
          → IsValid (record s { ops = o ∷ rest })
      taken o rest k = ground (arith, v.counted, v.close_waits)

  turns_from-IsValid : (ts : List Turn) (s : Socket) → IsValid s → IsValid (turns asio ts s)
  unfolding turns
  turns_from-IsValid [] s v = v
  turns_from-IsValid (t ∷ ts) s v = turns_from-IsValid ts (turn asio t s) (turn-IsValid t s v)

  -- After any turns of the event loop, in any order, with whatever results and whatever requests the
  -- callbacks make: `m_pending_writes` is the number of writes in flight, which is at most one, and
  -- `m_pending_reads` that of the reads, modulo 2^64; each operation in flight has a reference of the
  -- registry of its own; and a close that was put off has a write in flight to wait for.
  pub turns-IsValid : (ts : List Turn) → IsValid (turns asio ts new_socket)
  unfolding new_socket
  turns-IsValid ts = turns_from-IsValid ts new_socket (ground arith)
