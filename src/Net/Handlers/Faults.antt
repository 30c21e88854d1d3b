-- ===== src/Net/Handlers/Faults.antt =====
-- Two behaviours of the socket that its comments do not promise.
use lua_node.Base.{
  ℕ, zero, suc, ◌+◌, ◌-◌, ◌≤◌, ◌<◌, ◌≡◌, refl, ap, ◌∙◌, true, false, none, some, List, [], ◌∷◌,
  ◌++◌, arith, length, length-append, take, drop,
}
use lua_node.Lua.{Value, ErrorCode, string, self, boolean}
use lua_node.Net.Socket.{
  called, did_shutdown, did_close, both_ways, send, read_op, exact, posted_shutdown, write_callback,
  read_callback, shutdown_callback, opt_write, arg_number, Socket, Asio, requests, socket_read,
  socket_shutdown, increment,
}
use lua_node.Net.Handlers.{
  Script, Scripts, call_close_callback, Completion, complete_op, handle_read_size, deliver_buffered,
  close_if_pending, call_script, handle_write, handle_shutdown_callback, shutdown_if_pending,
}

module _ {ℓ} {A : Type ℓ} where
  length-take : (n : ℕ) (xs : List A) → n ≤ length xs → length (take n xs) ≡ n
  length-take zero xs h = refl
  length-take (suc n) [] h = elim h [ ]
  length-take (suc n) (x ∷ xs) h = ap suc (length-take n xs (omega arith))

  length-drop : (n : ℕ) (xs : List A) → length (drop n xs) ≡ length xs - n
  length-drop zero xs = omega arith
  length-drop (suc n) [] = omega arith
  length-drop (suc n) (x ∷ xs) = omega (arith, length-drop n xs)

start_exact :
    (s : Socket) (n : ℕ)
    → length s.input_buffer < n
    → (socket_read (arg_number n) s).0 ≡ record s {
      pending_reads = increment s.pending_reads;
      ops = read_op (exact (n - length s.input_buffer)) ∷ s.ops;
      refs = s.refs + 1;
    }
unfolding socket_read
start_exact s n h = ground arith

module _ (asio : Asio) (scripts : Scripts) (results : List Value)
    (silent_script : scripts read_callback ≡ some (record { calls = []; results = results })) where
  finish_exact :
      (n : ℕ) (c : Completion) (t : Socket)
      → t.close_pending ≡ false
      → c.error ≡ none
      → let u = complete_op asio (read_op (exact n)) c scripts t in
        let d = take (length c.bytes) (t.input_buffer ++ c.bytes) in
        (u.log ≡ t.log ++ called read_callback (self ∷ string d ∷ []) ∷ [])
        × (u.input_buffer ≡ drop (length c.bytes) (t.input_buffer ++ c.bytes))
  unfolding complete_op handle_read_size deliver_buffered close_if_pending requests
  finish_exact n c t o e = rw (silent_script, e, o) (refl, refl)

  -- A read of `n` bytes that finds `k` of them in the buffer, with 0 < k < n, asks for the other n - k; when
  -- exactly these have come, without an error, the callback is given n - k bytes and not `n`,
  -- and `k` bytes stay in the buffer.
  exact_read_short :
      (s : Socket) (n : ℕ) (c : Completion)
      → s.close_pending ≡ false
      → 0 < length s.input_buffer
      → length s.input_buffer < n
      → c.error ≡ none
      → length c.bytes ≡ n - length s.input_buffer
      → let t = (socket_read (arg_number n) s).0 in
        let u =
          complete_op asio
            (read_op (exact (n - length s.input_buffer)))
            c
            scripts
            (record t { ops = s.ops }) in
        (t.ops ≡ read_op (exact (n - length s.input_buffer)) ∷ s.ops)
        × ((d : List ℕ) × (u.log ≡ s.log ++ called read_callback (self ∷ string d ∷ []) ∷ [])
            × (length d < n))
        × (length u.input_buffer ≡ length s.input_buffer)
  exact_read_short s n c o h k e l =
      let t = (socket_read (arg_number n) s).0 in
      let q = start_exact s n k in
      let all = s.input_buffer ++ c.bytes in
      let same : t.input_buffer ≡ s.input_buffer = ap (λ (u : Socket). u.input_buffer) q in
      let (f, g) =
        finish_exact (n - length s.input_buffer) c (record t { ops = s.ops })
          (ap (λ (u : Socket). u.close_pending) q ∙ o) e in
      (
        ap (λ (u : Socket). u.ops) q,
        (
          take (length c.bytes) (t.input_buffer ++ c.bytes),
          f
              ∙ ap
                  (λ (u : Socket).
                    u.log
                    ++ called read_callback
                        (self ∷ string (take (length c.bytes) (t.input_buffer ++ c.bytes)) ∷ [])
                      ∷ [])
                  q,
          omega (
            arith,
            ap length same,
            length-take (length c.bytes) (t.input_buffer ++ c.bytes),
            length-append t.input_buffer c.bytes,
          ),
        ),
        ap length g
            ∙ omega (
              arith,
              ap length same,
              length-drop (length c.bytes) (t.input_buffer ++ c.bytes),
              length-append t.input_buffer c.bytes,
            ),
      )

-- A function that does nothing.
abbrev pub idle : Script
idle = record { calls = []; results = [] }

module _ (asio : Asio) (scripts : Scripts) where
  start_shutdown :
      (s : Socket)
      → s.pending_writes ≡ 1
      → (socket_shutdown asio opt_write s).0 ≡ record s {
        write_shutdown_pending = true;
        ops = posted_shutdown ∷ s.ops;
        refs = s.refs + 1;
      }
  unfolding socket_shutdown
  start_shutdown s z = ground arith

  -- `shutdown("write")` while a write is in flight posts the shutdown callback at once: it is called
  -- before anything is shut down, and a second time when the write is done and the sending side is. The
  -- write and the shutdown callback are functions that do nothing and return nothing.
  shutdown_called_twice :
      (s : Socket)
      → scripts shutdown_callback ≡ some idle
      → scripts write_callback ≡ some idle
      → s.pending_writes ≡ 1
      → s.close_pending ≡ false
      → let notice = called shutdown_callback (self ∷ boolean true ∷ []) in
        let written = called write_callback (self ∷ boolean true ∷ []) in
        let t = (socket_shutdown asio opt_write s).0 in
        let u = handle_shutdown_callback asio scripts (record t { ops = s.ops }) in
        let v = handle_write asio none scripts u in
        (u.log ≡ s.log ++ notice ∷ [])
        × (v.log ≡ ((u.log ++ written ∷ []) ++ did_shutdown send ∷ []) ++ notice ∷ [])
  unfolding handle_write handle_shutdown_callback call_script requests close_if_pending
      shutdown_if_pending
  shutdown_called_twice s f g z o = rw (start_shutdown s z, f, g) (refl, ground arith)

  -- A close that was put off, on an object that has no write callback and no shutdown put off: when the write
  -- completes, the socket is shut down and closed, and the close callback is not called, whatever it is.
  close_callback_lost :
      (s : Socket) (error : ErrorCode)
      → scripts write_callback ≡ none
      → s.pending_writes ≡ 1
      → s.close_pending ≡ true
      → s.write_shutdown_pending ≡ false
      → (handle_write asio error scripts s).log
        ≡ (s.log ++ did_shutdown both_ways ∷ []) ++ did_close ∷ []
  unfolding handle_write call_script close_if_pending shutdown_if_pending call_close_callback
  close_callback_lost s error g z o w = rw g (ground arith)
