-- ===== src/Crypto/Handlers/Shutdown.antt =====
-- A shutdown of a crypto socket, which is left to the handler of a write.
use lua_node.Base.{
  ℕ, ◌+◌, ◌≡◌, refl, Bool, true, false, not, ◌&&◌, none, some, List, [], ◌∷◌, ◌++◌, ◌==◌, arith,
  total, if_cases, if◌then◌else◌, pick, Option-cases, inl, inr,
}
use lua_node.Lua.{Value, string, ErrorCode}
use lua_node.Net.Socket.{How, receive, send}
use lua_node.Crypto.Socket.{
  Callback, Op, handshake_op, write_op, read_op, some_bytes, delimited, Event, called, did_shutdown,
  did_close, Socket, Request, handshake, write, read, close, shutdown, request,
}
use lua_node.Crypto.Handlers.{
  Scripts, Completion, close_if_done, shutdown_if_done, handle_handshake, handle_write, handle_read,
  handle_read_some, complete_op, Turn, lua_calls, completes, runs_elsewhere, turn, tell,
}
use lua_node.Crypto.Handlers.Kept.{IsKept, tell-kept, deliver_found-kept}
use lua_node.Crypto.Handlers.Turns.{is_write}
use lua_node.Crypto.Handlers.Counts.{any-IsScript}

-- The shutdowns of one side of the connection.
abbrev is_shutdown : How → Event → ℕ
is_shutdown send (did_shutdown send) = 1
is_shutdown receive (did_shutdown receive) = 1
is_shutdown _ _ = 0

abbrev pub shutdowns : How → List Event → ℕ
shutdowns how es = total (is_shutdown how) es

shutdowns-append :
    (how : How) (es fs : List Event)
    → shutdowns how (es ++ fs) ≡ shutdowns how es + shutdowns how fs
shutdowns-append how [] fs = omega arith
shutdowns-append how (e ∷ es) fs = omega (arith, shutdowns-append how es fs)

-- So many shutdowns of the sending side, and of the receiving one.
pub record HasShut (a b : ℕ) (s : Socket) : Type 0 where
  pub sends : shutdowns send s.log ≡ a
  pub receives : shutdowns receive s.log ≡ b

module _ (close_result : List Event → ErrorCode) (a b : ℕ) where
  request-HasShut :
      (r : Request) (s : Socket) → HasShut a b s → HasShut a b (request close_result r s).0
  unfolding request
  request-HasShut handshake s h = ground arith
  request-HasShut (write (string bytes)) s h = ground arith
  request-HasShut (write _) s h = ground arith
  request-HasShut (read arg) s h = ground arith
  request-HasShut close s h = ground (
    arith,
    shutdowns-append send s.log (did_close ∷ []),
    shutdowns-append receive s.log (did_close ∷ []),
  )
  request-HasShut (shutdown arg) s h = ground arith

  kept : IsKept close_result (λ r. Unit {0}) (HasShut a b)
  kept = record {
    by_request = λ r s q h. request-HasShut r s h;
    by_call = λ which args s h. ground (
      arith,
      shutdowns-append send s.log (called which args ∷ []),
      shutdowns-append receive s.log (called which args ∷ []),
    );
    by_emptying = λ s h. ground arith;
  }

  told :
      (error : ErrorCode) (args : List Value) (which : Callback) (scripts : Scripts) (s : Socket)
      → HasShut a b s
      → HasShut a b (tell close_result error args which scripts s)
  told error args which scripts s h =
      tell-kept kept error args which scripts s (λ w. any-IsScript (scripts w)) h

  settop-HasShut : (s : Socket) → HasShut a b s → HasShut a b (record s { stray = 0 })
  settop-HasShut s h = ground arith

  close_if_done-HasShut :
      (s : Socket)
      → HasShut a b s
      → HasShut a b (record (close_if_done close_result s) { stray = 0 })
  unfolding close_if_done
  close_if_done-HasShut s h = ground (
    arith,
    shutdowns-append send s.log (did_close ∷ []),
    shutdowns-append receive s.log (did_close ∷ []),
  )

  handle_read-HasShut :
      (error : ErrorCode) (scripts : Scripts) (s : Socket)
      → HasShut a b s
      → HasShut a b (handle_read close_result error scripts s)
  unfolding handle_read
  handle_read-HasShut none scripts s h =
      close_if_done-HasShut _
        (deliver_found-kept kept scripts _ _ (λ w. any-IsScript (scripts w)) (ground arith))
  handle_read-HasShut (some e) scripts s h =
      if_cases (HasShut a b) s.shutdown_pending _ _ (λ p. ground arith)
        (λ p. close_if_done-HasShut _ (told _ _ _ scripts _ (ground arith)))

  -- Every handler but that of a write.
  complete_op-HasShut :
      (o : Op) (c : Completion) (scripts : Scripts) (s : Socket)
      → (is_write o == 1) ≡ false
      → HasShut a b s
      → HasShut a b (complete_op close_result o c scripts s)
  unfolding complete_op handle_handshake handle_read_some
  complete_op-HasShut handshake_op c scripts s w h =
      settop-HasShut _ (told _ _ _ scripts _ (ground arith))
  complete_op-HasShut (write_op bytes) c scripts s w h = cc
  complete_op-HasShut (read_op some_bytes) c scripts s w h =
      close_if_done-HasShut _ (told _ _ _ scripts _ (ground arith))
  complete_op-HasShut (read_op delimited) c scripts s w h =
      handle_read-HasShut c.error scripts _ (ground arith)

-- Whether a turn ends a write.
abbrev pub ends_write : Turn → Socket → Bool
ends_write (completes n c scripts) s = elim (pick n s.ops) [
  | none ↦ false
  | some p ↦ is_write p.0 == 1
]
ends_write _ s = false

-- What a turn that leaves the socket so adds: with `w` it has ended a write.
abbrev pub shuts : Bool → Socket → Bool
shuts w u = w && (u.pending_writes == 0 && u.shutdown_pending)

abbrev pub one_if : Bool → ℕ
one_if b = if b then 1 else 0

module _ (close_result : List Event → ErrorCode) where
  after_write :
      (a b : ℕ) (t : Socket)
      → HasShut a b t
      → let u = record (close_if_done close_result (shutdown_if_done close_result t)) {
        stray = 0;
      } in
        HasShut
          (a + one_if (shuts true u && u.shutdown_send))
          (b + one_if (shuts true u && not u.shutdown_send))
          u
  unfolding close_if_done shutdown_if_done
  after_write a b t h = ground (
    arith,
    shutdowns-append send t.log (did_shutdown send ∷ []),
    shutdowns-append receive t.log (did_shutdown send ∷ []),
    shutdowns-append send t.log (did_shutdown receive ∷ []),
    shutdowns-append receive t.log (did_shutdown receive ∷ []),
    shutdowns-append send t.log (did_close ∷ []),
    shutdowns-append receive t.log (did_close ∷ []),
    shutdowns-append send (t.log ++ did_shutdown send ∷ []) (did_close ∷ []),
    shutdowns-append receive (t.log ++ did_shutdown send ∷ []) (did_close ∷ []),
    shutdowns-append send (t.log ++ did_shutdown receive ∷ []) (did_close ∷ []),
    shutdowns-append receive (t.log ++ did_shutdown receive ∷ []) (did_close ∷ []),
  )

  -- What a turn leaves of the two counts, when it has ended a write or not.
  abbrev pub Adds : Bool → Socket → Socket → Type 0
  Adds w s u =
      HasShut (shutdowns send s.log + one_if (shuts w u && u.shutdown_send))
        (shutdowns receive s.log + one_if (shuts w u && not u.shutdown_send)) u

  unchanged :
      (s u : Socket) → HasShut (shutdowns send s.log) (shutdowns receive s.log) u → Adds false s u
  unchanged s u h = record { sends = omega (arith, h.sends); receives = omega (arith, h.receives) }

  counts : (s : Socket) → HasShut (shutdowns send s.log) (shutdowns receive s.log) s
  counts s = record { sends = refl; receives = refl }

  without_op :
      (s : Socket) (rest : List Op)
      → HasShut (shutdowns send s.log) (shutdowns receive s.log) (record s { ops = rest })
  without_op s rest = record { sends = refl; receives = refl }

  complete_op-Adds :
      (o : Op) (rest : List Op) (c : Completion) (scripts : Scripts) (s : Socket)
      → Adds (is_write o == 1) s (complete_op close_result o c scripts (record s { ops = rest }))
  unfolding complete_op handle_write
  complete_op-Adds handshake_op rest c scripts s = unchanged s _ (
      complete_op-HasShut close_result _ _ handshake_op c scripts (record s { ops = rest }) refl
        (without_op s rest))
  complete_op-Adds (read_op kind) rest c scripts s = unchanged s _ (
      complete_op-HasShut close_result _ _ (read_op kind) c scripts (record s { ops = rest }) refl
        (without_op s rest))
  complete_op-Adds (write_op bytes) rest c scripts s =
      let h = without_op s rest in
      after_write _ _ _
        (told close_result _ _ _ _ _ scripts _ (record { sends = h.sends; receives = h.receives }))

  -- In any turn of the event loop, on any socket: the connection is shut down at most once, and exactly where the
  -- turn is the end of a write, after which no write is counted and a shutdown is pending; it is the sending side
  -- that is shut down if `m_shutdown_send` is set then, and the receiving side if not. So neither a call of
  -- `shutdown` by Lua nor the end of another operation shuts anything down.
  pub turn-shutdowns : (t : Turn) (s : Socket) → Adds (ends_write t s) s (turn close_result t s)
  unfolding turn
  turn-shutdowns (lua_calls r) s = unchanged s _ (request-HasShut close_result _ _ r s (counts s))
  turn-shutdowns runs_elsewhere s = unchanged s _ (settop-HasShut close_result _ _ s (counts s))
  turn-shutdowns (completes n c scripts) s = elim (Option-cases (pick n s.ops)) [
    | inl e ↦ rw (e, turn, ends_write) (unchanged s s (counts s))
    | inr ((o, rest), e) ↦ rw (e, turn, ends_write) (complete_op-Adds o rest c scripts s)
  ]
