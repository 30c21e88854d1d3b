-- ===== src/Posix/Stream/Counts.antt =====
-- The counters of a stream, and that nothing closes it but what its memory held.
use lua_node.Base.{
  ℕ, ◌+◌, ◌%◌, ◌^◌, ◌≤◌, ◌≡◌, false, Bool, Option, none, some, List, [], ◌∷◌, ◌++◌, All, arith,
  length, total, requests_of-kept, IsTakenFrom, loop_turns-kept, any_turns,
}
use lua_node.Lua.{Value, self, ErrorCode}
use lua_node.Posix.Stream.{
  Op, write_op, read_op, Callback, Event, called, did_close, Stream, Request, write, read, close,
  new_stream, request, Completion, call_script, close_if_done, handle_write, handle_read_some,
  complete_op, stream_loop, Turn, turns,
}

abbrev is_write : Op → ℕ
is_write (write_op bytes) = 1
is_write read_op = 0

abbrev is_read : Op → ℕ
is_read (write_op bytes) = 0
is_read read_op = 1

abbrev pub writes : List Op → ℕ
writes os = total is_write os

abbrev pub reads : List Op → ℕ
reads os = total is_read os

abbrev is_close : Event → ℕ
is_close did_close = 1
is_close _ = 0

abbrev pub closes : List Event → ℕ
closes es = total is_close es

closes-append : (es fs : List Event) → closes (es ++ fs) ≡ closes es + closes fs
closes-append [] fs = omega arith
closes-append (e ∷ es) fs = omega (arith, closes-append es fs)

-- The counters are those of the operations in flight, at most one of which is a write; each holds a reference,
-- beside the references that were lost; and without a flag from the start nothing is closed.
pub record IsSound (garbage : Bool) (s : Stream) : Type 0 where
  pub writes_counted : s.pending_writes ≡ writes s.ops
  pub one_write : writes s.ops ≤ 1
  pub reads_counted : s.pending_reads ≡ reads s.ops % 2 ^ 64
  pub refs_counted : s.refs ≡ length s.ops + s.lost
  pub flag_kept : s.close_pending ≡ garbage
  pub never_closed : garbage ≡ false → closes s.log ≡ 0

module _ (garbage : Bool) where
  request-IsSound : (r : Request) (s : Stream) → IsSound garbage s → IsSound garbage (request r s)
  unfolding request
  request-IsSound (write text) s h = ground arith
  request-IsSound (read b) s h = ground arith
  request-IsSound close s h = h

  any : (rs : List Request) → All (λ r. Unit {0}) rs
  any [] = tt
  any (r ∷ rs) = (tt, any rs)

  call_script-IsSound :
      (sc : Option (List Request)) (which : Callback) (args : List Value) (s : Stream)
      → IsSound garbage s
      → IsSound garbage (call_script sc which args s)
  unfolding call_script
  call_script-IsSound none which args s h = h
  call_script-IsSound (some rs) which args s h =
      requests_of-kept request (λ r. Unit {0}) (IsSound garbage) (λ r s q h. request-IsSound r s h)
        rs _ (any rs) (ground (arith, closes-append s.log (called which (self ∷ args) ∷ [])))

  close_if_done-IsSound : (s : Stream) → IsSound garbage s → IsSound garbage (close_if_done s)
  unfolding close_if_done
  close_if_done-IsSound s h = ground (arith, closes-append s.log (did_close ∷ []))

  handle_write-IsSound :
      (bytes : List ℕ) (c : Completion) (s : Stream)
      → IsSound garbage (record s { ops = write_op bytes ∷ s.ops })
      → IsSound garbage (handle_write c s)
  unfolding handle_write
  handle_write-IsSound bytes c s h = of_error c.error
    where
      of_error : (e : ErrorCode) → IsSound garbage (handle_write (record c { error = e }) s)
      of_error none = call_script-IsSound _ _ _ _ (ground (arith, h))
      of_error (some e) = ground (arith, h)

  complete_op-IsSound :
      (o : Op) (c : Completion) (s : Stream)
      → IsSound garbage (record s { ops = o ∷ s.ops })
      → IsSound garbage (complete_op o c s)
  unfolding complete_op handle_read_some
  complete_op-IsSound (write_op bytes) c s h = handle_write-IsSound bytes c s h
  complete_op-IsSound read_op c s h =
      close_if_done-IsSound _ (call_script-IsSound _ _ _ _ (ground (arith, h)))

  taken-IsSound :
      (o : Op) (rest : List Op) (s : Stream)
      → IsTakenFrom s.ops o rest
      → IsSound garbage s
      → IsSound garbage (record s { ops = o ∷ rest })
  taken-IsSound o rest s t h =
      ground (arith, t.total_left is_write, t.total_left is_read, t.length_left, h)

  -- After any turns of the event loop, in any order, with whatever results and whatever requests the
  -- callbacks make: `m_pending_writes` is the number of writes in flight, which is at most one;
  -- `m_pending_reads` is that of the reads, modulo 2^64; the registry holds a reference for each operation,
  -- and those that were taken when an error was raised; and the stream has not been closed, whatever Lua
  -- asked, unless the memory of `m_close_pending` was set before the constructor ran.
  pub loop_turns-IsSound : (ts : List Turn) → IsSound garbage (turns ts (new_stream garbage))
  unfolding turns stream_loop new_stream
  loop_turns-IsSound ts =
      loop_turns-kept stream_loop (λ r. Unit {0}) (λ c. Unit {0}) (IsSound garbage)
        (λ r s q h. request-IsSound r s h)
        (λ o rest c s t q h. complete_op-IsSound o c _ (taken-IsSound o rest s t h)) ts
        (new_stream garbage) (any_turns ts) (ground arith)
