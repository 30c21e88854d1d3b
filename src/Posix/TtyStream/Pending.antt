-- ===== src/Posix/TtyStream/Pending.antt =====
-- The reads of a terminal's stream, and the flags of its file.
use lua_node.Base.{
  ℕ, ◌+◌, ◌%◌, ◌^◌, ◌≡◌, Bool, true, false, Option, none, some, List, [], ◌∷◌, All, arith, length,
  requests_of-kept, IsTakenFrom, loop_turns-kept, any_turns,
}
use lua_node.Posix.TtyStream.{
  FileFlags, TtyStream, Op, read_op, MakeAnswers, Made, made, raised, thrown, construct, destroy,
  Request, read, pause, write, close, window_size, request, Completion, handle_read_some,
  complete_op, tty_loop, Turn, turns,
}

-- The counter and the references of the reads in flight; `file` is what the flags of the file have been set to.
record IsPending (file : FileFlags) (s : TtyStream) : Type 0 where
  reads_counted : s.pending_reads ≡ length s.ops % 2 ^ 64
  refs_counted : s.refs ≡ length s.ops + s.lost
  flags_kept : s.file_flags ≡ file

module _ (file : FileFlags) where
  request-IsPending :
      (r : Request) (s : TtyStream) → IsPending file s → IsPending file (request r s)
  unfolding request
  request-IsPending (read true) s h = ground arith
  request-IsPending (read false) s h = ground arith
  request-IsPending pause s h = h
  request-IsPending (write none answer) s h = h
  request-IsPending (write (some bytes) none) s h = ground arith
  request-IsPending (write (some bytes) (some n)) s h = ground arith
  request-IsPending (close true) s h = ground arith
  request-IsPending (close false) s h = ground arith
  request-IsPending (window_size none) s h = h
  request-IsPending (window_size (some size)) s h = h

  any : (rs : List Request) → All (λ r. Unit {0}) rs
  any [] = tt
  any (r ∷ rs) = (tt, any rs)

  handle_read_some-IsPending :
      (c : Completion) (s : TtyStream)
      → IsPending file (record s { ops = read_op ∷ s.ops })
      → IsPending file (handle_read_some c s)
  unfolding handle_read_some
  handle_read_some-IsPending c s h = of_script c.script
    where
      of_script :
          (sc : Option (List Request))
          → IsPending file (handle_read_some (record c { script = sc }) s)
      of_script none = ground (arith, h)
      of_script (some rs) =
          requests_of-kept request (λ r. Unit {0}) (IsPending file)
            (λ r t q k. request-IsPending r t k) rs _ (any rs) (ground (arith, h))

  complete_op-IsPending :
      (o : Op) (rest : List Op) (c : Completion) (s : TtyStream)
      → IsTakenFrom s.ops o rest
      → IsPending file s
      → IsPending file (complete_op o c (record s { ops = rest }))
  unfolding complete_op
  complete_op-IsPending read_op rest c s t h =
      handle_read_some-IsPending c (record s { ops = rest }) (ground (arith, t.length_left, h))

  turns-IsPending :
      (ts : List Turn) (s : TtyStream) → IsPending file s → IsPending file (turns ts s)
  unfolding turns tty_loop
  turns-IsPending ts s h =
      loop_turns-kept tty_loop (λ r. Unit {0}) (λ c. Unit {0}) (IsPending file)
        (λ r t q k. request-IsPending r t k)
        (λ o rest c t k q l. complete_op-IsPending o rest c t k l) ts s (any_turns ts) h

-- What holds of a stream, where one was made.
abbrev pub OfMade : (TtyStream → Type 0) → Made → Type 0
OfMade P (made s) = P s
OfMade P (raised left) = Unit
OfMade P (thrown left) = Unit

-- The flags of the file that is opened: one that is to be read is made non-blocking.
abbrev pub flags_for : Bool → FileFlags → FileFlags
flags_for true file = record file { nonblock = true }
flags_for false file = file

fresh-IsPending :
    (readable : Bool) (fd : ℕ) (file : FileFlags) (gets sets : Bool) (dup : Option ℕ) (taken : Bool)
    → OfMade
        (IsPending (flags_for readable file))
        (construct readable fd file (record { gets = gets; sets = sets; dup = dup; taken = taken }))
unfolding construct
fresh-IsPending false fd file gets sets none taken = tt
fresh-IsPending false fd file gets sets (some n) false = tt
fresh-IsPending false fd file gets sets (some n) true = ground arith
fresh-IsPending true fd file false sets dup taken = tt
fresh-IsPending true fd file true false dup taken = tt
fresh-IsPending true fd file true true dup false = tt
fresh-IsPending true fd file true true dup true = ground arith

OfMade-map :
    (P Q : TtyStream → Type 0)
    → ((s : TtyStream) → P s → Q s)
    → (m : Made) → OfMade P m
    → OfMade Q m
OfMade-map P Q f (made s) p = f s p
OfMade-map P Q f (raised left) p = tt
OfMade-map P Q f (thrown left) p = tt

-- After any turns of the event loop, in any order, with whatever results and whatever requests the callback
-- makes, on a stream that the constructor has made: `m_pending_reads` is the number of reads in flight, modulo
-- 2^64; the registry holds a reference for each of them, and those that were taken when an error was raised;
-- and the destructor leaves a file that was opened for reading non-blocking, whatever it was before.
pub turns-construct :
    (readable : Bool) (fd : ℕ) (file : FileFlags) (a : MakeAnswers) (ts : List Turn)
    → OfMade
        (λ s.
          let end = turns ts s in
          (end.pending_reads ≡ length end.ops % 2 ^ 64)
          × (end.refs ≡ length end.ops + end.lost)
          × (destroy end ≡ flags_for readable file))
        (construct readable fd file a)
unfolding destroy
turns-construct readable fd file a ts =
    let left = flags_for readable file in
    OfMade-map (IsPending left) _
      (λ s h.
        let k = turns-IsPending left ts s h in (k.reads_counted, k.refs_counted, k.flags_kept))
      (construct readable fd file a) (fresh-IsPending readable fd file a.gets a.sets a.dup a.taken)
