-- ===== src/Posix/Tests.antt =====
-- A stream and a terminal on concrete inputs.
use lua_node.Base.{
  length, ◌+◌, ◌%◌, ◌^◌, Bool, ◌≡◌, refl, true, false, none, some, List, [], ◌∷◌, asks, ends,
}
use lua_node.Posix.Stream.{
  write, read, close, write_callback, Scripts, Completion, Turn, turns, new_stream,
}
use lua_node.Posix.Stream.Counts.{IsSound, loop_turns-IsSound}
use lua_node.Lua.{integer, returns, raises}
use lua_node.Posix.TtyStream
use lua_node.Posix.TtyStream.{
  FileFlags, MakeAnswers, thrown, construct, destroy, get_window_size, tty_write, TtyStream,
}
use lua_node.Posix.TtyStream.Pending.{OfMade, flags_for, turns-construct}
use lua_node.Posix.Terminal.{Termios, Answers, set_raw_modes, reset_mode, new_terminal}
use lua_node.Posix.Terminal.Restored.{reset_mode-set_raw_modes}

abbrev writing_on : Scripts
writing_on write_callback = some (write (some (3 ∷ [])) ∷ write none ∷ [])
writing_on _ = none

abbrev done : Completion
done = record { error = none; bytes = 7 ∷ []; scripts = writing_on }

abbrev session : List Turn
session =
    asks (write (some (1 ∷ 2 ∷ [])))
    ∷ asks (read false)
    ∷ asks (read true)
    ∷ asks close
    ∷ ends 1 done
    ∷ ends 0 done
    ∷ []

loop_turns-IsSound_example : IsSound false (turns session (new_stream false))
loop_turns-IsSound_example = loop_turns-IsSound false session

abbrev ordinary : Termios
ordinary = record {
  brkint = true;
  icrnl = true;
  inpck = false;
  istrip = false;
  ixon = true;
  onlcr = true;
  cs8 = true;
  echo = true;
  icanon = true;
  iexten = true;
  isig = true;
  vmin = 0;
  vtime = 5;
  others = 9 ∷ [];
}

abbrev zeroed : Termios
zeroed = record ordinary { icrnl = false; ixon = false; echo = false; others = [] }

abbrev fine : Answers
fine = record { gets = true; dups = true; sets = true }

abbrev stubborn : Answers
stubborn = record { gets = true; dups = true; sets = false }

abbrev calls : List (Bool × Answers)
calls = (true, stubborn) ∷ (true, fine) ∷ (true, fine) ∷ (false, stubborn) ∷ []

reset_mode-set_raw_modes_example :
    (reset_mode true (set_raw_modes calls (new_terminal ordinary zeroed zeroed))).current ≡ ordinary
reset_mode-set_raw_modes_example =
    reset_mode-set_raw_modes ordinary zeroed zeroed calls (refl, (refl, (refl, (refl, tt))))

abbrev blocking : FileFlags
blocking = record { nonblock = false; others = 2 }

abbrev refusing : MakeAnswers
refusing = record { gets = true; sets = true; dup = none; taken = false }

-- A file that Asio does not take is left non-blocking.
not_taken : construct true 0 blocking refusing ≡ thrown (record blocking { nonblock = true })
unfolding construct
not_taken = refl

abbrev screen : TtyStream
screen = record {
  fd = 1;
  flags = none;
  pending_reads = 0;
  file_flags = blocking;
  is_open = true;
  written = [];
  ops = [];
  refs = 0;
  lost = 0;
  log = [];
}

sized : get_window_size (some (80, 25)) screen ≡ (screen, returns (integer 80 ∷ integer 25 ∷ []))
unfolding get_window_size
sized = refl

half_written :
    tty_write (some (1 ∷ 2 ∷ 3 ∷ [])) (some 2) screen
    ≡ (record screen { written = 1 ∷ 2 ∷ [] }, raises)
unfolding tty_write
half_written = refl

abbrev agrees : MakeAnswers
agrees = record { gets = true; sets = true; dup = none; taken = true }

-- A terminal is read twice, once with an argument, and the callback of the first read reads again.
abbrev typing : List TtyStream.Turn
typing =
    asks (TtyStream.read false)
    ∷ asks (TtyStream.read true)
    ∷ ends 0 (record {
      error = none;
      bytes = 97 ∷ [];
      script = some (TtyStream.read false ∷ TtyStream.pause ∷ []);
    })
    ∷ []

turns-construct_example :
    OfMade
      (λ s.
        let end = TtyStream.turns typing s in
        (end.pending_reads ≡ length end.ops % 2 ^ 64)
        × (end.refs ≡ length end.ops + end.lost)
        × (destroy end ≡ flags_for true blocking))
      (construct true 0 blocking agrees)
turns-construct_example = turns-construct true 0 blocking agrees typing
