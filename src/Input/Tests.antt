-- ===== src/Input/Tests.antt =====
-- Console input on concrete records.
use lua_node.Base.{ℕ, ◌+◌, ◌≤◌, ◌≡◌, refl, true, false, none, some, List, [], ◌∷◌, length, arith}
use lua_node.Input.Keys.{get_vt100_fn_key, find_key}
use lua_node.Input.Reader.{
  Key, InputRecord, key_event, other_event, InputContext, Reader, read_loop, is_keyup, is_composing,
  is_numpad,
}
use lua_node.Input.Reader.Typed.{typed, read_loop-typed}
use lua_node.Input.Thread.{
  InputThread, checking, reading, ended, got, failed, reads, pauses, closes, joins, thread_steps,
  stray_steps, thread_turn, thread_turns, new_thread, start,
}
use lua_node.Input.Thread.Paused.{pause-joined}

-- A conversion that knows one byte per unit.
abbrev one_byte : List ℕ → List ℕ
one_byte [] = []
one_byte (unit ∷ units) = unit ∷ []

one_byte-length : (units : List ℕ) → length (one_byte units) ≤ 6
one_byte-length [] = omega arith
one_byte-length (unit ∷ units) = omega arith

-- The key of a letter, with the left alt key.
abbrev letter : ℕ → ℕ → Key
letter c count = record {
  is_down = true;
  repeat_count = count;
  key_code = 65;
  unicode_char = c;
  left_alt = true;
  right_alt = false;
  any_ctrl = false;
  shift = false;
  enhanced = false;
}

-- The key F1, with shift.
abbrev f1 : Key
f1 = record (letter 0 1) { key_code = 112; left_alt = false; shift = true }

abbrev records : List InputRecord
records = key_event (letter 97 2) ∷ other_event ∷ key_event f1 ∷ []

abbrev buffer : List ℕ
buffer = 0 ∷ 0 ∷ 0 ∷ 0 ∷ 0 ∷ 0 ∷ 0 ∷ 0 ∷ []

abbrev at_rest : InputContext
at_rest = record {
  last_key = buffer;
  last_key_len = 0;
  last_key_offset = 0;
  high_surrogate = 0;
  last_repeat = 0;
}

read_loop-typed_example :
    (fuel : ℕ) × (t : Reader) × (t.output ≡ typed one_byte 0 records)
    × ((more : ℕ)
        → read_loop one_byte
            (fuel + more)
            (record { context = at_rest; records = records; output = [] })
          ≡ some t)
read_loop-typed_example = read_loop-typed one_byte one_byte-length records at_rest refl refl

-- Alt-a twice, and the sequence of shift-F1.
typed_run : typed one_byte 0 records ≡ 27 ∷ 97 ∷ 27 ∷ 97 ∷ 27 ∷ 91 ∷ 50 ∷ 51 ∷ 126 ∷ []
unfolding is_keyup is_composing is_numpad get_vt100_fn_key find_key
typed_run = refl

-- A stream whose thread waits for a key.
abbrev waiting : InputThread
waiting = record {
  run = true;
  thread = some reading;
  strays = [];
  work = true;
  joining = false;
  wakeups = 0;
  posted = [];
}

pause-joined_example :
    (t : InputThread) × (thread_turns
        (pauses ∷ thread_steps (got 1 true) ∷ thread_steps (got 3 false) ∷ joins ∷ [])
        waiting
      ≡ some t)
    × (t.run ≡ false)
    × (t.thread ≡ none)
    × (t.work ≡ false)
    × (t.joining ≡ false)
    × (t.strays ≡ [])
    × ((start t).thread ≡ some checking)
    × ((start t).run ≡ true)
    × ((start t).work ≡ true)
pause-joined_example =
    pause-joined reading (got 1 true) (got 3 false) waiting
      (record { has_thread = refl; is_free = refl })

-- A stream that is closed and read again before its thread has seen the end: two threads read the console.
closed_and_read :
    thread_turns
      (closes
        ∷ reads
        ∷ stray_steps 0 (got 1 true)
        ∷ stray_steps 0 (got 1 true)
        ∷ thread_steps (got 1 true)
        ∷ [])
      waiting
    ≡ some (record waiting { strays = reading ∷ []; wakeups = 1 })
unfolding thread_turns thread_turn
closed_and_read = refl

-- A pause of a stream that is not read follows a null pointer.
paused_at_once : thread_turns (pauses ∷ []) (new_thread false) ≡ none
unfolding thread_turns thread_turn new_thread
paused_at_once = refl

-- After an error of the console the thread is at its end, and a read starts no other.
read_after_error :
    thread_turns (thread_steps (failed true) ∷ reads ∷ []) waiting
    ≡ some (record waiting { thread = some ended; work = false })
unfolding thread_turns thread_turn
read_after_error = refl
