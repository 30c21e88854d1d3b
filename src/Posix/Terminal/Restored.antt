-- ===== src/Posix/Terminal/Restored.antt =====
-- The terminal gets its attributes back.
use lua_node.Base.{◌≡◌, Bool, true, false, List, [], ◌∷◌, All, arith}
use lua_node.Posix.Terminal.{
  Termios, Terminal, Answers, keep_first, answer_of, set_mode, reset_mode, set_raw_mode,
  set_raw_modes, new_terminal,
}

-- A descriptor can be had to restore the attributes by.
abbrev pub HasDescriptor : Bool × Answers → Type 0
HasDescriptor c = c.1.dups ≡ true

-- The attributes before the first call are those of the terminal, unless it is raw: then the stream has them,
-- and they are kept for the end.
record Remembers (before : Termios) (t : Terminal) : Type 0 where
  cooked : t.is_raw ≡ false → t.current ≡ before
  raw : t.is_raw ≡ true → t.original ≡ before
  kept : t.has_descriptor ≡ true → t.orig_termios ≡ before
  bare : t.has_descriptor ≡ false → t.is_raw ≡ false

set_mode-Remembers :
    (before : Termios) (wanted : Bool) (a : Answers) (t : Terminal)
    → a.dups ≡ true
    → Remembers before t
    → Remembers before (set_mode wanted a t).0
unfolding set_mode keep_first
set_mode-Remembers before wanted a t d h = ground arith

set_raw_mode-Remembers :
    (before : Termios) (wanted : Bool) (a : Answers) (t : Terminal)
    → a.dups ≡ true
    → Remembers before t
    → Remembers before (set_raw_mode wanted a t).0
unfolding set_raw_mode
set_raw_mode-Remembers before wanted a t d h =
    answered wanted (set_mode wanted a t) (set_mode-Remembers before wanted a t d h)
  where
    answered :
        (w : Bool) (r : Terminal × Bool) → Remembers before r.0 → Remembers before (answer_of w r).0
    answered true (u, true) k = k
    answered true (u, false) k = k
    answered false (u, ok) k = k

set_raw_modes-Remembers :
    (before : Termios) (calls : List (Bool × Answers)) (t : Terminal)
    → All HasDescriptor calls
    → Remembers before t
    → Remembers before (set_raw_modes calls t)
unfolding set_raw_modes
set_raw_modes-Remembers before [] t d h = h
set_raw_modes-Remembers before ((wanted, a) ∷ rest) t d h =
    set_raw_modes-Remembers before rest (set_raw_mode wanted a t).0 d.1
      (set_raw_mode-Remembers before wanted a t d.0 h)

restored :
    (before : Termios) (t : Terminal) → Remembers before t → (reset_mode true t).current ≡ before
unfolding reset_mode
restored before t h = ground arith

-- Whatever the calls of `setRawMode` on a stream, in any order, and whatever the system answers to them, but
-- that a descriptor can be had: the reset at the end of the program, if it succeeds, gives the terminal the
-- attributes that it had before the first of them.
pub reset_mode-set_raw_modes :
    (before zeroed garbage : Termios) (calls : List (Bool × Answers))
    → All HasDescriptor calls
    → (reset_mode true (set_raw_modes calls (new_terminal before zeroed garbage))).current ≡ before
unfolding new_terminal
reset_mode-set_raw_modes before zeroed garbage calls d =
    restored before _
      (set_raw_modes-Remembers before calls (new_terminal before zeroed garbage) d (ground arith))
