-- ===== src/Posix/Terminal.antt =====
-- The modes of a terminal: `uv_tty_set_mode`, `uv_tty_reset_mode` and `SetRawMode` of `TtyStream`
-- (src/detail/posix/tty_stream.cpp).
pub mod Restored
use lua_node.Base.{ℕ, Bool, true, false, ◌&&◌, Option, none, some, List, [], ◌∷◌, if◌then◌else◌}
use lua_node.Lua.{Outcome, returns, raises}

-- struct termios: the bits that the raw mode clears and sets, the two control characters, and the rest.
pub record Termios : Type 0 where
  pub brkint : Bool
  pub icrnl : Bool
  pub inpck : Bool
  pub istrip : Bool
  pub ixon : Bool
  pub onlcr : Bool
  pub cs8 : Bool
  pub echo : Bool
  pub icanon : Bool
  pub iexten : Bool
  pub isig : Bool
  pub vmin : ℕ
  pub vtime : ℕ
  pub others : List ℕ

-- The terminal's attributes; those of the first terminal, to restore at the end, once orig_termios_fd is a
-- descriptor; and the stream: m_mode and m_orig_termios.
pub record Terminal : Type 0 where
  pub current : Termios
  pub orig_termios : Termios
  pub has_descriptor : Bool
  pub is_raw : Bool
  pub original : Termios

-- What the system answers to tcgetattr, dup and tcsetattr: whether they succeed.
pub record Answers : Type 0 where
  pub gets : Bool
  pub dups : Bool
  pub sets : Bool

unfoldable pub raw_of : Termios → Termios
raw_of t = record t {
  brkint = false;
  icrnl = false;
  inpck = false;
  istrip = false;
  ixon = false;
  onlcr = true;
  cs8 = true;
  echo = false;
  icanon = false;
  iexten = false;
  isig = false;
  vmin = 1;
  vtime = 0;
}

-- The attributes of the first terminal that is made raw are kept.
unfoldable pub keep_first : Answers → Terminal → Terminal
keep_first a t =
    if t.has_descriptor then t else record t { orig_termios = t.original; has_descriptor = a.dups }

-- uv_tty_set_mode; the flag tells whether it returns 0.
unfoldable pub set_mode : Bool → Answers → Terminal → Terminal × Bool
set_mode wanted a t = change wanted t.is_raw
  where
    become_raw : Terminal → Terminal × Bool
    become_raw u =
        if a.sets
        then (record u { current = raw_of u.orig_termios; is_raw = true }, true)
        else (u, false)

    change : Bool → Bool → Terminal × Bool
    change true false =
        if a.gets then become_raw (keep_first a (record t { original = t.current })) else (t, false)
    change false true =
        if a.sets then (record t { current = t.original; is_raw = false }, true) else (t, false)
    change true true = (t, false)
    change false false = (t, false)

-- uv_tty_reset_mode; `sets` is the answer to tcsetattr.
unfoldable pub reset_mode : Bool → Terminal → Terminal
reset_mode sets t = if t.has_descriptor && sets then record t { current = t.orig_termios } else t

-- What SetRawMode answers: a failure to leave the raw mode is not told.
abbrev pub answer_of : Bool → Terminal × Bool → Terminal × Outcome
answer_of true (t, false) = (t, raises)
answer_of _ (t, ok) = (t, returns [])

-- SetRawMode
unfoldable pub set_raw_mode : Bool → Answers → Terminal → Terminal × Outcome
set_raw_mode wanted a t = answer_of wanted (set_mode wanted a t)

unfoldable pub set_raw_modes : List (Bool × Answers) → Terminal → Terminal
set_raw_modes [] t = t
set_raw_modes ((wanted, a) ∷ rest) t = set_raw_modes rest (set_raw_mode wanted a t).0

-- The first stream of a terminal that has these attributes, with what the static object and the field of the
-- stream hold before.
unfoldable pub new_terminal : Termios → Termios → Termios → Terminal
new_terminal t zeroed garbage = record {
  current = t;
  orig_termios = zeroed;
  has_descriptor = false;
  is_raw = false;
  original = garbage;
}
