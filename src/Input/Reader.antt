-- ===== src/Input/Reader.antt =====
-- `ReadConsoleHandler` (src/detail/windows/input_tty.cpp): the loop over the records of console input, which
-- fills the buffer of the last key and copies it, as often as the record says.
pub mod Passes
pub mod Holds
pub mod Loaded
pub mod Typed
use lua_node.Base.{
  ℕ, zero, suc, ◌+◌, ◌-◌, ◌%◌, ◌^◌, Bool, true, false, not, ◌&&◌, ◌||◌, Option, none, some, List,
  [], ◌∷◌, ◌++◌, ltb, leb, ◌==◌, if◌then◌else◌, length, get_or, set, take, drop,
}
use lua_node.Input.Keys.{get_vt100_fn_key}

-- KEY_EVENT_RECORD; the character is a unit of UTF-16, or 0.
pub record Key : Type 0 where
  pub is_down : Bool
  pub repeat_count : ℕ
  pub key_code : ℕ
  pub unicode_char : ℕ
  pub left_alt : Bool
  pub right_alt : Bool
  pub any_ctrl : Bool
  pub shift : Bool
  pub enhanced : Bool

-- INPUT_RECORD: the other kinds of event leave no bytes.
pub data InputRecord : Type 0 where
  key_event : Key → InputRecord
  other_event : InputRecord

-- The fields of `tty_context_t` that the handler uses; `last_repeat` is `wRepeatCount` of `last_input_record`.
pub record InputContext : Type 0 where
  pub last_key : List ℕ
  pub last_key_len : ℕ
  pub last_key_offset : ℕ
  pub high_surrogate : ℕ
  pub last_repeat : ℕ

-- A key that is released says nothing, unless it ends a character that was composed with the left alt key;
-- 18 is the alt key.
unfoldable pub is_keyup : Key → Bool
is_keyup k = not k.is_down && not ((k.left_alt || k.key_code == 18) && not (k.unicode_char == 0))

-- VK_INSERT, VK_CLEAR, VK_PRIOR to VK_DOWN, VK_NUMPAD0 to VK_NUMPAD9.
unfoldable pub is_numpad : ℕ → Bool
is_numpad code =
    code == 45 || (code == 12 || (leb 33 code && leb code 40 || leb 96 code && leb code 105))

-- A key of the number pad, with the left alt key: a character is being composed.
unfoldable pub is_composing : Key → Bool
is_composing k = k.left_alt && (not k.enhanced && is_numpad k.key_code)

abbrev pub is_high : ℕ → Bool
is_high c = leb 55296 c && ltb c 56320

abbrev pub is_low : ℕ → Bool
is_low c = leb 56320 c && ltb c 57344

abbrev pub any_alt : Key → Bool
any_alt k = k.left_alt || k.right_alt

-- Bytes are copied to the buffer from a place on; where they go beyond its end, the list grows.
unfoldable pub copy_to : ℕ → List ℕ → List ℕ → List ℕ
copy_to i bytes buffer = take i buffer ++ (bytes ++ drop (i + length bytes) buffer)

-- The prefix, then the bytes; the lengths go through a char.
unfoldable pub put_key : Bool → List ℕ → InputContext → InputContext
put_key true bytes c = record c {
  last_key = copy_to 1 bytes (set c.last_key 0 27);
  last_key_len = (1 + length bytes) % 256;
  last_key_offset = 0;
}
put_key false bytes c = record c {
  last_key = copy_to 0 bytes c.last_key;
  last_key_len = length bytes % 256;
  last_key_offset = 0;
}

-- The loop's state: the records that are left, and the bytes for Lua.
pub record Reader : Type 0 where
  pub context : InputContext
  pub records : List InputRecord
  pub output : List ℕ

-- `to_utf8` is WideCharToMultiByte with CP_UTF8.
module _ (to_utf8 : List ℕ → List ℕ) where
  -- Character key pressed
  unfoldable pub on_character : Key → InputContext → InputContext
  on_character k c =
      if is_high k.unicode_char
      then record c { high_surrogate = k.unicode_char }
      else record (put_key (any_alt k && (not k.any_ctrl && k.is_down))
          (to_utf8 (
            if is_low k.unicode_char
            then c.high_surrogate ∷ k.unicode_char ∷ []
            else k.unicode_char ∷ []))
          c) { high_surrogate = 0 }

  -- Function key pressed
  unfoldable pub on_function_key : Key → InputContext → InputContext
  on_function_key k c = elim (get_vt100_fn_key k.key_code k.shift k.any_ctrl) [
    | none ↦ c
    | some vt100 ↦ put_key (any_alt k) vt100 c
  ]

  unfoldable pub on_key : Key → InputContext → InputContext
  on_key k c =
      if is_keyup k || is_composing k
      then c
      else if k.unicode_char == 0
      then on_function_key k c
      else on_character k c

  unfoldable pub on_record : InputRecord → InputContext → InputContext
  on_record (key_event k) c = on_key k (record c { last_repeat = k.repeat_count })
  on_record other_event c = c

  -- The condition of the loop.
  abbrev pub is_busy : Reader → Bool
  is_busy r = not (length r.records == 0) || ltb 0 r.context.last_key_len

  next_record : List InputRecord → Reader → Reader
  next_record [] r = r
  next_record (i ∷ rest) r = record r { context = on_record i r.context; records = rest }

  -- A byte of the key, or the end of one pass over it: `wRepeatCount` is a 16-bit number.
  copy_byte : InputContext → Reader → Reader
  copy_byte c r =
      if ltb c.last_key_offset c.last_key_len
      then record r {
        context = record c { last_key_offset = c.last_key_offset + 1 };
        output = r.output ++ get_or c.last_key c.last_key_offset 0 ∷ [];
      }
      else let count = (c.last_repeat + 2 ^ 16 - 1) % 2 ^ 16 in
        record r {
          context =
              if ltb 0 count
              then record c { last_repeat = count; last_key_offset = 0 }
              else record c { last_repeat = count; last_key_len = 0 };
        }

  -- The body of the loop.
  unfoldable pub loop_body : Reader → Reader
  unfolding next_record copy_byte
  loop_body r =
      if r.context.last_key_len == 0 then next_record r.records r else copy_byte r.context r

  -- The loop, on fuel.
  unfoldable pub read_loop : ℕ → Reader → Option Reader
  read_loop zero r = elim (is_busy r) [ true ↦ none | false ↦ some r ]
  read_loop (suc fuel) r = elim (is_busy r) [ true ↦ read_loop fuel (loop_body r) | false ↦ some r ]

-- The constructor. The contents of the buffer are left as they are.
unfoldable pub new_context : List ℕ → InputContext
new_context garbage = record {
  last_key = garbage;
  last_key_len = 0;
  last_key_offset = 0;
  high_surrogate = 0;
  last_repeat = 0;
}
