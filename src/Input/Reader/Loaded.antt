-- ===== src/Input/Reader/Loaded.antt =====
-- What one record leaves in the buffer of the last key.
use lua_node.Base.{
  ℕ, ◌≤◌, ◌≡◌, refl, Bool, true, false, not, ◌&&◌, ◌||◌, Option, none, some, List, [], ◌∷◌, length,
  ◌⊎◌, inl, inr, arith, ◌==◌, if◌then◌else◌,
}
use lua_node.Input.Keys.{get_vt100_fn_key}
use lua_node.Input.Keys.Short.{text_length, get_vt100_fn_key-length}
use lua_node.Input.Reader.{
  Key, InputContext, is_keyup, is_composing, is_high, is_low, any_alt, put_key, on_character,
  on_function_key, on_key,
}
use lua_node.Input.Reader.Holds.{prefixed, Holds, put_key-Holds, put_key-keeps}

abbrev pub function_text : Key → List ℕ
function_text k = elim (get_vt100_fn_key k.key_code k.shift k.any_ctrl) [
  | none ↦ []
  | some text ↦ prefixed (any_alt k) text
]

module _ (to_utf8 : List ℕ → List ℕ) where
  -- The bytes of a key, after a record that left a high surrogate.
  abbrev pub character_text : ℕ → Key → List ℕ
  character_text surrogate k =
      if is_high k.unicode_char
      then []
      else prefixed (any_alt k && (not k.any_ctrl && k.is_down)) (
          to_utf8 (
            if is_low k.unicode_char then surrogate ∷ k.unicode_char ∷ [] else k.unicode_char ∷ []))

  abbrev pub text_of : ℕ → Key → List ℕ
  text_of surrogate k =
      if is_keyup k || is_composing k
      then []
      else if k.unicode_char == 0
      then function_text k
      else character_text surrogate k

-- The high surrogate that a key leaves.
abbrev pub surrogate_after : ℕ → Key → ℕ
surrogate_after surrogate k =
    if is_keyup k || is_composing k
    then surrogate
    else if k.unicode_char == 0
    then surrogate
    else if is_high k.unicode_char
    then k.unicode_char
    else 0

-- What is known of the buffer after a key.
pub record IsLoaded (text : List ℕ) (surrogate count : ℕ) (c : InputContext) : Type 0 where
  pub in_buffer : length c.last_key ≡ 8
  pub loaded : (c.last_key_len ≡ 0) × (text ≡ []) ⊎ Holds text c
  pub surrogate_left : c.high_surrogate ≡ surrogate
  pub count_left : c.last_repeat ≡ count

unchanged-IsLoaded :
    (c : InputContext)
    → length c.last_key ≡ 8
    → c.last_key_len ≡ 0
    → IsLoaded [] c.high_surrogate c.last_repeat c
unchanged-IsLoaded c l n = record {
  in_buffer = l;
  loaded = inl (n, refl);
  surrogate_left = refl;
  count_left = refl;
}

put_key-IsLoaded :
    (prefix : Bool) (bytes : List ℕ) (c : InputContext)
    → length c.last_key ≡ 8
    → length bytes ≤ 7
    → IsLoaded (prefixed prefix bytes) c.high_surrogate c.last_repeat (put_key prefix bytes c)
put_key-IsLoaded prefix bytes c l h = record {
  in_buffer = (put_key-Holds prefix bytes c l h).fits;
  loaded = inr (put_key-Holds prefix bytes c l h);
  surrogate_left = kept.0;
  count_left = kept.1;
}
  where
    kept :
        ((put_key prefix bytes c).high_surrogate ≡ c.high_surrogate)
        × ((put_key prefix bytes c).last_repeat ≡ c.last_repeat)
    kept = put_key-keeps prefix bytes c

module _ (to_utf8 : List ℕ → List ℕ)
    (utf8_length : (units : List ℕ) → length (to_utf8 units) ≤ 6) where
  function_key-IsLoaded :
      (k : Key) (c : InputContext)
      → length c.last_key ≡ 8
      → c.last_key_len ≡ 0
      → IsLoaded (function_text k) c.high_surrogate c.last_repeat (on_function_key to_utf8 k c)
  unfolding on_function_key
  function_key-IsLoaded k c l n =
      of_sequence (get_vt100_fn_key k.key_code k.shift k.any_ctrl)
        (get_vt100_fn_key-length k.key_code k.shift k.any_ctrl)
    where
      of_sequence :
          (o : Option (List ℕ))
          → text_length o ≤ 6
          → IsLoaded
              (elim o [ none ↦ [] | some text ↦ prefixed (any_alt k) text ])
              c.high_surrogate
              c.last_repeat
              (elim o [ none ↦ c | some text ↦ put_key (any_alt k) text c ])
      of_sequence none h = unchanged-IsLoaded c l n
      of_sequence (some text) h = put_key-IsLoaded (any_alt k) text c l (omega (arith, h))

  character-IsLoaded :
      (k : Key) (c : InputContext)
      → length c.last_key ≡ 8
      → c.last_key_len ≡ 0
      → IsLoaded
          (character_text to_utf8 c.high_surrogate k)
          (if is_high k.unicode_char then k.unicode_char else 0)
          c.last_repeat
          (on_character to_utf8 k c)
  unfolding on_character
  character-IsLoaded k c l n = of_high (is_high k.unicode_char)
    where
      prefix : Bool
      prefix = any_alt k && (not k.any_ctrl && k.is_down)

      units : List ℕ
      units =
          if is_low k.unicode_char
          then c.high_surrogate ∷ k.unicode_char ∷ []
          else k.unicode_char ∷ []

      of_high :
          (b : Bool)
          → IsLoaded
              (if b then [] else prefixed prefix (to_utf8 units))
              (if b then k.unicode_char else 0)
              c.last_repeat
              (if b
                then record c { high_surrogate = k.unicode_char }
                else record (put_key prefix (to_utf8 units) c) { high_surrogate = 0 })
      of_high true = record {
        in_buffer = l;
        loaded = inl (n, refl);
        surrogate_left = refl;
        count_left = refl;
      }
      of_high false =
          let p = put_key-Holds prefix (to_utf8 units) c l (omega (arith, utf8_length units)) in
          record {
            in_buffer = p.fits;
            loaded = inr (record {
              fits = p.fits;
              held = p.held;
              measured = p.measured;
              bounded = p.bounded;
              from_start = p.from_start;
            });
            surrogate_left = refl;
            count_left = (put_key-keeps prefix (to_utf8 units) c).1;
          }

  -- After any key the buffer of 8 bytes holds the text of the key, or nothing if there is none.
  pub on_key-IsLoaded :
      (k : Key) (c : InputContext)
      → length c.last_key ≡ 8
      → c.last_key_len ≡ 0
      → IsLoaded
          (text_of to_utf8 c.high_surrogate k)
          (surrogate_after c.high_surrogate k)
          c.last_repeat
          (on_key to_utf8 k c)
  unfolding on_key
  on_key-IsLoaded k c l n = of_tests (is_keyup k || is_composing k) (k.unicode_char == 0)
    where
      of_tests :
          (b z : Bool)
          → IsLoaded
              (if b
                then []
                else if z
                then function_text k
                else character_text to_utf8 c.high_surrogate k)
              (if b
                then c.high_surrogate
                else if z
                then c.high_surrogate
                else if is_high k.unicode_char
                then k.unicode_char
                else 0)
              c.last_repeat
              (if b then c else if z then on_function_key to_utf8 k c else on_character to_utf8 k c)
      of_tests true z = unchanged-IsLoaded c l n
      of_tests false true = function_key-IsLoaded k c l n
      of_tests false false = character-IsLoaded k c l n
