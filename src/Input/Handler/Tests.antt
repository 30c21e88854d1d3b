-- ===== src/Input/Handler/Tests.antt =====
-- The handler and the modes of the console on concrete inputs.
use lua_node.Base.{
  ℕ, ◌+◌, ◌≤◌, ◌≡◌, refl, Bool, true, false, some, List, [], ◌∷◌, length, arith, if◌then◌else◌,
}
use lua_node.Lua.{self, string}
use lua_node.Input.Reader.{
  InputRecord, key_event, other_event, InputContext, is_keyup, is_composing, is_numpad,
}
use lua_node.Input.Handler.{handle_batches}
use lua_node.Input.Handler.Batches.{told, handle_batches-typed}
use lua_node.Input.Modes.{InputMode, new_console_input, wanted_mode, set_raw_modes, destroy}
use lua_node.Input.Modes.Cooked.{goes_raw, destroy-set_raw_modes}

-- A conversion that keeps the first unit.
abbrev first_unit : List ℕ → List ℕ
first_unit [] = []
first_unit (unit ∷ units) = unit ∷ []

first_unit-length : (units : List ℕ) → length (first_unit units) ≤ 6
first_unit-length [] = omega arith
first_unit-length (unit ∷ units) = omega arith

abbrev typing : ℕ → InputRecord
typing unit = key_event (record {
  is_down = true;
  repeat_count = 1;
  key_code = 65;
  unicode_char = unit;
  left_alt = false;
  right_alt = false;
  any_ctrl = false;
  shift = false;
  enhanced = false;
})

abbrev at_rest : InputContext
at_rest = record {
  last_key = 0 ∷ 0 ∷ 0 ∷ 0 ∷ 0 ∷ 0 ∷ 0 ∷ 0 ∷ [];
  last_key_len = 0;
  last_key_offset = 0;
  high_surrogate = 0;
  last_repeat = 0;
}

-- U+1F600 and a letter; the same with the surrogates in two batches.
abbrev together : List (List InputRecord)
together = (typing 55357 ∷ typing 56832 ∷ typing 97 ∷ []) ∷ (other_event ∷ []) ∷ []

abbrev apart : List (List InputRecord)
apart = (typing 55357 ∷ []) ∷ (typing 56832 ∷ typing 97 ∷ []) ∷ []

handle_batches-typed_example :
    (fuel : ℕ) × ((more : ℕ)
      → handle_batches first_unit 512 true (fuel + more) at_rest together
        ≡ some (told first_unit 512 0 together))
unfolding is_keyup is_composing is_numpad
handle_batches-typed_example =
    handle_batches-typed first_unit 512 first_unit-length at_rest refl refl together
      (omega arith, (omega arith, tt))

both_units : told first_unit 512 0 together ≡ (self ∷ string (55357 ∷ 97 ∷ []) ∷ []) ∷ []
unfolding is_keyup is_composing is_numpad
both_units = refl

-- The high surrogate of the first batch is lost.
lost_unit : told first_unit 512 0 apart ≡ (self ∷ string (0 ∷ 97 ∷ []) ∷ []) ∷ []
unfolding is_keyup is_composing is_numpad
lost_unit = refl

abbrev mouse : InputMode
mouse = record {
  processed_input = true;
  line_input = true;
  echo_input = true;
  window_input = false;
  insert_mode = true;
  quick_edit_mode = true;
  extended_flags = true;
  others = 16;
}

abbrev calls : List (Bool × Bool)
calls = (true, false) ∷ (true, true) ∷ (true, true) ∷ (false, false) ∷ []

destroy-set_raw_modes_example :
    (destroy true (set_raw_modes calls (new_console_input true mouse mouse))).mode
    ≡ (if goes_raw calls then wanted_mode false mouse else mouse)
destroy-set_raw_modes_example = destroy-set_raw_modes mouse mouse calls

-- The flag for the mouse is gone.
mouse_lost : wanted_mode false mouse ≡ record mouse { others = 0 }
unfolding wanted_mode
mouse_lost = refl
