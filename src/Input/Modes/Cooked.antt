-- ===== src/Input/Modes/Cooked.antt =====
-- What the calls of `SetRawMode` make of the console's mode.
use lua_node.Base.{◌≡◌, refl, ap, ◌∙◌, Bool, true, false, List, [], ◌∷◌, ◌||◌, ◌&&◌, if◌then◌else◌}
use lua_node.Input.Modes.{
  InputMode, ConsoleInput, new_console_input, wanted_mode, set_mode, set_raw_mode, set_raw_modes,
  destroy,
}

-- The mode as it was found, and the two that the stream sets.
data Phase : Type 0 where
  found raw cooked : Phase

-- A change that the console refuses is none.
abbrev phase_after : Bool × Bool → Phase → Phase
phase_after (wanted, false) p = p
phase_after (true, true) p = raw
phase_after (false, true) found = found
phase_after (false, true) raw = cooked
phase_after (false, true) cooked = cooked

abbrev phase_at_end : List (Bool × Bool) → Phase → Phase
phase_at_end [] p = p
phase_at_end (call ∷ rest) p = phase_at_end rest (phase_after call p)

-- Whether one of the calls asks for the raw mode and the console grants it.
abbrev pub goes_raw : List (Bool × Bool) → Bool
goes_raw [] = false
goes_raw ((wanted, sets) ∷ rest) = wanted && sets || goes_raw rest

module _ (mode original : InputMode) where
  abbrev state_of : Phase → ConsoleInput
  state_of found = record { mode = mode; original = original; is_raw = false }
  state_of raw = record { mode = wanted_mode true original; original = original; is_raw = true }
  state_of cooked = record {
    mode = wanted_mode false original;
    original = original;
    is_raw = false;
  }

  set_raw_mode-phase :
      (wanted sets : Bool) (p : Phase)
      → (set_raw_mode wanted sets (state_of p)).0 ≡ state_of (phase_after (wanted, sets) p)
  unfolding set_raw_mode set_mode
  set_raw_mode-phase true true found = refl
  set_raw_mode-phase true true raw = refl
  set_raw_mode-phase true true cooked = refl
  set_raw_mode-phase true false found = refl
  set_raw_mode-phase true false raw = refl
  set_raw_mode-phase true false cooked = refl
  set_raw_mode-phase false true found = refl
  set_raw_mode-phase false true raw = refl
  set_raw_mode-phase false true cooked = refl
  set_raw_mode-phase false false found = refl
  set_raw_mode-phase false false raw = refl
  set_raw_mode-phase false false cooked = refl

  set_raw_modes-phase :
      (calls : List (Bool × Bool)) (p : Phase)
      → set_raw_modes calls (state_of p) ≡ state_of (phase_at_end calls p)
  unfolding set_raw_modes
  set_raw_modes-phase [] p = refl
  set_raw_modes-phase ((wanted, sets) ∷ rest) p =
      ap (set_raw_modes rest) (set_raw_mode-phase wanted sets p)
      ∙ set_raw_modes-phase rest (phase_after (wanted, sets) p)

  abbrev is_found : Phase → Bool
  is_found found = true
  is_found _ = false

  -- The mode that the destructor leaves is the one that was found, or the cooked one.
  destroy-phase :
      (p : Phase)
      → (destroy true (state_of p)).mode ≡ (if is_found p then mode else wanted_mode false original)
  unfolding destroy set_mode
  destroy-phase found = refl
  destroy-phase raw = refl
  destroy-phase cooked = refl

  touched :
      (calls : List (Bool × Bool)) (p : Phase)
      → is_found p ≡ false
      → is_found (phase_at_end calls p) ≡ false
  touched [] p h = h
  touched ((wanted, false) ∷ rest) p h = touched rest p h
  touched ((true, true) ∷ rest) p h = touched rest raw refl
  touched ((false, true) ∷ rest) found h = touched rest found h
  touched ((false, true) ∷ rest) raw h = touched rest cooked refl
  touched ((false, true) ∷ rest) cooked h = touched rest cooked refl

  chosen :
      (calls : List (Bool × Bool))
      → (if is_found (phase_at_end calls found) then mode else wanted_mode false original)
        ≡ (if goes_raw calls then wanted_mode false original else mode)
  chosen [] = refl
  chosen ((true, true) ∷ rest) = rw (touched rest raw refl) refl
  chosen ((true, false) ∷ rest) = chosen rest
  chosen ((false, true) ∷ rest) = chosen rest
  chosen ((false, false) ∷ rest) = chosen rest

-- Any calls of `SetRawMode` on a stream whose constructor could read the mode of the console, and then its
-- destructor, whose own change the console does not refuse: the console has the mode that was found, if the
-- raw mode was never set; else that of lines with echo, with the quick edit flag as it was found, and with
-- none of the other flags that were found.
pub destroy-set_raw_modes :
    (mode garbage : InputMode) (calls : List (Bool × Bool))
    → (destroy true (set_raw_modes calls (new_console_input true mode garbage))).mode
      ≡ (if goes_raw calls then wanted_mode false mode else mode)
unfolding new_console_input
destroy-set_raw_modes mode garbage calls =
    ap (λ s. (destroy true s).mode) (set_raw_modes-phase mode mode calls found)
    ∙ destroy-phase mode mode (phase_at_end calls found)
    ∙ chosen mode mode calls
