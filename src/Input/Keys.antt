-- ===== src/Input/Keys.antt =====
-- `get_vt100_fn_key` (src/detail/windows/input_tty.cpp): the sequences of the function keys. The codes are
-- those of the virtual keys of Windows.
pub mod Short
use lua_node.Base.{ℕ, Bool, true, false, Option, none, some, List, [], ◌∷◌, ◌==◌, if◌then◌else◌}

-- A row of `VK_CASE`: the key, and what follows the escape character of its sequence when it is pressed alone,
-- with shift, with control, and with both.
pub record FnKey : Type 0 where
  pub key_code : ℕ
  pub normal_text : List ℕ
  pub shift_text : List ℕ
  pub ctrl_text : List ℕ
  pub shift_ctrl_text : List ℕ

abbrev row : ℕ → List ℕ → List ℕ → List ℕ → List ℕ → FnKey
row code n s c sc = record {
  key_code = code;
  normal_text = n;
  shift_text = s;
  ctrl_text = c;
  shift_ctrl_text = sc;
}

abbrev pub fn_keys : List FnKey
fn_keys =
    row 45 (91 ∷ 50 ∷ 126 ∷ []) (91 ∷ 50 ∷ 59 ∷ 50 ∷ 126 ∷ []) (91 ∷ 50 ∷ 59 ∷ 53 ∷ 126 ∷ [])
      (91 ∷ 50 ∷ 59 ∷ 54 ∷ 126 ∷ [])
    ∷ row 35 (91 ∷ 52 ∷ 126 ∷ []) (91 ∷ 52 ∷ 59 ∷ 50 ∷ 126 ∷ []) (91 ∷ 52 ∷ 59 ∷ 53 ∷ 126 ∷ [])
        (91 ∷ 52 ∷ 59 ∷ 54 ∷ 126 ∷ [])
    ∷ row 40 (91 ∷ 66 ∷ []) (91 ∷ 49 ∷ 59 ∷ 50 ∷ 66 ∷ []) (91 ∷ 49 ∷ 59 ∷ 53 ∷ 66 ∷ [])
        (91 ∷ 49 ∷ 59 ∷ 54 ∷ 66 ∷ [])
    ∷ row 34 (91 ∷ 54 ∷ 126 ∷ []) (91 ∷ 54 ∷ 59 ∷ 50 ∷ 126 ∷ []) (91 ∷ 54 ∷ 59 ∷ 53 ∷ 126 ∷ [])
        (91 ∷ 54 ∷ 59 ∷ 54 ∷ 126 ∷ [])
    ∷ row 37 (91 ∷ 68 ∷ []) (91 ∷ 49 ∷ 59 ∷ 50 ∷ 68 ∷ []) (91 ∷ 49 ∷ 59 ∷ 53 ∷ 68 ∷ [])
        (91 ∷ 49 ∷ 59 ∷ 54 ∷ 68 ∷ [])
    ∷ row 12 (91 ∷ 71 ∷ []) (91 ∷ 49 ∷ 59 ∷ 50 ∷ 71 ∷ []) (91 ∷ 49 ∷ 59 ∷ 53 ∷ 71 ∷ [])
        (91 ∷ 49 ∷ 59 ∷ 54 ∷ 71 ∷ [])
    ∷ row 39 (91 ∷ 67 ∷ []) (91 ∷ 49 ∷ 59 ∷ 50 ∷ 67 ∷ []) (91 ∷ 49 ∷ 59 ∷ 53 ∷ 67 ∷ [])
        (91 ∷ 49 ∷ 59 ∷ 54 ∷ 67 ∷ [])
    ∷ row 38 (91 ∷ 65 ∷ []) (91 ∷ 49 ∷ 59 ∷ 50 ∷ 65 ∷ []) (91 ∷ 49 ∷ 59 ∷ 53 ∷ 65 ∷ [])
        (91 ∷ 49 ∷ 59 ∷ 54 ∷ 65 ∷ [])
    ∷ row 36 (91 ∷ 49 ∷ 126 ∷ []) (91 ∷ 49 ∷ 59 ∷ 50 ∷ 126 ∷ []) (91 ∷ 49 ∷ 59 ∷ 53 ∷ 126 ∷ [])
        (91 ∷ 49 ∷ 59 ∷ 54 ∷ 126 ∷ [])
    ∷ row 33 (91 ∷ 53 ∷ 126 ∷ []) (91 ∷ 53 ∷ 59 ∷ 50 ∷ 126 ∷ []) (91 ∷ 53 ∷ 59 ∷ 53 ∷ 126 ∷ [])
        (91 ∷ 53 ∷ 59 ∷ 54 ∷ 126 ∷ [])
    ∷ row 46 (91 ∷ 51 ∷ 126 ∷ []) (91 ∷ 51 ∷ 59 ∷ 50 ∷ 126 ∷ []) (91 ∷ 51 ∷ 59 ∷ 53 ∷ 126 ∷ [])
        (91 ∷ 51 ∷ 59 ∷ 54 ∷ 126 ∷ [])
    ∷ row 96 (91 ∷ 50 ∷ 126 ∷ []) (91 ∷ 50 ∷ 59 ∷ 50 ∷ 126 ∷ []) (91 ∷ 50 ∷ 59 ∷ 53 ∷ 126 ∷ [])
        (91 ∷ 50 ∷ 59 ∷ 54 ∷ 126 ∷ [])
    ∷ row 97 (91 ∷ 52 ∷ 126 ∷ []) (91 ∷ 52 ∷ 59 ∷ 50 ∷ 126 ∷ []) (91 ∷ 52 ∷ 59 ∷ 53 ∷ 126 ∷ [])
        (91 ∷ 52 ∷ 59 ∷ 54 ∷ 126 ∷ [])
    ∷ row 98 (91 ∷ 66 ∷ []) (91 ∷ 49 ∷ 59 ∷ 50 ∷ 66 ∷ []) (91 ∷ 49 ∷ 59 ∷ 53 ∷ 66 ∷ [])
        (91 ∷ 49 ∷ 59 ∷ 54 ∷ 66 ∷ [])
    ∷ row 99 (91 ∷ 54 ∷ 126 ∷ []) (91 ∷ 54 ∷ 59 ∷ 50 ∷ 126 ∷ []) (91 ∷ 54 ∷ 59 ∷ 53 ∷ 126 ∷ [])
        (91 ∷ 54 ∷ 59 ∷ 54 ∷ 126 ∷ [])
    ∷ row 100 (91 ∷ 68 ∷ []) (91 ∷ 49 ∷ 59 ∷ 50 ∷ 68 ∷ []) (91 ∷ 49 ∷ 59 ∷ 53 ∷ 68 ∷ [])
        (91 ∷ 49 ∷ 59 ∷ 54 ∷ 68 ∷ [])
    ∷ row 101 (91 ∷ 71 ∷ []) (91 ∷ 49 ∷ 59 ∷ 50 ∷ 71 ∷ []) (91 ∷ 49 ∷ 59 ∷ 53 ∷ 71 ∷ [])
        (91 ∷ 49 ∷ 59 ∷ 54 ∷ 71 ∷ [])
    ∷ row 102 (91 ∷ 67 ∷ []) (91 ∷ 49 ∷ 59 ∷ 50 ∷ 67 ∷ []) (91 ∷ 49 ∷ 59 ∷ 53 ∷ 67 ∷ [])
        (91 ∷ 49 ∷ 59 ∷ 54 ∷ 67 ∷ [])
    ∷ row 103 (91 ∷ 65 ∷ []) (91 ∷ 49 ∷ 59 ∷ 50 ∷ 65 ∷ []) (91 ∷ 49 ∷ 59 ∷ 53 ∷ 65 ∷ [])
        (91 ∷ 49 ∷ 59 ∷ 54 ∷ 65 ∷ [])
    ∷ row 104 (91 ∷ 49 ∷ 126 ∷ []) (91 ∷ 49 ∷ 59 ∷ 50 ∷ 126 ∷ []) (91 ∷ 49 ∷ 59 ∷ 53 ∷ 126 ∷ [])
        (91 ∷ 49 ∷ 59 ∷ 54 ∷ 126 ∷ [])
    ∷ row 105 (91 ∷ 53 ∷ 126 ∷ []) (91 ∷ 53 ∷ 59 ∷ 50 ∷ 126 ∷ []) (91 ∷ 53 ∷ 59 ∷ 53 ∷ 126 ∷ [])
        (91 ∷ 53 ∷ 59 ∷ 54 ∷ 126 ∷ [])
    ∷ row 110 (91 ∷ 51 ∷ 126 ∷ []) (91 ∷ 51 ∷ 59 ∷ 50 ∷ 126 ∷ []) (91 ∷ 51 ∷ 59 ∷ 53 ∷ 126 ∷ [])
        (91 ∷ 51 ∷ 59 ∷ 54 ∷ 126 ∷ [])
    ∷ row 112 (91 ∷ 91 ∷ 65 ∷ []) (91 ∷ 50 ∷ 51 ∷ 126 ∷ []) (91 ∷ 49 ∷ 49 ∷ 94 ∷ [])
        (91 ∷ 50 ∷ 51 ∷ 94 ∷ [])
    ∷ row 113 (91 ∷ 91 ∷ 66 ∷ []) (91 ∷ 50 ∷ 52 ∷ 126 ∷ []) (91 ∷ 49 ∷ 50 ∷ 94 ∷ [])
        (91 ∷ 50 ∷ 52 ∷ 94 ∷ [])
    ∷ row 114 (91 ∷ 91 ∷ 67 ∷ []) (91 ∷ 50 ∷ 53 ∷ 126 ∷ []) (91 ∷ 49 ∷ 51 ∷ 94 ∷ [])
        (91 ∷ 50 ∷ 53 ∷ 94 ∷ [])
    ∷ row 115 (91 ∷ 91 ∷ 68 ∷ []) (91 ∷ 50 ∷ 54 ∷ 126 ∷ []) (91 ∷ 49 ∷ 52 ∷ 94 ∷ [])
        (91 ∷ 50 ∷ 54 ∷ 94 ∷ [])
    ∷ row 116 (91 ∷ 91 ∷ 69 ∷ []) (91 ∷ 50 ∷ 56 ∷ 126 ∷ []) (91 ∷ 49 ∷ 53 ∷ 94 ∷ [])
        (91 ∷ 50 ∷ 56 ∷ 94 ∷ [])
    ∷ row 117 (91 ∷ 49 ∷ 55 ∷ 126 ∷ []) (91 ∷ 50 ∷ 57 ∷ 126 ∷ []) (91 ∷ 49 ∷ 55 ∷ 94 ∷ [])
        (91 ∷ 50 ∷ 57 ∷ 94 ∷ [])
    ∷ row 118 (91 ∷ 49 ∷ 56 ∷ 126 ∷ []) (91 ∷ 51 ∷ 49 ∷ 126 ∷ []) (91 ∷ 49 ∷ 56 ∷ 94 ∷ [])
        (91 ∷ 51 ∷ 49 ∷ 94 ∷ [])
    ∷ row 119 (91 ∷ 49 ∷ 57 ∷ 126 ∷ []) (91 ∷ 51 ∷ 50 ∷ 126 ∷ []) (91 ∷ 49 ∷ 57 ∷ 94 ∷ [])
        (91 ∷ 51 ∷ 50 ∷ 94 ∷ [])
    ∷ row 120 (91 ∷ 50 ∷ 48 ∷ 126 ∷ []) (91 ∷ 51 ∷ 51 ∷ 126 ∷ []) (91 ∷ 50 ∷ 48 ∷ 94 ∷ [])
        (91 ∷ 51 ∷ 51 ∷ 94 ∷ [])
    ∷ row 121 (91 ∷ 50 ∷ 49 ∷ 126 ∷ []) (91 ∷ 51 ∷ 52 ∷ 126 ∷ []) (91 ∷ 50 ∷ 49 ∷ 94 ∷ [])
        (91 ∷ 51 ∷ 52 ∷ 94 ∷ [])
    ∷ row 122 (91 ∷ 50 ∷ 51 ∷ 126 ∷ []) (91 ∷ 50 ∷ 51 ∷ 36 ∷ []) (91 ∷ 50 ∷ 51 ∷ 94 ∷ [])
        (91 ∷ 50 ∷ 51 ∷ 64 ∷ [])
    ∷ row 123 (91 ∷ 50 ∷ 52 ∷ 126 ∷ []) (91 ∷ 50 ∷ 52 ∷ 36 ∷ []) (91 ∷ 50 ∷ 52 ∷ 94 ∷ [])
        (91 ∷ 50 ∷ 52 ∷ 64 ∷ [])
    ∷ []

abbrev pub text_with : Bool → Bool → FnKey → List ℕ
text_with true true k = k.shift_ctrl_text
text_with true false k = k.shift_text
text_with false true k = k.ctrl_text
text_with false false k = k.normal_text

-- The `switch`, over the rows.
unfoldable pub find_key : ℕ → List FnKey → Option FnKey
find_key code [] = none
find_key code (k ∷ ks) = let rest = find_key code ks in if k.key_code == code then some k else rest

-- get_vt100_fn_key: the escape character, and the text that goes with shift and control.
unfoldable pub get_vt100_fn_key : ℕ → Bool → Bool → Option (List ℕ)
get_vt100_fn_key code shift ctrl = elim (find_key code fn_keys) [
  | none ↦ none
  | some k ↦ some (27 ∷ text_with shift ctrl k)
]
