-- ===== src/Input/Keys/Short.antt =====
-- The sequences fit into the buffer of the last key.
use lua_node.Base.{
  ℕ, ◌≤◌, ◌≡◌, refl, Bool, true, false, ◌&&◌, Option, none, some, List, [], ◌∷◌, leb, ◌==◌, length,
  arith, if_cases,
}
use lua_node.Input.Keys.{FnKey, fn_keys, text_with, find_key, get_vt100_fn_key}

is_short : FnKey → Bool
is_short k =
    leb (length k.normal_text) 5
    && (leb (length k.shift_text) 5
        && (leb (length k.ctrl_text) 5 && leb (length k.shift_ctrl_text) 5))

all_short : List FnKey → Bool
unfolding is_short
all_short [] = true
all_short (k ∷ ks) = is_short k && all_short ks

fn_keys_short : all_short fn_keys ≡ true
unfolding all_short
fn_keys_short = refl

both : (a b : Bool) → (a && b) ≡ true → (a ≡ true) × (b ≡ true)
both true b e = (refl, e)
both false b e = absurd (ground arith)

IsShortKey : Option FnKey → Type 0
IsShortKey none = Unit
IsShortKey (some k) = is_short k ≡ true

find_key-IsShortKey :
    (code : ℕ) (ks : List FnKey) → all_short ks ≡ true → IsShortKey (find_key code ks)
unfolding find_key all_short IsShortKey
find_key-IsShortKey code [] a = tt
find_key-IsShortKey code (k ∷ ks) a =
    let (h, t) = both (is_short k) (all_short ks) a in
    if_cases IsShortKey (k.key_code == code) _ _ (λ e. h) (λ e. find_key-IsShortKey code ks t)

text_with-length :
    (shift ctrl : Bool) (k : FnKey) → is_short k ≡ true → length (text_with shift ctrl k) ≤ 5
unfolding is_short
text_with-length true true k h = ground arith
text_with-length true false k h = ground arith
text_with-length false true k h = ground arith
text_with-length false false k h = ground arith

-- The length of a sequence, or 0.
abbrev pub text_length : Option (List ℕ) → ℕ
text_length none = 0
text_length (some text) = length text

-- The escape character and at most five more.
pub get_vt100_fn_key-length :
    (code : ℕ) (shift ctrl : Bool) → text_length (get_vt100_fn_key code shift ctrl) ≤ 6
unfolding get_vt100_fn_key IsShortKey
get_vt100_fn_key-length code shift ctrl =
    of_key (find_key code fn_keys) (find_key-IsShortKey code fn_keys fn_keys_short)
  where
    of_key :
        (o : Option FnKey)
        → IsShortKey o
        → text_length (elim o [ none ↦ none | some k ↦ some (27 ∷ text_with shift ctrl k) ]) ≤ 6
    of_key none h = omega arith
    of_key (some k) h = omega (arith, text_with-length shift ctrl k h)
