-- ===== src/Input/Reader/Holds.antt =====
-- The buffer of the last key, and the text that it holds.
use lua_node.Base.{
  ℕ, suc, ◌+◌, ◌%◌, ◌≤◌, ◌≡◌, refl, ap, ◌∙◌, Bool, true, false, List, [], ◌∷◌, length, take, drop,
  set, take-append, length-drop, length-append, arith,
}
use lua_node.Input.Reader.{InputContext, copy_to, put_key}

-- The key's bytes, after an escape character if there is a prefix.
abbrev pub prefixed : Bool → List ℕ → List ℕ
prefixed true text = 27 ∷ text
prefixed false text = text

-- The buffer holds a text of at most 8 bytes, to be read from its start.
pub record Holds (text : List ℕ) (c : InputContext) : Type 0 where
  pub fits : length c.last_key ≡ 8
  pub held : take c.last_key_len c.last_key ≡ text
  pub measured : c.last_key_len ≡ length text
  pub bounded : length text ≤ 8
  pub from_start : c.last_key_offset ≡ 0

copied :
    (bytes key : List ℕ)
    → length bytes ≤ length key
    → (length (copy_to 0 bytes key) ≡ length key)
      × (take (length bytes) (copy_to 0 bytes key) ≡ bytes)
unfolding copy_to
copied bytes key h = (
  length-append bytes (drop (0 + length bytes) key)
      ∙ omega (arith, length-drop (0 + length bytes) key (omega (arith, h))),
  take-append bytes (drop (0 + length bytes) key),
)

one_plus : (n : ℕ) → 1 + n ≡ suc n
one_plus n = omega arith

copied_after :
    (bytes key : List ℕ) (b : ℕ)
    → length bytes + 1 ≤ length key
    → (length (copy_to 1 bytes (set key 0 b)) ≡ length key)
      × (take (1 + length bytes) (copy_to 1 bytes (set key 0 b)) ≡ b ∷ bytes)
unfolding copy_to
copied_after bytes [] b h = absurd (omega (arith, h))
copied_after bytes (k ∷ key) b h = rw (one_plus (length bytes)) (
  ap suc (
      length-append bytes (drop (length bytes) key)
      ∙ omega (arith, length-drop (length bytes) key (omega (arith, h)))),
  ap (λ zs. b ∷ zs) (take-append bytes (drop (length bytes) key)),
)

small : (n : ℕ) → n ≤ 8 → n % 256 ≡ n
small n h = omega (arith, h)

pub put_key-Holds :
    (prefix : Bool) (bytes : List ℕ) (c : InputContext)
    → length c.last_key ≡ 8
    → length bytes ≤ 7
    → Holds (prefixed prefix bytes) (put_key prefix bytes c)
unfolding put_key
put_key-Holds true bytes c l h =
    let (m, t) = copied_after bytes c.last_key 27 (omega (arith, l, h)) in
    record {
      fits = m ∙ l;
      held = rw (small (1 + length bytes) (omega (arith, h))) t;
      measured = small (1 + length bytes) (omega (arith, h)) ∙ one_plus (length bytes);
      bounded = omega (arith, h);
      from_start = refl;
    }
put_key-Holds false bytes c l h =
    let (m, t) = copied bytes c.last_key (omega (arith, l, h)) in
    record {
      fits = m ∙ l;
      held = rw (small (length bytes) (omega (arith, h))) t;
      measured = small (length bytes) (omega (arith, h));
      bounded = omega (arith, h);
      from_start = refl;
    }

pub put_key-keeps :
    (prefix : Bool) (bytes : List ℕ) (c : InputContext)
    → ((put_key prefix bytes c).high_surrogate ≡ c.high_surrogate)
      × ((put_key prefix bytes c).last_repeat ≡ c.last_repeat)
unfolding put_key
put_key-keeps true bytes c = (refl, refl)
put_key-keeps false bytes c = (refl, refl)
