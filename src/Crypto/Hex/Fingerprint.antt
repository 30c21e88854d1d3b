-- ===== src/Crypto/Hex/Fingerprint.antt =====
-- The fingerprint, against its description.
use lua_node.Base.{
  ℕ, suc, ◌+◌, ◌-◌, ◌*◌, ◌/◌, ◌%◌, ◌<◌, ◌≡◌, refl, ap, ◌∙◌, List, [], ◌∷◌, ltb, true, length, All,
  arith, set,
}
use lua_node.Crypto.Hex.{IsByte, upper_digit, fingerprint_digits, c_string, fingerprint}

-- Two digits for each byte, with a colon between two bytes.
unfoldable pub joined : List ℕ → List ℕ
joined [] = []
joined (c ∷ []) = upper_digit (c / 16) ∷ upper_digit (c % 16) ∷ []
joined (c ∷ d ∷ cs) = upper_digit (c / 16) ∷ upper_digit (c % 16) ∷ 58 ∷ joined (d ∷ cs)

upper_digit-positive : (n : ℕ) → n < 16 → 0 < upper_digit n
upper_digit-positive n h = ground arith

pub c_string-keeps : (c : ℕ) (cs : List ℕ) → 0 < c → c_string (c ∷ cs) ≡ c ∷ c_string cs
unfolding c_string
c_string-keeps c cs h = ground arith

digits-positive : (c : ℕ) → IsByte c → (0 < upper_digit (c / 16)) × (0 < upper_digit (c % 16))
digits-positive c h =
    (upper_digit-positive (c / 16) (omega arith), upper_digit-positive (c % 16) (omega arith))

next_index : (n : ℕ) → 3 * suc n + 2 ≡ suc (suc (suc (3 * n + 2)))
next_index n = omega arith

-- The digits of the first byte, and what follows.
c_string-digits :
    (c : ℕ) (cs : List ℕ)
    → IsByte c
    → c_string (upper_digit (c / 16) ∷ upper_digit (c % 16) ∷ cs)
      ≡ upper_digit (c / 16) ∷ upper_digit (c % 16) ∷ c_string cs
c_string-digits c cs h =
    let (p, q) = digits-positive c h in
    c_string-keeps _ _ p ∙ ap (λ ds. upper_digit (c / 16) ∷ ds) (c_string-keeps _ cs q)

c_string-end : c_string (0 ∷ []) ≡ []
unfolding c_string
c_string-end = refl

cut-joined :
    (c : ℕ) (cs : List ℕ)
    → IsByte c
    → All IsByte cs
    → c_string (set (fingerprint_digits (c ∷ cs)) (3 * length cs + 2) 0) ≡ joined (c ∷ cs)
unfolding fingerprint_digits joined
cut-joined c [] h hs =
    c_string-digits c (0 ∷ []) h
    ∙ ap (λ ds. upper_digit (c / 16) ∷ upper_digit (c % 16) ∷ ds) c_string-end
cut-joined c (d ∷ cs) h hs =
    rw
      (
        next_index (length cs),
        c_string-digits c (58 ∷ set (fingerprint_digits (d ∷ cs)) (3 * length cs + 2) 0) h,
        c_string-keeps 58 (set (fingerprint_digits (d ∷ cs)) (3 * length cs + 2) 0) (omega arith),
        cut-joined d cs hs.0 hs.1,
      )
      refl

ltb-zero-suc : (n : ℕ) → ltb 0 (suc n) ≡ true
ltb-zero-suc n = ground arith

suc_minus_one : (n : ℕ) → suc n - 1 ≡ n
suc_minus_one n = omega arith

-- The fingerprint of any bytes is two digits for each byte, with a colon between two bytes and none after the
-- last.
pub fingerprint-joined : (md : List ℕ) → All IsByte md → fingerprint md ≡ joined md
unfolding fingerprint c_string joined
fingerprint-joined [] h = refl
fingerprint-joined (c ∷ cs) h =
    rw (ltb-zero-suc (length cs), suc_minus_one (length cs)) (cut-joined c cs h.0 h.1)
