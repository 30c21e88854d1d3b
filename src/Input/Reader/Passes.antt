-- ===== src/Input/Reader/Passes.antt =====
-- The loop over one key: its bytes, once for each pass.
use lua_node.Base.{
  ℕ, zero, suc, ◌+◌, ◌-◌, ◌%◌, ◌^◌, ◌<◌, ◌≤◌, ◌≡◌, refl, sym, ap, subst, ◌∙◌, true, List, [], ◌∷◌,
  ◌++◌, append-nil, append_assoc, length, take, drop, get_or, arith,
}
use lua_node.Input.Reader.{InputRecord, Reader, is_busy, loop_body, copy_byte}

-- The loop goes on from a state to one with the property.
pub data Leads (to_utf8 : List ℕ → List ℕ) (P : Reader → Type 0) : Reader → Type 0 where
  arrived : (r : Reader) → P r → Leads to_utf8 P r
  next :
      (r : Reader)
      → is_busy to_utf8 r ≡ true
      → Leads to_utf8 P (loop_body to_utf8 r)
      → Leads to_utf8 P r

take-drop :
    (xs : List ℕ) (i k : ℕ)
    → i < length xs
    → take (suc k) (drop i xs) ≡ get_or xs i 0 ∷ take k (drop (suc i) xs)
take-drop [] i k h = absurd (omega (arith, h))
take-drop (x ∷ xs) zero k h = refl
take-drop (x ∷ xs) (suc i) k h = take-drop xs i k (omega (arith, h))

-- So many copies of a text.
abbrev pub repeated : ℕ → List ℕ → List ℕ
repeated zero text = []
repeated (suc n) text = text ++ repeated n text

module _ (to_utf8 : List ℕ → List ℕ) (P : Reader → Type 0) (rest : List InputRecord) (key : List ℕ)
    (len surrogate : ℕ) where
  abbrev pub at : ℕ → ℕ → List ℕ → Reader
  at offset count out = record {
    context = record {
      last_key = key;
      last_key_len = len;
      last_key_offset = offset;
      high_surrogate = surrogate;
      last_repeat = count;
    };
    records = rest;
    output = out;
  }

  abbrev pub finished : ℕ → List ℕ → Reader
  finished offset out = record {
    context = record {
      last_key = key;
      last_key_len = 0;
      last_key_offset = offset;
      high_surrogate = surrogate;
      last_repeat = 0;
    };
    records = rest;
    output = out;
  }

  busy_at :
      (offset count : ℕ) (out : List ℕ) → 0 < len → is_busy to_utf8 (at offset count out) ≡ true
  busy_at offset count out h = ground arith

  copy_one :
      (offset count : ℕ) (out : List ℕ)
      → offset < len
      → loop_body to_utf8 (at offset count out)
        ≡ at (suc offset) count (out ++ get_or key offset 0 ∷ [])
  unfolding loop_body copy_byte
  copy_one offset count out h = ground arith

  end_pass :
      (count m : ℕ) (out : List ℕ)
      → 0 < len
      → (count + 2 ^ 16 - 1) % 2 ^ 16 ≡ suc m
      → loop_body to_utf8 (at len count out) ≡ at 0 (suc m) out
  unfolding loop_body copy_byte
  end_pass count m out h e = ground arith

  end_key :
      (count : ℕ) (out : List ℕ)
      → 0 < len
      → (count + 2 ^ 16 - 1) % 2 ^ 16 ≡ 0
      → loop_body to_utf8 (at len count out) ≡ finished len out
  unfolding loop_body copy_byte
  end_key count out h e = ground arith

  step :
      (offset count : ℕ) (out : List ℕ) (r : Reader)
      → 0 < len
      → loop_body to_utf8 (at offset count out) ≡ r
      → Leads to_utf8 P r
      → Leads to_utf8 P (at offset count out)
  step offset count out r h e l =
      next (at offset count out) (busy_at offset count out h)
        (subst (λ q. Leads to_utf8 P q) (sym e) l)

  -- The bytes from a place of the key on.
  copies :
      (k offset count : ℕ) (out : List ℕ)
      → 0 < len
      → len ≤ length key
      → offset + k ≡ len
      → Leads to_utf8 P (at len count (out ++ take k (drop offset key)))
      → Leads to_utf8 P (at offset count out)
  copies zero offset count out h b e l =
      subst (λ o. Leads to_utf8 P (at o count out)) (omega (arith, e))
        (subst (λ bytes. Leads to_utf8 P (at len count bytes)) (append-nil out) l)
  copies (suc k) offset count out h b e l =
      step offset count out _ h (copy_one offset count out (omega (arith, e))) (
        copies k (suc offset) count (out ++ get_or key offset 0 ∷ []) h b (omega (arith, e))
          (subst (λ bytes. Leads to_utf8 P (at len count bytes)) regroup l))
    where
      regroup :
          out ++ take (suc k) (drop offset key)
          ≡ (out ++ get_or key offset 0 ∷ []) ++ take k (drop (suc offset) key)
      regroup =
          ap (λ bytes. out ++ bytes) (take-drop key offset k (omega (arith, e, b)))
          ∙ sym (append_assoc out (get_or key offset 0 ∷ []) (take k (drop (suc offset) key)))

  -- All passes: one more than the count left after the first.
  pub passes :
      (m count : ℕ) (out : List ℕ)
      → 0 < len
      → len ≤ length key
      → (count + 2 ^ 16 - 1) % 2 ^ 16 ≡ m
      → Leads to_utf8 P (finished len (out ++ repeated (suc m) (take len key)))
      → Leads to_utf8 P (at 0 count out)
  passes zero count out h b e l = copies len 0 count out h b (omega arith) (
      step len count _ _ h (end_key count _ h e) (
        subst (λ bytes. Leads to_utf8 P (finished len (out ++ bytes))) (append-nil (take len key))
          l))
  passes (suc m) count out h b e l = copies len 0 count out h b (omega arith) (
      step len count _ _ h (end_pass count m _ h e) (
        passes m (suc m) (out ++ take len key) h b (omega (arith, e)) (
          subst (λ bytes. Leads to_utf8 P (finished len bytes))
            (sym (append_assoc out (take len key) (repeated (suc m) (take len key)))) l)))
