-- ===== src/Input/Reader/Typed.antt =====
-- The loop over the records, against what was typed.
use lua_node.Base.{
  ℕ, zero, suc, ◌+◌, ◌-◌, ◌%◌, ◌^◌, ◌<◌, ◌≤◌, ◌≡◌, refl, sym, ap, subst, ◌∙◌, true, false, some,
  List, [], ◌∷◌, ◌++◌, append-nil, append_assoc, length, arith, inl, inr,
}
use lua_node.Input.Reader.{
  InputRecord, key_event, other_event, InputContext, Reader, is_busy, loop_body, next_record,
  on_record, on_key, read_loop,
}
use lua_node.Input.Reader.Passes.{Leads, arrived, next, repeated, passes, at, finished}
use lua_node.Input.Reader.Loaded.{text_of, surrogate_after, IsLoaded, on_key-IsLoaded}
use lua_node.Input.Reader.Holds.{Holds}

-- `wRepeatCount` is decremented before it is tested: 0 stands for 65536.
abbrev pub times : ℕ → ℕ
times count = suc ((count + 2 ^ 16 - 1) % 2 ^ 16)

module _ (to_utf8 : List ℕ → List ℕ) where
  -- What was typed: the bytes of each key, as often as its record says.
  abbrev pub typed : ℕ → List InputRecord → List ℕ
  typed surrogate [] = []
  typed surrogate (other_event ∷ rest) = typed surrogate rest
  typed surrogate (key_event k ∷ rest) =
      repeated (times k.repeat_count) (text_of to_utf8 surrogate k)
      ++ typed (surrogate_after surrogate k) rest

  -- The loop has ended, with these bytes.
  abbrev HasRead : List ℕ → Reader → Type 0
  HasRead bytes r = (is_busy to_utf8 r ≡ false) × (r.output ≡ bytes)

  repeated-nil : (n : ℕ) → repeated n [] ≡ []
  repeated-nil zero = refl
  repeated-nil (suc n) = repeated-nil n

  abbrev reading : InputContext → List InputRecord → List ℕ → Reader
  reading c rs out = record { context = c; records = rs; output = out }

  take_record :
      (c : InputContext) (i : InputRecord) (rest : List InputRecord) (out : List ℕ)
      → c.last_key_len ≡ 0
      → loop_body to_utf8 (reading c (i ∷ rest) out) ≡ reading (on_record to_utf8 i c) rest out
  unfolding loop_body next_record
  take_record c i rest out n = rw (n, loop_body) refl

  busy_record :
      (c : InputContext) (i : InputRecord) (rest : List InputRecord) (out : List ℕ)
      → is_busy to_utf8 (reading c (i ∷ rest) out) ≡ true
  busy_record c i rest out = ground arith

  idle_reading :
      (c : InputContext) (out : List ℕ)
      → c.last_key_len ≡ 0
      → is_busy to_utf8 (reading c [] out) ≡ false
  idle_reading c out n = ground arith

  next_of :
      (P : Reader → Type 0) (c : InputContext) (i : InputRecord) (rest : List InputRecord)
      (out : List ℕ)
      → c.last_key_len ≡ 0
      → Leads to_utf8 P (reading (on_record to_utf8 i c) rest out)
      → Leads to_utf8 P (reading c (i ∷ rest) out)
  next_of P c i rest out n l =
      next _ (busy_record c i rest out)
        (subst (λ r. Leads to_utf8 P r) (sym (take_record c i rest out n)) l)

  -- From a loaded buffer on.
  emit :
      (P : Reader → Type 0) (text : List ℕ) (surrogate count : ℕ) (c : InputContext)
      (rest : List InputRecord) (out : List ℕ)
      → IsLoaded text surrogate count c
      → ((d : InputContext)
          → length d.last_key ≡ 8
          → d.last_key_len ≡ 0
          → d.high_surrogate ≡ surrogate
          → Leads to_utf8 P (reading d rest (out ++ repeated (times count) text)))
      → Leads to_utf8 P (reading c rest out)
  emit P text surrogate count c rest out h go = elim h.loaded [
    | inl (n, e) ↦ nothing n e
    | inr b ↦ of_text text refl b
  ]
    where
      nothing : c.last_key_len ≡ 0 → text ≡ [] → Leads to_utf8 P (reading c rest out)
      nothing n e =
          subst (λ bytes. Leads to_utf8 P (reading c rest bytes))
            (ap (λ bytes. out ++ repeated (times count) bytes) e
              ∙ ap (λ bytes. out ++ bytes) (repeated-nil (times count))
              ∙ append-nil out)
            (go c h.in_buffer n h.surrogate_left)

      all_passes : 0 < c.last_key_len → Holds text c → Leads to_utf8 P (reading c rest out)
      all_passes p b =
          subst
            (λ o.
              Leads to_utf8 P
                (at to_utf8 P rest c.last_key c.last_key_len c.high_surrogate o c.last_repeat out))
            (sym b.from_start)
            (passes to_utf8 P rest c.last_key c.last_key_len c.high_surrogate
              ((c.last_repeat + 2 ^ 16 - 1) % 2 ^ 16) c.last_repeat out p
              (omega (arith, b.fits, b.measured, b.bounded)) refl
              (subst
                (λ bytes. Leads to_utf8 P (
                  finished to_utf8 P rest c.last_key c.last_key_len c.high_surrogate c.last_key_len
                    (out ++ repeated (times c.last_repeat) bytes)))
                (sym b.held)
                (subst
                  (λ n. Leads to_utf8 P (
                    finished to_utf8 P rest c.last_key c.last_key_len c.high_surrogate
                      c.last_key_len (out ++ repeated (times n) text)))
                  (sym h.count_left)
                  (go
                    (finished to_utf8 P rest c.last_key c.last_key_len c.high_surrogate
                      c.last_key_len out).context
                    h.in_buffer refl h.surrogate_left))))

      of_text : (t : List ℕ) → text ≡ t → Holds text c → Leads to_utf8 P (reading c rest out)
      of_text [] e b = nothing (b.measured ∙ ap length e) e
      of_text (x ∷ xs) e b = all_passes (omega (arith, b.measured ∙ ap length e)) b

module _ (to_utf8 : List ℕ → List ℕ)
    (utf8_length : (units : List ℕ) → length (to_utf8 units) ≤ 6) where
  reads :
      (rs : List InputRecord) (c : InputContext) (out : List ℕ)
      → length c.last_key ≡ 8
      → c.last_key_len ≡ 0
      → Leads to_utf8
          (HasRead to_utf8 (out ++ typed to_utf8 c.high_surrogate rs))
          (reading to_utf8 c rs out)
  unfolding on_record
  reads [] c out l n = arrived _ (idle_reading to_utf8 c out n, sym (append-nil out))
  reads (other_event ∷ rs) c out l n = next_of to_utf8 _ c other_event rs out n (reads rs c out l n)
  reads (key_event k ∷ rs) c out l n = next_of to_utf8 _ c (key_event k) rs out n (
      emit to_utf8 _ (text_of to_utf8 c.high_surrogate k) (surrogate_after c.high_surrogate k)
        k.repeat_count (on_key to_utf8 k (record c { last_repeat = k.repeat_count })) rs out
        (on_key-IsLoaded to_utf8 utf8_length k (record c { last_repeat = k.repeat_count }) l n)
        (λ d m z e.
          subst
            (λ bytes.
              Leads to_utf8 (HasRead to_utf8 bytes) (reading to_utf8 d rs (out ++ text_passes)))
            (regroup d e) (reads rs d (out ++ text_passes) m z)))
    where
      text_passes : List ℕ
      text_passes = repeated (times k.repeat_count) (text_of to_utf8 c.high_surrogate k)

      regroup :
          (d : InputContext)
          → d.high_surrogate ≡ surrogate_after c.high_surrogate k
          → (out ++ text_passes) ++ typed to_utf8 d.high_surrogate rs
            ≡ out ++ (text_passes ++ typed to_utf8 (surrogate_after c.high_surrogate k) rs)
      regroup d e =
          ap (λ h. (out ++ text_passes) ++ typed to_utf8 h rs) e
          ∙ append_assoc out text_passes (typed to_utf8 (surrogate_after c.high_surrogate k) rs)

  ends_idle :
      (more : ℕ) (r : Reader) → is_busy to_utf8 r ≡ false → read_loop to_utf8 more r ≡ some r
  unfolding read_loop
  ends_idle zero r e = rw (e, read_loop) refl
  ends_idle (suc more) r e = rw (e, read_loop) refl

  ends_busy :
      (more : ℕ) (r : Reader)
      → is_busy to_utf8 r ≡ true
      → read_loop to_utf8 (suc more) r ≡ read_loop to_utf8 more (loop_body to_utf8 r)
  unfolding read_loop
  ends_busy more r e = rw (e, read_loop) refl

  Leads-read_loop :
      (bytes : List ℕ) (r : Reader)
      → Leads to_utf8 (HasRead to_utf8 bytes) r
      → (fuel : ℕ) × (t : Reader) × (t.output ≡ bytes)
        × ((more : ℕ) → read_loop to_utf8 (fuel + more) r ≡ some t)
  Leads-read_loop bytes _ (arrived r h) = (0, r, h.1, λ more. ends_idle (0 + more) r h.0)
  Leads-read_loop bytes _ (next r b l) =
      let (fuel, t, h, f) = Leads-read_loop bytes (loop_body to_utf8 r) l in
      (
        suc fuel,
        t,
        h,
        λ more.
            ap (λ n. read_loop to_utf8 n r) (omega arith) ∙ ends_busy (fuel + more) r b ∙ f more,
      )

  -- For any records, from a context with a buffer of 8 bytes and no key left over, the loop ends, however much
  -- fuel it is given beyond enough, and what it hands to Lua is what was typed: the bytes of each key, in
  -- their order, as often as the count of its record says, and 65536 times where the count is 0. A conversion to
  -- UTF-8 gives at most 6 bytes.
  pub read_loop-typed :
      (rs : List InputRecord) (c : InputContext)
      → length c.last_key ≡ 8
      → c.last_key_len ≡ 0
      → (fuel : ℕ) × (t : Reader) × (t.output ≡ typed to_utf8 c.high_surrogate rs)
        × ((more : ℕ)
            → read_loop to_utf8 (fuel + more) (record { context = c; records = rs; output = [] })
              ≡ some t)
  read_loop-typed rs c l n = Leads-read_loop _ _ (reads rs c [] l n)
