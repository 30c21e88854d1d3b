-- ===== src/Input/Handler/Batches.antt =====
-- What Lua is told of the batches of records.
use lua_node.Base.{
  ℕ, ◌+◌, ◌≤◌, ◌≡◌, refl, ap, subst, ◌∙◌, true, some, List, [], ◌∷◌, ◌++◌, All, arith, length,
  ◌>>=◌,
}
use lua_node.Lua.{Value, self, string}
use lua_node.Input.Reader.{InputRecord, InputContext}
use lua_node.Input.Reader.Typed.{typed, read_loop-typed}
use lua_node.Input.Handler.{deliver, read_console_handler, handle_batches}

-- Lua is called with bytes where there are any.
abbrev told_of : List ℕ → List (List Value)
told_of [] = []
told_of (b ∷ bytes) = (self ∷ string (b ∷ bytes) ∷ []) ∷ []

deliver-told_of :
    (size : ℕ) (bytes : List ℕ) → length bytes ≤ size → deliver size true bytes ≡ told_of bytes
unfolding deliver
deliver-told_of size [] h = refl
deliver-told_of size (b ∷ bytes) h = ground arith

module _ (to_utf8 : List ℕ → List ℕ) (size : ℕ) where
  abbrev pub IsShort : ℕ → List InputRecord → Type 0
  IsShort surrogate rs = length (typed to_utf8 surrogate rs) ≤ size

  -- What was typed in each batch, with the same surrogate before it.
  abbrev pub told : ℕ → List (List InputRecord) → List (List Value)
  told surrogate [] = []
  told surrogate (rs ∷ rest) = told_of (typed to_utf8 surrogate rs) ++ told surrogate rest

  module _ (utf8_length : (units : List ℕ) → length (to_utf8 units) ≤ 6) (c : InputContext)
      (in_buffer : length c.last_key ≡ 8) (at_rest : c.last_key_len ≡ 0) where
    one_batch :
        (rs : List InputRecord)
        → IsShort c.high_surrogate rs
        → (fuel : ℕ) × ((more : ℕ)
            → read_console_handler to_utf8 size true (fuel + more) c rs
              ≡ some (told_of (typed to_utf8 c.high_surrogate rs)))
    unfolding read_console_handler
    one_batch rs h =
        let (fuel, r, e, f) = read_loop-typed to_utf8 utf8_length rs c in_buffer at_rest in
        (
          fuel,
          λ more.
              ap (λ o. o >>= λ t. some (deliver size true t.output)) (f more)
              ∙ ap (λ bytes. some (deliver size true bytes)) e
              ∙ ap some (deliver-told_of size (typed to_utf8 c.high_surrogate rs) h),
        )

    -- For any batches of records, of each of which the keys make at most LUAL_BUFFERSIZE bytes, and a
    -- `read_callback` that is a function: the handlers end, however much fuel they are given beyond enough,
    -- and Lua is called once for each batch that makes any bytes, in their order, with the stream and what was
    -- typed in the batch. Each batch starts with the high surrogate that the context of the stream held, not
    -- with what the batch before left. A conversion to UTF-8 gives at most 6 bytes.
    pub handle_batches-typed :
        (batches : List (List InputRecord))
        → All (IsShort c.high_surrogate) batches
        → (fuel : ℕ) × ((more : ℕ)
            → handle_batches to_utf8 size true (fuel + more) c batches
              ≡ some (told c.high_surrogate batches))
    unfolding handle_batches
    handle_batches-typed [] h = (0, λ more. refl)
    handle_batches-typed (rs ∷ rest) h =
        let (m, f) = one_batch rs h.0 in
        let (n, g) = handle_batches-typed rest h.1 in
        (m + n, λ more. joined (told_of (typed to_utf8 c.high_surrogate rs)) m n more f g)
      where
        joined :
            (calls : List (List Value)) (m n more : ℕ)
            → ((k : ℕ) → read_console_handler to_utf8 size true (m + k) c rs ≡ some calls)
            → ((k : ℕ)
                → handle_batches to_utf8 size true (n + k) c rest
                  ≡ some (told c.high_surrogate rest))
            → handle_batches to_utf8 size true (m + n + more) c (rs ∷ rest)
              ≡ some (calls ++ told c.high_surrogate rest)
        joined calls m n more f g =
            let first : m + (n + more) ≡ m + n + more = omega arith in
            let second : n + (m + more) ≡ m + n + more = omega arith in
            rw
              (
                subst (λ k. read_console_handler to_utf8 size true k c rs ≡ some calls) first
                    (f (n + more)),
                subst
                    (λ k.
                      handle_batches to_utf8 size true k c rest ≡ some (told c.high_surrogate rest))
                    second (g (m + more)),
              )
              refl
