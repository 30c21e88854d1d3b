-- ===== src/Crypto/Cipher/Modes.antt =====
-- The two modes of output.
use lua_node.Base.{ℕ, ◌≡◌, refl, sym, ap, Option, none, some, List, [], ◌∷◌, ◌++◌, ◌>>=◌}
use lua_node.Lua.{string, Outcome, returns}
use lua_node.Crypto.Hex.{binary, hex, hex_of, encode_output}
use lua_node.Crypto.Hex.Decode.{hex_of-append}
use lua_node.Crypto.Cipher.{Ciphers, Cipher, cipher_update, cipher_final, output_of}

-- The text that a call returned, if it did.
abbrev pub text_of : Outcome → Option (List ℕ)
text_of (returns (string bytes ∷ [])) = some bytes
text_of _ = none

module _ {Algorithm Context : Type 0} (openssl : Ciphers Algorithm Context) where
  -- What a Lua program gets that gives a cipher these pieces, one after the other, then calls `final`, and puts
  -- the results together; `none` if a call raises an error.
  unfoldable pub whole_output : List (List ℕ) → Cipher Context → Option (List ℕ)
  whole_output [] s = text_of (cipher_final openssl s).1
  whole_output (piece ∷ rest) s =
      let (t, o) = cipher_update openssl (some piece) s in
      text_of o >>= (λ first. whole_output rest t >>= (λ others. some (first ++ others)))

  abbrev in_hex : Context → Cipher Context
  in_hex c = record { context = c; output_mode = hex }

  abbrev in_binary : Context → Cipher Context
  in_binary c = record { context = c; output_mode = binary }

  abbrev hexed : List ℕ → Option (List ℕ)
  hexed bytes = some (hex_of bytes)

  after-hexed :
      (first : List ℕ) (o : Option (List ℕ))
      → ((o >>= hexed) >>= (λ others. some (hex_of first ++ others)))
        ≡ ((o >>= (λ others. some (first ++ others))) >>= hexed)
  after-hexed first none = refl
  after-hexed first (some others) = ap (λ bytes. some bytes) (sym (hex_of-append first others))

  piece-hexed :
      (c : Context) (r : Context × Option (List ℕ)) (rest : List (List ℕ))
      → ((d : Context) → whole_output rest (in_hex d) ≡ (whole_output rest (in_binary d) >>= hexed))
      → (text_of (output_of openssl (in_hex c) r).1 >>= (λ first.
          whole_output rest (output_of openssl (in_hex c) r).0
          >>= (λ others. some (first ++ others))))
        ≡ ((text_of (output_of openssl (in_binary c) r).1 >>= (λ first.
              whole_output rest (output_of openssl (in_binary c) r).0
              >>= (λ others. some (first ++ others))))
            >>= hexed)
  unfolding output_of encode_output
  piece-hexed c (d, none) rest ih = refl
  piece-hexed c (d, some bytes) rest ih =
      rw (ih d) (after-hexed bytes (whole_output rest (in_binary d)))

  last-hexed :
      (c : Context) (r : Context × Option (List ℕ))
      → text_of (output_of openssl (in_hex c) r).1
        ≡ (text_of (output_of openssl (in_binary c) r).1 >>= hexed)
  unfolding output_of encode_output
  last-hexed c (d, none) = refl
  last-hexed c (d, some bytes) = refl

  -- For any pieces, a cipher with hexadecimal output gives, put together, the hexadecimal digits of what it would
  -- give with binary output, and raises an error where that one would.
  whole_output-hex_of :
      (pieces : List (List ℕ)) (c : Context)
      → whole_output pieces (record { context = c; output_mode = hex }) ≡ (
          whole_output pieces (record { context = c; output_mode = binary })
          >>= (λ bytes. some (hex_of bytes)))
  unfolding whole_output cipher_update cipher_final
  whole_output-hex_of [] c = last-hexed c (openssl.final c)
  whole_output-hex_of (piece ∷ rest) c =
      piece-hexed c (openssl.update c piece) rest (λ d. whole_output-hex_of rest d)
