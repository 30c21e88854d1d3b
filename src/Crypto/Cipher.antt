-- ===== src/Crypto/Cipher.antt =====
-- `Cipher`, `Decipher`, `Open` and `Seal` (src/luanode_crypto.cpp), over OpenSSL's ciphers. The class is a
-- parameter of what they have in common: the methods of the four have the same text, but for the calls.
pub mod Buffers
pub mod Modes
use lua_node.Base.{
  ℕ, zero, suc, ◌-◌, Option, none, some, List, [], ◌∷◌, ◌++◌, ltb, if◌then◌else◌, length,
}
use lua_node.Lua.{Value, string, Outcome, returns, raises}
use lua_node.Crypto.Hex.{OutputMode, binary, encode_output}
use lua_node.Crypto.Digest.{EncodingArg, default_encoding, encoding, not_encoding}

-- OpenSSL, for one of the classes: a cipher's context, made with a key and perhaps an initialisation
-- vector, and the calls on it, which fail with `none`.
pub record Ciphers (Algorithm Context : Type 0) : Type 0 where
  pub by_name : List ℕ → Option Algorithm
  pub init : Algorithm → List ℕ → Option (List ℕ) → Context
  pub update : Context → List ℕ → Context × Option (List ℕ)
  pub final : Context → Context × Option (List ℕ)
  pub max_key_length : ℕ
  pub max_iv_length : ℕ

pub record Cipher (Context : Type 0) : Type 0 where
  pub context : Context
  pub output_mode : OutputMode

-- A constructor makes an object, raises an error, or writes past the end of an array.
pub data Made (A : Type 0) : Type 0 where
  made : A → Made A
  refused : Made A
  overruns : Made A

abbrev pub zeros : ℕ → List ℕ
zeros zero = []
zeros (suc n) = 0 ∷ zeros n

-- `memcpy` to the start of an array of zeros, without a test of the length.
unfoldable pub memcpy_to : ℕ → List ℕ → Option (List ℕ)
memcpy_to size bytes =
    if ltb size (length bytes) then none else some (bytes ++ zeros (size - length bytes))

-- luaL_checkoption with "binary" as the default.
abbrev pub output_mode_of : EncodingArg → Option OutputMode
output_mode_of default_encoding = some binary
output_mode_of (encoding mode) = some mode
output_mode_of not_encoding = none

module _ {Algorithm Context : Type 0} (openssl : Ciphers Algorithm Context) where
  copy_iv : Option (List ℕ) → Option (Option (List ℕ))
  copy_iv none = some none
  copy_iv (some iv) = elim (memcpy_to openssl.max_iv_length iv) [
    | none ↦ none
    | some buffer ↦ some (some buffer)
  ]

  -- The copies of the key and of the vector, and the context.
  init_with : Algorithm → List ℕ → OutputMode → Option (List ℕ) → Made (Cipher Context)
  unfolding copy_iv
  init_with algorithm key mode iv = elim (memcpy_to openssl.max_key_length key) [
    | none ↦ overruns
    | some evp_key ↦ elim (copy_iv iv) [
      | none ↦ overruns
      | some evp_iv ↦
          made (record { context = openssl.init algorithm evp_key evp_iv; output_mode = mode })
    ]
  ]

  -- Cipher::Cipher. A `none` for the name or the key is a value that is no text; for the vector, it is also
  -- that there is none.
  unfoldable pub new_cipher :
      Option (List ℕ) → Option (List ℕ) → EncodingArg → Option (List ℕ) → Made (Cipher Context)
  unfolding init_with
  new_cipher none key mode iv = refused
  new_cipher (some name) key mode iv = elim (openssl.by_name name) [
    | none ↦ refused
    | some algorithm ↦ elim key [
      | none ↦ refused
      | some bytes ↦ elim (output_mode_of mode) [
        | none ↦ refused
        | some m ↦ init_with algorithm bytes m iv
      ]
    ]
  ]

  output_of : Cipher Context → Context × Option (List ℕ) → Cipher Context × Outcome
  output_of s (c, none) = (record s { context = c }, raises)
  output_of s (c, some bytes) =
      (record s { context = c }, returns (string (encode_output s.output_mode bytes) ∷ []))

  -- Cipher::Update
  unfoldable pub cipher_update : Option (List ℕ) → Cipher Context → Cipher Context × Outcome
  unfolding output_of
  cipher_update none s = (s, raises)
  cipher_update (some input) s = output_of s (openssl.update s.context input)

  -- Cipher::Final
  unfoldable pub cipher_final : Cipher Context → Cipher Context × Outcome
  unfolding output_of
  cipher_final s = output_of s (openssl.final s.context)

-- `Decipher`: the same, but for OpenSSL's calls.
module _ {Algorithm Context : Type 0} (decrypting : Ciphers Algorithm Context) where
  -- Decipher::Decipher
  unfoldable pub new_decipher :
      Option (List ℕ) → Option (List ℕ) → EncodingArg → Option (List ℕ) → Made (Cipher Context)
  new_decipher name key mode iv = new_cipher decrypting name key mode iv

  -- Decipher::Update
  unfoldable pub decipher_update : Option (List ℕ) → Cipher Context → Cipher Context × Outcome
  decipher_update input s = cipher_update decrypting input s

  -- Decipher::Final
  unfoldable pub decipher_final : Cipher Context → Cipher Context × Outcome
  decipher_final s = cipher_final decrypting s
