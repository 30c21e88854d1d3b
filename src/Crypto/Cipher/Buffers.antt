-- ===== src/Crypto/Cipher/Buffers.antt =====
-- The buffers that the constructors copy the key and the initialisation vector to.
use lua_node.Base.{
  ℕ, ◌-◌, ◌≡◌, Option, none, some, List, ◌++◌, ltb, length, arith, ◌||◌, if◌then◌else◌,
}
use lua_node.Crypto.Hex.{OutputMode}
use lua_node.Crypto.Digest.{EncodingArg}
use lua_node.Crypto.Cipher.{Ciphers, made, overruns, memcpy_to, new_cipher, output_mode_of, zeros}

abbrev pub iv_length : Option (List ℕ) → ℕ
iv_length none = 0
iv_length (some iv) = length iv

abbrev pub padded : ℕ → List ℕ → List ℕ
padded size bytes = bytes ++ zeros (size - length bytes)

abbrev pub padded_iv : ℕ → Option (List ℕ) → Option (List ℕ)
padded_iv size none = none
padded_iv size (some iv) = some (padded size iv)

module _ {Algorithm Context : Type 0} (openssl : Ciphers Algorithm Context) where
  -- With a cipher's name, a key, and a known mode of output, the constructor writes past the end of an array
  -- if the key or the initialisation vector is longer than OpenSSL's greatest; otherwise it makes the
  -- cipher with both filled up with zeros.
  new_cipher-padded :
      (name key : List ℕ) (algorithm : Algorithm) (arg : EncodingArg) (mode : OutputMode)
      (iv : Option (List ℕ))
      → openssl.by_name name ≡ some algorithm
      → output_mode_of arg ≡ some mode
      → new_cipher openssl (some name) (some key) arg iv ≡ (
          if ltb openssl.max_key_length (length key) || ltb openssl.max_iv_length (iv_length iv)
          then overruns
          else made (record {
            context =
                openssl.init algorithm
                  (padded openssl.max_key_length key)
                  (padded_iv openssl.max_iv_length iv);
            output_mode = mode;
          }))
  unfolding new_cipher memcpy_to
  new_cipher-padded name key algorithm arg mode none e f = rw (e, f, new_cipher) (ground arith)
  new_cipher-padded name key algorithm arg mode (some iv) e f = rw (e, f, new_cipher) (ground arith)
