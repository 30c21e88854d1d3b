-- ===== src/Crypto/Samples.antt =====
-- Runs of the digests, the signatures and the ciphers.
use lua_node.Base.{
  ℕ, ◌≡◌, refl, none, some, List, [], ◌∷◌, ◌++◌, arith, append-nil, append_assoc, length,
}
use lua_node.Crypto.Hex.{binary, hex_of, fingerprint, fingerprint_digits, c_string}
use lua_node.Crypto.Hex.Decode.{decode_hex, decode_hex-hex_of}
use lua_node.Crypto.Digest.{Digests, default_encoding, encoding, not_encoding}
use lua_node.Crypto.Digest.Stream.{
  Call, update, final, promised, hash_calls, IsStreaming, digest_from, hash_calls-promised,
}
use lua_node.Crypto.Cipher.{Ciphers}

decode_hex-hex_of_example : decode_hex (hex_of (0 ∷ 175 ∷ 255 ∷ [])) ≡ some (0 ∷ 175 ∷ 255 ∷ [])
decode_hex-hex_of_example =
    decode_hex-hex_of (0 ∷ 175 ∷ 255 ∷ []) (omega arith, (omega arith, (omega arith, tt)))

-- "0A:FF"
fingerprint_run : fingerprint (10 ∷ 255 ∷ []) ≡ 48 ∷ 65 ∷ 58 ∷ 70 ∷ 70 ∷ []
unfolding fingerprint fingerprint_digits c_string
fingerprint_run = refl

-- Digests, keys and ciphers that OpenSSL might be.
abbrev keeping : Digests (List ℕ)
keeping = record {
  digest_init = λ name. some [];
  hmac_init = λ name key. some key;
  digest_update = λ c bytes. c ++ bytes;
  digest_final = λ c. (c, []);
}

keeping-IsStreaming : IsStreaming keeping
keeping-IsStreaming = record {
  update_empty = λ c. append-nil c;
  update_append = λ c xs ys. append_assoc c xs ys;
}

abbrev session : List Call
session =
    update (some (1 ∷ []))
    ∷ final default_encoding
    ∷ update none
    ∷ update (some (2 ∷ 3 ∷ []))
    ∷ final (encoding binary)
    ∷ final not_encoding
    ∷ []

hash_calls-promised_example :
    hash_calls keeping session [] ≡ promised (digest_from keeping []) session []
hash_calls-promised_example = hash_calls-promised keeping keeping-IsStreaming [] session

-- A cipher that gives its input back, and at the end a byte.
abbrev echo : Ciphers ℕ (List ℕ)
echo = record {
  by_name = λ name. some (length name);
  init = λ algorithm key iv. key;
  update = λ c bytes. (c, some bytes);
  final = λ c. (c, some (255 ∷ []));
  max_key_length = 2;
  max_iv_length = 1;
}
