-- ===== src/Crypto/Envelope.antt =====
-- `Open` and `Seal` (src/luanode_crypto.cpp), over OpenSSL's envelopes: a cipher whose key is sent along,
-- encrypted with a public key.
pub mod Leak
use lua_node.Base.{ℕ, Option, none, some, List, [], ◌∷◌, ◌++◌, ◌==◌, length, if◌then◌else◌}
use lua_node.Lua.{string, Outcome, returns, raises}
use lua_node.Crypto.Hex.{OutputMode, encode_output}
use lua_node.Crypto.Digest.{EncodingArg}
use lua_node.Crypto.Signature.{
  Keys, Heap, new_bio, free_bio, new_key, free_key, new_certificate, free_certificate,
}
use lua_node.Crypto.Cipher.{
  Ciphers, Cipher, Made, made, refused, cipher_update, cipher_final, output_mode_of,
}

-- OpenSSL: the length of an algorithm's initialisation vector, and the contexts; a sealed one comes with
-- its encrypted key and its initialisation vector.
pub record Envelopes (Algorithm Context Key : Type 0) : Type 0 where
  pub iv_length : Algorithm → ℕ
  pub open_init : Algorithm → List ℕ → List ℕ → Key → Option Context
  pub seal_init : Algorithm → Key → Option (Context × List ℕ × List ℕ)

pub record Seal (Context : Type 0) : Type 0 where
  pub cipher : Cipher Context
  pub ek : List ℕ
  pub iv : List ℕ

module _ {Algorithm Context Verifying Key Certificate : Type 0}
    (ciphers : Ciphers Algorithm Context) (openssl : Keys Verifying Key Certificate)
    (envelopes : Envelopes Algorithm Context Key) where
  -- Open::Open, from the private key on: an unknown mode of output raises an error while the BIO and the key
  -- are alive.
  open_with : Algorithm → Key → List ℕ → List ℕ → EncodingArg → Heap → Heap × Made (Cipher Context)
  open_with algorithm key ek iv arg h = elim (output_mode_of arg) [
    | none ↦ (h, refused)
    | some mode ↦ elim (envelopes.open_init algorithm ek iv key) [
      | none ↦ (free_bio (free_key h), refused)
      | some c ↦ (free_bio (free_key h), made (record { context = c; output_mode = mode }))
    ]
  ]

  -- Open::Open, from the text of the private key on.
  open_key :
      Algorithm → List ℕ → List ℕ → List ℕ → EncodingArg → Heap → Heap × Made (Cipher Context)
  unfolding open_with
  open_key algorithm pem ek iv arg h =
      if openssl.bio_write pem
      then elim (openssl.read_key pem) [
        | none ↦ (free_bio (new_bio h), refused)
        | some key ↦ open_with algorithm key ek iv arg (new_key (new_bio h))
      ]
      else (free_bio (new_bio h), refused)

  -- Open::Open
  unfoldable pub new_open :
      Option (List ℕ)
      → Option (List ℕ)
      → Option (List ℕ)
      → Option (List ℕ)
      → EncodingArg
      → Heap
      → Heap × Made (Cipher Context)
  unfolding open_key
  new_open none pem ek iv arg h = (h, refused)
  new_open (some name) pem ek iv arg h = elim (ciphers.by_name name) [
    | none ↦ (h, refused)
    | some algorithm ↦ elim ek [
      | none ↦ (h, refused)
      | some e ↦ elim iv [
        | none ↦ (h, refused)
        | some v ↦
            if envelopes.iv_length algorithm == length v
            then elim pem [ none ↦ (h, refused) | some p ↦ open_key algorithm p e v arg h ]
            else (h, refused)
      ]
    ]
  ]

  -- Open::Update and Open::Final
  unfoldable pub open_update : Option (List ℕ) → Cipher Context → Cipher Context × Outcome
  open_update input s = cipher_update ciphers input s

  unfoldable pub open_final : Cipher Context → Cipher Context × Outcome
  open_final s = cipher_final ciphers s

  -- Seal::Seal, from the public key on.
  seal_with : Algorithm → Key → OutputMode → Heap → Heap × Made (Seal Context)
  seal_with algorithm key mode h = (
    free_bio (free_certificate (free_key h)),
    elim (envelopes.seal_init algorithm key) [
      | none ↦ refused
      | some (c, ek, iv) ↦
          made (record { cipher = record { context = c; output_mode = mode }; ek = ek; iv = iv })
    ],
  )

  -- Seal::Seal, from the text of the certificate on. X509_get_pubkey gives no key of no certificate.
  seal_certificate : Algorithm → List ℕ → OutputMode → Heap → Heap × Made (Seal Context)
  unfolding seal_with
  seal_certificate algorithm pem mode h =
      if openssl.bio_write pem
      then elim (openssl.read_certificate pem) [
        | none ↦ (free_bio (new_bio h), refused)
        | some x509 ↦ elim (openssl.public_key x509) [
          | none ↦ (free_bio (free_certificate (new_certificate (new_bio h))), refused)
          | some key ↦ seal_with algorithm key mode (new_key (new_certificate (new_bio h)))
        ]
      ]
      else (free_bio (new_bio h), refused)

  -- Seal::Seal
  unfoldable pub new_seal :
      Option (List ℕ) → Option (List ℕ) → EncodingArg → Heap → Heap × Made (Seal Context)
  unfolding seal_certificate
  new_seal none pem arg h = (h, refused)
  new_seal (some name) pem arg h = elim (ciphers.by_name name) [
    | none ↦ (h, refused)
    | some algorithm ↦ elim (output_mode_of arg) [
      | none ↦ (h, refused)
      | some mode ↦ elim pem [ none ↦ (h, refused) | some p ↦ seal_certificate algorithm p mode h ]
    ]
  ]

  in_seal : Seal Context → Cipher Context × Outcome → Seal Context × Outcome
  in_seal s (t, o) = (record s { cipher = t }, o)

  -- Seal::Update
  unfoldable pub seal_update : Option (List ℕ) → Seal Context → Seal Context × Outcome
  unfolding in_seal
  seal_update input s = in_seal s (cipher_update ciphers input s.cipher)

  with_keys : Seal Context → Outcome → Outcome
  with_keys s raises = raises
  with_keys s (returns vs) = returns (vs ++ string s.ek ∷ string s.iv ∷ [])

  -- Seal::Final: the output, and what the receiver needs.
  unfoldable pub seal_final : Seal Context → Seal Context × Outcome
  unfolding in_seal with_keys
  seal_final s = let (t, o) = in_seal s (cipher_final ciphers s.cipher) in (t, with_keys s o)
