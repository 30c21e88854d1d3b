-- ===== src/Crypto/Signature.antt =====
-- `Signer`, `Verifier`, `SecureContext` and `VerifyPeer` (src/luanode_crypto.cpp), over OpenSSL's keys and
-- certificates. A text argument is a string, or a number that Lua has turned into one; `none` is any
-- other value.
pub mod Answers
pub mod Balance
use lua_node.Base.{
  ℕ, zero, suc, ◌+◌, ◌-◌, Bool, true, false, Option, none, some, List, [], ◌∷◌, if◌then◌else◌, drop,
  length,
}
use lua_node.Lua.{Value, nil, boolean, string, message, self, Outcome, returns, raises}

-- EVP_VerifyFinal: 1, 0, or a negative number.
pub data Verdict : Type 0 where
  is_valid is_invalid has_failed : Verdict

-- OpenSSL: whether a memory BIO takes the bytes, the readers of PEM, and the calls on a context.
-- `last_error` is the code that the error queue gives.
pub record Keys (Context Key Certificate : Type 0) : Type 0 where
  pub signing_init : List ℕ → Option Context
  pub signing_update : Context → List ℕ → Context
  pub bio_write : List ℕ → Bool
  pub read_key : List ℕ → Option Key
  pub read_certificate : List ℕ → Option Certificate
  pub public_key : Certificate → Option Key
  pub sign_final : Context → Key → Option (List ℕ)
  pub verify_final : Context → List ℕ → Key → Verdict
  pub last_error : ℕ

-- The objects of OpenSSL that are alive.
pub record Heap : Type 0 where
  pub bios : ℕ
  pub keys : ℕ
  pub certificates : ℕ

abbrev pub new_bio : Heap → Heap
new_bio h = record h { bios = h.bios + 1 }

abbrev pub free_bio : Heap → Heap
free_bio h = record h { bios = h.bios - 1 }

abbrev pub new_key : Heap → Heap
new_key h = record h { keys = h.keys + 1 }

abbrev pub free_key : Heap → Heap
free_key h = record h { keys = h.keys - 1 }

abbrev pub new_certificate : Heap → Heap
new_certificate h = record h { certificates = h.certificates + 1 }

abbrev pub free_certificate : Heap → Heap
free_certificate h = record h { certificates = h.certificates - 1 }

-- A C function's `return n`: of the values that it pushed, the last `n` are its results.
abbrev pub lua_return : ℕ → List Value → Outcome
lua_return n pushed = returns (drop (length pushed - n) pushed)

module _ {Context Key Certificate : Type 0} (openssl : Keys Context Key Certificate) where
  -- push_crypto_error: what it pushes.
  abbrev pub crypto_error_values : List Value
  crypto_error_values = nil ∷ message openssl.last_error ∷ []

  -- Signer::Signer and Verifier::Verifier; without a context they raise an error.
  unfoldable pub new_signer : Option (List ℕ) → Option Context
  new_signer none = none
  new_signer (some name) = openssl.signing_init name

  unfoldable pub new_verifier : Option (List ℕ) → Option Context
  new_verifier none = none
  new_verifier (some name) = openssl.signing_init name

  -- Signer::Update
  unfoldable pub signer_update : Option (List ℕ) → Context → Context × Outcome
  signer_update none c = (c, raises)
  signer_update (some bytes) c = (openssl.signing_update c bytes, returns (self ∷ []))

  -- Verifier::Update
  unfoldable pub verifier_update : Option (List ℕ) → Context → Context × Outcome
  verifier_update none c = (c, raises)
  verifier_update (some bytes) c = (openssl.signing_update c bytes, returns (self ∷ []))

  -- Signer::Sign, from the key on.
  unfoldable pub sign_with : Key → Context → Heap → Heap × Outcome
  sign_with key c h = elim (openssl.sign_final c key) [
    | none ↦ (free_bio (free_key h), lua_return 2 (crypto_error_values))
    | some signature ↦ (free_bio (free_key h), lua_return 1 (string signature ∷ []))
  ]

  -- Signer::Sign. When the BIO does not take the key, it is not freed.
  unfoldable pub sign : Option (List ℕ) → Context → Heap → Heap × Outcome
  sign none c h = (h, raises)
  sign (some pem) c h =
      if openssl.bio_write pem
      then elim (openssl.read_key pem) [
        | none ↦ (free_bio (new_bio h), lua_return 2 crypto_error_values)
        | some key ↦ sign_with key c (new_key (new_bio h))
      ]
      else (new_bio h, lua_return 2 crypto_error_values)

  -- Verifier::Verify, from the public key on: `return 1`, also after an error was pushed.
  unfoldable pub verify_with : Key → List ℕ → Context → Heap → Heap × Outcome
  verify_with key signature c h = (
    free_bio (free_certificate (free_key h)),
    elim (openssl.verify_final c signature key) [
      | is_valid ↦ lua_return 1 (boolean true ∷ [])
      | _ ↦ lua_return 1 (boolean false ∷ crypto_error_values)
    ],
  )

  -- Verifier::Verify
  unfoldable pub verify : Option (List ℕ) → Option (List ℕ) → Context → Heap → Heap × Outcome
  verify none signature c h = (h, raises)
  verify (some pem) none c h = (h, raises)
  verify (some pem) (some signature) c h =
      if openssl.bio_write pem
      then elim (openssl.read_certificate pem) [
        | none ↦ (free_bio (new_bio h), lua_return 2 crypto_error_values)
        | some x509 ↦ elim (openssl.public_key x509) [
          | none ↦ (
            free_bio (free_certificate (new_certificate (new_bio h))),
            lua_return 2 crypto_error_values,
          )
          | some key ↦ verify_with key signature c (new_key (new_certificate (new_bio h)))
        ]
      ]
      else (new_bio h, lua_return 2 crypto_error_values)

  -- Socket::VerifyPeer, of the peer's certificate, if it sent one, and the result of its verification.
  unfoldable pub verify_peer : Option Certificate → ℕ → Heap → Heap × Outcome
  verify_peer none result h = (h, lua_return 2 (boolean false ∷ crypto_error_values))
  verify_peer (some x509) zero h =
      (free_certificate (new_certificate h), lua_return 1 (boolean true ∷ []))
  verify_peer (some x509) (suc result) h =
      (free_certificate (new_certificate h), lua_return 1 (boolean false ∷ []))
