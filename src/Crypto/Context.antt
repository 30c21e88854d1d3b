-- ===== src/Crypto/Context.antt =====
-- `LuaNode::Crypto::SecureContext` (src/luanode_crypto.cpp): the key, the certificate and the store of
-- trusted certificates of a TLS context, which are OpenSSL's.
pub mod Freed
use lua_node.Base.{ℕ, Bool, true, Option, none, some, List, [], ◌∷◌, if◌then◌else◌}
use lua_node.Lua.{boolean, Outcome, returns, raises}
use lua_node.Crypto.Signature.{
  Keys, Heap, new_bio, free_bio, new_key, free_key, new_certificate, free_certificate,
}

-- What the context holds: its own counted references, beside those of the heap.
pub record SecureContext (Key Certificate : Type 0) : Type 0 where
  pub key : Option Key
  pub certificate : Option Certificate
  pub ca_store : List Certificate

-- OpenSSL: whether the context takes a key, or a certificate, which has to fit the other.
pub record Contexts (Key Certificate : Type 0) : Type 0 where
  pub takes_key : SecureContext Key Certificate → Key → Bool
  pub takes_certificate : SecureContext Key Certificate → Certificate → Bool
  pub takes_ca : SecureContext Key Certificate → Certificate → Bool

module _ {Context Key Certificate : Type 0} (openssl : Keys Context Key Certificate)
    (contexts : Contexts Key Certificate) where
  -- SSL_CTX_use_PrivateKey, SSL_CTX_use_certificate and X509_STORE_add_cert, whose results are not looked at.
  use_key : Key → SecureContext Key Certificate → SecureContext Key Certificate
  use_key k s = if contexts.takes_key s k then record s { key = some k } else s

  use_certificate : Certificate → SecureContext Key Certificate → SecureContext Key Certificate
  use_certificate x s =
      if contexts.takes_certificate s x then record s { certificate = some x } else s

  add_ca : Certificate → SecureContext Key Certificate → SecureContext Key Certificate
  add_ca x s = if contexts.takes_ca s x then record s { ca_store = x ∷ s.ca_store } else s

  abbrev Result : Type 0
  Result = SecureContext Key Certificate × Heap × Outcome

  -- SetKey
  unfoldable pub set_key : Option (List ℕ) → SecureContext Key Certificate → Heap → Result
  unfolding use_key
  set_key none s h = (s, h, raises)
  set_key (some pem) s h =
      if openssl.bio_write pem
      then elim (openssl.read_key pem) [
        | none ↦ (s, free_bio (new_bio h), raises)
        | some k ↦
            (use_key k s, free_key (free_bio (new_key (new_bio h))), returns (boolean true ∷ []))
      ]
      else (s, free_bio (new_bio h), raises)

  -- What SetCert and AddCACert do with a certificate.
  with_certificate :
      (Certificate → SecureContext Key Certificate → SecureContext Key Certificate)
      → Option (List ℕ)
      → SecureContext Key Certificate
      → Heap
      → Result
  with_certificate f none s h = (s, h, raises)
  with_certificate f (some pem) s h =
      if openssl.bio_write pem
      then elim (openssl.read_certificate pem) [
        | none ↦ (s, free_bio (new_bio h), raises)
        | some x509 ↦ (
          f x509 s,
          free_bio (free_certificate (new_certificate (new_bio h))),
          returns (boolean true ∷ []),
        )
      ]
      else (s, free_bio (new_bio h), raises)

  -- SetCert
  unfoldable pub set_cert : Option (List ℕ) → SecureContext Key Certificate → Heap → Result
  unfolding with_certificate use_certificate
  set_cert pem s h = with_certificate use_certificate pem s h

  -- AddCACert
  unfoldable pub add_ca_cert : Option (List ℕ) → SecureContext Key Certificate → Heap → Result
  unfolding with_certificate add_ca
  add_ca_cert pem s h = with_certificate add_ca pem s h
