-- ===== src/Crypto/Context/Freed.antt =====
-- What the methods of a TLS context answer, and what they leave.
use lua_node.Base.{
  ℕ, ◌≡◌, refl, Bool, true, Option, none, some, List, [], ◌∷◌, ◌>>=◌, arith, if◌then◌else◌,
}
use lua_node.Lua.{boolean, Outcome, returns, raises}
use lua_node.Crypto.Signature.{Keys, Heap}
use lua_node.Crypto.Context.{
  SecureContext, Contexts, set_key, set_cert, add_ca_cert, with_certificate, use_certificate,
  add_ca,
}

-- The text that can be read, of a call with any argument.
abbrev pub written : (List ℕ → Bool) → Option (List ℕ) → Option (List ℕ)
written takes none = none
written takes (some pem) = if takes pem then some pem else none

abbrev pub answer {ℓ} : {A : Type ℓ} → Option A → Outcome
answer none = raises
answer (some a) = returns (boolean true ∷ [])

module _ {Context Key Certificate : Type 0} (openssl : Keys Context Key Certificate)
    (contexts : Contexts Key Certificate) where
  with_certificate-written :
      (f : Certificate → SecureContext Key Certificate → SecureContext Key Certificate)
      (arg : Option (List ℕ)) (s : SecureContext Key Certificate) (h : Heap)
      → ((with_certificate openssl contexts f arg s h).1 ≡ h)
        × ((with_certificate openssl contexts f arg s h).2
            ≡ answer (written openssl.bio_write arg >>= openssl.read_certificate))
  unfolding with_certificate
  with_certificate-written f none s h = (refl, refl)
  with_certificate-written f (some pem) s h = (ground arith, ground arith)

  set_key-written :
      (arg : Option (List ℕ)) (s : SecureContext Key Certificate) (h : Heap)
      → ((set_key openssl contexts arg s h).1 ≡ h)
        × ((set_key openssl contexts arg s h).2
            ≡ answer (written openssl.bio_write arg >>= openssl.read_key))
  unfolding set_key
  set_key-written none s h = (refl, refl)
  set_key-written (some pem) s h = (ground arith, ground arith)

  -- `setKey`, `setCert` and `addCACert` free what they allocate, and they answer true when the text holds a key
  -- or a certificate, and raise an error when not: whether the context took it makes no difference.
  set_key-set_cert :
      (arg : Option (List ℕ)) (s : SecureContext Key Certificate) (h : Heap)
      → ((set_key openssl contexts arg s h).1 ≡ h)
        × ((set_key openssl contexts arg s h).2
            ≡ answer (written openssl.bio_write arg >>= openssl.read_key))
        × ((set_cert openssl contexts arg s h).1 ≡ h)
        × ((set_cert openssl contexts arg s h).2
            ≡ answer (written openssl.bio_write arg >>= openssl.read_certificate))
        × ((add_ca_cert openssl contexts arg s h).1 ≡ h)
        × ((add_ca_cert openssl contexts arg s h).2
            ≡ answer (written openssl.bio_write arg >>= openssl.read_certificate))
  unfolding set_cert add_ca_cert
  set_key-set_cert arg s h =
      let (k, o) = set_key-written arg s h in
      let (a, b) = with_certificate-written (use_certificate openssl contexts) arg s h in
      let (c, d) = with_certificate-written (add_ca openssl contexts) arg s h in (k, o, a, b, c, d)
