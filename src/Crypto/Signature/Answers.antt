-- ===== src/Crypto/Signature/Answers.antt =====
-- What Lua reads in the answers of `Verify` and `VerifyPeer`.
use lua_node.Base.{
  ℕ, zero, suc, ◌≡◌, refl, Bool, true, false, Option, none, some, List, [], ◌∷◌, ◌>>=◌, ◌&&◌, ◌==◌,
  arith, if◌then◌else◌,
}
use lua_node.Lua.{Value, nil, boolean, Outcome, returns, raises}
use lua_node.Crypto.Signature.{Keys, Heap, verify_with, verify, verify_peer}

-- The test of a value in Lua.
abbrev pub is_truthy : Value → Bool
is_truthy nil = false
is_truthy (boolean b) = b
is_truthy _ = true

-- `if f() then`: the test of the first result, if the function returns.
abbrev pub first_test : Outcome → Option Bool
first_test (returns []) = some false
first_test (returns (v ∷ vs)) = some (is_truthy v)
first_test raises = none

abbrev pub is_some {ℓ} : {A : Type ℓ} → Option A → Bool
is_some none = false
is_some (some a) = true

module _ {Context Key Certificate : Type 0} (openssl : Keys Context Key Certificate) where
  -- The public key of the certificate, where each step that reads it succeeds.
  abbrev pub certified_key : List ℕ → Option Key
  certified_key pem =
      if openssl.bio_write pem then openssl.read_certificate pem >>= openssl.public_key else none

  -- A test of what `verify` returns tells whether the certificate could be read, and nothing of the
  -- signature: for every signature and every verdict of OpenSSL it is the same.
  verify-certified_key :
      (pem signature : List ℕ) (c : Context) (h : Heap)
      → first_test (verify openssl (some pem) (some signature) c h).1
        ≡ some (is_some (certified_key pem))
  unfolding verify verify_with
  verify-certified_key pem signature c h = ground arith

  -- A test of what `verifyPeer` returns holds exactly when the peer sent a certificate and the result of its
  -- verification is 0.
  pub verify_peer-result :
      (peer : Option Certificate) (result : ℕ) (h : Heap)
      → first_test (verify_peer openssl peer result h).1 ≡ some (is_some peer && result == 0)
  unfolding verify_peer
  verify_peer-result none result h = refl
  verify_peer-result (some x) zero h = refl
  verify_peer-result (some x) (suc n) h = ground arith
