-- ===== src/Crypto/Signature/Balance.antt =====
-- The objects of OpenSSL that `Sign`, `Verify` and `VerifyPeer` allocate are freed, but for one.
use lua_node.Base.{ℕ, ◌+◌, ◌≡◌, some, List, arith, if◌then◌else◌}
use lua_node.Crypto.Signature.{Keys, Heap, sign_with, sign, verify_with, verify}

module _ {Context Key Certificate : Type 0} (openssl : Keys Context Key Certificate) where
  -- The memory BIO that a text cannot be written to.
  abbrev lost : List ℕ → ℕ
  lost pem = if openssl.bio_write pem then 0 else 1

  -- On every path of `sign` and `verify`, whatever OpenSSL answers, each key, certificate and BIO is freed
  -- that was allocated, but for the BIO that does not take the text.
  sign-verify :
      (pem signature : List ℕ) (c : Context) (h : Heap)
      → ((sign openssl (some pem) c h).0 ≡ record h { bios = h.bios + lost pem })
        × ((verify openssl (some pem) (some signature) c h).0
            ≡ record h { bios = h.bios + lost pem })
  unfolding sign sign_with verify verify_with
  sign-verify pem signature c h = (ground arith, ground arith)
