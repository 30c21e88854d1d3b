-- ===== src/Crypto/Envelope/Leak.antt =====
-- The objects of OpenSSL that the constructors of `Open` and `Seal` allocate.
use lua_node.Base.{ℕ, ◌+◌, ◌≡◌, refl, true, Option, none, some, List, arith, ◌==◌, length}
use lua_node.Crypto.Digest.{EncodingArg}
use lua_node.Crypto.Signature.{Keys, Heap, new_bio, new_key}
use lua_node.Crypto.Cipher.{Ciphers, output_mode_of}
use lua_node.Crypto.Envelope.{
  Envelopes, new_open, open_key, open_with, new_seal, seal_certificate, seal_with,
}

-- None, or one BIO and one key.
abbrev pub IsLeakOf : ℕ → Heap → Heap → Type 0
IsLeakOf n h after = after ≡ record h { bios = h.bios + n; keys = h.keys + n }

abbrev pub leaked : EncodingArg → ℕ
leaked arg = elim (output_mode_of arg) [ none ↦ 1 | some mode ↦ 0 ]

==-eq : (m n : ℕ) → m ≡ n → (m == n) ≡ true
==-eq m n e = ground arith

module _ {Algorithm Context Verifying Key Certificate : Type 0}
    (ciphers : Ciphers Algorithm Context) (openssl : Keys Verifying Key Certificate)
    (envelopes : Envelopes Algorithm Context Key) where
  new_seal-freed :
      (name certificate : Option (List ℕ)) (arg : EncodingArg) (h : Heap)
      → (new_seal ciphers openssl envelopes name certificate arg h).0 ≡ h
  unfolding new_seal seal_certificate seal_with
  new_seal-freed none certificate arg h = refl
  new_seal-freed (some name) none arg h = ground arith
  new_seal-freed (some name) (some pem) arg h = ground arith

  open_with-leaked :
      (algorithm : Algorithm) (key : Key) (ek iv : List ℕ) (arg : EncodingArg) (h : Heap)
      → IsLeakOf
          (leaked arg)
          h
          (open_with ciphers openssl envelopes algorithm key ek iv arg (new_key (new_bio h))).0
  unfolding open_with
  open_with-leaked algorithm key ek iv arg h = ground arith

  -- Opening an envelope with a good name, private key and initialisation vector, whatever OpenSSL answers to it,
  -- frees all that it allocates when the mode of output is a known one, and otherwise leaves one BIO and
  -- one key behind. Making an envelope always frees all.
  new_open-new_seal :
      (name pem ek iv : List ℕ) (algorithm : Algorithm) (key : Key) (certificate : Option (List ℕ))
      (arg : EncodingArg) (h : Heap)
      → ciphers.by_name name ≡ some algorithm
      → envelopes.iv_length algorithm ≡ length iv
      → openssl.bio_write pem ≡ true
      → openssl.read_key pem ≡ some key
      → IsLeakOf
          (leaked arg)
          h
          (new_open ciphers openssl envelopes (some name) (some pem) (some ek) (some iv) arg h).0
        × ((new_seal ciphers openssl envelopes (some name) certificate arg h).0 ≡ h)
  unfolding new_open open_key
  new_open-new_seal name pem ek iv algorithm key certificate arg h a l w k = (
    rw (a, ==-eq _ _ l, w, k, new_open) (open_with-leaked algorithm key ek iv arg h),
    new_seal-freed (some name) certificate arg h,
  )
