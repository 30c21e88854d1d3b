-- ===== src/Crypto/Digest/Stream.antt =====
-- A hash is the digest of the bytes that it has been given, in whatever pieces and however often it was
-- asked; a MAC is so until it has been asked once.
use lua_node.Base.{
  ℕ, ◌≡◌, refl, sym, ap, ◌∙◌, Option, none, some, List, [], ◌∷◌, ◌++◌, append-nil, append_assoc,
}
use lua_node.Lua.{self, Outcome, returns, raises}
use lua_node.Crypto.Digest.{
  Digests, EncodingArg, encoded, hash_update, hash_final, hmac_update, hmac_final,
}

pub data Call : Type 0 where
  update : Option (List ℕ) → Call
  final : EncodingArg → Call

-- The promise: an object that keeps the bytes, and answers with the digest of all of them.
abbrev pub promised_update : Option (List ℕ) → List ℕ → List ℕ × Outcome
promised_update none m = (m, raises)
promised_update (some bytes) m = (m ++ bytes, returns (self ∷ []))

abbrev pub promised : (List ℕ → List ℕ) → List Call → List ℕ → List Outcome
promised digest [] m = []
promised digest (update arg ∷ rest) m =
    let (n, o) = promised_update arg m in o ∷ promised digest rest n
promised digest (final arg ∷ rest) m = encoded arg (digest m) ∷ promised digest rest m

-- The bytes that were given; a call with a value that is no text raises an error.
abbrev given : List (Option (List ℕ)) → List ℕ
given [] = []
given (none ∷ rest) = given rest
given (some bytes ∷ rest) = bytes ++ given rest

module _ {Context : Type 0} (digests : Digests Context) where
  unfoldable pub hash_calls : List Call → Context → List Outcome
  hash_calls [] c = []
  hash_calls (update arg ∷ rest) c = let (d, o) = hash_update digests arg c in o ∷ hash_calls rest d
  hash_calls (final arg ∷ rest) c = let (d, o) = hash_final digests arg c in o ∷ hash_calls rest d

  hmac_updates : List (Option (List ℕ)) → Context → Context
  hmac_updates [] c = c
  hmac_updates (arg ∷ rest) c = hmac_updates rest (hmac_update digests arg c).0

  -- What EVP_DigestUpdate promises: the pieces of a message can be given one after the other.
  pub record IsStreaming : Type 0 where
    pub update_empty : (c : Context) → digests.digest_update c [] ≡ c
    pub update_append :
        (c : Context) (xs ys : List ℕ)
        → digests.digest_update (digests.digest_update c xs) ys ≡ digests.digest_update c (xs ++ ys)

  abbrev pub digest_from : Context → List ℕ → List ℕ
  digest_from c m = (digests.digest_final (digests.digest_update c m)).0

  module _ (law : IsStreaming) (c : Context) where
    calls-promised :
        (calls : List Call) (m : List ℕ)
        → hash_calls calls (digests.digest_update c m) ≡ promised (digest_from c) calls m
    unfolding hash_calls hash_update hash_final
    calls-promised [] m = refl
    calls-promised (update none ∷ rest) m = ap (λ os. raises ∷ os) (calls-promised rest m)
    calls-promised (update (some bytes) ∷ rest) m =
        rw (law.update_append c m bytes, calls-promised rest (m ++ bytes)) refl
    calls-promised (final arg ∷ rest) m =
        ap (λ os. encoded arg (digest_from c m) ∷ os) (calls-promised rest m)

    hmac_updates-append :
        (args : List (Option (List ℕ))) (m : List ℕ)
        → hmac_updates args (digests.digest_update c m) ≡ digests.digest_update c (m ++ given args)
    unfolding hmac_updates hmac_update
    hmac_updates-append [] m = ap (λ n. digests.digest_update c n) (sym (append-nil m))
    hmac_updates-append (none ∷ rest) m = hmac_updates-append rest m
    hmac_updates-append (some bytes ∷ rest) m =
        rw
          (
            law.update_append c m bytes,
            hmac_updates-append rest (m ++ bytes),
            append_assoc m bytes (given rest),
          )
          refl

    -- Whatever calls are made of a hash, in any order, `final` as often as one likes: it answers as an object
    -- that keeps the bytes of all the updates and gives the digest of them. The digests take a message
    -- in pieces, as OpenSSL promises.
    pub hash_calls-promised :
        (calls : List Call) → hash_calls calls c ≡ promised (digest_from c) calls []
    hash_calls-promised calls =
        ap (λ d. hash_calls calls d) (sym (law.update_empty c)) ∙ calls-promised calls []

    -- A MAC that was given bytes in any pieces, some of them refused, answers the first `final` with the code
    -- of the bytes put together.
    hmac_final-updates :
        (args : List (Option (List ℕ))) (arg : EncodingArg)
        → (hmac_final digests arg (hmac_updates args c)).1
          ≡ encoded arg (digest_from c (given args))
    unfolding hmac_final
    hmac_final-updates args arg =
        ap (λ d. encoded arg (digests.digest_final d).0)
          (ap (λ d. hmac_updates args d) (sym (law.update_empty c)) ∙ hmac_updates-append args [])
