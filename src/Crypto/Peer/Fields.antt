-- ===== src/Crypto/Peer/Fields.antt =====
-- The fields of the table that describes a certificate.
use lua_node.Base.{
  ℕ, zero, suc, ◌<◌, ◌≤◌, ◌≡◌, refl, ap, ◌∙◌, some, List, [], ◌∷◌, length, take, drop, All, arith,
}
use lua_node.Crypto.Hex.{IsByte, c_string}
use lua_node.Crypto.Hex.Fingerprint.{joined, fingerprint-joined, c_string-keeps}
use lua_node.Crypto.Peer.{Certificates, bio_read, get_peer_certificate}

-- A text without the character that ends a string, short enough for the buffer.
abbrev pub IsTime : List ℕ → Type 0
IsTime text = All (λ c. 0 < c) text × (length text ≤ 255)

c_string-text : (text : List ℕ) → All (λ c. 0 < c) text → c_string text ≡ text
unfolding c_string
c_string-text [] h = refl
c_string-text (c ∷ cs) h = c_string-keeps c cs h.0 ∙ ap (λ ds. c ∷ ds) (c_string-text cs h.1)

take_all : (n : ℕ) (text : List ℕ) → length text ≤ n → (take n text ≡ text) × (drop n text ≡ [])
take_all zero [] h = (refl, refl)
take_all zero (c ∷ cs) h = absurd (omega (arith, h))
take_all (suc n) [] h = (refl, refl)
take_all (suc n) (c ∷ cs) h =
    let (t, d) = take_all n cs (omega (arith, h)) in (ap (λ ds. c ∷ ds) t, d)

bio_read-text : (text : List ℕ) → IsTime text → bio_read text ≡ (text, [])
unfolding bio_read
bio_read-text text h = let (t, d) = take_all 255 text h.1 in rw (t, d, c_string-text text h.0) refl

-- For a certificate whose times OpenSSL prints as at most 255 characters, and which has a digest, the table has
-- both times as they are printed, and the digest as two hexadecimal digits for each byte, with a colon
-- between two bytes.
get_peer_certificate-joined :
    {Certificate : Type 0} (openssl : Certificates Certificate) (x509 : Certificate) (md : List ℕ)
    → IsTime (openssl.not_before x509)
    → IsTime (openssl.not_after x509)
    → openssl.sha1 x509 ≡ some md
    → All IsByte md
    → get_peer_certificate openssl (some x509)
      ≡ some (record {
        subject = openssl.subject_name x509;
        issuer = openssl.issuer_name x509;
        valid_from = openssl.not_before x509;
        valid_to = openssl.not_after x509;
        fingerprint_text = some (joined md);
      })
unfolding get_peer_certificate
get_peer_certificate-joined openssl x509 md f t s b =
    rw
      (
        bio_read-text (openssl.not_before x509) f,
        bio_read-text (openssl.not_after x509) t,
        s,
        fingerprint-joined md b,
      )
      refl
