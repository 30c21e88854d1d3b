-- ===== src/Crypto/Peer.antt =====
-- `GetPeerCertificate` of the crypto socket (src/luanode_crypto.cpp), over OpenSSL's certificates.
pub mod Fields
use lua_node.Base.{ℕ, Option, none, some, List, [], ◌++◌, take, drop}
use lua_node.Crypto.Hex.{c_string, fingerprint}

-- OpenSSL, of a certificate: the names as lines, where there is memory for them; what it prints of the
-- times; and the SHA-1 digest.
pub record Certificates (Certificate : Type 0) : Type 0 where
  pub subject_name : Certificate → Option (List ℕ)
  pub issuer_name : Certificate → Option (List ℕ)
  pub not_before : Certificate → List ℕ
  pub not_after : Certificate → List ℕ
  pub sha1 : Certificate → Option (List ℕ)

-- The fields of the table.
pub record PeerCertificate : Type 0 where
  pub subject : Option (List ℕ)
  pub issuer : Option (List ℕ)
  pub valid_from : List ℕ
  pub valid_to : List ℕ
  pub fingerprint_text : Option (List ℕ)

-- BIO_read to a buffer of 256 zeros: the text that it makes, and what is left in the BIO.
unfoldable pub bio_read : List ℕ → List ℕ × List ℕ
bio_read bio = (c_string (take 255 bio), drop 255 bio)

abbrev pub fingerprint_of : Option (List ℕ) → Option (List ℕ)
fingerprint_of none = none
fingerprint_of (some md) = some (fingerprint md)

module _ {Certificate : Type 0} (openssl : Certificates Certificate) where
  -- Both times go through one BIO. Without a certificate the method answers with nil and an error.
  unfoldable pub get_peer_certificate : Option Certificate → Option PeerCertificate
  get_peer_certificate none = none
  get_peer_certificate (some x509) =
      let (from, left) = bio_read (openssl.not_before x509) in
      let (to, _) = bio_read (left ++ openssl.not_after x509) in
      some (record {
        subject = openssl.subject_name x509;
        issuer = openssl.issuer_name x509;
        valid_from = from;
        valid_to = to;
        fingerprint_text = fingerprint_of (openssl.sha1 x509);
      })
