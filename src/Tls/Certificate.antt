-- ===== src/Tls/Certificate.antt =====
-- src/tls/cert.rs: the choice of a signature scheme, and the messages of a certificate. The
-- signatures, which `ring` makes, are a parameter (a `Signing`). A scheme is its number.
pub mod Schemes
use rust_xhttp.Common.{
  ℕ, ◌/◌, ◌%◌, ◌^◌, [], ◌∷◌, ◌++◌, List, Bool, true, false, Option, none, some, Bytes, length,
  replicate, as_u8, as_u16, u16_be, ◌==◌, ◌||◌, if◌then◌else◌, Result, ok, err, ◌>>=◌, ◌>>◌, guard,
  ok_or, map_err,
}
use rust_xhttp.Tls.Messages.{handshake_message}
use rust_xhttp.Tls.ClientHello.Message.{contains}

abbrev pub hs_certificate : ℕ
hs_certificate = 11

abbrev pub hs_certificate_verify : ℕ
hs_certificate_verify = 15

-- `SERVER_CERT_VERIFY_CONTEXT`
abbrev pub server_cert_verify_context : Bytes
server_cert_verify_context =
    b'T' ∷ b'L' ∷ b'S' ∷ b' ' ∷ b'1' ∷ b'.' ∷ b'3' ∷ b',' ∷ b' ' ∷ b's' ∷ b'e' ∷ b'r' ∷ b'v' ∷ b'e'
    ∷ b'r' ∷ b' ' ∷ b'C' ∷ b'e' ∷ b'r' ∷ b't' ∷ b'i' ∷ b'f' ∷ b'i' ∷ b'c' ∷ b'a' ∷ b't' ∷ b'e'
    ∷ b'V' ∷ b'e' ∷ b'r' ∷ b'i' ∷ b'f' ∷ b'y' ∷ []

abbrev pub ecdsa_nistp256_sha256 : ℕ
ecdsa_nistp256_sha256 = 0x0403

abbrev pub ecdsa_nistp384_sha384 : ℕ
ecdsa_nistp384_sha384 = 0x0503

abbrev pub rsa_pss_sha256 : ℕ
rsa_pss_sha256 = 0x0804

abbrev pub rsa_pss_sha384 : ℕ
rsa_pss_sha384 = 0x0805

abbrev pub rsa_pss_sha512 : ℕ
rsa_pss_sha512 = 0x0806

abbrev pub ed25519_scheme : ℕ
ed25519_scheme = 0x0807

abbrev pub rsa_schemes : List ℕ
rsa_schemes = rsa_pss_sha256 ∷ rsa_pss_sha384 ∷ rsa_pss_sha512 ∷ []

-- `RingSigningKey`
pub data SigningKey : Type 0 where
  rsa ecdsa_p256 ecdsa_p384 ed25519 : Bytes → SigningKey

-- The key, the scheme and the message for RSA, the key and the message for the others; only the
-- signatures of Ed25519 cannot fail.
pub record Signing : Type 0 where
  pub sign_rsa : Bytes → ℕ → Bytes → Option Bytes
  pub sign_ecdsa : Bytes → Bytes → Option Bytes
  pub sign_ed25519 : Bytes → Bytes → Bytes

pub data SignError : Type 0 where
  unsupported_signature_scheme : ℕ → SignError
  signing_failed : SignError

pub data CertificateVerifyError : Type 0 where
  no_supported_signature_scheme : CertificateVerifyError
  signing : SignError → CertificateVerifyError

unfoldable pub choose_first : List ℕ → List ℕ → Option ℕ
choose_first [] allowed = none
choose_first (scheme ∷ offered) allowed =
    let later = choose_first offered allowed in
    if contains allowed scheme then some scheme else later

abbrev pub only : List ℕ → ℕ → Option ℕ
only offered scheme = if contains offered scheme then some scheme else none

-- `RingSigningKey::choose_scheme`, with the scheme of the signer
unfoldable pub choose_scheme : SigningKey → List ℕ → Option ℕ
choose_scheme (rsa key) offered = choose_first offered rsa_schemes
choose_scheme (ecdsa_p256 key) offered = only offered ecdsa_nistp256_sha256
choose_scheme (ecdsa_p384 key) offered = only offered ecdsa_nistp384_sha384
choose_scheme (ed25519 key) offered = only offered ed25519_scheme

-- `sign` of the signer for a key and a scheme
unfoldable pub sign : Signing → SigningKey → ℕ → Bytes → Result SignError Bytes
sign s (rsa key) scheme message =
    if contains rsa_schemes scheme
    then ok_or (s.sign_rsa key scheme message) signing_failed
    else err (unsupported_signature_scheme scheme)
sign s (ecdsa_p256 key) scheme message = ok_or (s.sign_ecdsa key message) signing_failed
sign s (ecdsa_p384 key) scheme message = ok_or (s.sign_ecdsa key message) signing_failed
sign s (ed25519 key) scheme message = ok (s.sign_ed25519 key message)

-- A length cut to 32 bits, of which the lower 24 are written.
abbrev pub u24_be : ℕ → Bytes → Bytes
u24_be n rest =
    let len = n % 2 ^ 32 in as_u8 (len / 2 ^ 16) ∷ as_u8 (len / 2 ^ 8) ∷ as_u8 len ∷ rest

unfoldable pub cert_list : List Bytes → Bytes
cert_list [] = []
cert_list (cert ∷ chain) = u24_be (length cert) (cert ++ (0 ∷ 0 ∷ cert_list chain))

unfoldable pub certificate_message : List Bytes → Bytes
certificate_message chain =
    handshake_message hs_certificate (0 ∷ u24_be (length (cert_list chain)) (cert_list chain))

unfoldable pub certificate_verify_content : Bytes → Bytes
certificate_verify_content transcript_hash =
    replicate 64 0x20 ++ (server_cert_verify_context ++ (0 ∷ transcript_hash))

unfoldable pub certificate_verify_message : ℕ → Bytes → Bytes
certificate_verify_message scheme signature =
    handshake_message hs_certificate_verify
      (u16_be scheme (u16_be (as_u16 (length signature)) signature))

pub record CertifiedIdentity : Type 0 where
  pub cert_chain : List Bytes
  pub signing_key : SigningKey

unfoldable pub sign_certificate_verify :
    Signing → CertifiedIdentity → Bytes → List ℕ → Result CertificateVerifyError Bytes
sign_certificate_verify s identity transcript_hash offered_schemes = do
  scheme ← ok_or (choose_scheme identity.signing_key offered_schemes) no_supported_signature_scheme
  signature ←
      map_err signing
        (sign s identity.signing_key scheme (certificate_verify_content transcript_hash))
  ok (certificate_verify_message scheme signature)
