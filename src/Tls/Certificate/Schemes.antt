-- ===== src/Tls/Certificate/Schemes.antt =====
-- src/tls/cert.rs: which scheme is chosen.
use rust_xhttp.Common.{
  ℕ, ◌≡◌, ap, sym, ◌∙◌, [], ◌∷◌, List, true, false, Option, none, some, ◌==◌, arith, Bool-cases,
  inl, inr,
}
use rust_xhttp.Tls.ClientHello.Message.{contains}
use rust_xhttp.Tls.Certificate.{
  SigningKey, rsa, ecdsa_p256, ecdsa_p384, ed25519, choose_first, only, choose_scheme, rsa_schemes,
  ecdsa_nistp256_sha256, ecdsa_nistp384_sha384, ed25519_scheme,
}

-- The schemes that a key can sign with.
abbrev pub schemes_of : SigningKey → List ℕ
schemes_of (rsa key) = rsa_schemes
schemes_of (ecdsa_p256 key) = ecdsa_nistp256_sha256 ∷ []
schemes_of (ecdsa_p384 key) = ecdsa_nistp384_sha384 ∷ []
schemes_of (ed25519 key) = ed25519_scheme ∷ []

-- What is chosen is offered and can be used; nothing is chosen where nothing offered can be used.
abbrev pub IsChoice : List ℕ → List ℕ → Option ℕ → Type 0
IsChoice offered usable none = (s : ℕ) → contains offered s ≡ true → contains usable s ≡ false
IsChoice offered usable (some s) = (contains offered s ≡ true) × (contains usable s ≡ true)

-- An offer in front that cannot be used changes nothing.
later-IsChoice :
    (scheme : ℕ) (offered usable : List ℕ) (o : Option ℕ)
    → contains usable scheme ≡ false
    → IsChoice offered usable o
    → IsChoice (scheme ∷ offered) usable o
later-IsChoice scheme offered usable none other h = λ s e. elim (Bool-cases (scheme == s)) [
  | inl same ↦ let here : scheme ≡ s = ground arith in ap (contains usable) (sym here) ∙ other
  | inr another ↦ h s (ground (arith, e))
]
later-IsChoice scheme offered usable (some s) other h = (ground (arith, h.0), h.1)

choose_first-IsChoice :
    (offered usable : List ℕ) → IsChoice offered usable (choose_first offered usable)
unfolding choose_first
choose_first-IsChoice [] usable = λ s e. absurd cc
choose_first-IsChoice (scheme ∷ offered) usable = elim (Bool-cases (contains usable scheme)) [
  | inl fits ↦ rw fits (ground arith, fits)
  | inr other ↦ rw other (
      later-IsChoice scheme offered usable (choose_first offered usable) other
        (choose_first-IsChoice offered usable))
]

only-IsChoice :
    (offered : List ℕ) (scheme : ℕ) → IsChoice offered (scheme ∷ []) (only offered scheme)
only-IsChoice offered scheme = elim (Bool-cases (contains offered scheme)) [
  | inl fits ↦ rw fits (fits, ground arith)
  | inr other ↦ rw other (λ s e. elim (Bool-cases (scheme == s)) [
    | inl same ↦
        let here : scheme ≡ s = ground arith in absurd (ground (arith, ap (contains offered) here))
    | inr another ↦ ground arith
  ])
]

-- For every key and every offer, the scheme that is chosen was offered by the client and is one that
-- the key can sign with, and there is none only if the client offered none of those.
pub choose_scheme-IsChoice :
    (key : SigningKey) (offered : List ℕ)
    → IsChoice offered (schemes_of key) (choose_scheme key offered)
unfolding choose_scheme
choose_scheme-IsChoice (rsa key) offered = choose_first-IsChoice offered rsa_schemes
choose_scheme-IsChoice (ecdsa_p256 key) offered = only-IsChoice offered ecdsa_nistp256_sha256
choose_scheme-IsChoice (ecdsa_p384 key) offered = only-IsChoice offered ecdsa_nistp384_sha384
choose_scheme-IsChoice (ed25519 key) offered = only-IsChoice offered ed25519_scheme
