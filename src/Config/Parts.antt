-- ===== src/Config/Parts.antt =====
-- src/config.rs: what the parts of an accepted configuration satisfy.
use rust_xhttp.Common.{
  ℕ, ◌≤◌, ◌<◌, ◌^◌, ◌≡◌, ◌⊎◌, inl, inr, ap, sym, subst, ◌∙◌, Bool, true, false, not, ◌&&◌, ◌||◌,
  ◌==◌, ltb, List, [], ◌∷◌, Option, none, some, Bytes, bytes_eq, bytes_eq-eq, All, ltb→lt, Result,
  ok, err, ok_or, if◌then◌else◌, bind_inv, guard_inv, arith, Bool-cases,
}
use rust_xhttp.Config.{
  AcmeConfig, TlsConfig, TlsCertificateConfig, TlsSettings, StreamSettings, ConfigError,
  unsupported_security, alpn_not_known, invalid_range, range_out_of_order,
}
use rust_xhttp.Config.Text.{is_empty, to_ascii_lowercase, trim, parse_u32}
use rust_xhttp.Config.Stream.{
  no_domain, validate_acme, h2, http11, all_known, acme_tls, tls_source, tls_of, without_tls,
  with_tls, parse_tls, halves, parse_range,
}
use rust_xhttp.Config.Acme.{AcmeValid, validate_acme-AcmeValid}
use rust_xhttp.Xhttp.Padding.{split_once}
use rust_xhttp.Xhttp.Request.{parse_u64}

abbrev pub AcmeOption : Option AcmeConfig → Type 0
AcmeOption none = Unit {0}
AcmeOption (some acme) = AcmeValid acme

-- TLS settings that are accepted.
abbrev pub TlsValid : Option TlsConfig → Type 0
TlsValid none = Unit {0}
TlsValid (some tls) =
    (no_domain tls.alpn ≡ false) × All (λ p. (p ≡ h2) ⊎ (p ≡ http11)) tls.alpn × AcmeOption tls.acme

all_known-All :
    (alpn : List Bytes) → all_known alpn ≡ true → All (λ p. (p ≡ h2) ⊎ (p ≡ http11)) alpn
all_known-All [] e = tt
all_known-All (p ∷ alpn) e = (
  elim (Bool-cases (bytes_eq p h2)) [
    | inl yes_h2 ↦ inl (bytes_eq-eq p h2 yes_h2)
    | inr other ↦ inr (bytes_eq-eq p http11 (ground (arith, e)))
  ],
  all_known-All alpn (ground (arith, e)),
)

err_ok : {A : Type 0} {x : ConfigError} {a : A} → ◌≡◌ {A = Result ConfigError A} (err x) (ok a) → ⊥
err_ok e = cc

ok_inj : {A : Type 0} {a b : A} → ◌≡◌ {A = Result ConfigError A} (ok a) (ok b) → a ≡ b
ok_inj e = cc

tls_source-TlsValid :
    (alpn : List Bytes) (certificates : List TlsCertificateConfig) (acme : Option AcmeConfig)
    (t : Option TlsConfig)
    → no_domain alpn ≡ false
    → all_known alpn ≡ true
    → tls_source alpn certificates acme ≡ ok t
    → TlsValid t
tls_source-TlsValid alpn (manual ∷ []) none t h known e =
    subst TlsValid (ok_inj e) (h, all_known-All alpn known, tt)
tls_source-TlsValid alpn [] (some acme) t h known e =
    let (_, valid, e') = bind_inv (validate_acme acme) (λ _. ok (some (acme_tls alpn acme))) t e in
    subst TlsValid (ok_inj e') (h, all_known-All alpn known, validate_acme-AcmeValid acme valid)
tls_source-TlsValid alpn [] none t h known e = absurd (err_ok e)
tls_source-TlsValid alpn (m ∷ []) (some acme) t h known e = absurd (err_ok e)
tls_source-TlsValid alpn (m ∷ n ∷ more) acme t h known e = absurd (err_ok e)

settings-TlsValid :
    (settings : TlsSettings) (t : Option TlsConfig) → tls_of settings ≡ ok t → TlsValid t
unfolding tls_of
settings-TlsValid settings t e =
    let (known, e') =
      guard_inv (not (no_domain settings.alpn) && all_known settings.alpn) alpn_not_known
        (tls_source settings.alpn settings.certificates settings.acme) t e in
    tls_source-TlsValid settings.alpn settings.certificates settings.acme t (ground (arith, known))
      (ground (arith, known)) e'

security-TlsValid :
    (plain tls : Bool) (settings : Option TlsSettings) (t : Option TlsConfig)
    → (if plain
        then without_tls settings
        else if tls
        then with_tls settings
        else err unsupported_security)
      ≡ ok t
    → TlsValid t
security-TlsValid true tls none t e = subst TlsValid (ok_inj e) tt
security-TlsValid true tls (some settings) t e = absurd (err_ok e)
security-TlsValid false true none t e = absurd (err_ok e)
security-TlsValid false true (some settings) t e = settings-TlsValid settings t e
security-TlsValid false false settings t e = absurd (err_ok e)

pub parse_tls-TlsValid :
    (stream : StreamSettings) (t : Option TlsConfig) → parse_tls stream ≡ ok t → TlsValid t
unfolding parse_tls
parse_tls-TlsValid stream t e =
    let security = to_ascii_lowercase stream.security in
    security-TlsValid (is_empty security || bytes_eq security (b'n' ∷ b'o' ∷ b'n' ∷ b'e' ∷ []))
      (bytes_eq security (b't' ∷ b'l' ∷ b's' ∷ [])) stream.tls_settings t e

-- Range of a padding.
abbrev pub InRange : ℕ × ℕ → Type 0
InRange (from, to) = (1 ≤ from) × (from ≤ to) × (to < 2 ^ 32)

u32_bound :
    (o : Option ℕ) (n : ℕ)
    → (elim o [ none ↦ none | some m ↦ if ltb m (2 ^ 32) then some m else none ]) ≡ some n
    → n < 2 ^ 32
u32_bound none n e = absurd cc
u32_bound (some m) n e = elim (Bool-cases (ltb m (2 ^ 32))) [
  | inl small ↦
      let same : some m ≡ some n = sym (ap (λ b. if b then some m else none) small) ∙ e in
      let same' : m ≡ n = cc in omega (arith, ltb→lt m (2 ^ 32) small)
  | inr large ↦
      let clash : none ≡ some n = sym (ap (λ b. if b then some m else none) large) ∙ e in absurd cc
]

ok_or_inv : {A : Type 0} (o : Option A) (x : ConfigError) (a : A) → ok_or o x ≡ ok a → o ≡ some a
ok_or_inv none x a e = absurd (err_ok e)
ok_or_inv (some b) x a e = ap some (ok_inj e)

pub parse_range-InRange : (value : Bytes) (r : ℕ × ℕ) → parse_range value ≡ ok r → InRange r
unfolding parse_range parse_u32
parse_range-InRange value r e =
    let pair = halves value (split_once b'-' value) in
    let (from, e1, rest1) = bind_inv (ok_or (parse_u32 (trim pair.0)) invalid_range) _ r e in
    let (to, e2, rest2) = bind_inv (ok_or (parse_u32 (trim pair.1)) invalid_range) _ r rest1 in
    let (order, rest3) =
      guard_inv (not (from == 0 || ltb to from)) range_out_of_order (ok (from, to)) r rest2 in
    let bound =
      u32_bound (parse_u64 (trim pair.1)) to
        (ok_or_inv (parse_u32 (trim pair.1)) invalid_range to e2) in
    subst InRange (ok_inj rest3) (ground (arith, order), ground (arith, order), bound)
