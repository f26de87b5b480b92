-- ===== src/Config/Stream.antt =====
-- src/config.rs: the transport of the inbound: TLS with its certificates, and XHTTP.
use rust_xhttp.Common.{
  ℕ, Bool, true, false, not, ◌&&◌, ◌||◌, ◌==◌, leb, ltb, List, [], ◌∷◌, ◌++◌, Option, none, some,
  Bytes, bytes_eq, Result, ok, err, ◌>>=◌, ◌>>◌, guard, ok_or, if◌then◌else◌,
}
use rust_xhttp.Xhttp.Padding.{split_once}
use rust_xhttp.Config.{
  AcmeConfig, TlsConfig, UplinkDataPlacement, XhttpConfig, TlsCertificateConfig, TlsSettings,
  XhttpSettings, StreamSettings, ConfigError, body, tls_settings_without_tls, tls_without_settings,
  alpn_not_known, one_certificate_or_acme, unsupported_security, terms_not_accepted, no_domains,
  zero_challenge_port, invalid_dns_name, invalid_email, directory_not_https,
  renew_before_days_out_of_range, zero_renew_check_hours, invalid_range, zero_post_limits,
  range_out_of_order, data_key_required,
}
use rust_xhttp.Config.Text.{
  is_empty, contains, starts_with, ends_with, is_ascii, to_ascii_lowercase, trim, parse_u32, join,
}

-- A domain that the loop of `validate_acme` refuses.
abbrev pub bad_domain : Bytes → Bool
bad_domain domain =
    is_empty domain
    || not (is_ascii domain)
    || starts_with domain (b'*' ∷ b'.' ∷ [])
    || (contains domain b'/'
        || contains domain b':'
        || contains domain 32
        || contains domain 9
        || contains domain 10)
    || not (contains domain b'.')

unfoldable pub validate_domains : List Bytes → Result ConfigError (Unit {0})
validate_domains [] = ok tt
validate_domains (domain ∷ domains) =
    let later = validate_domains domains in
    if bad_domain domain then err invalid_dns_name else later

abbrev pub https : Bytes
https = b'h' ∷ b't' ∷ b't' ∷ b'p' ∷ b's' ∷ b':' ∷ b'/' ∷ b'/' ∷ []

abbrev pub no_domain : List Bytes → Bool
no_domain [] = true
no_domain (domain ∷ domains) = false

unfoldable pub validate_acme : AcmeConfig → Result ConfigError (Unit {0})
validate_acme acme = do
  guard acme.accept_terms terms_not_accepted
  guard (not (no_domain acme.domains)) no_domains
  guard (not (acme.challenge_listen.port == 0)) zero_challenge_port
  validate_domains acme.domains
  guard (contains acme.email b'@') invalid_email
  guard (starts_with acme.directory_url https) directory_not_https
  guard (not (acme.renew_before_days == 0 || leb 90 acme.renew_before_days))
      renew_before_days_out_of_range
  guard (not (acme.renew_check_hours == 0)) zero_renew_check_hours
  ok tt

abbrev pub h2 : Bytes
h2 = b'h' ∷ b'2' ∷ []

abbrev pub http11 : Bytes
http11 = b'h' ∷ b't' ∷ b't' ∷ b'p' ∷ b'/' ∷ b'1' ∷ b'.' ∷ b'1' ∷ []

abbrev pub known_protocol : Bytes → Bool
known_protocol value = bytes_eq value h2 || bytes_eq value http11

abbrev pub all_known : List Bytes → Bool
all_known [] = true
all_known (value ∷ alpn) = known_protocol value && all_known alpn

abbrev pub certificate_pem : Bytes
certificate_pem =
    b'c' ∷ b'u' ∷ b'r' ∷ b'r' ∷ b'e' ∷ b'n' ∷ b't' ∷ b'/' ∷ b'c' ∷ b'e' ∷ b'r' ∷ b't' ∷ b'i' ∷ b'f'
    ∷ b'i' ∷ b'c' ∷ b'a' ∷ b't' ∷ b'e' ∷ b'.' ∷ b'p' ∷ b'e' ∷ b'm' ∷ []

abbrev pub private_key_pem : Bytes
private_key_pem =
    b'c' ∷ b'u' ∷ b'r' ∷ b'r' ∷ b'e' ∷ b'n' ∷ b't' ∷ b'/' ∷ b'p' ∷ b'r' ∷ b'i' ∷ b'v' ∷ b'a' ∷ b't'
    ∷ b'e' ∷ b'-' ∷ b'k' ∷ b'e' ∷ b'y' ∷ b'.' ∷ b'p' ∷ b'e' ∷ b'm' ∷ []

abbrev pub acme_tls : List Bytes → AcmeConfig → TlsConfig
acme_tls alpn acme = record {
  cert = join acme.cache_dir certificate_pem;
  key = join acme.cache_dir private_key_pem;
  alpn = alpn;
  acme = some acme;
}

-- Exactly one certificate or one ACME object.
abbrev pub tls_source :
    List Bytes
    → List TlsCertificateConfig
    → Option AcmeConfig
    → Result ConfigError (Option TlsConfig)
tls_source alpn (manual ∷ []) none = ok (
    some
      (record { cert = manual.certificate_file; key = manual.key_file; alpn = alpn; acme = none }))
tls_source alpn [] (some acme) = validate_acme acme >> ok (some (acme_tls alpn acme))
tls_source alpn certificates acme = err one_certificate_or_acme

unfoldable pub tls_of : TlsSettings → Result ConfigError (Option TlsConfig)
tls_of settings = do
  guard (not (no_domain settings.alpn) && all_known settings.alpn) alpn_not_known
  tls_source settings.alpn settings.certificates settings.acme

abbrev pub without_tls : Option TlsSettings → Result ConfigError (Option TlsConfig)
without_tls none = ok none
without_tls (some settings) = err tls_settings_without_tls

abbrev pub with_tls : Option TlsSettings → Result ConfigError (Option TlsConfig)
with_tls none = err tls_without_settings
with_tls (some settings) = tls_of settings

unfoldable pub parse_tls : StreamSettings → Result ConfigError (Option TlsConfig)
parse_tls stream =
    let security = to_ascii_lowercase stream.security in
    if is_empty security || bytes_eq security (b'n' ∷ b'o' ∷ b'n' ∷ b'e' ∷ [])
    then without_tls stream.tls_settings
    else if bytes_eq security (b't' ∷ b'l' ∷ b's' ∷ [])
    then with_tls stream.tls_settings
    else err unsupported_security

abbrev pub halves : Bytes → Option (Bytes × Bytes) → Bytes × Bytes
halves value none = (value, value)
halves value (some pair) = pair

unfoldable pub parse_range : Bytes → Result ConfigError (ℕ × ℕ)
parse_range value =
    let (first, second) = halves value (split_once b'-' value) in
    do
      from ← ok_or (parse_u32 (trim first)) invalid_range
      to ← ok_or (parse_u32 (trim second)) invalid_range
      guard (not (from == 0 || ltb to from)) range_out_of_order
      ok (from, to)

unfoldable pub parse_xhttp : XhttpSettings → Result ConfigError XhttpConfig
parse_xhttp raw = do
  (padding_from, padding_to) ← parse_range raw.x_padding_bytes
  ok (record {
    path = raw.path;
    host = raw.host;
    max_each_post_bytes = raw.sc_max_each_post_bytes;
    max_buffered_posts = raw.sc_max_buffered_posts;
    session_grace_secs = raw.session_grace_seconds;
    sse_header = not raw.no_sse_header;
    max_header_bytes = raw.server_max_header_bytes;
    padding_from = padding_from;
    padding_to = padding_to;
    uplink_data_placement = raw.uplink_data_placement;
    uplink_data_key = raw.uplink_data_key;
  })

abbrev pub is_body : UplinkDataPlacement → Bool
is_body body = true
is_body _ = false

-- A slash in front and one at the end.
abbrev pub normal_path : Bytes → Bytes
normal_path path =
    let rooted =
      if is_empty path || not (starts_with path (b'/' ∷ [])) then b'/' ∷ path else path in
    if not (ends_with rooted b'/') then rooted ++ b'/' ∷ [] else rooted

unfoldable pub normalize_xhttp : XhttpConfig → Result ConfigError XhttpConfig
normalize_xhttp xhttp = do
  guard (not (xhttp.max_each_post_bytes == 0 || xhttp.max_buffered_posts == 0)) zero_post_limits
  guard (not (not (is_body xhttp.uplink_data_placement) && is_empty xhttp.uplink_data_key))
      data_key_required
  ok (record xhttp { path = normal_path xhttp.path })
