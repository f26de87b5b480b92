-- ===== src/Tls/ClientHello/Extensions.antt =====
-- src/tls/client_hello.rs: the extensions.
use rust_xhttp.Common.{
  ℕ, zero, suc, Bool, false, ◌==◌, if◌then◌else◌, List, [], ◌∷◌, Option, none, Bytes, Result, ok,
  err, ◌>>=◌,
}
use rust_xhttp.Tls.ClientHello.{
  KeyShare, ParseError, u16, take_u16_list, ext_server_name, ext_supported_versions,
  ext_signature_algorithms, ext_alpn, ext_key_share, parse_sni, parse_supported_versions,
  parse_signature_schemes, parse_alpn, parse_key_shares,
}

-- What `parse_extensions` writes to.
pub record Found : Type 0 where
  pub server_name : Option Bytes
  pub key_shares : List KeyShare
  pub signature_schemes : List ℕ
  pub offers_tls13 : Bool
  pub alpn : List Bytes

abbrev pub nothing_found : Found
nothing_found = record {
  server_name = none;
  key_shares = [];
  signature_schemes = [];
  offers_tls13 = false;
  alpn = [];
}

-- The arms of the `match` that can fail.
abbrev pub with_schemes : Found → Result ParseError (List ℕ) → Result ParseError Found
with_schemes x (err e) = err e
with_schemes x (ok schemes) = ok (record x { signature_schemes = schemes })

abbrev pub with_shares : Found → Result ParseError (List KeyShare) → Result ParseError Found
with_shares x (err e) = err e
with_shares x (ok shares) = ok (record x { key_shares = shares })

unfoldable pub match_ext_type : ℕ → Bytes → Found → Result ParseError Found
match_ext_type ext_type body x =
    if ext_type == ext_server_name
    then ok (record x { server_name = parse_sni body })
    else if ext_type == ext_supported_versions
    then ok (record x { offers_tls13 = parse_supported_versions body })
    else if ext_type == ext_signature_algorithms
    then with_schemes x (parse_signature_schemes body)
    else if ext_type == ext_alpn
    then ok (record x { alpn = parse_alpn body })
    else if ext_type == ext_key_share
    then with_shares x (parse_key_shares body x.key_shares)
    else ok x

unfoldable pub parse_extensions : ℕ → Bytes → Found → Result ParseError Found
parse_extensions zero bytes x = ok x
parse_extensions (suc fuel) [] x = ok x
parse_extensions (suc fuel) (b ∷ bytes) x = do
  (ext_type, r) ← u16 (b ∷ bytes)
  (body, r) ← take_u16_list r
  x ← match_ext_type ext_type body x
  parse_extensions fuel r x
