-- ===== src/Tls/ClientHello/Offer.antt =====
-- src/tls/client_hello.rs: what a ClientHello says, and its bytes (RFC 8446, section 4.1.2).
use rust_xhttp.Common.{
  ℕ, ◌/◌, ◌≡◌, ◌<◌, Bool, true, false, ◌||◌, ◌==◌, List, [], ◌∷◌, ◌++◌, some, Bytes, length, All,
  IsU16, u16_be, as_u8,
}
use rust_xhttp.Common.Utf8.{is_utf8}
use rust_xhttp.Tls.ClientHello.{
  KeyShare, ClientHello, handshake_type_client_hello, ext_server_name, ext_supported_versions,
  ext_signature_algorithms, ext_alpn, ext_key_share,
}
use rust_xhttp.Tls.ClientHello.Extensions.{Found, nothing_found}

pub data Extension : Type 0 where
  host : Bytes → Extension
  versions : List ℕ → Extension
  schemes : List ℕ → Extension
  protocols : List Bytes → Extension
  shares : List KeyShare → Extension
  other : ℕ → Bytes → Extension

-- Bytes behind their length in two bytes or one.
abbrev pub counted : Bytes → Bytes
counted bytes = u16_be (length bytes) bytes

abbrev pub counted_u8 : Bytes → Bytes
counted_u8 bytes = length bytes ∷ bytes

abbrev pub words : List ℕ → Bytes
words [] = []
words (w ∷ ws) = u16_be w (words ws)

abbrev pub protocol_bytes : List Bytes → Bytes
protocol_bytes [] = []
protocol_bytes (p ∷ ps) = counted_u8 p ++ protocol_bytes ps

abbrev pub share_bytes : List KeyShare → Bytes
share_bytes [] = []
share_bytes (s ∷ rest) = u16_be s.group (counted s.key) ++ share_bytes rest

abbrev pub type_of : Extension → ℕ
type_of (host name) = ext_server_name
type_of (versions vs) = ext_supported_versions
type_of (schemes ss) = ext_signature_algorithms
type_of (protocols ps) = ext_alpn
type_of (shares ks) = ext_key_share
type_of (other t body) = t

abbrev pub body_of : Extension → Bytes
body_of (host name) = counted (0 ∷ counted name)
body_of (versions vs) = counted_u8 (words vs)
body_of (schemes ss) = counted (words ss)
body_of (protocols ps) = counted (protocol_bytes ps)
body_of (shares ks) = counted (share_bytes ks)
body_of (other t body) = body

abbrev pub extension_bytes : List Extension → Bytes
extension_bytes [] = []
extension_bytes (e ∷ es) = u16_be (type_of e) (counted (body_of e)) ++ extension_bytes es

-- What the wire has room for, and the names are UTF-8.
abbrev pub is_read : ℕ → Bool
is_read t =
    t == ext_server_name
    || t == ext_supported_versions
    || t == ext_signature_algorithms
    || t == ext_alpn
    || t == ext_key_share

abbrev pub Wellformed : Extension → Type 0
Wellformed (host name) = is_utf8 name ≡ true
Wellformed (versions vs) = All IsU16 vs × (length (words vs) < 256)
Wellformed (schemes ss) = All IsU16 ss
Wellformed (protocols ps) = All (λ p. (length p < 256) × (is_utf8 p ≡ true)) ps
Wellformed (shares ks) = All (λ s. IsU16 s.group × IsU16 (length s.key)) ks
Wellformed (other t body) = IsU16 t × (is_read t ≡ false)

abbrev pub IsValid : Extension → Type 0
IsValid e = Wellformed e × IsU16 (length (body_of e))

-- What an extension adds to what has been found.
abbrev pub any_tls13 : List ℕ → Bool
any_tls13 [] = false
any_tls13 (v ∷ vs) = v == 0x0304 || any_tls13 vs

abbrev pub found : Found → Extension → Found
found x (host name) = record x { server_name = some name }
found x (versions vs) = record x { offers_tls13 = any_tls13 vs }
found x (schemes ss) = record x { signature_schemes = ss }
found x (protocols ps) = record x { alpn = ps }
found x (shares ks) = record x { key_shares = x.key_shares ++ ks }
found x (other t body) = x

abbrev pub found_all : Found → List Extension → Found
found_all x [] = x
found_all x (e ∷ es) = found_all (found x e) es

-- A hello.
pub record Offer : Type 0 where
  pub version : ℕ
  pub random : Bytes
  pub session_id : Bytes
  pub cipher_suites : List ℕ
  pub compression : Bytes
  pub extensions : List Extension

abbrev pub hello_body : Offer → Bytes
hello_body o = u16_be o.version (
    o.random
    ++ (counted_u8 o.session_id
        ++ (counted (words o.cipher_suites)
            ++ (counted_u8 o.compression ++ counted (extension_bytes o.extensions)))))

abbrev pub message : Offer → Bytes
message o =
    let n = length (hello_body o) in
    handshake_type_client_hello ∷ as_u8 (n / 65536) ∷ as_u8 (n / 256) ∷ as_u8 n ∷ hello_body o

pub record IsOffer (o : Offer) : Type 0 where
  pub random_len : length o.random ≡ 32
  pub session_id_len : length o.session_id < 256
  pub cipher_suites_fit : All IsU16 o.cipher_suites
  pub cipher_suites_len : IsU16 (length (words o.cipher_suites))
  pub compression_len : length o.compression < 256
  pub extensions_valid : All IsValid o.extensions
  pub extensions_len : IsU16 (length (extension_bytes o.extensions))

-- What is read of it.
abbrev pub hello_of : Offer → ClientHello
hello_of o =
    let x = found_all nothing_found o.extensions in
    record {
      server_name = x.server_name;
      random = o.random;
      session_id = o.session_id;
      cipher_suites = o.cipher_suites;
      key_shares = x.key_shares;
      signature_schemes = x.signature_schemes;
      offers_tls13 = x.offers_tls13;
      alpn = x.alpn;
      raw_message = message o;
    }
