-- ===== src/Tls/ClientHello.antt =====
-- src/tls/client_hello.rs: the parser of a ClientHello. A reader is the bytes that it has not taken
-- yet: an error leaves the function that owns the reader, or its loop. A loop over a reader has as many
-- rounds as the reader has bytes, and each round takes one at least. `alpn_offer_hash` calls a hasher
-- of the standard library and is left out.
use rust_xhttp.Common.{
  ℕ, zero, suc, ◌+◌, ◌-◌, ◌*◌, ◌/◌, ◌%◌, Bool, true, false, not, ◌&&◌, ◌||◌, ◌==◌, if◌then◌else◌,
  List, [], ◌∷◌, ◌++◌, Option, none, some, Bytes, length, Result, ok, err, ok_or, guard, ◌>>=◌,
  ◌>>◌, u16_of,
}
use rust_xhttp.Common.Utf8.{read_exact, read_u8, read_u16, is_utf8}
use Prim.Native.Nat.{bit_and}
pub mod Extensions
pub mod Message
pub mod RecordBuffer
pub mod Reassembly
pub mod Offer
pub mod Lists
pub mod RoundTrip

abbrev pub handshake_type_client_hello : ℕ
handshake_type_client_hello = 0x01

abbrev pub ext_server_name : ℕ
ext_server_name = 0x0000

abbrev pub ext_signature_algorithms : ℕ
ext_signature_algorithms = 0x000d

abbrev pub ext_alpn : ℕ
ext_alpn = 0x0010

abbrev pub ext_supported_versions : ℕ
ext_supported_versions = 0x002b

abbrev pub ext_key_share : ℕ
ext_key_share = 0x0033

pub record KeyShare : Type 0 where
  pub group : ℕ
  pub key : Bytes

pub record ClientHello : Type 0 where
  pub server_name : Option Bytes
  pub random : Bytes
  pub session_id : Bytes
  pub cipher_suites : List ℕ
  pub key_shares : List KeyShare
  pub signature_schemes : List ℕ
  pub offers_tls13 : Bool
  pub alpn : List Bytes
  pub raw_message : Bytes

pub data ParseError : Type 0 where
  truncated not_handshake_record not_client_hello malformed : ParseError

-- `Reader::take`, `Reader::u8`, `Reader::u16`, `Reader::u24`
abbrev pub take_slice : ℕ → Bytes → Result ParseError (Bytes × Bytes)
take_slice len r = ok_or (read_exact len r) truncated

abbrev pub u8 : Bytes → Result ParseError (ℕ × Bytes)
u8 r = ok_or (read_u8 r) truncated

abbrev pub u16 : Bytes → Result ParseError (ℕ × Bytes)
u16 r = ok_or (read_u16 r) truncated

abbrev pub u24 : Bytes → Result ParseError (ℕ × Bytes)
u24 (a ∷ b ∷ c ∷ r) = ok (a * 65536 + b * 256 + c, r)
u24 _ = err truncated

-- A list behind its length as one byte or two.
abbrev pub take_u8_list : Bytes → Result ParseError (Bytes × Bytes)
take_u8_list bytes = do (list_len, r) ← u8 bytes; take_slice list_len r

abbrev pub take_u16_list : Bytes → Result ParseError (Bytes × Bytes)
take_u16_list bytes = do (list_len, r) ← u16 bytes; take_slice list_len r

-- `chunks_exact(2)`, each as a word.
abbrev pub u16_chunks : Bytes → List ℕ
u16_chunks (hi ∷ lo ∷ rest) = u16_of hi lo ∷ u16_chunks rest
u16_chunks _ = []

unfoldable pub parse_signature_schemes : Bytes → Result ParseError (List ℕ)
parse_signature_schemes bytes = do
  (list_len, r) ← u16 bytes
  guard (list_len % 2 == 0) malformed
  (list, r) ← take_slice list_len r
  guard (length r == 0) malformed
  ok (u16_chunks list)

-- The type of a name and the name.
abbrev pub sni_entry : Bytes → Result ParseError (ℕ × Bytes × Bytes)
sni_entry names = do (name_type, r) ← u8 names; (name, r) ← take_u16_list r; ok (name_type, name, r)

abbrev pub sni_name : Result ParseError (ℕ × Bytes × Bytes) → (Bytes → Option Bytes) → Option Bytes
sni_name (err e) next = none
sni_name (ok (name_type, name, r)) next =
    let later = next r in
    if name_type == 0 then (if is_utf8 name then some name else none) else later

unfoldable pub sni_names : ℕ → Bytes → Option Bytes
sni_names zero names = none
sni_names (suc fuel) [] = none
sni_names (suc fuel) (b ∷ names) = sni_name (sni_entry (b ∷ names)) (sni_names fuel)

abbrev pub sni_list : Result ParseError (Bytes × Bytes) → Option Bytes
sni_list (err e) = none
sni_list (ok (list, r)) = sni_names (length list) list

unfoldable pub parse_sni : Bytes → Option Bytes
parse_sni bytes = sni_list (take_u16_list bytes)

-- An odd byte at the end is an error of the reader, which ends the loop.
unfoldable pub versions_offer : Bytes → Bool
versions_offer (hi ∷ lo ∷ rest) =
    let later = versions_offer rest in if u16_of hi lo == 0x0304 then true else later
versions_offer _ = false

abbrev pub versions_list : Result ParseError (Bytes × Bytes) → Bool
versions_list (err e) = false
versions_list (ok (list, r)) = versions_offer list

unfoldable pub parse_supported_versions : Bytes → Bool
parse_supported_versions bytes = versions_list (take_u8_list bytes)

abbrev pub alpn_name : Result ParseError (Bytes × Bytes) → (Bytes → List Bytes) → List Bytes
alpn_name (err e) next = []
alpn_name (ok (name, r)) next = let later = next r in if is_utf8 name then name ∷ later else later

unfoldable pub alpn_names : ℕ → Bytes → List Bytes
alpn_names zero names = []
alpn_names (suc fuel) [] = []
alpn_names (suc fuel) (b ∷ names) = alpn_name (take_u8_list (b ∷ names)) (alpn_names fuel)

abbrev pub alpn_list : Result ParseError (Bytes × Bytes) → List Bytes
alpn_list (err e) = []
alpn_list (ok (list, r)) = alpn_names (length list) list

unfoldable pub parse_alpn : Bytes → List Bytes
parse_alpn bytes = alpn_list (take_u16_list bytes)

abbrev pub key_share_entry : Bytes → Result ParseError (KeyShare × Bytes)
key_share_entry entries = do
  (group, r) ← u16 entries
  (key, r) ← take_u16_list r
  ok (record { group = group; key = key }, r)

unfoldable pub key_share_entries : ℕ → Bytes → List KeyShare → Result ParseError (List KeyShare)
key_share_entries zero entries key_shares = ok key_shares
key_share_entries (suc fuel) [] key_shares = ok key_shares
key_share_entries (suc fuel) (b ∷ entries) key_shares = do
  (share, r) ← key_share_entry (b ∷ entries)
  key_share_entries fuel r (key_shares ++ share ∷ [])

unfoldable pub parse_key_shares : Bytes → List KeyShare → Result ParseError (List KeyShare)
parse_key_shares bytes key_shares = do
  (list, r) ← take_u16_list bytes
  key_share_entries (length list) list key_shares
