-- ===== src/Tls/ClientHello/Message.antt =====
-- src/tls/client_hello.rs: the message, alone and in one record, and what the hello offers.
use rust_xhttp.Common.{
  ℕ, ◌-◌, ◌/◌, ◌%◌, Bool, false, not, ◌&&◌, ◌||◌, ◌==◌, List, [], ◌∷◌, Bytes, length, Result, ok,
  err, ok_or, guard, ◌>>=◌, ◌>>◌, u16_of,
}
use rust_xhttp.Common.Utf8.{read_exact}
use Prim.Native.Nat.{bit_and}
use rust_xhttp.Tls.ClientHello.{
  KeyShare, ClientHello, ParseError, truncated, not_handshake_record, not_client_hello, malformed,
  u8, u16, u24, take_slice, take_u8_list, take_u16_list, u16_chunks, handshake_type_client_hello,
}
use rust_xhttp.Tls.ClientHello.Extensions.{Found, nothing_found, parse_extensions}

abbrev pub tls_record_handshake : ℕ
tls_record_handshake = 0x16

-- A message may end behind the compression methods.
unfoldable pub extensions_block : Bytes → Result ParseError (Found × Bytes)
extensions_block [] = ok (nothing_found, [])
extensions_block (b ∷ bytes) = do
  (extensions, r) ← take_u16_list (b ∷ bytes)
  x ← parse_extensions (length extensions) extensions nothing_found
  ok (x, r)

unfoldable pub parse_message : Bytes → Result ParseError ClientHello
parse_message message = do
  (msg_type, r) ← u8 message
  guard (msg_type == handshake_type_client_hello) not_client_hello
  (len, r) ← u24 r
  guard (len == length message - 4) malformed
  (legacy_version, r) ← u16 r
  (random, r) ← take_slice 32 r
  (session_id, r) ← take_u8_list r
  (cipher_len, r) ← u16 r
  guard (cipher_len % 2 == 0) malformed
  (cipher_bytes, r) ← take_slice cipher_len r
  (compression, r) ← take_u8_list r
  (x, r) ← extensions_block r
  guard (length r == 0) malformed
  ok (record {
    server_name = x.server_name;
    random = random;
    session_id = session_id;
    cipher_suites = u16_chunks cipher_bytes;
    key_shares = x.key_shares;
    signature_schemes = x.signature_schemes;
    offers_tls13 = x.offers_tls13;
    alpn = x.alpn;
    raw_message = message;
  })

unfoldable pub parse_record : Bytes → Result ParseError ClientHello
parse_record (t ∷ major ∷ minor ∷ hi ∷ lo ∷ rest) = do
  guard (t == tls_record_handshake) not_handshake_record
  (body, after) ← ok_or (read_exact (u16_of hi lo) rest) truncated
  parse_message body
parse_record record' = err truncated

unfoldable pub is_grease : ℕ → Bool
is_grease value = bit_and value 0x0f0f == 0x0a0a && value / 256 == bit_and value 0x00ff

abbrev pub contains : List ℕ → ℕ → Bool
contains [] id = false
contains (x ∷ xs) id = x == id || contains xs id

unfoldable pub cipher_offered : ClientHello → ℕ → Bool
cipher_offered hello id = contains hello.cipher_suites id

abbrev any_share : List KeyShare → ℕ → Bool
any_share [] group = false
any_share (share ∷ rest) group =
    (share.group == group && not (is_grease group)) || any_share rest group

unfoldable pub keyshare_group_offered : ClientHello → ℕ → Bool
keyshare_group_offered hello group = any_share hello.key_shares group
