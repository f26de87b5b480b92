-- ===== src/Tls/Messages.antt =====
-- src/tls/tls13/messages.rs: the handshake messages that are written, and the cipher suite of a
-- ServerHello. The random bytes of a ticket are arguments.
pub mod KeyShare
pub mod Layout
pub mod Found
use rust_xhttp.Common.{
  ℕ, ◌+◌, ◌/◌, ◌%◌, ◌^◌, max, [], ◌∷◌, ◌++◌, Option, none, some, Bytes, length, as_u8, as_u16,
  u16_be, u16_of, get_elem?,
}

abbrev pub hs_new_session_ticket : ℕ
hs_new_session_ticket = 4

abbrev pub hs_encrypted_extensions : ℕ
hs_encrypted_extensions = 8

abbrev pub hs_finished : ℕ
hs_finished = 20

abbrev pub ext_alpn : ℕ
ext_alpn = 0x0010

-- The length is cut to 32 bits, of which the lower 24 are written.
unfoldable pub handshake_message : ℕ → Bytes → Bytes
handshake_message msg_type body =
    let len = length body % 2 ^ 32 in
    msg_type ∷ as_u8 (len / 65536) ∷ as_u8 (len / 256) ∷ as_u8 len ∷ body

unfoldable pub encrypted_extensions : Bytes
encrypted_extensions = handshake_message hs_encrypted_extensions (0x00 ∷ 0x00 ∷ [])

-- A length in front of some bytes: `(x.len() as u16).to_be_bytes()` and `x`.
abbrev pub with_length : Bytes → Bytes
with_length bytes = u16_be (as_u16 (length bytes)) bytes

unfoldable pub encrypted_extensions_with_alpn : Option Bytes → Bytes
unfolding encrypted_extensions
encrypted_extensions_with_alpn none = encrypted_extensions
encrypted_extensions_with_alpn (some protocol) =
    let protocol_name_list = as_u8 (length protocol) ∷ protocol in
    let extensions = u16_be ext_alpn (with_length (with_length protocol_name_list)) in
    handshake_message hs_encrypted_extensions (with_length extensions)

unfoldable pub finished_message : Bytes → Bytes
finished_message verify_data = handshake_message hs_finished verify_data

-- `age_add` is the random number, as four bytes, and `random` the random bytes for a length.
unfoldable pub new_session_ticket : Bytes → (ℕ → Bytes) → ℕ → Bytes
new_session_ticket age_add random ticket_len =
    let len = max ticket_len 1 in
    handshake_message hs_new_session_ticket
      (0 ∷ 0 ∷ 28 ∷ 32 ∷ (age_add ++ (0 ∷ u16_be (as_u16 len) (random len ++ 0 ∷ 0 ∷ []))))

abbrev pub u16_at : Option ℕ → Option ℕ → Option ℕ
u16_at (some hi) (some lo) = some (u16_of hi lo)
u16_at _ _ = none

abbrev pub after_session_id : ℕ → Option ℕ → Option ℕ
after_session_id pos none = none
after_session_id pos (some sid_len) = some (pos + (1 + sid_len))

unfoldable pub server_hello_cipher_suite : Bytes → Option ℕ
server_hello_cipher_suite server_hello =
    let pos = 1 + 3 + 2 + 32 in
    elim (after_session_id pos (get_elem? server_hello pos)) [
      | none ↦ none
      | some pos ↦ u16_at (get_elem? server_hello pos) (get_elem? server_hello (pos + 1))
    ]
