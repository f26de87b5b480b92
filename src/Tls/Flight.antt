-- ===== src/Tls/Flight.antt =====
-- src/tls/tls13/flight.rs: the ServerHello that is made from a template, and the flight of the
-- server. The random bytes are an argument, a function of their number.
pub mod Template
pub mod Hello
pub mod Built
use rust_xhttp.Common.{
  ℕ, ◌+◌, ◌-◌, ◌*◌, ◌/◌, ◌^◌, [], ◌∷◌, ◌++◌, Bool, true, false, Option, none, some, Bytes, length,
  take, drop, get_elem?, as_u8, ◌==◌, leb, ltb, not, Result, ok, err, ◌>>=◌, ◌>>◌, guard, ok_or,
  map_err, if◌then◌else◌,
}
use rust_xhttp.Tls.Suite.{HashAlg, sha256, sha384, CipherSuite, from_u16, hash_of, key_len}
use rust_xhttp.Tls.Schedule.{
  Crypto, KeySchedule, Panic, panicked, traffic_keys, finished_verify_data,
}
use rust_xhttp.Tls.Record.{
  Aead, RecordKeys, new_keys, seal, record_handshake, change_cipher_spec_record,
}
use rust_xhttp.Tls.Messages.{finished_message, server_hello_cipher_suite}
use rust_xhttp.Tls.Messages.KeyShare.{Search, found, absent, panics, find_server_keyshare}
use rust_xhttp.Tls.ClientHello.{ClientHello}
use rust_xhttp.Tls.ClientHello.Message.{cipher_offered, keyshare_group_offered}

abbrev pub hs_server_hello : ℕ
hs_server_hello = 2

pub record SynthesizedServerHello : Type 0 where
  pub message : Bytes
  pub suite : CipherSuite
  pub key_share_group : ℕ

pub record ServerHandshakeFlight : Type 0 where
  pub server_hello : Bytes
  pub change_cipher_spec : Bytes
  pub encrypted_handshake_plaintext : Bytes
  pub encrypted_handshake_record : Bytes
  pub server_finished : Bytes
  pub transcript_hash_to_server_finished : Bytes

-- `FlightError`, and the panic of a slice that is out of range
pub data FlightError : Type 0 where
  malformed_server_hello tls13_not_offered session_id_too_long cipher_hash_mismatch : FlightError
  unsupported_cipher_suite cipher_not_offered key_share_group_not_offered : ℕ → FlightError
  -- the group, the expected length and the actual one
  key_share_length_mismatch : ℕ → ℕ → ℕ → FlightError
  flight_panics : FlightError

abbrev pub of_panic : Panic → FlightError
of_panic panicked = flight_panics

-- The group, the offset and the length.
abbrev pub of_search : Search → Result FlightError (ℕ × ℕ × ℕ)
of_search (found group offset len) = ok (group, offset, len)
of_search absent = err malformed_server_hello
of_search panics = err flight_panics

unfoldable pub server_hello_body_len : Bytes → Result FlightError ℕ
server_hello_body_len (t ∷ a ∷ b ∷ c ∷ rest) = do
  guard (t == hs_server_hello) malformed_server_hello
  ok (a * 65536 + b * 256 + c)
server_hello_body_len template = err malformed_server_hello

unfoldable pub validate_server_hello_template : Bytes → Result FlightError (Unit {0})
validate_server_hello_template template = do
  body_len ← server_hello_body_len template
  guard (body_len == length template - 4) malformed_server_hello
  _ ← of_search (find_server_keyshare template)
  _ ← ok_or (server_hello_cipher_suite template) malformed_server_hello
  ok tt

-- The length field is written over: `out[1..4].copy_from_slice`. The output has six bytes at least.
abbrev pub with_body_len : Bytes → Bytes
with_body_len (t ∷ _ ∷ _ ∷ _ ∷ body) =
    let body_len = length body in
    t ∷ as_u8 (body_len / 2 ^ 16) ∷ as_u8 (body_len / 2 ^ 8) ∷ as_u8 body_len ∷ body
with_body_len out = out

unfoldable pub rewrite_random_and_session_id :
    Bytes → Bytes → (ℕ → Bytes) → Result FlightError Bytes
rewrite_random_and_session_id template session_id random =
    let random_start = 4 + 2 in
    let sid_len_index = random_start + 32 in
    do
      _ ← server_hello_body_len template
      old_sid_len ← ok_or (get_elem? template sid_len_index) malformed_server_hello
      let old_sid_end = sid_len_index + (1 + old_sid_len)
      guard (leb old_sid_end (length template)) malformed_server_hello
      ok (
          with_body_len (
            take random_start template
            ++ random 32
            ++ as_u8 (length session_id) ∷ (session_id ++ drop old_sid_end template)))

-- `message[offset..offset + len].copy_from_slice(bytes)`, which panics on bytes of another length
-- and on a place beyond the end
abbrev pub write_at : Bytes → ℕ → ℕ → Bytes → Result FlightError Bytes
write_at message offset len bytes = do
  guard (leb (offset + len) (length message)) flight_panics
  guard (length bytes == len) flight_panics
  ok (take offset message ++ (bytes ++ drop (offset + len) message))

-- `synthesize_server_hello_with_rng`
unfoldable pub synthesize_server_hello :
    Bytes → ClientHello → Bytes → (ℕ → Bytes) → Result FlightError SynthesizedServerHello
synthesize_server_hello template client server_keyshare random = do
  validate_server_hello_template template
  guard client.offers_tls13 tls13_not_offered
  guard (leb (length client.session_id) 32) session_id_too_long
  cipher_id ← ok_or (server_hello_cipher_suite template) malformed_server_hello
  suite ← ok_or (from_u16 cipher_id) (unsupported_cipher_suite cipher_id)
  guard (cipher_offered client cipher_id) (cipher_not_offered cipher_id)
  (group, _, template_keyshare_len) ← of_search (find_server_keyshare template)
  guard (keyshare_group_offered client group) (key_share_group_not_offered group)
  guard (template_keyshare_len == length server_keyshare)
      (key_share_length_mismatch group template_keyshare_len (length server_keyshare))
  rewritten ← rewrite_random_and_session_id template client.session_id random
  (_, offset, len) ← of_search (find_server_keyshare rewritten)
  message ← write_at rewritten offset len server_keyshare
  ok (record { message = message; suite = suite; key_share_group = group })

-- `==` on `HashAlg`
abbrev pub same_hash : HashAlg → HashAlg → Bool
same_hash sha256 sha256 = true
same_hash sha384 sha384 = true
same_hash _ _ = false

unfoldable pub build_server_handshake_flight :
    Crypto
    → Aead
    → SynthesizedServerHello
    → KeySchedule
    → Bytes
    → Bytes
    → Bytes
    → Bytes
    → Result FlightError ServerHandshakeFlight
build_server_handshake_flight c a selected schedule transcript_before_server_hello
      encrypted_extensions certificate certificate_verify =
    let transcript =
      transcript_before_server_hello ++ selected.message ++ encrypted_extensions ++ certificate
      ++ certificate_verify in
    let transcript_hash = c.hash schedule.hash transcript in
    do
      guard (same_hash schedule.hash (hash_of selected.suite)) cipher_hash_mismatch
      verify_data ←
          map_err of_panic
            (finished_verify_data c schedule schedule.server_hs_traffic transcript_hash)
      let server_finished = finished_message verify_data
      let plaintext = encrypted_extensions ++ certificate ++ certificate_verify ++ server_finished
      (key, iv) ←
          map_err of_panic
            (traffic_keys c schedule schedule.server_hs_traffic (key_len selected.suite))
      keys ← ok_or (new_keys selected.suite key iv) flight_panics
      (_, encrypted) ← ok_or (seal a keys record_handshake plaintext) flight_panics
      ok (record {
        server_hello = selected.message;
        change_cipher_spec = change_cipher_spec_record;
        encrypted_handshake_plaintext = plaintext;
        encrypted_handshake_record = encrypted;
        server_finished = server_finished;
        transcript_hash_to_server_finished = transcript_hash;
      })
