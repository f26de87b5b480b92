-- ===== src/Tls/Handshake.antt =====
-- src/tls/tls13/handshake.rs: the handshake of the server in memory; src/tls/tls13/keyshare.rs: its
-- key share. X25519 is a parameter (a `DiffieHellman`), and so are the secret that is drawn and the
-- random bytes of the ServerHello.
pub mod Agreement
pub mod Finished
pub mod Client
pub mod Rfc8446
use rust_xhttp.Common.{
  ℕ, ◌+◌, ◌*◌, [], ◌∷◌, ◌++◌, List, Bool, true, false, Option, none, some, Bytes, length, bytes_eq,
  ◌==◌, ◌||◌, not, if◌then◌else◌, Result, ok, err, ◌>>=◌, ◌>>◌, guard, ok_or, map_err,
}
use rust_xhttp.Tls.Suite.{HashAlg, CipherSuite, hash_of, key_len}
use rust_xhttp.Tls.Schedule.{
  Crypto, KeySchedule, Panic, panicked, new_schedule, traffic_keys, finished_verify_data,
  application_traffic_secrets,
}
use rust_xhttp.Tls.Record.{Aead, RecordKeys, new_keys}
use rust_xhttp.Tls.Messages.{encrypted_extensions_with_alpn, hs_finished}
use rust_xhttp.Tls.Messages.KeyShare.{Search, found, absent, panics, find_server_keyshare}
use rust_xhttp.Tls.ClientHello.{ClientHello, KeyShare, ParseError}
use rust_xhttp.Tls.ClientHello.Message.{parse_message}
use rust_xhttp.Tls.Flight.{
  SynthesizedServerHello, ServerHandshakeFlight, FlightError, synthesize_server_hello,
  build_server_handshake_flight,
}
use rust_xhttp.Tls.Certificate.{
  Signing, CertifiedIdentity, CertificateVerifyError, certificate_message, sign_certificate_verify,
}

abbrev pub group_x25519 : ℕ
group_x25519 = 0x001d

-- The public key of a secret; and what a secret and the public key of another give together,
-- `none` where that is not contributory.
pub record DiffieHellman : Type 0 where
  pub public_key : Bytes → Bytes
  pub shared : Bytes → Bytes → Option Bytes

pub record ServerKeyShare : Type 0 where
  pub group : ℕ
  pub public_key : Bytes
  pub shared_secret : Bytes

pub data KeyShareError : Type 0 where
  unsupported_group : ℕ → KeyShareError
  -- the group, the expected length and the actual one
  invalid_length : ℕ → ℕ → ℕ → KeyShareError
  non_contributory : KeyShareError

unfoldable pub x25519_with_secret :
    DiffieHellman → Bytes → Bytes → Result KeyShareError ServerKeyShare
x25519_with_secret d peer_key secret = do
  guard (length peer_key == 32) (invalid_length group_x25519 32 (length peer_key))
  shared ← ok_or (d.shared secret peer_key) non_contributory
  ok (record { group = group_x25519; public_key = d.public_key secret; shared_secret = shared })

unfoldable pub generate_server_keyshare :
    DiffieHellman → ℕ → Bytes → Bytes → Result KeyShareError ServerKeyShare
generate_server_keyshare d group peer_key secret =
    if group == group_x25519
    then x25519_with_secret d peer_key secret
    else err (unsupported_group group)

pub record PreparedServerHandshake : Type 0 where
  pub client : ClientHello
  pub selected_alpn : Option Bytes
  pub server_hello : SynthesizedServerHello
  pub flight : ServerHandshakeFlight
  pub client_handshake_read : RecordKeys
  pub transcript_hash_to_client_finished : Bytes
  pub schedule : KeySchedule
  pub expected_client_finished : Bytes

pub data ClientFinishedError : Type 0 where
  malformed verify_data_mismatch : ClientFinishedError

-- `verify_client_finished_message`, given the verify data that is expected
unfoldable pub verify_client_finished : Bytes → Bytes → Result ClientFinishedError (Unit {0})
verify_client_finished expected (t ∷ a ∷ b ∷ c ∷ verify_data) = do
  guard (length verify_data == length expected) malformed
  guard (t == hs_finished) malformed
  guard (a * 65536 + b * 256 + c == length expected) malformed
  guard (bytes_eq expected verify_data) verify_data_mismatch
  ok tt
verify_client_finished expected message = err malformed

-- `PrepareError`, and the panics of what it calls
pub data PrepareError : Type 0 where
  client_hello : ParseError → PrepareError
  missing_template_key_share missing_signature_algorithms prepare_panics : PrepareError
  missing_client_key_share : ℕ → PrepareError
  key_share : KeyShareError → PrepareError
  flight_error : FlightError → PrepareError
  certificate_verify_error : CertificateVerifyError → PrepareError

abbrev pub of_panic : Panic → PrepareError
of_panic panicked = prepare_panics

abbrev pub template_group : Search → Result PrepareError ℕ
template_group (found group offset len) = ok group
template_group absent = err missing_template_key_share
template_group panics = err prepare_panics

-- `iter().find(|share| share.group == group)`, with the data of the share
abbrev pub find_share : List KeyShare → ℕ → Option Bytes
find_share [] group = none
find_share (share ∷ shares) group =
    let later = find_share shares group in if share.group == group then some share.key else later

abbrev pub any_equal : List Bytes → Bytes → Bool
any_equal [] candidate = false
any_equal (offered ∷ alpn) candidate = bytes_eq offered candidate || any_equal alpn candidate

-- `select_alpn`, given what the client offers
unfoldable pub select_alpn : List Bytes → List Bytes → Option Bytes
select_alpn alpn [] = none
select_alpn alpn (candidate ∷ protocols) =
    let later = select_alpn alpn protocols in
    if any_equal alpn candidate then some candidate else later

abbrev pub nonempty : List ℕ → Bool
nonempty [] = false
nonempty (x ∷ xs) = true

module _ (c : Crypto) (a : Aead) (d : DiffieHellman) (s : Signing) where
  unfoldable pub keys_of : KeySchedule → Bytes → CipherSuite → Result PrepareError RecordKeys
  keys_of schedule secret suite = do
    (key, iv) ← map_err of_panic (traffic_keys c schedule secret (key_len suite))
    ok_or (new_keys suite key iv) prepare_panics

  unfoldable pub prepare_server_handshake :
      Bytes
      → Bytes
      → CertifiedIdentity
      → List Bytes
      → Bytes
      → (ℕ → Bytes)
      → Result PrepareError PreparedServerHandshake
  prepare_server_handshake client_hello_message server_hello_template identity alpn_protocols secret
        random =
      do
        client ← map_err client_hello (parse_message client_hello_message)
        guard (nonempty client.signature_schemes) missing_signature_algorithms
        group ← template_group (find_server_keyshare server_hello_template)
        client_keyshare ←
            ok_or (find_share client.key_shares group) (missing_client_key_share group)
        keyshare ← map_err key_share (generate_server_keyshare d group client_keyshare secret)
        server_hello ←
            map_err flight_error
              (synthesize_server_hello server_hello_template client keyshare.public_key random)
        let selected_alpn = select_alpn client.alpn alpn_protocols
        let encrypted_extensions = encrypted_extensions_with_alpn selected_alpn
        let certificate = certificate_message identity.cert_chain
        let h = hash_of server_hello.suite
        let transcript_to_certificate =
            client.raw_message ++ server_hello.message ++ encrypted_extensions ++ certificate
        certificate_verify ← map_err certificate_verify_error (
            sign_certificate_verify s identity (c.hash h transcript_to_certificate)
              client.signature_schemes)
        let transcript_hash_ch_sh = c.hash h (client.raw_message ++ server_hello.message)
        schedule ← map_err of_panic (new_schedule c h keyshare.shared_secret transcript_hash_ch_sh)
        client_handshake_read ← keys_of schedule schedule.client_hs_traffic server_hello.suite
        flight ← map_err flight_error (
            build_server_handshake_flight c a server_hello schedule client.raw_message
              encrypted_extensions certificate certificate_verify)
        let transcript_hash_to_client_finished =
            c.hash h (transcript_to_certificate ++ certificate_verify ++ flight.server_finished)
        expected_client_finished ← map_err of_panic (
            finished_verify_data c schedule schedule.client_hs_traffic
              transcript_hash_to_client_finished)
        ok (record {
          client = client;
          selected_alpn = selected_alpn;
          server_hello = server_hello;
          flight = flight;
          client_handshake_read = client_handshake_read;
          transcript_hash_to_client_finished = transcript_hash_to_client_finished;
          schedule = schedule;
          expected_client_finished = expected_client_finished;
        })

  -- The keys of the client and those of the server: `ApplicationRecordKeys`.
  unfoldable pub application_record_keys :
      PreparedServerHandshake → Result PrepareError (RecordKeys × RecordKeys)
  application_record_keys p = do
    (client_secret, server_secret) ←
        map_err of_panic
          (application_traffic_secrets c p.schedule p.transcript_hash_to_client_finished)
    client_read ← keys_of p.schedule client_secret p.server_hello.suite
    server_write ← keys_of p.schedule server_secret p.server_hello.suite
    ok (client_read, server_write)
