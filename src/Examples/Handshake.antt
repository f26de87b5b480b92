-- ===== src/Examples/Handshake.antt =====
-- Runs of src/tls/tls13/flight.rs, src/tls/tls13/handshake.rs and src/tls/cert.rs, with functions of
-- constant results for the third-party code.
use rust_xhttp.Common.{
  ℕ, ◌≡◌, ◌↔◌, refl, true, [], ◌∷◌, ◌++◌, none, some, Bytes, ok, arith, replicate, length-replicate,
}
use rust_xhttp.Tls.Suite.{sha256, aes128_gcm_sha256, from_u16}
use rust_xhttp.Tls.Schedule.{
  Crypto, output_len, finished_verify_data, traffic_keys, expand_label, new_schedule, derive_secret,
  derive_secret_with_hash,
}
use rust_xhttp.Tls.Record.{new_keys, seal, seal_with_padding, sealed, header_of, nonce_of}
use rust_xhttp.Tls.Schedule.Total.{IsHkdf}
use rust_xhttp.Tls.Messages.KeyShare.{find_server_keyshare, find_from}
use rust_xhttp.Tls.Messages.{
  handshake_message, encrypted_extensions, encrypted_extensions_with_alpn, finished_message,
}
use rust_xhttp.Tls.ClientHello.{ClientHello}
use rust_xhttp.Tls.ClientHello.Message.{
  cipher_offered, keyshare_group_offered, is_grease, parse_message,
}
use rust_xhttp.Tls.ClientHello.Offer.{versions, schemes, shares, Offer, message, hello_of}
use rust_xhttp.Tls.ClientHello.RoundTrip.{parse_message-hello_of}
use rust_xhttp.Tls.Certificate.{
  cert_list, certificate_message, Signing, CertifiedIdentity, ed25519, sign_certificate_verify,
  choose_scheme, sign, certificate_verify_message,
}
use rust_xhttp.Tls.Flight.{synthesize_server_hello, build_server_handshake_flight}
use rust_xhttp.Tls.Flight.Template.{Template, IsTemplate, hello_bytes, filled}
use rust_xhttp.Tls.Flight.Hello.{synthesize_server_hello-template}
use rust_xhttp.Tls.Flight.Built.{Encrypts}
use rust_xhttp.Tls.Handshake.{
  DiffieHellman, generate_server_keyshare, x25519_with_secret, keys_of, select_alpn,
  PreparedServerHandshake, prepare_server_handshake, verify_client_finished,
}
use rust_xhttp.Tls.Handshake.Finished.{verify_client_finished_iff}
use rust_xhttp.Tls.Handshake.Agreement.{Suits, prepare_server_handshake-completes}
use rust_xhttp.Tls.Handshake.Client.{client_run, client_run-accepted}
use rust_xhttp.Examples.Record.{plain, plain-IsCorrect}

abbrev zeros : ℕ → Bytes
zeros n = replicate n 0

abbrev crypto : Crypto
crypto = record {
  hash = λ h data_bytes. [];
  extract = λ h salt material. zeros (output_len h);
  expand = λ h secret info n. some (zeros n);
  hmac = λ h key data_bytes. 7 ∷ [];
}

crypto-IsHkdf : IsHkdf crypto
crypto-IsHkdf = record {
  expands = λ h secret info n long small. (zeros n, refl, length-replicate {A = ℕ} n 0);
  extracts = λ h salt material. length-replicate {A = ℕ} (output_len h) 0;
}

plain-Encrypts : Encrypts plain
plain-Encrypts = λ suite key nonce aad message. (message, zeros 16, refl)

abbrev dh : DiffieHellman
dh = record { public_key = λ secret. replicate 32 9; shared = λ secret peer. some (5 ∷ []) }

abbrev signing : Signing
signing = record {
  sign_rsa = λ key scheme content. none;
  sign_ecdsa = λ key content. none;
  sign_ed25519 = λ key content. 3 ∷ [];
}

abbrev identity : CertifiedIdentity
identity = record { cert_chain = (1 ∷ 2 ∷ []) ∷ []; signing_key = ed25519 [] }

abbrev offer : Offer
offer = record {
  version = 0x0303;
  random = replicate 32 7;
  session_id = 9 ∷ 9 ∷ [];
  cipher_suites = 0x1301 ∷ [];
  compression = 0 ∷ [];
  extensions =
      versions (0x0304 ∷ [])
      ∷ schemes (0x0403 ∷ 0x0807 ∷ [])
      ∷ shares (record { group = 0x001d; key = replicate 32 9 } ∷ [])
      ∷ [];
}

abbrev client : ClientHello
client = hello_of offer

parsed : parse_message (message offer) ≡ ok client
parsed = parse_message-hello_of offer (record {
  random_len = refl;
  session_id_len = omega arith;
  cipher_suites_fit = (omega arith, tt);
  cipher_suites_len = omega arith;
  compression_len = omega arith;
  extensions_valid = (
    (((omega arith, tt), omega arith), omega arith),
    (
      ((omega arith, (omega arith, tt)), omega arith),
      ((((omega arith, omega arith), tt), omega arith), tt),
    ),
  );
  extensions_len = omega arith;
})

-- Its own session id is longer than the client's.
abbrev template : Template
template = record {
  version_hi = 3;
  version_lo = 3;
  random = replicate 32 1;
  session_id = 4 ∷ 4 ∷ 4 ∷ [];
  suite = 0x1301;
  compression = 0;
  ext_total = 46;
  front = (0x002b, 3 ∷ 4 ∷ []) ∷ [];
  len = 36;
  group = 0x001d;
  key = replicate 32 0;
  rest = [];
}

template-IsTemplate : IsTemplate template
template-IsTemplate = record {
  random_len = refl;
  suite_fits = omega arith;
  ext_total_fits = omega arith;
  front_fits = ((omega arith, omega arith, refl), tt);
  len_fits = omega arith;
  group_fits = omega arith;
  key_fits = omega arith;
  extensions_hold = omega arith;
}

abbrev random : ℕ → Bytes
random n = replicate n 6

known : from_u16 0x1301 ≡ some aes128_gcm_sha256
unfolding from_u16
known = refl

offered_suite : cipher_offered client 0x1301 ≡ true
unfolding cipher_offered
offered_suite = refl

offered_group : keyshare_group_offered client 0x001d ≡ true
unfolding keyshare_group_offered is_grease
offered_group = refl

synthesize_server_hello-template_example :
    synthesize_server_hello (hello_bytes template) client (replicate 32 9) random
    ≡ ok (record {
      message = hello_bytes (filled template (replicate 32 6) (9 ∷ 9 ∷ []) (replicate 32 9));
      suite = aes128_gcm_sha256;
      key_share_group = 0x001d;
    })
synthesize_server_hello-template_example =
    synthesize_server_hello-template template client (replicate 32 9) random aes128_gcm_sha256
      template-IsTemplate (omega arith) known refl (omega arith) offered_suite offered_group refl
      refl

suits :
    Suits dh signing
      (message offer)
      client
      template
      aes128_gcm_sha256
      identity
      []
      []
      (5 ∷ [])
      random
suits = record {
  parsed = parsed;
  schemes = refl;
  laid_out = template-IsTemplate;
  small = omega arith;
  known = known;
  tls13 = refl;
  short_id = omega arith;
  suite_offered = offered_suite;
  x25519 = refl;
  group_offered = offered_group;
  client_share = refl;
  client_key = refl;
  server_key = refl;
  random_len = refl;
  server_shared = refl;
  client_shared = refl;
  signs = λ transcript_hash. (
    certificate_verify_message 0x0807 (3 ∷ []),
    unfold sign_certificate_verify choose_scheme sign in refl,
  );
}

prepare_server_handshake-completes_example :
    (p : PreparedServerHandshake) × (prepare_server_handshake crypto plain dh signing
        (message offer)
        (hello_bytes template)
        identity
        []
        []
        random
      ≡ ok p)
    × (p.server_hello.message
        ≡ hello_bytes (filled template (replicate 32 6) (9 ∷ 9 ∷ []) (replicate 32 9)))
prepare_server_handshake-completes_example =
    prepare_server_handshake-completes crypto plain dh signing (message offer) client template
      aes128_gcm_sha256 identity [] [] [] (5 ∷ []) random suits crypto-IsHkdf plain-Encrypts

verify_client_finished_iff_example :
    (verify_client_finished (1 ∷ 2 ∷ []) (20 ∷ 0 ∷ 0 ∷ 2 ∷ 1 ∷ 2 ∷ []) ≡ ok tt)
    ↔ (20 ∷ 0 ∷ 0 ∷ 2 ∷ 1 ∷ 2 ∷ [] ≡ finished_message (1 ∷ 2 ∷ []))
verify_client_finished_iff_example =
    verify_client_finished_iff (1 ∷ 2 ∷ []) (20 ∷ 0 ∷ 0 ∷ 2 ∷ 1 ∷ 2 ∷ []) (omega arith)
      (omega arith, (omega arith, (omega arith, (omega arith, (omega arith, (omega arith, tt))))))

abbrev flight_messages : Bytes
flight_messages =
    8 ∷ 0 ∷ 0 ∷ 2 ∷ 0 ∷ 0 ∷ 11 ∷ 0 ∷ 0 ∷ 11 ∷ 0 ∷ 0 ∷ 0 ∷ 7 ∷ 0 ∷ 0 ∷ 2 ∷ 1 ∷ 2 ∷ 0 ∷ 0 ∷ 15 ∷ 0 ∷ 0
    ∷ 5 ∷ 8 ∷ 7 ∷ 0 ∷ 1 ∷ 3 ∷ 20 ∷ 0 ∷ 0 ∷ 1 ∷ 7 ∷ []

abbrev prepared : PreparedServerHandshake
prepared =
    let hello = hello_bytes (filled template (replicate 32 6) (9 ∷ 9 ∷ []) (replicate 32 9)) in
    record {
      client = client;
      selected_alpn = none;
      server_hello = record {
        message = hello;
        suite = aes128_gcm_sha256;
        key_share_group = 0x001d;
      };
      flight = record {
        server_hello = hello;
        change_cipher_spec = 0x14 ∷ 3 ∷ 3 ∷ 0 ∷ 1 ∷ 1 ∷ [];
        encrypted_handshake_plaintext = flight_messages;
        encrypted_handshake_record = 0x17 ∷ 3 ∷ 3 ∷ 0 ∷ 52 ∷ (flight_messages ++ 22 ∷ zeros 16);
        server_finished = 20 ∷ 0 ∷ 0 ∷ 1 ∷ 7 ∷ [];
        transcript_hash_to_server_finished = [];
      };
      client_handshake_read = record {
        suite = aes128_gcm_sha256;
        key = zeros 16;
        iv = zeros 12;
        seq = 0;
      };
      transcript_hash_to_client_finished = [];
      schedule = record {
        hash = sha256;
        master_secret = zeros 32;
        client_hs_traffic = zeros 32;
        server_hs_traffic = zeros 32;
      };
      expected_client_finished = 7 ∷ [];
    }

prepares :
    prepare_server_handshake crypto plain dh signing
      (message offer)
      (hello_bytes template)
      identity
      []
      []
      random
    ≡ ok prepared
unfolding prepare_server_handshake keys_of find_server_keyshare find_from handshake_message
    generate_server_keyshare x25519_with_secret build_server_handshake_flight
    sign_certificate_verify choose_scheme sign certificate_verify_message certificate_message
    cert_list encrypted_extensions encrypted_extensions_with_alpn finished_message
    finished_verify_data traffic_keys expand_label new_schedule derive_secret
    derive_secret_with_hash new_keys seal seal_with_padding sealed header_of nonce_of select_alpn
prepares = rw (parsed, synthesize_server_hello-template_example) refl

client_run-accepted_example :
    (finished : Bytes) × (client_run crypto plain dh [] client.raw_message
        prepared.server_hello.message prepared.flight.encrypted_handshake_record
      ≡ ok (flight_messages, finished))
    × (verify_client_finished (7 ∷ []) finished ≡ ok tt)
client_run-accepted_example =
    client_run-accepted crypto plain dh signing (message offer) client template aes128_gcm_sha256
      identity [] [] [] (5 ∷ []) random prepared suits crypto-IsHkdf plain-IsCorrect plain-Encrypts
      prepares (omega arith) (omega arith)
