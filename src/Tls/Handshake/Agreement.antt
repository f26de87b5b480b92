-- ===== src/Tls/Handshake/Agreement.antt =====
-- src/tls/tls13/handshake.rs: the handshake completes, and a client that computes the keys for itself
-- reads the flight and gets its Finished message accepted.
use rust_xhttp.Common.{
  ℕ, ◌≤◌, ◌<◌, ◌^◌, ◌≡◌, refl, ap, sym, ◌∙◌, true, List, ◌++◌, some, Bytes, length, ◌==◌, ok, arith,
}
use rust_xhttp.Tls.Suite.{CipherSuite, from_u16, hash_of}
use rust_xhttp.Tls.Schedule.{Crypto, output_len, new_schedule, finished_verify_data}
use rust_xhttp.Tls.Schedule.Total.{
  IsHkdf, new_schedule-total, traffic_keys-total, finished_verify_data-total,
}
use rust_xhttp.Tls.Record.{Aead}
use rust_xhttp.Tls.Messages.{encrypted_extensions_with_alpn}
use rust_xhttp.Tls.ClientHello.{ClientHello}
use rust_xhttp.Tls.ClientHello.Message.{parse_message, cipher_offered, keyshare_group_offered}
use rust_xhttp.Tls.Certificate.{
  Signing, CertifiedIdentity, certificate_message, sign_certificate_verify,
}
use rust_xhttp.Tls.Flight.{SynthesizedServerHello, synthesize_server_hello}
use rust_xhttp.Tls.Flight.Template.{
  Template, IsTemplate, body, hello_bytes, filled, hello_bytes-found,
}
use rust_xhttp.Tls.Flight.Hello.{synthesize_server_hello-template}
use rust_xhttp.Tls.Flight.Built.{Encrypts, Built, build-total, new_keys-total}
use rust_xhttp.Tls.Handshake.{
  DiffieHellman, group_x25519, x25519_with_secret, generate_server_keyshare,
  PreparedServerHandshake, find_share, select_alpn, nonempty, keys_of, prepare_server_handshake,
}

-- A client and a server that suit each other: the hello is parsed, the template is laid out as a
-- ServerHello for X25519 and a known suite, the client offers both, with the public key of its
-- secret, each side gets the same from the other's public key, and the identity can sign for the client.
pub record Suits (d : DiffieHellman) (s : Signing) (client_hello : Bytes) (client : ClientHello)
    (t : Template) (suite : CipherSuite) (identity : CertifiedIdentity)
    (secret client_secret shared : Bytes) (random : ℕ → Bytes) : Type 0 where
  pub parsed : parse_message client_hello ≡ ok client
  pub schemes : nonempty client.signature_schemes ≡ true
  pub laid_out : IsTemplate t
  pub small : length (body t) < 2 ^ 24
  pub known : from_u16 t.suite ≡ some suite
  pub tls13 : client.offers_tls13 ≡ true
  pub short_id : length client.session_id ≤ 32
  pub suite_offered : cipher_offered client t.suite ≡ true
  pub x25519 : t.group ≡ group_x25519
  pub group_offered : keyshare_group_offered client t.group ≡ true
  pub client_share : find_share client.key_shares t.group ≡ some (d.public_key client_secret)
  pub client_key : length (d.public_key client_secret) ≡ 32
  pub server_key : length (d.public_key secret) ≡ length t.key
  pub random_len : length (random 32) ≡ 32
  pub server_shared : d.shared secret (d.public_key client_secret) ≡ some shared
  pub client_shared : d.shared client_secret (d.public_key secret) ≡ some shared
  pub signs :
      (transcript_hash : Bytes)
      → (verify : Bytes) × (sign_certificate_verify s identity transcript_hash
            client.signature_schemes
          ≡ ok verify)

module _ (c : Crypto) (a : Aead) (d : DiffieHellman) (s : Signing) (client_hello : Bytes)
    (client : ClientHello) (t : Template) (suite : CipherSuite) (identity : CertifiedIdentity)
    (protocols : List Bytes) (secret client_secret shared : Bytes) (random : ℕ → Bytes) where
  abbrev pub hello : SynthesizedServerHello
  hello = record {
    message = hello_bytes (filled t (random 32) client.session_id (d.public_key secret));
    suite = suite;
    key_share_group = t.group;
  }

  abbrev pub extensions : Bytes
  extensions = encrypted_extensions_with_alpn (select_alpn client.alpn protocols)

  abbrev pub certificate : Bytes
  certificate = certificate_message identity.cert_chain

  abbrev pub up_to_certificate : Bytes
  up_to_certificate = client.raw_message ++ hello.message ++ extensions ++ certificate

  -- The handshake that is prepared, with what went into it.
  pub record Completed (p : PreparedServerHandshake) : Type 0 where
    pub prepared :
        prepare_server_handshake c a d s client_hello
          (hello_bytes t)
          identity
          protocols
          secret
          random
        ≡ ok p
    pub hello_is : p.server_hello ≡ hello
    pub scheduled :
        new_schedule c
          (hash_of suite)
          shared
          (c.hash (hash_of suite) (client.raw_message ++ hello.message))
        ≡ ok p.schedule
    pub schedule_hash : p.schedule.hash ≡ hash_of suite
    pub verify : Bytes
    pub flight_built :
        Built c a hello p.schedule client.raw_message extensions certificate verify p.flight
    pub finished_expected :
        finished_verify_data c p.schedule p.schedule.client_hs_traffic
          (c.hash (hash_of suite) (up_to_certificate ++ verify ++ p.flight.server_finished))
        ≡ ok p.expected_client_finished

  synthesized :
      Suits d s client_hello client t suite identity secret client_secret shared random
      → synthesize_server_hello (hello_bytes t) client (d.public_key secret) random ≡ ok hello
  synthesized w =
      synthesize_server_hello-template t client (d.public_key secret) random suite w.laid_out
        w.small w.known w.tls13 w.short_id w.suite_offered w.group_offered w.server_key w.random_len

  keyshare_made :
      Suits d s client_hello client t suite identity secret client_secret shared random
      → generate_server_keyshare d t.group (d.public_key client_secret) secret
        ≡ ok (record {
          group = group_x25519;
          public_key = d.public_key secret;
          shared_secret = shared;
        })
  unfolding generate_server_keyshare x25519_with_secret
  keyshare_made w =
      let group : (t.group == group_x25519) ≡ true = ground (arith, w.x25519) in
      let len : (length (d.public_key client_secret) == 32) ≡ true = ground (arith, w.client_key) in
      rw (group, len, w.server_shared) refl

  pub completes :
      Suits d s client_hello client t suite identity secret client_secret shared random
      → IsHkdf c
      → Encrypts a
      → (p : PreparedServerHandshake) × Completed p
  unfolding prepare_server_handshake keys_of
  completes w k e =
      let h = hash_of suite in
      let (verify, signed) = w.signs (c.hash h up_to_certificate) in
      let (schedule, scheduled, same, client_len, server_len) =
        new_schedule-total c k h shared (c.hash h (client.raw_message ++ hello.message)) in
      let (key, iv, traffic, key_fits) =
        traffic_keys-total c k schedule suite schedule.client_hs_traffic same
          (client_len ∙ ap output_len (sym same)) in
      let (read_keys, keyed) = new_keys-total suite key iv key_fits in
      let (flight, flight_built) =
        build-total c a hello schedule client.raw_message extensions certificate verify k e same
          (server_len ∙ ap output_len (sym same)) in
      let transcript_hash = c.hash h (up_to_certificate ++ verify ++ flight.server_finished) in
      let (expected, finished) =
        finished_verify_data-total c k schedule schedule.client_hs_traffic transcript_hash
          (client_len ∙ ap output_len (sym same)) in
      let (_, (_, at, _)) = hello_bytes-found t w.laid_out in
      (
        record {
          client = client;
          selected_alpn = select_alpn client.alpn protocols;
          server_hello = hello;
          flight = flight;
          client_handshake_read = read_keys;
          transcript_hash_to_client_finished = transcript_hash;
          schedule = schedule;
          expected_client_finished = expected;
        },
        record {
          prepared =
              rw
                (
                  w.parsed,
                  w.schemes,
                  at,
                  w.client_share,
                  keyshare_made w,
                  synthesized w,
                  signed,
                  scheduled,
                  traffic,
                  keyed,
                  flight_built.built,
                  finished,
                )
                refl;
          hello_is = refl;
          scheduled = scheduled;
          schedule_hash = same;
          verify = verify;
          flight_built = flight_built;
          finished_expected = finished;
        },
      )

-- For a client and a server that suit each other, with HKDF and the ciphers as they are documented,
-- the preparation of the handshake succeeds: it does not panic, and its ServerHello is the template
-- with the random bytes, the session id of the client and the public key of the server.
pub prepare_server_handshake-completes :
    (c : Crypto) (a : Aead) (d : DiffieHellman) (s : Signing) (client_hello : Bytes)
    (client : ClientHello) (t : Template) (suite : CipherSuite) (identity : CertifiedIdentity)
    (protocols : List Bytes) (secret client_secret shared : Bytes) (random : ℕ → Bytes)
    → Suits d s client_hello client t suite identity secret client_secret shared random
    → IsHkdf c
    → Encrypts a
    → (p : PreparedServerHandshake) × (prepare_server_handshake c a d s client_hello
          (hello_bytes t)
          identity
          protocols
          secret
          random
        ≡ ok p)
      × (p.server_hello.message
          ≡ hello_bytes (filled t (random 32) client.session_id (d.public_key secret)))
prepare_server_handshake-completes c a d s client_hello client t suite identity protocols secret
      client_secret shared random w k e =
    let (p, done) =
      completes c a d s client_hello client t suite identity protocols secret client_secret shared
        random w k e in
    (p, done.prepared, ap (λ h. h.message) done.hello_is)
