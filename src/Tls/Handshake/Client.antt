-- ===== src/Tls/Handshake/Client.antt =====
-- src/tls/tls13/handshake.rs: the other end of the handshake, with the schedule of Rfc8446.antt.
use rust_xhttp.Common.{
  ℕ, ◌+◌, ◌<◌, ◌^◌, ◌≡◌, refl, ap, sym, subst, ◌∙◌, [], ◌++◌, some, Bytes, List, length, take, drop,
  Result, ok, err, ◌>>=◌, ◌>>◌, ok_or, guard, ◌==◌, arith, append-nil, append_assoc,
}
use rust_xhttp.Tls.Suite.{CipherSuite, hash_of, key_len}
use rust_xhttp.Tls.Schedule.{Crypto}
use rust_xhttp.Tls.Schedule.Total.{IsHkdf}
use rust_xhttp.Tls.Record.{Aead, new_keys, seal, open_record, record_handshake}
use rust_xhttp.Tls.Record.RoundTrip.{IsCorrect, open_record-seal_with_padding}
use rust_xhttp.Tls.Messages.{
  finished_message, server_hello_cipher_suite, encrypted_extensions_with_alpn,
}
use rust_xhttp.Tls.Messages.KeyShare.{Search, found, absent, panics, find_server_keyshare}
use rust_xhttp.Tls.ClientHello.{ClientHello}
use rust_xhttp.Tls.Certificate.{Signing, CertifiedIdentity, certificate_message}
use rust_xhttp.Tls.Flight.Template.{
  Template, filled, filled-IsTemplate, hello_bytes, hello_bytes-found,
}
use rust_xhttp.Tls.Flight.Built.{Encrypts}
use rust_xhttp.Tls.Handshake.{
  DiffieHellman, PreparedServerHandshake, prepare_server_handshake, verify_client_finished,
  select_alpn, PrepareError,
}
use rust_xhttp.Tls.Handshake.Agreement.{Suits, Completed, completes}
use rust_xhttp.Tls.Handshake.Rfc8446.{
  Refused, refused, suite_by_number, suite_by_number-known, handshake_secrets, record_keys,
  verify_data_of, handshake_secrets-new_schedule, record_keys-traffic_keys, verify_data_of-finished,
}
use rust_xhttp.Tls.Handshake.Finished.{verify_client_finished-finished}

-- The key in a ServerHello.
abbrev key_in : Bytes → Search → Result Refused Bytes
key_in server_hello (found group offset len) = ok (take len (drop offset server_hello))
key_in server_hello absent = err refused
key_in server_hello panics = err refused

-- What a client with a secret makes of its own hello, the ServerHello and the record of the flight:
-- the handshake messages in the record, and its own Finished message.
pub client_run :
    Crypto → Aead → DiffieHellman → Bytes → Bytes → Bytes → Bytes → Result Refused (Bytes × Bytes)
client_run c a d client_secret client_hello server_hello flight_record = do
  public_key ← key_in server_hello (find_server_keyshare server_hello)
  suite_id ← ok_or (server_hello_cipher_suite server_hello) refused
  (suite, h, n) ← suite_by_number suite_id
  shared ← ok_or (d.shared client_secret public_key) refused
  (client_secret_hs, server_secret_hs) ←
      handshake_secrets c h shared (c.hash h (client_hello ++ server_hello))
  (key, iv) ← record_keys c h server_secret_hs n
  keys ← ok_or (new_keys suite key iv) refused
  (content_type, messages) ← ok_or ((open_record a keys flight_record).1) refused
  guard (content_type == record_handshake) refused
  verify_data ←
      verify_data_of c h client_secret_hs (c.hash h (client_hello ++ server_hello ++ messages))
  ok (messages, finished_message verify_data)

ok_inj :
    {p q : PreparedServerHandshake}
    → ◌≡◌ {A = Result PrepareError PreparedServerHandshake} (ok p) (ok q)
    → p ≡ q
ok_inj e = cc

regroup : (front x y z w : Bytes) → front ++ x ++ y ++ z ++ w ≡ front ++ (x ++ y ++ z ++ w)
regroup front x y z w =
    ap (λ b. b ++ z ++ w) (append_assoc front x y)
    ∙ ap (λ b. b ++ w) (append_assoc front (x ++ y) z)
    ∙ append_assoc front (x ++ y ++ z) w

module _ (c : Crypto) (a : Aead) (d : DiffieHellman) (s : Signing) (client_hello : Bytes)
    (client : ClientHello) (t : Template) (suite : CipherSuite) (identity : CertifiedIdentity)
    (protocols : List Bytes) (secret client_secret shared : Bytes) (random : ℕ → Bytes)
    (w : Suits d s client_hello client t suite identity secret client_secret shared random)
    (correct : IsCorrect a) where
  -- What the flight of a completed handshake is opened to.
  flight_opened :
      (p : PreparedServerHandshake)
      (done : Completed c a d s client_hello client t suite identity protocols secret client_secret
        shared random p)
      → length p.flight.encrypted_handshake_plaintext + 17 < 65536
      → open_record a done.flight_built.keys p.flight.encrypted_handshake_record
        ≡ (done.flight_built.keys', some (record_handshake, p.flight.encrypted_handshake_plaintext))
  unfolding seal
  flight_opened p done fits =
      ap (open_record a done.flight_built.keys)
        (sym (append-nil p.flight.encrypted_handshake_record))
      ∙ open_record-seal_with_padding a done.flight_built.keys done.flight_built.keys'
          record_handshake p.flight.encrypted_handshake_plaintext 0
          p.flight.encrypted_handshake_record [] correct (λ e. omega (arith, e)) (omega arith)
          done.flight_built.sealed_as

  client_run-Completed :
      (p : PreparedServerHandshake)
      → Completed c a d s client_hello client t suite identity protocols secret client_secret shared
          random p
      → length p.flight.encrypted_handshake_plaintext + 17 < 65536
      → client_run c a d client_secret client.raw_message p.server_hello.message
          p.flight.encrypted_handshake_record
        ≡ ok (p.flight.encrypted_handshake_plaintext, finished_message p.expected_client_finished)
  unfolding client_run finished_message
  client_run-Completed p done fits =
      let t' = filled t (random 32) client.session_id (d.public_key secret) in
      let laid_out =
        filled-IsTemplate t (random 32) client.session_id (d.public_key secret) w.laid_out
          w.random_len w.server_key in
      let (suite_read, (_, at, key)) = hello_bytes-found t' laid_out in
      let front = client.raw_message ++ hello_bytes t' in
      let extensions = encrypted_extensions_with_alpn (select_alpn client.alpn protocols) in
      let certificate = certificate_message identity.cert_chain in
      let h = hash_of suite in
      let secrets =
        handshake_secrets-new_schedule c h shared (c.hash h front) p.schedule done.scheduled in
      let keys =
        record_keys-traffic_keys c h p.schedule p.schedule.server_hs_traffic (key_len suite)
          done.flight_built.key done.flight_built.iv done.schedule_hash done.flight_built.traffic in
      let last =
        ap (λ b. verify_data_of c h p.schedule.client_hs_traffic (c.hash h b))
          (ap (λ b. front ++ b) done.flight_built.plaintext_is
            ∙ sym (regroup front extensions certificate done.verify p.flight.server_finished))
        ∙ verify_data_of-finished c h p.schedule p.schedule.client_hs_traffic
            (c.hash h
              (front ++ extensions ++ certificate ++ done.verify ++ p.flight.server_finished))
            p.expected_client_finished done.schedule_hash done.finished_expected in
      let opened = ap (λ r. r.1) (flight_opened p done fits) in
      ap
        (λ h.
          client_run c a d client_secret client.raw_message h.message
            p.flight.encrypted_handshake_record)
        done.hello_is
      ∙ rw
          (
            at,
            suite_read,
            key,
            suite_by_number-known t.suite suite w.known,
            w.client_shared,
            secrets,
            keys,
            done.flight_built.keyed,
            opened,
            last,
          )
          refl

-- For a client and a server that suit each other, with HKDF and the ciphers as they are documented,
-- a client that takes the key out of the ServerHello, derives its secrets and keys as RFC 8446 has
-- them written out apart from the program's own schedule, and opens the record of the flight with the
-- program's record layer gets exactly the handshake messages that the server sealed, and the
-- Finished message that it derives over them is accepted. The flight fits into one record.
pub client_run-accepted :
    (c : Crypto) (a : Aead) (d : DiffieHellman) (s : Signing) (client_hello : Bytes)
    (client : ClientHello) (t : Template) (suite : CipherSuite) (identity : CertifiedIdentity)
    (protocols : List Bytes) (secret client_secret shared : Bytes) (random : ℕ → Bytes)
    (p : PreparedServerHandshake)
    → Suits d s client_hello client t suite identity secret client_secret shared random
    → IsHkdf c
    → IsCorrect a
    → Encrypts a
    → prepare_server_handshake c a d s client_hello (hello_bytes t) identity protocols secret random
      ≡ ok p
    → length p.flight.encrypted_handshake_plaintext + 17 < 65536
    → length p.expected_client_finished < 2 ^ 24
    → (finished : Bytes) × (client_run c a d client_secret client.raw_message p.server_hello.message
          p.flight.encrypted_handshake_record
        ≡ ok (p.flight.encrypted_handshake_plaintext, finished))
      × (verify_client_finished p.expected_client_finished finished ≡ ok tt)
client_run-accepted c a d s client_hello client t suite identity protocols secret client_secret
      shared random p w k correct e prepared fits small =
    let (p', done) =
      completes c a d s client_hello client t suite identity protocols secret client_secret shared
        random w k e in
    let same : p' ≡ p = ok_inj (sym done.prepared ∙ prepared) in
    let done' =
      subst
        (Completed c a d s client_hello client t suite identity protocols secret client_secret
          shared random)
        same done in
    (
      finished_message p.expected_client_finished,
      client_run-Completed c a d s client_hello client t suite identity protocols secret
          client_secret shared random w correct p done' fits,
      verify_client_finished-finished p.expected_client_finished small,
    )
