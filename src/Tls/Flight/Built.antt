-- ===== src/Tls/Flight/Built.antt =====
-- src/tls/tls13/flight.rs: the flight of the server is built.
use rust_xhttp.Common.{
  ℕ, ◌+◌, ◌≡◌, refl, ap, sym, ◌∙◌, ◌++◌, some, Bytes, length, ◌==◌, true, ok, arith,
}
use rust_xhttp.Tls.Suite.{HashAlg, sha256, sha384, CipherSuite, hash_of, key_len}
use rust_xhttp.Tls.Schedule.{Crypto, KeySchedule, output_len, traffic_keys}
use rust_xhttp.Tls.Schedule.Total.{IsHkdf, traffic_keys-total, finished_verify_data-total}
use rust_xhttp.Tls.Record.{
  Aead, RecordKeys, new_keys, seal, seal_with_padding, sealed, advance, nonce_of, header_of,
  inner_of, tag_len, record_handshake, change_cipher_spec_record,
}
use rust_xhttp.Tls.Messages.{finished_message}
use rust_xhttp.Tls.Flight.{
  SynthesizedServerHello, ServerHandshakeFlight, same_hash, build_server_handshake_flight,
}

-- Encryption succeeds: the messages are far below the limits of the ciphers.
abbrev pub Encrypts : Aead → Type 0
Encrypts a =
    (suite : CipherSuite) (key nonce aad message : Bytes)
    → (body : Bytes) × (tag : Bytes) × (a.encrypt suite key nonce aad message ≡ some (body, tag))

seal-total :
    (a : Aead) (k : RecordKeys) (content_type : ℕ) (plaintext : Bytes)
    → Encrypts a
    → (k' : RecordKeys) × (out : Bytes) × (seal a k content_type plaintext ≡ some (k', out))
unfolding seal seal_with_padding sealed
seal-total a k content_type plaintext e =
    let header = header_of (length plaintext + 1 + 0 + tag_len) in
    let (body, tag, made) =
      e k.suite k.key (nonce_of k) header (inner_of content_type plaintext 0) in
    (advance k, header ++ body ++ tag, rw made refl)

pub new_keys-total :
    (suite : CipherSuite) (key iv : Bytes)
    → length key ≡ key_len suite
    → (k : RecordKeys) × (new_keys suite key iv ≡ some k)
unfolding new_keys
new_keys-total suite key iv len =
    let fits : (length key == key_len suite) ≡ true = ground (arith, len) in
    (record { suite = suite; key = key; iv = iv; seq = 0 }, rw fits refl)

same_hash_self : (h : HashAlg) → same_hash h h ≡ true
same_hash_self sha256 = refl
same_hash_self sha384 = refl

module _ (c : Crypto) (a : Aead) (selected : SynthesizedServerHello) (schedule : KeySchedule)
    (before extensions certificate verify : Bytes) where
  -- The flight, with the keys that sealed it.
  pub record Built (f : ServerHandshakeFlight) : Type 0 where
    pub built :
        build_server_handshake_flight c a selected schedule before extensions certificate verify
        ≡ ok f
    pub plaintext_is :
        f.encrypted_handshake_plaintext ≡ extensions ++ certificate ++ verify ++ f.server_finished
    pub key : Bytes
    pub iv : Bytes
    pub keys : RecordKeys
    pub keys' : RecordKeys
    pub traffic :
        traffic_keys c schedule schedule.server_hs_traffic (key_len selected.suite) ≡ ok (key, iv)
    pub keyed : new_keys selected.suite key iv ≡ some keys
    pub sealed_as :
        seal a keys record_handshake f.encrypted_handshake_plaintext
        ≡ some (keys', f.encrypted_handshake_record)

  pub build-total :
      IsHkdf c
      → Encrypts a
      → schedule.hash ≡ hash_of selected.suite
      → length schedule.server_hs_traffic ≡ output_len schedule.hash
      → (f : ServerHandshakeFlight) × Built f
  unfolding build_server_handshake_flight
  build-total k e same long =
      let transcript = before ++ selected.message ++ extensions ++ certificate ++ verify in
      let transcript_hash = c.hash schedule.hash transcript in
      let (verify_data, e1) =
        finished_verify_data-total c k schedule schedule.server_hs_traffic transcript_hash long in
      let (key, iv, e2, l2) =
        traffic_keys-total c k schedule selected.suite schedule.server_hs_traffic same long in
      let (keys, e3) = new_keys-total selected.suite key iv l2 in
      let plaintext = extensions ++ certificate ++ verify ++ finished_message verify_data in
      let (keys', out, e4) = seal-total a keys record_handshake plaintext e in
      let agree : same_hash schedule.hash (hash_of selected.suite) ≡ true =
        ap (same_hash schedule.hash) (sym same) ∙ same_hash_self schedule.hash in
      (
        record {
          server_hello = selected.message;
          change_cipher_spec = change_cipher_spec_record;
          encrypted_handshake_plaintext = plaintext;
          encrypted_handshake_record = out;
          server_finished = finished_message verify_data;
          transcript_hash_to_server_finished = transcript_hash;
        },
        record {
          built = rw (agree, e1, e2, e3, e4) refl;
          plaintext_is = refl;
          key = key;
          iv = iv;
          keys = keys;
          keys' = keys';
          traffic = e2;
          keyed = e3;
          sealed_as = e4;
        },
      )
