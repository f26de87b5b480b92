-- ===== src/Tls/Schedule/Total.antt =====
-- src/tls/tls13/keyschedule.rs: no step of the schedule panics, and the secrets have their lengths.
use rust_xhttp.Common.{
  ℕ, ◌*◌, ◌≤◌, ◌≡◌, refl, [], ◌∷◌, some, Bytes, length, replicate, ◌==◌, ok, arith, true,
}
use rust_xhttp.Tls.Suite.{
  HashAlg, sha256, sha384, CipherSuite, aes128_gcm_sha256, aes256_gcm_sha384,
  chacha20_poly1305_sha256, hash_of, key_len,
}
use rust_xhttp.Tls.Schedule.{
  Crypto, KeySchedule, output_len, hkdf_label, expand_label, derive_secret, derive_secret_with_hash,
  new_schedule, traffic_keys, finished_verify_data, tls13, derived_label, finished_label,
  traffic_label,
}

-- An expansion to a length that HKDF serves has this length: no more than 255 outputs of the hash,
-- from a key that is not shorter than one output. An extraction is as long as the output of its hash.
pub record IsHkdf (c : Crypto) : Type 0 where
  pub expands :
      (h : HashAlg) (secret info : Bytes) (n : ℕ)
      → output_len h ≤ length secret
      → n ≤ 255 * output_len h
      → (out : Bytes) × (c.expand h secret info n ≡ some out) × (length out ≡ n)
  pub extracts :
      (h : HashAlg) (salt material : Bytes) → length (c.extract h salt material) ≡ output_len h

output_len_served : (h : HashAlg) → output_len h ≤ 255 * output_len h
output_len_served sha256 = omega arith
output_len_served sha384 = omega arith

iv_served : (h : HashAlg) → 12 ≤ 255 * output_len h
iv_served sha256 = omega arith
iv_served sha384 = omega arith

key_len_served : (suite : CipherSuite) → key_len suite ≤ 255 * output_len (hash_of suite)
key_len_served aes128_gcm_sha256 = omega arith
key_len_served aes256_gcm_sha384 = omega arith
key_len_served chacha20_poly1305_sha256 = omega arith

module _ (c : Crypto) (k : IsHkdf c) where
  expand_label-total :
      (h : HashAlg) (secret label context : Bytes) (n : ℕ)
      → output_len h ≤ length secret
      → n ≤ 255 * output_len h
      → (out : Bytes) × (expand_label c h secret label context n ≡ ok out) × (length out ≡ n)
  unfolding expand_label
  expand_label-total h secret label context n long small =
      let (out, made, len) = k.expands h secret (hkdf_label label context n) n long small in
      (out, rw made refl, len)

  -- The schedule is made, and its secrets are as long as the output of the hash.
  pub new_schedule-total :
      (h : HashAlg) (ecdhe transcript_hash : Bytes)
      → (s : KeySchedule) × (new_schedule c h ecdhe transcript_hash ≡ ok s)
        × (s.hash ≡ h)
        × (length s.client_hs_traffic ≡ output_len h)
        × (length s.server_hs_traffic ≡ output_len h)
  unfolding new_schedule derive_secret derive_secret_with_hash
  new_schedule-total h ecdhe transcript_hash =
      let zeros : Bytes = replicate (output_len h) 0 in
      let early = c.extract h zeros zeros in
      let served = output_len_served h in
      let (derived, e1, _) =
        expand_label-total h early derived_label (c.hash h []) (output_len h)
          (omega (arith, k.extracts h zeros zeros)) served in
      let handshake = c.extract h derived ecdhe in
      let long = k.extracts h derived ecdhe in
      let (client, e2, l2) =
        expand_label-total h handshake (traffic_label b'c' b'h' b's') transcript_hash (output_len h)
          (omega (arith, long)) served in
      let (server, e3, l3) =
        expand_label-total h handshake (traffic_label b's' b'h' b's') transcript_hash (output_len h)
          (omega (arith, long)) served in
      let (derived2, e4, _) =
        expand_label-total h handshake derived_label (c.hash h []) (output_len h)
          (omega (arith, long)) served in
      (
        record {
          hash = h;
          master_secret = c.extract h derived2 zeros;
          client_hs_traffic = client;
          server_hs_traffic = server;
        },
        rw (e1, e2, e3, e4) refl,
        refl,
        l2,
        l3,
      )

  pub traffic_keys-total :
      (s : KeySchedule) (suite : CipherSuite) (secret : Bytes)
      → s.hash ≡ hash_of suite
      → length secret ≡ output_len s.hash
      → (key : Bytes) × (iv : Bytes) × (traffic_keys c s secret (key_len suite) ≡ ok (key, iv))
        × (length key ≡ key_len suite)
  unfolding traffic_keys
  traffic_keys-total s suite secret same long =
      let served : key_len suite ≤ 255 * output_len s.hash = rw same (key_len_served suite) in
      let (key, e1, l1) =
        expand_label-total s.hash secret (tls13 (b'k' ∷ b'e' ∷ b'y' ∷ [])) [] (key_len suite)
          (omega arith) served in
      let (iv, e2, l2) =
        expand_label-total s.hash secret (tls13 (b'i' ∷ b'v' ∷ [])) [] 12 (omega arith)
          (iv_served s.hash) in
      let twelve : (length iv == 12) ≡ true = ground (arith, l2) in
      (key, iv, rw (e1, e2, twelve) refl, l1)

  pub finished_verify_data-total :
      (s : KeySchedule) (secret transcript_hash : Bytes)
      → length secret ≡ output_len s.hash
      → (verify_data : Bytes) × (finished_verify_data c s secret transcript_hash ≡ ok verify_data)
  unfolding finished_verify_data
  finished_verify_data-total s secret transcript_hash long =
      let (finished_key, e, _) =
        expand_label-total s.hash secret finished_label [] (output_len s.hash) (omega arith)
          (output_len_served s.hash) in
      (c.hmac s.hash finished_key transcript_hash, rw e refl)
