-- ===== src/Tls/Handshake/Rfc8446.antt =====
-- src/tls/tls13/keyschedule.rs: the key schedule as RFC 8446 gives it (sections 7.1, 7.3 and 4.4.4), for
-- a client. The suites, the labels and the order of the derivations are written out here once more.
use rust_xhttp.Common.{
  ℕ, ◌/◌, ◌%◌, ◌≡◌, refl, ap, subst, sym, ◌∙◌, [], ◌∷◌, ◌++◌, Option, none, some, Bytes, length,
  replicate, Result, ok, err, ◌>>=◌, Bool, true, false, ◌==◌, if◌then◌else◌, ok_or, bind_inv,
  guard_inv, arith,
}
use rust_xhttp.Tls.Suite.{
  HashAlg, sha256, sha384, CipherSuite, aes128_gcm_sha256, aes256_gcm_sha384,
  chacha20_poly1305_sha256, hash_of, key_len, from_u16,
}
use rust_xhttp.Tls.Schedule.{
  Crypto, Panic, panicked, KeySchedule, output_len, hkdf_label, expand_label, derive_secret,
  derive_secret_with_hash, new_schedule, traffic_keys, finished_verify_data, tls13, derived_label,
  finished_label, traffic_label,
}

pub data Refused : Type 0 where
  refused : Refused

-- A suite by its number, with its hash and the length of its keys.
abbrev pub suite_by_number : ℕ → Result Refused (CipherSuite × HashAlg × ℕ)
suite_by_number id =
    if id == 4865
    then ok (aes128_gcm_sha256, sha256, 16)
    else if id == 4866
    then ok (aes256_gcm_sha384, sha384, 32)
    else if id == 4867
    then ok (chacha20_poly1305_sha256, sha256, 32)
    else err refused

abbrev pub hash_length : HashAlg → ℕ
hash_length sha256 = 32
hash_length sha384 = 48

-- HKDF-Expand-Label: two bytes of length, the label behind `tls13 ` and the context, each with one
-- byte of length.
abbrev pub hkdf_expand_label : Crypto → HashAlg → Bytes → Bytes → Bytes → ℕ → Result Refused Bytes
hkdf_expand_label c h secret label context n =
    let full = b't' ∷ b'l' ∷ b's' ∷ b'1' ∷ b'3' ∷ b' ' ∷ label in
    ok_or
      (c.expand h secret
        (n / 256 % 256 ∷ n % 256 ∷ length full % 256 ∷ (full ++ length context % 256 ∷ context)) n)
      refused

abbrev pub derived_bytes : Bytes
derived_bytes = b'd' ∷ b'e' ∷ b'r' ∷ b'i' ∷ b'v' ∷ b'e' ∷ b'd' ∷ []

abbrev pub key_bytes : Bytes
key_bytes = b'k' ∷ b'e' ∷ b'y' ∷ []

abbrev pub iv_bytes : Bytes
iv_bytes = b'i' ∷ b'v' ∷ []

abbrev pub finished_bytes : Bytes
finished_bytes = b'f' ∷ b'i' ∷ b'n' ∷ b'i' ∷ b's' ∷ b'h' ∷ b'e' ∷ b'd' ∷ []

-- `c hs traffic`
abbrev pub client_label : Bytes
client_label =
    b'c' ∷ b' ' ∷ b'h' ∷ b's' ∷ b' ' ∷ b't' ∷ b'r' ∷ b'a' ∷ b'f' ∷ b'f' ∷ b'i' ∷ b'c' ∷ []

-- `s hs traffic`
abbrev pub server_label : Bytes
server_label =
    b's' ∷ b' ' ∷ b'h' ∷ b's' ∷ b' ' ∷ b't' ∷ b'r' ∷ b'a' ∷ b'f' ∷ b'f' ∷ b'i' ∷ b'c' ∷ []

-- The handshake secrets of the client and of the server, without a pre-shared key.
abbrev pub handshake_secrets : Crypto → HashAlg → Bytes → Bytes → Result Refused (Bytes × Bytes)
handshake_secrets c h shared transcript_hash =
    let zeros = replicate (hash_length h) 0 in
    do
      derived ←
          hkdf_expand_label c h (c.extract h zeros zeros) derived_bytes (c.hash h [])
            (hash_length h)
      let secret = c.extract h derived shared
      client ← hkdf_expand_label c h secret client_label transcript_hash (hash_length h)
      server ← hkdf_expand_label c h secret server_label transcript_hash (hash_length h)
      ok (client, server)

-- The key of a length and the initialisation vector from a secret.
abbrev pub record_keys : Crypto → HashAlg → Bytes → ℕ → Result Refused (Bytes × Bytes)
record_keys c h secret n = do
  key ← hkdf_expand_label c h secret key_bytes [] n
  iv ← hkdf_expand_label c h secret iv_bytes [] 12
  ok (key, iv)

-- The verify data of a Finished message.
abbrev pub verify_data_of : Crypto → HashAlg → Bytes → Bytes → Result Refused Bytes
verify_data_of c h secret transcript_hash = do
  key ← hkdf_expand_label c h secret finished_bytes [] (hash_length h)
  ok (c.hmac h key transcript_hash)

some_suite : {s suite : CipherSuite} → some s ≡ some suite → s ≡ suite
some_suite e = cc

ok_inj : {b out : Bytes} → ◌≡◌ {A = Result Panic Bytes} (ok b) (ok out) → b ≡ out
ok_inj e = cc

pair_inj : {p q : Bytes × Bytes} → ◌≡◌ {A = Result Panic (Bytes × Bytes)} (ok p) (ok q) → p ≡ q
pair_inj e = cc

schedule_inj : {p q : KeySchedule} → ◌≡◌ {A = Result Panic KeySchedule} (ok p) (ok q) → p ≡ q
schedule_inj e = cc

hash_length-output : (h : HashAlg) → hash_length h ≡ output_len h
hash_length-output sha256 = refl
hash_length-output sha384 = refl

abbrev Suites : Type 0
Suites = CipherSuite × HashAlg × ℕ

-- The tests of a number, in the two tables of suites.
tables_agree :
    (p q r : Bool) (suite : CipherSuite)
    → (if p
        then some aes128_gcm_sha256
        else if q
        then some aes256_gcm_sha384
        else if r
        then some chacha20_poly1305_sha256
        else none)
      ≡ some suite
    → ◌≡◌ {A = Result Refused Suites}
        (if p
          then ok (aes128_gcm_sha256, sha256, 16)
          else if q
          then ok (aes256_gcm_sha384, sha384, 32)
          else if r
          then ok (chacha20_poly1305_sha256, sha256, 32)
          else err refused)
        (ok (suite, hash_of suite, key_len suite))
tables_agree true q r suite e = ap (λ s. ok (s, hash_of s, key_len s)) (some_suite e)
tables_agree false true r suite e = ap (λ s. ok (s, hash_of s, key_len s)) (some_suite e)
tables_agree false false true suite e = ap (λ s. ok (s, hash_of s, key_len s)) (some_suite e)
tables_agree false false false suite e = absurd cc

pub suite_by_number-known :
    (id : ℕ) (suite : CipherSuite)
    → from_u16 id ≡ some suite
    → suite_by_number id ≡ ok (suite, hash_of suite, key_len suite)
unfolding from_u16
suite_by_number-known id suite e = tables_agree (id == 4865) (id == 4866) (id == 4867) suite e

ok_or_inv : (found : Option Bytes) (out : Bytes) → ok_or found panicked ≡ ok out → found ≡ some out
ok_or_inv none out e = absurd cc
ok_or_inv (some b) out e = ap some (ok_inj e)

module _ (c : Crypto) (h : HashAlg) where
  expand_agrees :
      (secret label context : Bytes) (n : ℕ) (out : Bytes)
      → expand_label c h secret (tls13 label) context n ≡ ok out
      → hkdf_expand_label c h secret label context n ≡ ok out
  unfolding expand_label hkdf_label
  expand_agrees secret label context n out e =
      let hi : n / 256 % 256 ≡ n % 65536 / 256 % 256 = omega arith in
      let lo : n % 256 ≡ n % 65536 % 256 = omega arith in
      let rest = length (tls13 label) % 256 ∷ (tls13 label ++ length context % 256 ∷ context) in
      ap (λ found. ok_or found refused)
        (ap (λ x. c.expand h secret (x ∷ n % 256 ∷ rest) n) hi
          ∙ ap (λ x. c.expand h secret (n % 65536 / 256 % 256 ∷ x ∷ rest) n) lo
          ∙ ok_or_inv (c.expand h secret (hkdf_label (tls13 label) context n) n) out e)

  as_hash :
      (g : HashAlg) (secret label out : Bytes) (n : ℕ)
      → g ≡ h
      → expand_label c g secret label [] n ≡ ok out
      → expand_label c h secret label [] n ≡ ok out
  as_hash g secret label out n same e =
      subst (λ g'. expand_label c g' secret label [] n ≡ ok out) same e

  -- An expansion to the length of the hash.
  output_agrees :
      (secret label context out : Bytes)
      → expand_label c h secret (tls13 label) context (output_len h) ≡ ok out
      → hkdf_expand_label c h secret label context (hash_length h) ≡ ok out
  output_agrees secret label context out e =
      ap (hkdf_expand_label c h secret label context) (hash_length-output h)
      ∙ expand_agrees secret label context (output_len h) out e

  pub handshake_secrets-new_schedule :
      (shared transcript_hash : Bytes) (s : KeySchedule)
      → new_schedule c h shared transcript_hash ≡ ok s
      → handshake_secrets c h shared transcript_hash ≡ ok (s.client_hs_traffic, s.server_hs_traffic)
  unfolding new_schedule derive_secret derive_secret_with_hash
  handshake_secrets-new_schedule shared transcript_hash s e =
      let zeros : Bytes = replicate (output_len h) 0 in
      let early = c.extract h zeros zeros in
      let (derived, e1, r1) = bind_inv (derive_secret c h early derived_label []) _ s e in
      let secret = c.extract h derived shared in
      let (client, e2, r2) =
        bind_inv (derive_secret_with_hash c h secret (traffic_label b'c' b'h' b's') transcript_hash)
          _ s r1 in
      let (server, e3, r3) =
        bind_inv (derive_secret_with_hash c h secret (traffic_label b's' b'h' b's') transcript_hash)
          _ s r2 in
      let (derived2, e4, r4) = bind_inv (derive_secret c h secret derived_label []) _ s r3 in
      let empty_hash = c.hash h [] in
      let early_same : c.extract h (replicate (hash_length h) 0) (replicate (hash_length h) 0)
          ≡ early =
        ap (λ n. c.extract h (replicate n 0) (replicate n 0)) (hash_length-output h) in
      let first =
        ap (λ k. hkdf_expand_label c h k derived_bytes empty_hash (hash_length h)) early_same
        ∙ output_agrees early derived_bytes empty_hash derived e1 in
      rw
        (
          first,
          output_agrees secret client_label transcript_hash client e2,
          output_agrees secret server_label transcript_hash server e3,
        )
        (ap (λ made. ok (made.client_hs_traffic, made.server_hs_traffic)) (schedule_inj r4))

  pub record_keys-traffic_keys :
      (s : KeySchedule) (secret : Bytes) (n : ℕ) (key iv : Bytes)
      → s.hash ≡ h
      → traffic_keys c s secret n ≡ ok (key, iv)
      → record_keys c h secret n ≡ ok (key, iv)
  unfolding traffic_keys
  record_keys-traffic_keys s secret n key iv same e =
      let (k, e1, r1) =
        bind_inv (expand_label c s.hash secret (tls13 key_bytes) [] n) _ (key, iv) e in
      let (i, e2, r2) =
        bind_inv (expand_label c s.hash secret (tls13 iv_bytes) [] 12) _ (key, iv) r1 in
      let (_, r3) = guard_inv (length i == 12) panicked _ (key, iv) r2 in
      rw
        (
          expand_agrees secret key_bytes [] n k
              (as_hash s.hash secret (tls13 key_bytes) k n same e1),
          expand_agrees secret iv_bytes [] 12 i
              (as_hash s.hash secret (tls13 iv_bytes) i 12 same e2),
        )
        (ap ok (pair_inj r3))

  pub verify_data_of-finished :
      (s : KeySchedule) (secret transcript_hash verify_data : Bytes)
      → s.hash ≡ h
      → finished_verify_data c s secret transcript_hash ≡ ok verify_data
      → verify_data_of c h secret transcript_hash ≡ ok verify_data
  unfolding finished_verify_data
  verify_data_of-finished s secret transcript_hash verify_data same e =
      let (k, e1, r1) =
        bind_inv (expand_label c s.hash secret finished_label [] (output_len s.hash)) _ verify_data
          e in
      let e2 =
        subst (λ g. expand_label c g secret finished_label [] (output_len g) ≡ ok k) same e1 in
      rw (output_agrees secret finished_bytes [] k e2)
        (ap ok (ap (λ g. c.hmac g k transcript_hash) (sym same) ∙ ok_inj r1))
