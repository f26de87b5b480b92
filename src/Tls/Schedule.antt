-- ===== src/Tls/Schedule.antt =====
-- src/tls/tls13/keyschedule.rs: the key schedule of TLS 1.3. The hash functions, HKDF and HMAC, which
-- are third-party, are a parameter (a `Crypto`); `none` of an expansion is the error that an
-- `expect` turns into a panic.
pub mod Total
use rust_xhttp.Common.{
  ℕ, ◌++◌, [], ◌∷◌, Option, none, some, Bytes, length, replicate, as_u8, as_u16, u16_be, ◌==◌,
  Result, ok, err, ◌>>=◌, ◌>>◌, guard, ok_or,
}
use rust_xhttp.Tls.Suite.{HashAlg, sha256, sha384}

-- Of the hash: of some data; extraction from a salt and key material; expansion of a key and an
-- info to a length; and the code of a key and some data.
pub record Crypto : Type 0 where
  pub hash : HashAlg → Bytes → Bytes
  pub extract : HashAlg → Bytes → Bytes → Bytes
  pub expand : HashAlg → Bytes → Bytes → ℕ → Option Bytes
  pub hmac : HashAlg → Bytes → Bytes → Bytes

pub data Panic : Type 0 where
  panicked : Panic

abbrev pub output_len : HashAlg → ℕ
output_len sha256 = 32
output_len sha384 = 48

-- The label is given with its prefix `tls13 `.
unfoldable pub hkdf_label : Bytes → Bytes → ℕ → Bytes
hkdf_label full_label context len =
    u16_be (as_u16 len)
      (as_u8 (length full_label) ∷ (full_label ++ as_u8 (length context) ∷ context))

unfoldable pub expand_label : Crypto → HashAlg → Bytes → Bytes → Bytes → ℕ → Result Panic Bytes
expand_label c h secret full_label context len =
    ok_or (c.expand h secret (hkdf_label full_label context len) len) panicked

unfoldable pub derive_secret : Crypto → HashAlg → Bytes → Bytes → Bytes → Result Panic Bytes
derive_secret c h secret full_label transcript =
    expand_label c h secret full_label (c.hash h transcript) (output_len h)

unfoldable pub derive_secret_with_hash :
    Crypto → HashAlg → Bytes → Bytes → Bytes → Result Panic Bytes
derive_secret_with_hash c h secret full_label transcript_hash =
    expand_label c h secret full_label transcript_hash (output_len h)

pub record KeySchedule : Type 0 where
  pub hash : HashAlg
  pub master_secret : Bytes
  pub client_hs_traffic : Bytes
  pub server_hs_traffic : Bytes

abbrev pub tls13 : Bytes → Bytes
tls13 label = b't' ∷ b'l' ∷ b's' ∷ b'1' ∷ b'3' ∷ b' ' ∷ label

abbrev pub derived_label : Bytes
derived_label = tls13 (b'd' ∷ b'e' ∷ b'r' ∷ b'i' ∷ b'v' ∷ b'e' ∷ b'd' ∷ [])

-- ` hs traffic` and ` ap traffic`, for the client and for the server
abbrev pub traffic_label : ℕ → ℕ → ℕ → Bytes
traffic_label side phase_a phase_b =
    tls13
      (side ∷ b' ' ∷ phase_a ∷ phase_b ∷ b' ' ∷ b't' ∷ b'r' ∷ b'a' ∷ b'f' ∷ b'f' ∷ b'i' ∷ b'c' ∷ [])

-- `KeySchedule::new`
unfoldable pub new_schedule : Crypto → HashAlg → Bytes → Bytes → Result Panic KeySchedule
new_schedule c h ecdhe transcript_hash_ch_sh =
    let zeros = replicate (output_len h) 0 in
    let early_secret = c.extract h zeros zeros in
    do
      derived ← derive_secret c h early_secret derived_label []
      let handshake_secret = c.extract h derived ecdhe
      client ←
          derive_secret_with_hash c h handshake_secret (traffic_label b'c' b'h' b's')
            transcript_hash_ch_sh
      server ←
          derive_secret_with_hash c h handshake_secret (traffic_label b's' b'h' b's')
            transcript_hash_ch_sh
      derived2 ← derive_secret c h handshake_secret derived_label []
      ok (record {
        hash = h;
        master_secret = c.extract h derived2 zeros;
        client_hs_traffic = client;
        server_hs_traffic = server;
      })

-- `copy_from_slice` panics on another length than 12.
unfoldable pub traffic_keys : Crypto → KeySchedule → Bytes → ℕ → Result Panic (Bytes × Bytes)
traffic_keys c s secret key_len = do
  key ← expand_label c s.hash secret (tls13 (b'k' ∷ b'e' ∷ b'y' ∷ [])) [] key_len
  iv ← expand_label c s.hash secret (tls13 (b'i' ∷ b'v' ∷ [])) [] 12
  guard (length iv == 12) panicked
  ok (key, iv)

abbrev pub finished_label : Bytes
finished_label = tls13 (b'f' ∷ b'i' ∷ b'n' ∷ b'i' ∷ b's' ∷ b'h' ∷ b'e' ∷ b'd' ∷ [])

unfoldable pub finished_verify_data : Crypto → KeySchedule → Bytes → Bytes → Result Panic Bytes
finished_verify_data c s base_traffic_secret transcript_hash = do
  finished_key ← expand_label c s.hash base_traffic_secret finished_label [] (output_len s.hash)
  ok (c.hmac s.hash finished_key transcript_hash)

-- The secret of the client, and that of the server.
unfoldable pub application_traffic_secrets :
    Crypto → KeySchedule → Bytes → Result Panic (Bytes × Bytes)
application_traffic_secrets c s transcript_hash = do
  client ←
      derive_secret_with_hash c s.hash s.master_secret (traffic_label b'c' b'a' b'p')
        transcript_hash
  server ←
      derive_secret_with_hash c s.hash s.master_secret (traffic_label b's' b'a' b'p')
        transcript_hash
  ok (client, server)
