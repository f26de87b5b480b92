-- ===== src/Vless/Encryption/Record.antt =====
-- src/vless/encryption/record.rs: the records. The two AEAD ciphers and the key derivation are
-- parameters (an `Aead`; the theorems hold for every derivation); encryption and decryption give `none` where the crate gives an error.
pub mod RoundTrip
pub mod Nonce
use rust_xhttp.Common.{
  ℕ, ◌+◌, Bool, true, false, List, [], ◌∷◌, ◌++◌, Option, none, some, Bytes, if◌then◌else◌, ◌==◌,
  ltb, leb, not, ◌&&◌, length, replicate, bytes_eq, as_u8, u16_be, u16_of, Result, ok, err,
}

abbrev pub max_nonce : Bytes
max_nonce = replicate 12 0xff

abbrev pub tag_len : ℕ
tag_len = 16

pub data CipherKind : Type 0 where
  aes_256_gcm chacha20_poly1305 : CipherKind

-- kind, key, nonce, message, associated data; and context, key material
pub record Aead : Type 0 where
  pub encrypt : CipherKind → Bytes → Bytes → Bytes → Bytes → Option Bytes
  pub decrypt : CipherKind → Bytes → Bytes → Bytes → Bytes → Option Bytes
  pub derive_key : Bytes → Bytes → Bytes

pub data RecordError : Type 0 where
  plaintext_too_large : ℕ → RecordError
  invalid_length : ℕ → RecordError
  invalid_header : Bytes → RecordError
  length_mismatch : RecordError
  authentication : RecordError

-- `AeadState` and `RecordCipher`
pub record AeadState : Type 0 where
  pub kind : CipherKind
  pub key : Bytes
  pub united_key : Bytes
  pub nonce : Bytes

unfoldable pub new_state : Aead → Bytes → Bytes → CipherKind → AeadState
new_state a context united_key kind = record {
  kind = kind;
  key = a.derive_key context united_key;
  united_key = united_key;
  nonce = replicate 12 0;
}

-- The bytes after the increment, and whether it is carried on to the byte in front of them.
unfoldable pub increment : Bytes → Bytes × Bool
increment [] = ([], true)
increment (byte ∷ bytes) =
    let (later, carry) = increment bytes in
    if carry then (as_u8 (byte + 1) ∷ later, as_u8 (byte + 1) == 0) else (byte ∷ later, false)

unfoldable pub increment_nonce : Bytes → Bytes
increment_nonce nonce = (increment nonce).0

-- The state after the choice of a nonce, and the nonce.
unfoldable pub next_nonce : AeadState → Option Bytes → AeadState × Bytes
next_nonce s (some nonce) = (s, nonce)
next_nonce s none = let nonce = increment_nonce s.nonce in (record s { nonce = nonce }, nonce)

abbrev pub authentic : Option Bytes → Result RecordError Bytes
authentic none = err authentication
authentic (some b) = ok b

unfoldable pub seal_raw :
    Aead → AeadState → Bytes → Bytes → Option Bytes → AeadState × Result RecordError Bytes
seal_raw a s plaintext aad explicit_nonce =
    let (s', nonce) = next_nonce s explicit_nonce in
    (s', authentic (a.encrypt s'.kind s'.key nonce plaintext aad))

unfoldable pub open_raw :
    Aead → AeadState → Bytes → Bytes → Option Bytes → AeadState × Result RecordError Bytes
open_raw a s ciphertext aad explicit_nonce =
    let (s', nonce) = next_nonce s explicit_nonce in
    (s', authentic (a.decrypt s'.kind s'.key nonce ciphertext aad))

unfoldable pub encode_header : ℕ → Result RecordError Bytes
encode_header len =
    if leb 17 len && leb len 16640
    then ok (0x17 ∷ 0x03 ∷ 0x03 ∷ u16_be len [])
    else err (invalid_length len)

-- A header is an array of five bytes.
unfoldable pub decode_header : Bytes → Result RecordError ℕ
decode_header (a ∷ b ∷ c ∷ hi ∷ lo ∷ []) =
    let len = u16_of hi lo in
    if not (bytes_eq (a ∷ b ∷ c ∷ []) (0x17 ∷ 0x03 ∷ 0x03 ∷ []) && leb 17 len && leb len 16640)
    then err (invalid_header (a ∷ b ∷ c ∷ hi ∷ lo ∷ []))
    else ok len
decode_header header = err (invalid_header header)

unfoldable pub rekeyed : Aead → Bool → Bytes → AeadState → AeadState
rekeyed a rekey record_bytes s =
    if rekey then record s { key = a.derive_key record_bytes s.united_key } else s

unfoldable pub sealed :
    Aead
    → Bool
    → Bytes
    → AeadState × Result RecordError Bytes
    → AeadState × Result RecordError Bytes
sealed a rekey header (s, err e) = (s, err e)
sealed a rekey header (s, ok ciphertext) =
    (rekeyed a rekey (header ++ ciphertext) s, ok (header ++ ciphertext))

unfoldable pub seal_under :
    Aead → AeadState → Bytes → Result RecordError Bytes → AeadState × Result RecordError Bytes
seal_under a s plaintext (err e) = (s, err e)
seal_under a s plaintext (ok header) =
    sealed a (bytes_eq s.nonce max_nonce) header (seal_raw a s plaintext header none)

-- `RecordCipher::seal`
unfoldable pub seal : Aead → AeadState → Bytes → AeadState × Result RecordError Bytes
seal a s plaintext =
    if ltb 8192 (length plaintext)
    then (s, err (plaintext_too_large (length plaintext)))
    else seal_under a s plaintext (encode_header (length plaintext + tag_len))

unfoldable pub opened :
    Aead
    → Bool
    → Bytes
    → AeadState × Result RecordError Bytes
    → AeadState × Result RecordError Bytes
opened a rekey context (s, err e) = (s, err e)
opened a rekey context (s, ok plaintext) = (rekeyed a rekey context s, ok plaintext)

unfoldable pub open_under :
    Aead → AeadState → Bytes → Bytes → Result RecordError ℕ → AeadState × Result RecordError Bytes
open_under a s header ciphertext (err e) = (s, err e)
open_under a s header ciphertext (ok len) =
    if not (len == length ciphertext)
    then (s, err length_mismatch)
    else opened a (bytes_eq s.nonce max_nonce) (header ++ ciphertext)
        (open_raw a s ciphertext header none)

-- `RecordCipher::open`
unfoldable pub open_record : Aead → AeadState → Bytes → Bytes → AeadState × Result RecordError Bytes
open_record a s header ciphertext = open_under a s header ciphertext (decode_header header)
