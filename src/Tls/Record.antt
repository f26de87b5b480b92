-- ===== src/Tls/Record.antt =====
-- src/tls/tls13/record.rs: the record layer of TLS 1.3. The AEAD ciphers, which are third-party, are
-- a parameter (an `Aead`); encryption and decryption give `none` where the crate gives an error,
-- and `none` of `seal_into` and of `new_keys` is the panic of an `expect`.
pub mod RoundTrip
pub mod Nonce
pub mod Bounds
pub mod Run
pub mod Nonces
use rust_xhttp.Common.{
  ℕ, ◌+◌, ◌-◌, ◌/◌, ◌%◌, ◌^◌, List, [], ◌∷◌, ◌++◌, Bool, Option, none, some, Bytes, if◌then◌else◌,
  ◌==◌, ltb, ◌||◌, zero, suc, length, take, drop, get_or, replicate, as_u8, u16_of,
}
use Prim.Native.Nat.{bit_xor}
use rust_xhttp.Tls.Suite.{CipherSuite, key_len}

abbrev pub record_handshake : ℕ
record_handshake = 22

abbrev pub record_application_data : ℕ
record_application_data = 23

abbrev pub outer_type : ℕ
outer_type = 0x17

abbrev pub outer_version : Bytes
outer_version = 0x03 ∷ 0x03 ∷ []

abbrev pub tag_len : ℕ
tag_len = 16

-- Suite, key, nonce, associated data and message, and for decryption the tag. An encryption gives
-- the ciphertext and its tag.
pub record Aead : Type 0 where
  pub encrypt : CipherSuite → Bytes → Bytes → Bytes → Bytes → Option (Bytes × Bytes)
  pub decrypt : CipherSuite → Bytes → Bytes → Bytes → Bytes → Bytes → Option Bytes

-- `RecordAead` and `RecordKeys`
pub record RecordKeys : Type 0 where
  pub suite : CipherSuite
  pub key : Bytes
  pub iv : Bytes
  pub seq : ℕ

-- A cipher takes a key of its own length only.
unfoldable pub new_keys : CipherSuite → Bytes → Bytes → Option RecordKeys
new_keys suite key iv =
    if length key == key_len suite
    then some (record { suite = suite; key = key; iv = iv; seq = 0 })
    else none

-- `u64::to_be_bytes`
unfoldable pub u64_be : ℕ → Bytes
u64_be n =
    as_u8 (n / 2 ^ 56)
    ∷ as_u8 (n / 2 ^ 48)
    ∷ as_u8 (n / 2 ^ 40)
    ∷ as_u8 (n / 2 ^ 32)
    ∷ as_u8 (n / 2 ^ 24)
    ∷ as_u8 (n / 2 ^ 16)
    ∷ as_u8 (n / 2 ^ 8)
    ∷ as_u8 n
    ∷ []

unfoldable pub xor_bytes : Bytes → Bytes → Bytes
xor_bytes [] ys = []
xor_bytes (x ∷ xs) [] = x ∷ xs
xor_bytes (x ∷ xs) (y ∷ ys) = bit_xor x y ∷ xor_bytes xs ys

-- The first four bytes of the 12 stay.
unfoldable pub nonce_of : RecordKeys → Bytes
nonce_of k = take 4 k.iv ++ xor_bytes (drop 4 k.iv) (u64_be k.seq)

-- `self.seq += 1`, in an optimised build
abbrev pub advance : RecordKeys → RecordKeys
advance k = record k { seq = (k.seq + 1) % 2 ^ 64 }

unfoldable pub header_of : ℕ → Bytes
header_of ct_len = outer_type ∷ outer_version ++ as_u8 (ct_len / 2 ^ 8) ∷ as_u8 ct_len ∷ []

-- The plaintext, the type and the padding.
abbrev pub inner_of : ℕ → Bytes → ℕ → Bytes
inner_of content_type plaintext pad_len = plaintext ++ content_type ∷ replicate pad_len 0

unfoldable pub sealed : RecordKeys → Bytes → Option (Bytes × Bytes) → Option (RecordKeys × Bytes)
sealed k header none = none
sealed k header (some (body, tag)) = some (advance k, header ++ body ++ tag)

-- `seal_with_padding`, and `seal_into` with the contents of `out`
unfoldable pub seal_with_padding : Aead → RecordKeys → ℕ → Bytes → ℕ → Option (RecordKeys × Bytes)
seal_with_padding a k content_type plaintext pad_len =
    let inner_len = length plaintext + 1 + pad_len in
    let ct_len = inner_len + tag_len in
    let header = header_of ct_len in
    sealed k header
      (a.encrypt k.suite k.key (nonce_of k) header (inner_of content_type plaintext pad_len))

unfoldable pub seal : Aead → RecordKeys → ℕ → Bytes → Option (RecordKeys × Bytes)
seal a k content_type plaintext = seal_with_padding a k content_type plaintext 0

-- The loop over the zeros at the end: the index behind the last byte that is not zero. The buffer
-- is given from its sixth byte on, and the index counts from there.
unfoldable pub trim_zeros : Bytes → ℕ → ℕ
trim_zeros buf zero = zero
trim_zeros buf (suc end) =
    let rest = trim_zeros buf end in if get_or buf end 0 == 0 then rest else suc end

unfoldable pub content_at : Bytes → ℕ → Option (ℕ × ℕ)
content_at body zero = none
content_at body (suc end) = some (get_or body end 0, 5 + end)

-- The state behind a record, the buffer with the plaintext in it, and the type with the index
-- where the plaintext ends. A failed decryption leaves the state as it was, and what it leaves in
-- the buffer is not read.
unfoldable pub opened :
    RecordKeys → Bytes → Bytes → Option Bytes → RecordKeys × Bytes × Option (ℕ × ℕ)
opened k header rest none = (k, header ++ rest, none)
opened k header rest (some body) = (
  advance k,
  header ++ body ++ drop (length body) rest,
  content_at body (trim_zeros body (length body)),
)

unfoldable pub open_in_place : Aead → RecordKeys → Bytes → RecordKeys × Bytes × Option (ℕ × ℕ)
open_in_place a k (b0 ∷ b1 ∷ b2 ∷ b3 ∷ b4 ∷ rest) =
    let len = u16_of b3 b4 in
    let header = b0 ∷ b1 ∷ b2 ∷ b3 ∷ b4 ∷ [] in
    let split = len - tag_len in
    if ltb (length rest) len || ltb len tag_len
    then (k, header ++ rest, none)
    else opened k header rest (
        a.decrypt k.suite k.key (nonce_of k) header (take split rest)
          (take tag_len (drop split rest)))
open_in_place a k buf = (k, buf, none)

-- `buf[5..end]`
abbrev pub plaintext_of : RecordKeys × Bytes × Option (ℕ × ℕ) → RecordKeys × Option (ℕ × Bytes)
plaintext_of (k, buf, none) = (k, none)
plaintext_of (k, buf, some (content_type, end)) = (k, some (content_type, drop 5 (take end buf)))

unfoldable pub open_record : Aead → RecordKeys → Bytes → RecordKeys × Option (ℕ × Bytes)
open_record a k bytes = plaintext_of (open_in_place a k bytes)

abbrev pub change_cipher_spec_record : Bytes
change_cipher_spec_record = 0x14 ∷ 0x03 ∷ 0x03 ∷ 0x00 ∷ 0x01 ∷ 0x01 ∷ []
