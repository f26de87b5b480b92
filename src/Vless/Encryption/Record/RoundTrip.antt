-- ===== src/Vless/Encryption/Record/RoundTrip.antt =====
-- src/vless/encryption/record.rs: two ends in the same state.
use rust_xhttp.Common.{
  ℕ, ◌+◌, ◌≡◌, refl, ap, sym, ◌∙◌, [], ◌∷◌, ◌++◌, Option, none, some, Bytes, if◌then◌else◌, ltb,
  leb, length, bytes_eq, u16_be, u16_of, u16_of-be, Result, ok, err, arith, Bool-cases, inl, inr,
  ==_self, as_u8, ◌/◌, ◌&&◌, subst,
}
use rust_xhttp.Vless.Encryption.Record.{
  Aead, AeadState, CipherKind, RecordError, invalid_length, plaintext_too_large, authentic,
  increment_nonce, encode_header, decode_header, seal, seal_under, sealed, seal_raw, open_record,
  open_under, opened, open_raw, next_nonce, max_nonce,
}

-- What the cipher is known to do: decryption undoes encryption, and a ciphertext has a tag of 16 bytes.
pub record IsCorrect (a : Aead) : Type 0 where
  pub inverse :
      (kind : CipherKind) (key nonce message aad ciphertext : Bytes)
      → a.encrypt kind key nonce message aad ≡ some ciphertext
      → a.decrypt kind key nonce ciphertext aad ≡ some message
  pub tagged :
      (kind : CipherKind) (key nonce message aad ciphertext : Bytes)
      → a.encrypt kind key nonce message aad ≡ some ciphertext
      → length ciphertext ≡ length message + 16

ok_inj : {x y : Bytes} → ◌≡◌ {A = Result RecordError Bytes} (ok x) (ok y) → x ≡ y
ok_inj e = cc

err_ok : {x : RecordError} {y : Bytes} → ◌≡◌ {A = Result RecordError Bytes} (err x) (ok y) → ⊥
err_ok e = cc

decode_header-encode :
    (len : ℕ) (header : Bytes)
    → encode_header len ≡ ok header
    → (decode_header header ≡ ok len) × (length header ≡ 5)
unfolding encode_header
decode_header-encode len header e = elim (Bool-cases (leb 17 len && leb len 16640)) [
  | inl fits ↦
      let wire : u16_of (as_u8 (len / 256)) (as_u8 len) ≡ len = u16_of-be len (ground arith) in
      subst (λ h. (decode_header h ≡ ok len) × (length h ≡ 5))
        (ok_inj (
          sym (
            ap
              (λ b. if b then ok (0x17 ∷ 0x03 ∷ 0x03 ∷ u16_be len []) else err (invalid_length len))
              fits)
          ∙ e))
        (unfold decode_header in rw (wire, fits) (refl, refl))
  | inr bad ↦ absurd (ground arith)
]

module _ (a : Aead) (s s' : AeadState) (plaintext header out : Bytes) (c : IsCorrect a) where
  -- The record is opened as it was sealed.
  opens :
      (o : Option Bytes)
      → a.encrypt s.kind s.key (increment_nonce s.nonce) plaintext header ≡ o
      → decode_header header ≡ ok (length plaintext + 16)
      → sealed a
          (bytes_eq s.nonce max_nonce)
          header
          (record s { nonce = increment_nonce s.nonce }, authentic o)
        ≡ (s', ok out)
      → (ciphertext : Bytes) × (out ≡ header ++ ciphertext)
        × (open_record a s header ciphertext ≡ (s', ok plaintext))
  unfolding sealed open_record open_under open_raw next_nonce opened
  opens none made decoded e = absurd (err_ok (ap (λ r. r.1) e))
  opens (some ciphertext) made decoded e =
      let tagged =
        c.tagged s.kind s.key (increment_nonce s.nonce) plaintext header ciphertext made in
      let back =
        c.inverse s.kind s.key (increment_nonce s.nonce) plaintext header ciphertext made in
      (
        ciphertext,
        sym (ok_inj (ap (λ r. r.1) e)),
        rw (decoded, tagged, ==_self (length plaintext + 16), back)
            (ap (λ r. (r.0, ok plaintext)) e),
      )

module _ (a : Aead) (s s' : AeadState) (plaintext out : Bytes) (c : IsCorrect a) where
  opens_under :
      (r : Result RecordError Bytes)
      → encode_header (length plaintext + 16) ≡ r
      → seal_under a s plaintext r ≡ (s', ok out)
      → (header : Bytes) × (ciphertext : Bytes) × (out ≡ header ++ ciphertext)
        × (length header ≡ 5)
        × (open_record a s header ciphertext ≡ (s', ok plaintext))
  unfolding seal_under seal_raw next_nonce
  opens_under (err x) h e = absurd (err_ok (ap (λ r. r.1) e))
  opens_under (ok header) h e =
      let (decoded, five) = decode_header-encode (length plaintext + 16) header h in
      let (ciphertext, shape, same) =
        opens a s s' plaintext header out c
          (a.encrypt s.kind s.key (increment_nonce s.nonce) plaintext header) refl decoded e in
      (header, ciphertext, shape, five, same)

-- With a correct cipher, what one end seals, the other end opens if it is in the same state: it gets
-- the plaintext, and both ends are in the same state again, also where the record is the one that
-- changes the key.
pub open-seal :
    (a : Aead) (s s' : AeadState) (plaintext out : Bytes)
    → IsCorrect a
    → seal a s plaintext ≡ (s', ok out)
    → (header : Bytes) × (ciphertext : Bytes) × (out ≡ header ++ ciphertext)
      × (length header ≡ 5)
      × (open_record a s header ciphertext ≡ (s', ok plaintext))
unfolding seal
open-seal a s s' plaintext out c e =
    let under = seal_under a s plaintext (encode_header (length plaintext + 16)) in
    let refused : AeadState × Result RecordError Bytes =
      (s, err (plaintext_too_large (length plaintext))) in
    elim (Bool-cases (ltb 8192 (length plaintext))) [
      | inl large ↦
          absurd (err_ok (ap (λ r. r.1) (sym (ap (λ b. if b then refused else under) large) ∙ e)))
      | inr small ↦
          opens_under a s s' plaintext out c (encode_header (length plaintext + 16)) refl
            (sym (ap (λ b. if b then refused else under) small) ∙ e)
    ]
