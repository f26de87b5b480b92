-- ===== src/Tls/Record/RoundTrip.antt =====
-- src/tls/tls13/record.rs: two ends with the same keys.
use rust_xhttp.Common.{
  ℕ, ◌+◌, ◌-◌, ◌/◌, ◌^◌, ◌<◌, ◌≡◌, ◌≢◌, false, refl, ap, sym, ◌∙◌, [], ◌∷◌, ◌++◌, Option, none,
  some, zero, suc, Bytes, ltb, ◌==◌, length, take, drop, get_or, replicate, as_u8, u16_of,
  u16_of-be, arith, Bool-cases, inl, inr, length-append, length-replicate, take-append, drop-append,
  get_or-append, append_assoc,
}
use rust_xhttp.Tls.Suite.{CipherSuite}
use rust_xhttp.Tls.Record.{
  Aead, RecordKeys, tag_len, nonce_of, header_of, inner_of, sealed, seal_with_padding, advance,
  trim_zeros, content_at, opened, open_in_place, plaintext_of, open_record,
}

-- What the ciphers are known to do: decryption undoes encryption, a ciphertext is as long as its
-- message, and a tag has 16 bytes.
pub record IsCorrect (a : Aead) : Type 0 where
  pub inverse :
      (suite : CipherSuite) (key nonce aad message body tag : Bytes)
      → a.encrypt suite key nonce aad message ≡ some (body, tag)
      → a.decrypt suite key nonce aad body tag ≡ some message
  pub same_length :
      (suite : CipherSuite) (key nonce aad message body tag : Bytes)
      → a.encrypt suite key nonce aad message ≡ some (body, tag)
      → length body ≡ length message
  pub tagged :
      (suite : CipherSuite) (key nonce aad message body tag : Bytes)
      → a.encrypt suite key nonce aad message ≡ some (body, tag)
      → length tag ≡ 16

get_or-replicate : (n i : ℕ) → get_or {A = ℕ} (replicate n 0) i 0 ≡ 0
get_or-replicate zero i = refl
get_or-replicate (suc n) zero = refl
get_or-replicate (suc n) (suc i) = get_or-replicate n i

-- Behind the type there are zeros only.
get_or-inner :
    (content_type : ℕ) (plaintext : Bytes) (pad_len i : ℕ)
    → length plaintext < i
    → get_or (inner_of content_type plaintext pad_len) i 0 ≡ 0
get_or-inner t [] n zero h = absurd (omega arith)
get_or-inner t [] n (suc i) h = get_or-replicate n i
get_or-inner t (b ∷ plaintext) n zero h = absurd (omega arith)
get_or-inner t (b ∷ plaintext) n (suc i) h = get_or-inner t plaintext n i (omega arith)

trim_zeros-inner :
    (content_type : ℕ) (plaintext : Bytes) (pad_len end : ℕ)
    → content_type ≢ 0
    → length plaintext < end
    → trim_zeros (inner_of content_type plaintext pad_len) end ≡ suc (length plaintext)
unfolding trim_zeros
trim_zeros-inner t plaintext n zero ne h = absurd (omega arith)
trim_zeros-inner t plaintext n (suc end) ne h = elim (Bool-cases (end == length plaintext)) [
  | inl last ↦
      let here : end ≡ length plaintext = ground arith in
      let read : get_or (inner_of t plaintext n) end 0 ≡ t =
        ap (λ i. get_or (inner_of t plaintext n) i 0) here
        ∙ get_or-append plaintext t (replicate n 0) 0 in
      rw read (ground arith)
  | inr more ↦
      let behind : length plaintext < end = ground arith in
      rw (get_or-inner t plaintext n end behind) (trim_zeros-inner t plaintext n end ne behind)
]

pub length-inner :
    (content_type : ℕ) (plaintext : Bytes) (pad_len : ℕ)
    → length (inner_of content_type plaintext pad_len) ≡ length plaintext + 1 + pad_len
length-inner t plaintext n =
    omega (arith, length-append plaintext (t ∷ replicate n 0), length-replicate {A = ℕ} n 0)

-- What a decrypted record is read as.
opened-inner :
    (k : RecordKeys) (b0 b1 b2 b3 b4 content_type : ℕ) (plaintext : Bytes) (pad_len : ℕ)
    (rest : Bytes)
    → content_type ≢ 0
    → plaintext_of (
        opened k
          (b0 ∷ b1 ∷ b2 ∷ b3 ∷ b4 ∷ [])
          rest
          (some (inner_of content_type plaintext pad_len)))
      ≡ (advance k, some (content_type, plaintext))
unfolding opened content_at
opened-inner k b0 b1 b2 b3 b4 t plaintext n rest ne =
    let inner = inner_of t plaintext n in
    let behind = drop (length inner) rest in
    let trimmed : trim_zeros inner (length inner) ≡ suc (length plaintext) =
      trim_zeros-inner t plaintext n (length inner) ne
        (omega (arith, length-inner t plaintext n)) in
    let five : 5 + length plaintext ≡ suc (suc (suc (suc (suc (length plaintext))))) =
      omega arith in
    rw (trimmed, get_or-append plaintext t (replicate n 0) 0, five)
      (ap (λ p. (advance k, some (t, p)))
        (ap (take (length plaintext)) (append_assoc plaintext (t ∷ replicate n 0) behind)
          ∙ take-append plaintext ((t ∷ replicate n 0) ++ behind)))

-- How a record is cut into its body and its tag.
open_record-body :
    (a : Aead) (k : RecordKeys) (b0 b1 b2 b3 b4 : ℕ) (body tag rest : Bytes) (o : Option Bytes)
    → u16_of b3 b4 ≡ length body + 16
    → length tag ≡ 16
    → a.decrypt k.suite k.key (nonce_of k) (b0 ∷ b1 ∷ b2 ∷ b3 ∷ b4 ∷ []) body tag ≡ o
    → open_record a k (b0 ∷ b1 ∷ b2 ∷ b3 ∷ b4 ∷ (body ++ tag) ++ rest)
      ≡ plaintext_of (opened k (b0 ∷ b1 ∷ b2 ∷ b3 ∷ b4 ∷ []) ((body ++ tag) ++ rest) o)
unfolding open_record open_in_place
open_record-body a k b0 b1 b2 b3 b4 body tag rest o len sixteen made =
    let split : length body + 16 - tag_len ≡ length body = omega arith in
    let enough : ltb (length ((body ++ tag) ++ rest)) (length body + 16) ≡ false =
      ground (arith, length-append (body ++ tag) rest, length-append body tag) in
    let tall : ltb (length body + 16) tag_len ≡ false = ground arith in
    let regroup = append_assoc body tag rest in
    let first : take (length body) ((body ++ tag) ++ rest) ≡ body =
      ap (take (length body)) regroup ∙ take-append body (tag ++ rest) in
    let second : take tag_len (drop (length body) ((body ++ tag) ++ rest)) ≡ tag =
      ap (λ r. take tag_len (drop (length body) r)) regroup
      ∙ ap (take tag_len) (drop-append body (tag ++ rest))
      ∙ ap (λ n. take n (tag ++ rest)) (sym sixteen)
      ∙ take-append tag rest in
    rw (len, split, enough, tall, first, second, made) refl

module _ (a : Aead) (k k' : RecordKeys) (content_type : ℕ) (plaintext : Bytes) (pad_len : ℕ)
    (c : IsCorrect a) where
  abbrev message : Bytes
  message = inner_of content_type plaintext pad_len

  abbrev wire_len : ℕ
  wire_len = length plaintext + 1 + pad_len + tag_len

  opens :
      (out rest : Bytes) (o : Option (Bytes × Bytes))
      → content_type ≢ 0
      → wire_len < 65536
      → a.encrypt k.suite k.key (nonce_of k) (header_of wire_len) message ≡ o
      → sealed k (header_of wire_len) o ≡ some (k', out)
      → open_record a k (out ++ rest) ≡ (k', some (content_type, plaintext))
  unfolding sealed header_of
  opens out rest none ne fits made e = absurd cc
  opens out rest (some (body, tag)) ne fits made e =
      let header = header_of wire_len in
      let back = c.inverse k.suite k.key (nonce_of k) header message body tag made in
      let same = c.same_length k.suite k.key (nonce_of k) header message body tag made in
      let sixteen = c.tagged k.suite k.key (nonce_of k) header message body tag made in
      let len : wire_len ≡ length body + 16 =
        omega (arith, length-inner content_type plaintext pad_len, same) in
      let out_eq : header ++ body ++ tag ≡ out = cc in
      let state_eq : advance k ≡ k' = cc in
      ap (λ o. open_record a k (o ++ rest)) (sym out_eq)
      ∙ open_record-body a k 0x17 0x03 0x03 (as_u8 (wire_len / 2 ^ 8)) (as_u8 wire_len) body tag
          rest (some message) (u16_of-be wire_len fits ∙ len) sixteen back
      ∙ opened-inner k 0x17 0x03 0x03 (as_u8 (wire_len / 2 ^ 8)) (as_u8 wire_len) content_type
          plaintext pad_len ((body ++ tag) ++ rest) ne
      ∙ ap (λ k. (k, some (content_type, plaintext))) state_eq

-- With correct ciphers, a record that one end seals, with any padding, is opened by an end in the
-- same state, also with more bytes behind the record: it gets the content type and the plaintext
-- without the padding, and both ends are in the same state again. The type is not zero, and the
-- record fits into its two bytes of length.
pub open_record-seal_with_padding :
    (a : Aead) (k k' : RecordKeys) (content_type : ℕ) (plaintext : Bytes) (pad_len : ℕ)
    (out rest : Bytes)
    → IsCorrect a
    → content_type ≢ 0
    → length plaintext + 1 + pad_len + 16 < 65536
    → seal_with_padding a k content_type plaintext pad_len ≡ some (k', out)
    → open_record a k (out ++ rest) ≡ (k', some (content_type, plaintext))
unfolding seal_with_padding
open_record-seal_with_padding a k k' t plaintext n out rest c ne fits e =
    opens a k k' t plaintext n c out rest
      (a.encrypt k.suite k.key (nonce_of k) (header_of (length plaintext + 1 + n + tag_len))
        (inner_of t plaintext n))
      ne fits refl e
