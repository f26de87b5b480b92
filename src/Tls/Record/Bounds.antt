-- ===== src/Tls/Record/Bounds.antt =====
-- src/tls/tls13/record.rs: where the plaintext stands in an opened record, and what length a sealed one announces.
use rust_xhttp.Common.{
  ℕ, ◌+◌, ◌-◌, ◌%◌, ◌<◌, ◌≤◌, ◌≡◌, ◌≢◌, refl, ap, sym, ◌∙◌, subst, [], ◌∷◌, ◌++◌, Option, none,
  some, zero, suc, Bytes, if◌then◌else◌, ltb, ◌==◌, ◌||◌, length, take, drop, get_or, u16_of, arith,
  Bool-cases, inl, inr, length-append, length-take, length-drop,
}
use rust_xhttp.Tls.Record.{
  Aead, RecordKeys, tag_len, nonce_of, header_of, inner_of, sealed, seal_with_padding, advance,
  trim_zeros, content_at, opened, open_in_place,
}
use rust_xhttp.Tls.Record.RoundTrip.{IsCorrect, length-inner}
use rust_xhttp.Tls.Suite.{CipherSuite}

-- Decryption in place gives as many bytes as it was given.
abbrev pub IsInPlace : Aead → Type 0
IsInPlace a =
    (suite : CipherSuite) (key nonce aad body tag message : Bytes)
    → a.decrypt suite key nonce aad body tag ≡ some message
    → length message ≡ length body

-- The index that the loop stops at is where the list has its last byte that is not zero.
trim_zeros-stops :
    (body : Bytes) (n end : ℕ) → trim_zeros body n ≡ suc end → (end < n) × (get_or body end 0 ≢ 0)
unfolding trim_zeros
trim_zeros-stops body zero end e = absurd (omega arith)
trim_zeros-stops body (suc n) end e = elim (Bool-cases (get_or body n 0 == 0)) [
  | inl zero_there ↦
      let shorter : trim_zeros body n ≡ suc end =
        sym (ap (λ b. if b then trim_zeros body n else suc n) zero_there) ∙ e in
      let (lt, ne) = trim_zeros-stops body n end shorter in (omega arith, ne)
  | inr other ↦
      let here : suc n ≡ suc end =
        sym (ap (λ b. if b then trim_zeros body n else suc n) other) ∙ e in
      let same : n ≡ end = omega arith in
      (omega arith, λ z. ground (arith, ap (λ i. get_or body i 0) same))
]

-- What an opened record promises to the caller who reads the plaintext out of the buffer.
abbrev pub Within : RecordKeys → Bytes → RecordKeys × Bytes × Option (ℕ × ℕ) → Type 0
Within k buf (k', buf', none) = length buf' ≡ length buf
Within k buf (k', buf', some (content_type, end)) =
    (length buf' ≡ length buf)
    × (k' ≡ advance k)
    × (content_type ≢ 0)
    × (5 ≤ end)
    × (end + 17 ≤ length buf)

module _ (k : RecordKeys) (b0 b1 b2 b3 b4 : ℕ) (rest : Bytes) where
  abbrev header : Bytes
  header = b0 ∷ b1 ∷ b2 ∷ b3 ∷ b4 ∷ []

  content_at-Within :
      (body : Bytes) (t : ℕ)
      → length body + 16 ≤ length rest
      → trim_zeros body (length body) ≡ t
      → Within k
          (header ++ rest)
          (advance k, header ++ body ++ drop (length body) rest, content_at body t)
  unfolding content_at
  content_at-Within body zero room e =
      omega (arith, length-append body (drop (length body) rest), length-drop (length body) rest)
  content_at-Within body (suc end) room e =
      let (lt, ne) = trim_zeros-stops body (length body) end e in
      (
        omega (arith, length-append body (drop (length body) rest), length-drop (length body) rest),
        refl,
        ne,
        omega arith,
        omega arith,
      )

  opened-Within :
      (len : ℕ) (o : Option Bytes)
      → 16 ≤ len
      → len ≤ length rest
      → ((message : Bytes) → o ≡ some message → length message ≡ length (take (len - 16) rest))
      → Within k (header ++ rest) (opened k header rest o)
  unfolding opened
  opened-Within len none low high same = refl
  opened-Within len (some body) low high same =
      content_at-Within body (trim_zeros body (length body))
        (omega (arith, same body refl, length-take (len - 16) rest)) refl

-- With ciphers that decrypt in place, whatever bytes come in and whatever a record holds, opening it
-- keeps the length of the buffer; where it gives a type and an index, the type is not zero, the
-- number of the next record is one higher, and the index is neither in the header nor beyond the
-- body, so that the slice that the caller takes is in range.
pub open_in_place-Within :
    (a : Aead) (k : RecordKeys) (buf : Bytes) → IsInPlace a → Within k buf (open_in_place a k buf)
unfolding open_in_place
open_in_place-Within a k [] h = refl
open_in_place-Within a k (_ ∷ []) h = refl
open_in_place-Within a k (_ ∷ _ ∷ []) h = refl
open_in_place-Within a k (_ ∷ _ ∷ _ ∷ []) h = refl
open_in_place-Within a k (_ ∷ _ ∷ _ ∷ _ ∷ []) h = refl
open_in_place-Within a k (b0 ∷ b1 ∷ b2 ∷ b3 ∷ b4 ∷ rest) h =
    let len = u16_of b3 b4 in
    elim (Bool-cases (ltb (length rest) len || ltb len tag_len)) [
      | inl short ↦ rw short refl
      | inr long ↦ rw long (
          opened-Within k b0 b1 b2 b3 b4 rest len
            (a.decrypt k.suite k.key (nonce_of k) (b0 ∷ b1 ∷ b2 ∷ b3 ∷ b4 ∷ [])
              (take (len - tag_len) rest) (take tag_len (drop (len - tag_len) rest)))
            (ground arith) (ground arith)
            (λ message e.
              h k.suite k.key (nonce_of k) (b0 ∷ b1 ∷ b2 ∷ b3 ∷ b4 ∷ []) (take (len - tag_len) rest)
                (take tag_len (drop (len - tag_len) rest)) message e))
    ]

-- The length that the header of a record announces.
abbrev pub announced : Bytes → ℕ
announced (b0 ∷ b1 ∷ b2 ∷ hi ∷ lo ∷ body) = u16_of hi lo
announced _ = 0

sealed-length :
    (a : Aead) (k k' : RecordKeys) (message out : Bytes) (o : Option (Bytes × Bytes))
    → IsCorrect a
    → a.encrypt k.suite k.key (nonce_of k) (header_of (length message + tag_len)) message ≡ o
    → sealed k (header_of (length message + tag_len)) o ≡ some (k', out)
    → (length out ≡ length message + 21) × (announced out ≡ (length message + 16) % 65536)
unfolding sealed header_of
sealed-length a k k' message out none c made e = absurd cc
sealed-length a k k' message out (some (body, tag)) c made e =
    let header = header_of (length message + tag_len) in
    let same = c.same_length k.suite k.key (nonce_of k) header message body tag made in
    let sixteen = c.tagged k.suite k.key (nonce_of k) header message body tag made in
    let out_eq : header ++ body ++ tag ≡ out = cc in
    subst (λ o. (length o ≡ length message + 21) × (announced o ≡ (length message + 16) % 65536))
      out_eq (omega (arith, length-append body tag), omega arith)

-- With correct ciphers, the record that is sealed is 22 bytes longer than its plaintext and padding,
-- and the length in its header is the true one without its five bytes if that fits 16 bits; what
-- does not fit is cut off.
pub seal_with_padding-length :
    (a : Aead) (k k' : RecordKeys) (content_type : ℕ) (plaintext : Bytes) (pad_len : ℕ)
    (out : Bytes)
    → IsCorrect a
    → seal_with_padding a k content_type plaintext pad_len ≡ some (k', out)
    → (length out ≡ length plaintext + pad_len + 22) × (announced out ≡ (length out - 5) % 65536)
unfolding seal_with_padding
seal_with_padding-length a k k' t plaintext n out c e =
    let message = inner_of t plaintext n in
    let len = length-inner t plaintext n in
    let (total, field) =
      sealed-length a k k' message out
        (a.encrypt k.suite k.key (nonce_of k) (header_of (length message + tag_len)) message) c refl
        (ap
            (λ n.
              sealed k (header_of (n + tag_len))
                (a.encrypt k.suite k.key (nonce_of k) (header_of (n + tag_len)) message))
            len
          ∙ e) in
    (omega (arith, total, len), omega (arith, total, field))
