-- ===== src/Tls/Record/Nonces.antt =====
-- src/tls/tls13/record.rs: the nonces with which the records under one key are sealed.
use rust_xhttp.Common.{
  ℕ, suc, ◌+◌, ◌^◌, ◌<◌, ◌≡◌, ◌≢◌, refl, ap, sym, ◌∙◌, List, [], ◌∷◌, ◌++◌, Option, none, some,
  Bytes, length, All, drop, take, arith, take-append, drop-append, length-append, subst,
  length-take, length-drop, append_assoc,
}
use rust_xhttp.Tls.Record.{
  Aead, RecordKeys, advance, sealed, header_of, inner_of, nonce_of, xor_bytes, seal_with_padding,
  tag_len, u64_be,
}
use rust_xhttp.Tls.Record.Nonce.{nonce_of_distinct}
use rust_xhttp.Tls.Record.Run.{Message, Sealed, seal_all, seal_then, and_then}

-- A cipher that writes the nonce which it is given in front of the ciphertext of `a`.
abbrev noted : Bytes → Option (Bytes × Bytes) → Option (Bytes × Bytes)
noted nonce none = none
noted nonce (some (body, tag)) = some (nonce ++ body, tag)

abbrev pub noting : Aead → Aead
noting a = record {
  encrypt = λ suite key nonce aad message. noted nonce (a.encrypt suite key nonce aad message);
  decrypt = a.decrypt;
}

-- The nonce in a record of such a cipher: twelve bytes behind the header.
abbrev pub nonce_in : Bytes → Bytes
nonce_in record_bytes = take 12 (drop 5 record_bytes)

-- No nonce twice.
abbrev pub AllDistinct : List Bytes → Type 0
AllDistinct [] = Unit {0}
AllDistinct (record_bytes ∷ records) =
    All (λ other. nonce_in record_bytes ≢ nonce_in other) records × AllDistinct records

length-xor_bytes : (xs ys : Bytes) → length (xor_bytes xs ys) ≡ length xs
unfolding xor_bytes
length-xor_bytes [] ys = refl
length-xor_bytes (x ∷ xs) [] = refl
length-xor_bytes (x ∷ xs) (y ∷ ys) = ap suc (length-xor_bytes xs ys)

length-nonce_of : (k : RecordKeys) → length k.iv ≡ 12 → length (nonce_of k) ≡ 12
unfolding nonce_of
length-nonce_of k twelve = omega (
  arith,
  length-append (take 4 k.iv) (xor_bytes (drop 4 k.iv) (u64_be k.seq)),
  length-xor_bytes (drop 4 k.iv) (u64_be k.seq),
  length-take 4 k.iv,
  length-drop 4 k.iv,
)

take_front : (n : ℕ) (xs ys : Bytes) → length xs ≡ n → take n (xs ++ ys) ≡ xs
take_front n xs ys e = subst (λ m. take m (xs ++ ys) ≡ xs) e (take-append xs ys)

drop_front : (n : ℕ) (xs ys : Bytes) → length xs ≡ n → drop n (xs ++ ys) ≡ ys
drop_front n xs ys e = subst (λ m. drop m (xs ++ ys) ≡ ys) e (drop-append xs ys)

nonce_in-header :
    (header nonce body tag : Bytes)
    → length header ≡ 5
    → length nonce ≡ 12
    → nonce_in (header ++ (nonce ++ body) ++ tag) ≡ nonce
nonce_in-header header nonce body tag five twelve =
    ap (take 12) (
      ap (drop 5) (append_assoc header (nonce ++ body) tag)
      ∙ drop_front 5 header ((nonce ++ body) ++ tag) five
      ∙ append_assoc nonce body tag)
    ∙ take_front 12 nonce (body ++ tag) twelve

module _ (k : RecordKeys) (twelve : length k.iv ≡ 12) where
  sealed-noted :
      (k1 : RecordKeys) (header record_bytes : Bytes) (made : Option (Bytes × Bytes))
      → length header ≡ 5
      → sealed k header (noted (nonce_of k) made) ≡ some (k1, record_bytes)
      → (nonce_in record_bytes ≡ nonce_of k) × (k1 ≡ advance k)
  unfolding sealed
  sealed-noted k1 header record_bytes none five e = absurd cc
  sealed-noted k1 header record_bytes (some (body, tag)) five e =
      let bytes : header ++ (nonce_of k ++ body) ++ tag ≡ record_bytes = cc in
      let state : advance k ≡ k1 = cc in
      (
        ap nonce_in (sym bytes)
            ∙ nonce_in-header header (nonce_of k) body tag five (length-nonce_of k twelve),
        sym state,
      )

  -- One record: its nonce, and the keys behind it.
  one_record :
      (a : Aead) (k1 : RecordKeys) (m : Message) (record_bytes : Bytes)
      → seal_with_padding (noting a) k m.content_type m.plaintext m.pad_len
        ≡ some (k1, record_bytes)
      → (nonce_in record_bytes ≡ nonce_of k) × (k1 ≡ advance k)
  unfolding seal_with_padding
  one_record a k1 m record_bytes e =
      let header = header_of (length m.plaintext + 1 + m.pad_len + tag_len) in
      sealed-noted k1 header record_bytes
        (a.encrypt k.suite k.key (nonce_of k) header
          (inner_of m.content_type m.plaintext m.pad_len))
        (unfold header_of in refl) e

-- The first of some records, and the others.
record Split (a : Aead) (k k' : RecordKeys) (messages : List Message) (records : List Bytes)
    : Type 0 where
  first : Bytes
  others : List Bytes
  are : records ≡ first ∷ others
  first_nonce : nonce_in first ≡ nonce_of k
  others_sealed : seal_all (noting a) (advance k) messages ≡ some (k', others)

module _ (a : Aead) (k k' : RecordKeys) (m : Message) (messages : List Message)
    (records : List Bytes) (twelve : length k.iv ≡ 12) where
  Split-first :
      (sealed1 : Option (RecordKeys × Bytes))
      → seal_with_padding (noting a) k m.content_type m.plaintext m.pad_len ≡ sealed1
      → seal_then sealed1 (λ k1. seal_all (noting a) k1 messages) ≡ some (k', records)
      → Split a k k' messages records
  Split-first none made e = absurd cc
  Split-first (some (k1, record_bytes)) made e = go (seal_all (noting a) k1 messages) refl e
    where
      go :
          (later : Sealed)
          → seal_all (noting a) k1 messages ≡ later
          → and_then later record_bytes ≡ some (k', records)
          → Split a k k' messages records
      go none e1 e2 = absurd cc
      go (some (k2, others)) e1 e2 =
          let (nonce, state) = one_record k twelve a k1 m record_bytes made in
          let are : record_bytes ∷ others ≡ records = cc in
          let last : k2 ≡ k' = cc in
          record {
            first = record_bytes;
            others = others;
            are = sym are;
            first_nonce = nonce;
            others_sealed =
                ap (λ s. seal_all (noting a) s messages) (sym state)
                ∙ e1
                ∙ ap (λ s. some (s, others)) last;
          }

  Split-all :
      seal_all (noting a) k (m ∷ messages) ≡ some (k', records) → Split a k k' messages records
  Split-all e =
      Split-first (seal_with_padding (noting a) k m.content_type m.plaintext m.pad_len) refl e

-- The nonce of an earlier number is in none of the records.
earlier_absent :
    (a : Aead) (k k' : RecordKeys) (messages : List Message) (records : List Bytes) (n : ℕ)
    → length k.iv ≡ 12
    → n < k.seq
    → k.seq + length messages < 2 ^ 64
    → seal_all (noting a) k messages ≡ some (k', records)
    → All (λ other. nonce_of (record k { seq = n }) ≢ nonce_in other) records
earlier_absent a k k' [] records n twelve lt fits e =
    let none_sealed : [] ≡ records = cc in
    subst (All (λ other. nonce_of (record k { seq = n }) ≢ nonce_in other)) none_sealed tt
earlier_absent a k k' (m ∷ messages) records n twelve lt fits e =
    let s = Split-all a k k' m messages records twelve e in
    subst (All (λ other. nonce_of (record k { seq = n }) ≢ nonce_in other)) (sym s.are) (
      λ same.
          nonce_of_distinct k n k.seq twelve (omega arith) (omega arith) (λ eq. omega (arith, eq))
            (same ∙ s.first_nonce),
      earlier_absent a (advance k) k' messages s.others n twelve (omega arith) (omega arith)
          s.others_sealed,
    )

-- Any number of records that are sealed one after the other under one key and one initialisation
-- vector of 12 bytes get different nonces, whatever their types, contents and paddings are and
-- whatever the cipher gives: no two of them show the same, where the cipher is made to write the
-- nonce that it is given in front of its ciphertext. The counter does not reach its last number.
pub seal_all-AllDistinct :
    (a : Aead) (k k' : RecordKeys) (messages : List Message) (records : List Bytes)
    → length k.iv ≡ 12
    → k.seq + length messages < 2 ^ 64
    → seal_all (noting a) k messages ≡ some (k', records)
    → AllDistinct records
seal_all-AllDistinct a k k' [] records twelve fits e =
    let none_sealed : [] ≡ records = cc in subst AllDistinct none_sealed tt
seal_all-AllDistinct a k k' (m ∷ messages) records twelve fits e =
    let s = Split-all a k k' m messages records twelve e in
    subst AllDistinct (sym s.are) (
      subst (λ nonce. All (λ other. nonce ≢ nonce_in other) s.others) (sym s.first_nonce)
          (earlier_absent a (advance k) k' messages s.others k.seq twelve (omega arith)
            (omega arith) s.others_sealed),
      seal_all-AllDistinct a (advance k) k' messages s.others twelve (omega arith) s.others_sealed,
    )
