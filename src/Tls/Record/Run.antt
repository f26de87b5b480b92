-- ===== src/Tls/Record/Run.antt =====
-- src/tls/tls13/record.rs: many records, one after the other.
use rust_xhttp.Common.{
  ℕ, ◌+◌, ◌<◌, ◌≡◌, ◌≢◌, refl, ap, sym, ◌∙◌, List, [], ◌∷◌, Option, none, some, Bytes, length, All,
  map, append-nil,
}
use rust_xhttp.Tls.Record.{Aead, RecordKeys, seal_with_padding, open_record}
use rust_xhttp.Tls.Record.RoundTrip.{IsCorrect, open_record-seal_with_padding}

-- A content type, a plaintext and a length of padding.
pub record Message : Type 0 where
  pub content_type : ℕ
  pub plaintext : Bytes
  pub pad_len : ℕ

-- The type is one that can be told from padding, and the record fits into 16 bits of length.
abbrev pub IsSendable : Message → Type 0
IsSendable m = (m.content_type ≢ 0) × (length m.plaintext + 1 + m.pad_len + 16 < 65536)

-- What the other end is to get of a message.
abbrev pub content : Message → Option (ℕ × Bytes)
content m = some (m.content_type, m.plaintext)

abbrev pub Sealed : Type 0
Sealed = Option (RecordKeys × List Bytes)

abbrev pub and_then : Sealed → Bytes → Sealed
and_then none record_bytes = none
and_then (some (k, more)) record_bytes = some (k, record_bytes ∷ more)

abbrev pub seal_then : Option (RecordKeys × Bytes) → (RecordKeys → Sealed) → Sealed
seal_then none next = none
seal_then (some (k, record_bytes)) next = and_then (next k) record_bytes

module _ (a : Aead) where
  -- The records of some messages, sealed one after the other.
  abbrev pub seal_all : RecordKeys → List Message → Sealed
  seal_all k [] = some (k, [])
  seal_all k (m ∷ messages) =
      seal_then (seal_with_padding a k m.content_type m.plaintext m.pad_len)
        (λ k'. seal_all k' messages)

  -- The results of opening some records, one after the other.
  abbrev pub open_all : RecordKeys → List Bytes → RecordKeys × List (Option (ℕ × Bytes))
  open_all k [] = (k, [])
  open_all k (record_bytes ∷ records) =
      let (k', result) = open_record a k record_bytes in
      let (k'', results) = open_all k' records in (k'', result ∷ results)

-- One record in front of records that are read back.
module _ (a : Aead) (c : IsCorrect a) (k k' : RecordKeys) (m : Message)
    (messages : List Message) where
  abbrev IsReadBack : Type 0
  IsReadBack =
      (k1 k2 : RecordKeys) (more : List Bytes)
      → seal_all a k1 messages ≡ some (k2, more)
      → open_all a k1 more ≡ (k2, map content messages)

  in_front :
      (k1 : RecordKeys) (record_bytes : Bytes) (later : Sealed) (records : List Bytes)
      → IsSendable m
      → IsReadBack
      → seal_with_padding a k m.content_type m.plaintext m.pad_len ≡ some (k1, record_bytes)
      → seal_all a k1 messages ≡ later
      → and_then later record_bytes ≡ some (k', records)
      → open_all a k records ≡ (k', map content (m ∷ messages))
  in_front k1 record_bytes none records fits again made e' e = absurd cc
  in_front k1 record_bytes (some (k2, more)) records fits again made e' e =
      let records_eq : record_bytes ∷ more ≡ records = cc in
      let state_eq : k2 ≡ k' = cc in
      let one : open_record a k record_bytes ≡ (k1, some (m.content_type, m.plaintext)) =
        ap (open_record a k) (sym (append-nil record_bytes))
        ∙ open_record-seal_with_padding a k k1 m.content_type m.plaintext m.pad_len record_bytes []
            c fits.0 fits.1 made in
      ap (open_all a k) (sym records_eq)
      ∙ rw (one, again k1 k2 more e') (ap (λ s. (s, map content (m ∷ messages))) state_eq)

  sealed_then :
      (sealed : Option (RecordKeys × Bytes)) (records : List Bytes)
      → IsSendable m
      → IsReadBack
      → seal_with_padding a k m.content_type m.plaintext m.pad_len ≡ sealed
      → seal_then sealed (λ k1. seal_all a k1 messages) ≡ some (k', records)
      → open_all a k records ≡ (k', map content (m ∷ messages))
  sealed_then none records fits again made e = absurd cc
  sealed_then (some (k1, record_bytes)) records fits again made e =
      in_front k1 record_bytes (seal_all a k1 messages) records fits again made refl e

-- With correct ciphers, any number of records that one end seals, each with a type and a padding of
-- its own, are opened by an end that starts with the same keys, in the order in which they were
-- sealed: it gets every type and plaintext, and both ends are in the same state behind the last. The
-- types are not zero, and each record fits into its two bytes of length.
pub open_all-seal_all :
    (a : Aead) (k k' : RecordKeys) (messages : List Message) (records : List Bytes)
    → IsCorrect a
    → All IsSendable messages
    → seal_all a k messages ≡ some (k', records)
    → open_all a k records ≡ (k', map content messages)
open_all-seal_all a k k' [] records c h e =
    let none_sealed : [] ≡ records = cc in
    let state_eq : k ≡ k' = cc in ap (open_all a k) (sym none_sealed) ∙ ap (λ s. (s, [])) state_eq
open_all-seal_all a k k' (m ∷ messages) records c h e =
    sealed_then a c k k' m messages (seal_with_padding a k m.content_type m.plaintext m.pad_len)
      records h.0 (λ k1 k2 more e'. open_all-seal_all a k1 k2 messages more c h.1 e') refl e
