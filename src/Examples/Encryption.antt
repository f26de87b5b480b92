-- ===== src/Examples/Encryption.antt =====
-- Runs of src/vless/encryption/xor.rs, and of src/vless/encryption/record.rs with a cipher that appends sixteen zeros.
use rust_xhttp.Common.{
  ℕ, List, true, false, concat, leb, if◌then◌else◌, ◌≡◌, refl, [], ◌∷◌, ◌++◌, some, Bytes, arith,
  length, take, replicate, ok, length-append, take-append, ◌-◌, ap, sym, ◌∙◌, subst,
}
use rust_xhttp.Vless.Encryption.Record.{
  Aead, AeadState, aes_256_gcm, seal, seal_under, sealed, seal_raw, encode_header, next_nonce,
  increment_nonce, increment, rekeyed, open_record, max_nonce,
}
use rust_xhttp.Vless.Encryption.Record.RoundTrip.{IsCorrect, open-seal}
use rust_xhttp.Vless.Encryption.Record.{decode_header}
use rust_xhttp.Vless.Encryption.Xor.{apply, apply_rounds, apply_header, check_header, on_header}
use rust_xhttp.Vless.Encryption.Xor.Bytewise.{state}
use rust_xhttp.Vless.Encryption.Xor.Fragments.{and_then, apply_all}
use rust_xhttp.Vless.Encryption.Xor.RoundTrip.{other_end, apply_all-other_end}
use rust_xhttp.Common.{zero, suc, none}
use rust_xhttp.Vless.Vision.Reader.{arrived, not_yet, poll_inner}
use rust_xhttp.Vless.Encryption.Record.{open_under, opened, open_raw}
use rust_xhttp.Vless.Encryption.Xor.{inbound}
use rust_xhttp.Vless.Encryption.Stream.{
  EncryptedReader, Round, returns, waits, fails, record_truncated, new_reader, poll_read,
}

-- The message of a ciphertext: all but the last sixteen bytes.
abbrev sixteen : Bytes
sixteen = replicate 16 0

abbrev padded : Aead
padded = record {
  encrypt = λ kind key nonce message aad. some (message ++ sixteen);
  decrypt = λ kind key nonce ciphertext aad. some (take (length ciphertext - 16) ciphertext);
  derive_key = λ context material. context;
}

some_bytes : {x y : Bytes} → some x ≡ some y → x ≡ y
some_bytes e = cc

untagged :
    (message : Bytes) → take (length (message ++ sixteen) - 16) (message ++ sixteen) ≡ message
untagged message =
    let len : length (message ++ sixteen) - 16 ≡ length message =
      omega (arith, length-append message sixteen) in
    ap (λ n. take n (message ++ sixteen)) len ∙ take-append message sixteen

padded-IsCorrect : IsCorrect padded
padded-IsCorrect = record {
  inverse = λ kind key nonce message aad ciphertext e.
      subst (λ c. some (take (length c - 16) c) ≡ some message) (some_bytes e)
        (ap some (untagged message));
  tagged = λ kind key nonce message aad ciphertext e.
      ap length (sym (some_bytes e)) ∙ length-append message sixteen;
}

-- The state at the last nonce, where the next record changes the key.
abbrev last_state : AeadState
last_state = record { kind = aes_256_gcm; key = []; united_key = []; nonce = max_nonce }

abbrev record_bytes : Bytes
record_bytes = 0x17 ∷ 3 ∷ 3 ∷ 0 ∷ 17 ∷ b'x' ∷ sixteen

abbrev next_state : AeadState
next_state = record {
  kind = aes_256_gcm;
  key = record_bytes;
  united_key = [];
  nonce = replicate 12 0;
}

seals : seal padded last_state (b'x' ∷ []) ≡ (next_state, ok record_bytes)
unfolding seal seal_under sealed seal_raw encode_header next_nonce increment_nonce increment rekeyed
seals = refl

open-seal_example :
    (header : Bytes) × (ciphertext : Bytes) × (record_bytes ≡ header ++ ciphertext)
    × (length header ≡ 5)
    × (open_record padded last_state header ciphertext ≡ (next_state, ok (b'x' ∷ [])))
open-seal_example =
    open-seal padded last_state next_state (b'x' ∷ []) record_bytes padded-IsCorrect seals

-- A nonce whose last byte is full.
abbrev carrying : Bytes
carrying = 0 ∷ 1 ∷ 255 ∷ []

-- A mask that is its own inverse.
abbrev inverted : ℕ → ℕ → ℕ
inverted i b = if leb b 255 then 255 - b else b

inverted_twice : (i b : ℕ) → inverted i (inverted i b) ≡ b
inverted_twice i b = ground arith

-- A record of 17 bytes in three calls, and three bytes of the next header.
abbrev record_pieces : List Bytes
record_pieces =
    (0x17 ∷ 0x03 ∷ [])
    ∷ (0x03 ∷ 0x00 ∷ 0x11 ∷ 1 ∷ 2 ∷ [])
    ∷ (3 ∷ 4 ∷ 5 ∷ 6 ∷ 7 ∷ 8 ∷ 9 ∷ 10 ∷ 11 ∷ 12 ∷ 13 ∷ 14 ∷ 15 ∷ 16 ∷ 17 ∷ 0x17 ∷ 0x03 ∷ 0x03 ∷ [])
    ∷ []

abbrev masked_pieces : List Bytes
masked_pieces =
    (0xe8 ∷ [])
    ∷ (0xfc ∷ 0xfc ∷ 0xff ∷ 0xee ∷ 1 ∷ [])
    ∷ (2 ∷ 3 ∷ 4 ∷ 5 ∷ 6 ∷ 7 ∷ 8 ∷ 9 ∷ 10 ∷ 11 ∷ 12 ∷ 13 ∷ 14 ∷ 15 ∷ 16 ∷ 17 ∷ 0xe8 ∷ 0xfc ∷ [])
    ∷ (0xfc ∷ [])
    ∷ []

apply_all-other_end_example : apply_all inverted (state 0 0 [] true) masked_pieces ≡ (
  other_end (apply_all inverted (state 0 0 [] false) record_pieces).0,
  concat record_pieces,
  (apply_all inverted (state 0 0 [] false) record_pieces).2,
)
apply_all-other_end_example =
    apply_all-other_end inverted inverted_twice 0 0 [] record_pieces masked_pieces (omega arith) (
      unfold apply_all and_then apply apply_rounds apply_header check_header on_header
        decode_header in
      refl)

-- The results of a number of polls, each with room for 100 bytes.
abbrev polls : ℕ → EncryptedReader → List Round
polls zero r = []
polls (suc n) r = let (r', result) = poll_read inverted padded 10 r 100 in result ∷ polls n r'

-- A masked record in two pieces, then the end.
record_polls :
    polls 3 (
      new_reader
        (arrived (0xe8 ∷ 0xfc ∷ []) ∷ not_yet ∷ arrived (0xfc ∷ 0xff ∷ 0xee ∷ b'x' ∷ sixteen) ∷ [])
        last_state
        (some (inbound 0)))
    ≡ waits ∷ returns (b'x' ∷ []) ∷ returns [] ∷ []
unfolding new_reader inbound poll_read open_record open_under opened open_raw decode_header
    next_nonce increment_nonce increment rekeyed apply poll_inner apply_rounds apply_header
    check_header on_header
record_polls = refl

-- A wire that ends within a record.
cut_record :
    polls 1 (new_reader (arrived (0x17 ∷ 3 ∷ []) ∷ []) last_state none)
    ≡ fails record_truncated ∷ []
unfolding new_reader poll_read poll_inner
cut_record = refl
