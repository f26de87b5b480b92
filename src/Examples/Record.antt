-- ===== src/Examples/Record.antt =====
-- Runs of src/tls/tls13/record.rs, with a cipher that appends sixteen zeros.
use rust_xhttp.Common.{
  ℕ, ◌≡◌, refl, ap, sym, List, [], ◌∷◌, ◌++◌, Option, none, some, Bytes, arith, replicate, length,
}
use rust_xhttp.Tls.Suite.{chacha20_poly1305_sha256}
use rust_xhttp.Tls.Record.{
  Aead, RecordKeys, seal_with_padding, sealed, nonce_of, xor_bytes, u64_be, header_of, open_record,
  open_in_place, opened, content_at, trim_zeros,
}
use rust_xhttp.Tls.Record.RoundTrip.{IsCorrect}
use rust_xhttp.Tls.Record.Run.{Message, seal_all, open_all, open_all-seal_all}
use rust_xhttp.Tls.Record.Nonces.{noting, AllDistinct, seal_all-AllDistinct}
use rust_xhttp.Tls.Record.Bounds.{IsInPlace, Within, open_in_place-Within}

abbrev sixteen : Bytes
sixteen = replicate 16 0

abbrev pub plain : Aead
plain = record {
  encrypt = λ suite key nonce aad message. some (message, sixteen);
  decrypt = λ suite key nonce aad body tag. some body;
}

some_pair :
    {x x' y y' : Bytes}
    → ◌≡◌ {A = Option (Bytes × Bytes)} (some (x, y)) (some (x', y'))
    → (x ≡ x') × (y ≡ y')
some_pair e = (cc, cc)

some_bytes : {x y : Bytes} → some x ≡ some y → x ≡ y
some_bytes e = cc

pub plain-IsCorrect : IsCorrect plain
plain-IsCorrect = record {
  inverse = λ suite key nonce aad message body tag e. ap some (sym (some_pair e).0);
  same_length = λ suite key nonce aad message body tag e. ap length (sym (some_pair e).0);
  tagged = λ suite key nonce aad message body tag e. ap length (sym (some_pair e).1);
}

plain-IsInPlace : IsInPlace plain
plain-IsInPlace = λ suite key nonce aad body tag message e. ap length (sym (some_bytes e))

abbrev keys_at : ℕ → RecordKeys
keys_at seq = record {
  suite = chacha20_poly1305_sha256;
  key = replicate 32 1;
  iv = replicate 12 5;
  seq = seq;
}

-- A message with padding, and an empty one.
abbrev messages : List Message
messages =
    record { content_type = 22; plaintext = 1 ∷ 0 ∷ []; pad_len = 3 }
    ∷ record { content_type = 23; plaintext = []; pad_len = 0 }
    ∷ []

abbrev first_record : Bytes
first_record = 0x17 ∷ 3 ∷ 3 ∷ 0 ∷ 22 ∷ 1 ∷ 0 ∷ 22 ∷ 0 ∷ 0 ∷ 0 ∷ sixteen

abbrev second_record : Bytes
second_record = 0x17 ∷ 3 ∷ 3 ∷ 0 ∷ 17 ∷ 23 ∷ sixteen

seals : seal_all plain (keys_at 0) messages ≡ some (keys_at 2, first_record ∷ second_record ∷ [])
unfolding seal_with_padding sealed nonce_of xor_bytes u64_be header_of
seals = refl

open_all-seal_all_example :
    open_all plain (keys_at 0) (first_record ∷ second_record ∷ [])
    ≡ (keys_at 2, some (22, 1 ∷ 0 ∷ []) ∷ some (23, []) ∷ [])
open_all-seal_all_example =
    open_all-seal_all plain (keys_at 0) (keys_at 2) messages (first_record ∷ second_record ∷ [])
      plain-IsCorrect
      (((λ e. omega (arith, e)), omega arith), (((λ e. omega (arith, e)), omega arith), tt)) seals

-- The nonce of record 255, and that of record 256.
abbrev noted_records : List Bytes
noted_records =
    (0x17 ∷ 3 ∷ 3 ∷ 0 ∷ 22 ∷ (replicate 11 5 ++ 250 ∷ [])
      ++ (1 ∷ 0 ∷ 22 ∷ 0 ∷ 0 ∷ 0 ∷ [])
      ++ sixteen)
    ∷ (0x17 ∷ 3 ∷ 3 ∷ 0 ∷ 17 ∷ (replicate 10 5 ++ 4 ∷ 5 ∷ []) ++ (23 ∷ []) ++ sixteen)
    ∷ []

seals_noted : seal_all (noting plain) (keys_at 255) messages ≡ some (keys_at 257, noted_records)
unfolding seal_with_padding sealed nonce_of xor_bytes u64_be header_of
seals_noted = refl

seal_all-AllDistinct_example : AllDistinct noted_records
seal_all-AllDistinct_example =
    seal_all-AllDistinct plain (keys_at 255) (keys_at 257) messages noted_records refl (omega arith)
      seals_noted

-- A record of zeros has no type.
open_in_place-Within_example :
    Within
      (keys_at 0)
      (0x17 ∷ 3 ∷ 3 ∷ 0 ∷ 18 ∷ 0 ∷ 0 ∷ sixteen)
      (open_in_place plain (keys_at 0) (0x17 ∷ 3 ∷ 3 ∷ 0 ∷ 18 ∷ 0 ∷ 0 ∷ sixteen))
open_in_place-Within_example =
    open_in_place-Within plain (keys_at 0) (0x17 ∷ 3 ∷ 3 ∷ 0 ∷ 18 ∷ 0 ∷ 0 ∷ sixteen) plain-IsInPlace

no_type :
    open_record plain (keys_at 0) (0x17 ∷ 3 ∷ 3 ∷ 0 ∷ 18 ∷ 0 ∷ 0 ∷ sixteen) ≡ (keys_at 1, none)
unfolding open_record open_in_place opened content_at trim_zeros nonce_of xor_bytes u64_be
no_type = refl

one_sealed : seal_with_padding plain (keys_at 0) 22 (1 ∷ 0 ∷ []) 3 ≡ some (keys_at 1, first_record)
unfolding seal_with_padding sealed nonce_of xor_bytes u64_be header_of
one_sealed = refl
