-- ===== src/Xhttp/Padding/Lengths.antt =====
-- src/xhttp/padding.rs: the length that is computed without the value.
use rust_xhttp.Common.{
  ℕ, ◌^◌, ◌≤◌, ◌<◌, ◌≡◌, refl, sym, true, [], ◌∷◌, Option, none, some, Bytes, length, arith,
}
use rust_xhttp.Common.Utf8.{is_utf8}
use rust_xhttp.Xhttp.Padding.{
  hex_value, to_digit, percent_decoded_len, percent_decode_bytes, percent_decode, map_option,
  unwrap_or_default, raw_padding, extract_padding, extract_padding_len, is_padding_valid,
  is_padding_len_valid,
}

to_digit-hex_value : (c : ℕ) → to_digit c ≡ hex_value c
unfolding to_digit hex_value
to_digit-hex_value c = ground arith

-- The length that is computed without decoding is that of the decoded bytes, for every byte string.
pub percent_decoded_len-length :
    (s : Bytes) → percent_decoded_len s ≡ length (percent_decode_bytes s)
unfolding percent_decoded_len percent_decode_bytes
percent_decoded_len-length [] = refl
percent_decoded_len-length (a ∷ []) = refl
percent_decoded_len-length (a ∷ b ∷ []) = refl
percent_decoded_len-length (a ∷ b ∷ c ∷ rest) = ground (
  arith,
  to_digit-hex_value b,
  to_digit-hex_value c,
  percent_decoded_len-length rest,
  percent_decoded_len-length (b ∷ c ∷ rest),
)

decoded_len_le : (s : Bytes) → percent_decoded_len s ≤ length s
unfolding percent_decoded_len
decoded_len_le [] = omega arith
decoded_len_le (a ∷ []) = omega arith
decoded_len_le (a ∷ b ∷ []) = omega arith
decoded_len_le (a ∷ b ∷ c ∷ rest) =
    ground (arith, decoded_len_le rest, decoded_len_le (b ∷ c ∷ rest))

same_validity :
    (lossy : Bytes → Bytes) (from to : ℕ)
    → ((b : Bytes) → is_utf8 b ≡ true → lossy b ≡ b)
    → (raw : Option Bytes)
    → ((s : Bytes) → raw ≡ some s → (is_utf8 (percent_decode_bytes s) ≡ true) × (length s < 2 ^ 32))
    → is_padding_valid (unwrap_or_default (map_option (percent_decode lossy) raw)) from to
      ≡ is_padding_len_valid (map_option percent_decoded_len raw) from to
unfolding is_padding_valid is_padding_len_valid percent_decode
same_validity lossy from to keeps none h = refl
same_validity lossy from to keeps (some s) h =
    let (utf8, small) = h s refl in
    rw (keeps (percent_decode_bytes s) utf8, sym (percent_decoded_len-length s))
      (ground (arith, decoded_len_le s))

-- The two validity checks of a request agree: on the value, and on the length alone. The condition is
-- that the decoded bytes of the value, if there is one, are UTF-8, which `lossy` leaves as they are, and
-- that the value has fewer than 2^32 bytes.
pub is_padding_valid-len :
    (lossy : Bytes → Bytes) (referer query : Option Bytes) (from to : ℕ)
    → ((b : Bytes) → is_utf8 b ≡ true → lossy b ≡ b)
    → ((s : Bytes)
        → raw_padding referer query ≡ some s
        → (is_utf8 (percent_decode_bytes s) ≡ true) × (length s < 2 ^ 32))
    → is_padding_valid (extract_padding lossy referer query) from to
      ≡ is_padding_len_valid (extract_padding_len referer query) from to
unfolding extract_padding extract_padding_len
is_padding_valid-len lossy referer query from to keeps h =
    same_validity lossy from to keeps (raw_padding referer query) h
