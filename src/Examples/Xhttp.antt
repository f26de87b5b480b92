-- ===== src/Examples/Xhttp.antt =====
-- Runs of src/xhttp/.
use rust_xhttp.Common.{
  ◌≡◌, ◌≢◌, refl, [], ◌∷◌, ◌++◌, none, some, Bytes, true, arith, length, subst, ◌<◌, ◌^◌,
}
use rust_xhttp.Common.Utf8.{is_utf8}
use rust_xhttp.Xhttp.Padding.{
  percent_decode_bytes, raw_padding, query_param_ref, find_key, split, split_once, extract_padding,
  extract_padding_len, is_padding_valid, is_padding_len_valid, to_digit,
}
use rust_xhttp.Xhttp.Padding.Lengths.{is_padding_valid-len}
use rust_xhttp.Xhttp.Padding.Responses.{ResponsePadding, CellsOf, padding_header_value}
use rust_xhttp.Common.{ℕ}
use rust_xhttp.Xhttp.Request.{
  options, another, packet_upload, classify, extract_meta_from_path, parse_u64, parse_digits,
}
use rust_xhttp.Xhttp.Request.Paths.{IsSegment, classify-upload}

-- A percent escape, and a percent sign that starts none.
abbrev escapes : Bytes
escapes = b'X' ∷ b'%' ∷ b'4' ∷ b'1' ∷ b'%' ∷ b'z' ∷ []

escapes_decode : percent_decode_bytes escapes ≡ b'X' ∷ b'A' ∷ b'%' ∷ b'z' ∷ []
unfolding percent_decode_bytes to_digit
escapes_decode = refl

-- x_padding=X%41
abbrev query : Bytes
query =
    b'x' ∷ b'_' ∷ b'p' ∷ b'a' ∷ b'd' ∷ b'd' ∷ b'i' ∷ b'n' ∷ b'g' ∷ b'=' ∷ b'X' ∷ b'%' ∷ b'4' ∷ b'1'
    ∷ []

-- A decoder that keeps every byte string.
abbrev keep : Bytes → Bytes
keep b = b

query_raw : raw_padding none (some query) ≡ some (b'X' ∷ b'%' ∷ b'4' ∷ b'1' ∷ [])
unfolding raw_padding query_param_ref find_key split split_once
query_raw = refl

abbrev value : Bytes
value = b'X' ∷ b'%' ∷ b'4' ∷ b'1' ∷ []

value_decodes : (is_utf8 (percent_decode_bytes value) ≡ true) × (length value < 2 ^ 32)
unfolding percent_decode_bytes to_digit is_utf8
value_decodes = (refl, omega arith)

query_value_ok :
    (s : Bytes)
    → raw_padding none (some query) ≡ some s
    → (is_utf8 (percent_decode_bytes s) ≡ true) × (length s < 2 ^ 32)
query_value_ok s e =
    let same : value ≡ s = cc (e, query_raw) in
    subst (λ t. (is_utf8 (percent_decode_bytes t) ≡ true) × (length t < 2 ^ 32)) same value_decodes

is_padding_valid-len_example :
    is_padding_valid (extract_padding keep none (some query)) 2 5
    ≡ is_padding_len_valid (extract_padding_len none (some query)) 2 5
is_padding_valid-len_example =
    is_padding_valid-len keep none (some query) 2 5 (λ b h. refl) query_value_ok

abbrev base : Bytes
base = b'/' ∷ b'p' ∷ b'/' ∷ []

abbrev session : Bytes
session = b'S' ∷ b'1' ∷ []

session-IsSegment : IsSegment session
session-IsSegment = (cc, (omega arith, (omega arith, tt)))

seven_parses : parse_u64 (b'7' ∷ []) ≡ some 7
unfolding parse_u64 parse_digits
seven_parses = refl

another_is_not_options : another ≢ options
another_is_not_options = cc

classify-upload_example :
    classify another (extract_meta_from_path base (base ++ (session ++ b'/' ∷ b'7' ∷ [])))
    ≡ packet_upload session 7
classify-upload_example =
    classify-upload another base session (b'7' ∷ []) 7 another_is_not_options session-IsSegment
      seven_parses

-- A cache of three cells, one of them filled.
abbrev some_padding : ResponsePadding
some_padding = record {
  from = 2;
  to = 4;
  cache = some (none ∷ some (b'X' ∷ b'X' ∷ b'X' ∷ []) ∷ none ∷ []);
}

abbrev always_three : ℕ → ℕ → ℕ
always_three from to = 3

some_padding-Cells : CellsOf 2 some_padding.cache
unfolding padding_header_value
some_padding-Cells = (refl, tt)
