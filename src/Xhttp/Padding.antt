-- ===== src/Xhttp/Padding.antt =====
-- src/xhttp/padding.rs: the padding of a request and its length. Of a request it takes the `Referer`
-- header, if it is text, and the query of its URI. `lossy` stands for the bytes of
-- `String::from_utf8_lossy`. A loop over an index into a byte string is a recursion on the bytes from
-- that index on.
pub mod Lengths
pub mod Responses
use rust_xhttp.Common.{
  ℕ, ◌+◌, ◌-◌, ◌*◌, ◌%◌, ◌^◌, Bool, true, false, List, [], ◌∷◌, Option, none, some, Bytes,
  if◌then◌else◌, ◌==◌, leb, not, ◌&&◌, length, as_u8, bytes_eq,
}

unfoldable pub hex_value : ℕ → Option ℕ
hex_value value =
    if leb b'0' value && leb value b'9'
    then some (value - b'0')
    else if leb b'a' value && leb value b'f'
    then some (value - b'a' + 10)
    else if leb b'A' value && leb value b'F'
    then some (value - b'A' + 10)
    else none

-- `(b as char).to_digit(16)`: a digit is looked for behind '0', and else a letter of either case
-- behind 'a'.
unfoldable pub to_digit : ℕ → Option ℕ
to_digit c =
    if leb 48 c && leb c 57
    then some (c - 48)
    else if leb 97 c && leb c 102
    then some (c - 87)
    else if leb 65 c && leb c 70
    then some (c - 55)
    else none

abbrev pub is_some : Option ℕ → Bool
is_some none = false
is_some (some v) = true

-- `slice::split`
unfoldable pub split : ℕ → Bytes → List Bytes
split sep [] = [] ∷ []
split sep (b ∷ bytes) = elim (split sep bytes) [
  | [] ↦ []
  | piece ∷ pieces ↦ if b == sep then [] ∷ piece ∷ pieces else (b ∷ piece) ∷ pieces
]

-- `str::split_once`
unfoldable pub split_once : ℕ → Bytes → Option (Bytes × Bytes)
split_once sep [] = none
split_once sep (b ∷ bytes) =
    let later = split_once sep bytes in
    if b == sep
    then some ([], bytes)
    else elim later [ none ↦ none | some (before, after) ↦ some (b ∷ before, after) ]

-- `split_once('=').unwrap_or((pair, ""))`
abbrev key_value : Bytes → Option (Bytes × Bytes) → Bytes × Bytes
key_value pair none = (pair, [])
key_value pair (some kv) = kv

unfoldable pub find_key : List Bytes → Bytes → Option Bytes
find_key [] key = none
find_key (pair ∷ pairs) key =
    let later = find_key pairs key in
    let (k, v) = key_value pair (split_once b'=' pair) in if bytes_eq k key then some v else later

unfoldable pub query_param_ref : Bytes → Bytes → Option Bytes
query_param_ref query key = find_key (split b'&' query) key

abbrev pub head_or : List Bytes → Bytes → Bytes
head_or [] d = d
head_or (x ∷ xs) d = x

unfoldable pub query_value_ref : Bytes → Bytes → Option Bytes
query_value_ref url key = elim (split_once b'?' url) [
  | none ↦ none
  | some (before, query) ↦ query_param_ref (head_or (split b'#' query) query) key
]

unfoldable pub percent_decoded_len : Bytes → ℕ
percent_decoded_len [] = 0
percent_decoded_len (a ∷ []) = 1
percent_decoded_len (a ∷ b ∷ []) = 2
percent_decoded_len (a ∷ b ∷ c ∷ rest) =
    elim (a == b'%' && is_some (hex_value b) && is_some (hex_value c)) [
      | true ↦ percent_decoded_len rest + 1
      | false ↦ percent_decoded_len (b ∷ c ∷ rest) + 1
    ]

-- The byte that is pushed for one that starts no escape.
abbrev pub plain : ℕ → ℕ
plain c = if c == b'+' then b' ' else c

-- `(hi, lo)`, both there: the byte of the escape.
abbrev pub escaped : Option ℕ → Option ℕ → Option ℕ
escaped (some h) (some l) = some (as_u8 (h * 16 + l))
escaped _ _ = none

-- The bytes that `percent_decode` pushes.
unfoldable pub percent_decode_bytes : Bytes → Bytes
percent_decode_bytes [] = []
percent_decode_bytes (a ∷ []) = plain a ∷ []
percent_decode_bytes (a ∷ b ∷ []) = plain a ∷ plain b ∷ []
percent_decode_bytes (a ∷ b ∷ c ∷ rest) = elim (a == b'%') [
  | true ↦ elim (escaped (to_digit b) (to_digit c)) [
    | some v ↦ v ∷ percent_decode_bytes rest
    | none ↦ b'%' ∷ percent_decode_bytes (b ∷ c ∷ rest)
  ]
  | false ↦ plain a ∷ percent_decode_bytes (b ∷ c ∷ rest)
]

unfoldable pub percent_decode : (Bytes → Bytes) → Bytes → Bytes
percent_decode lossy s = lossy (percent_decode_bytes s)

abbrev pub x_padding : Bytes
x_padding = b'x' ∷ b'_' ∷ b'p' ∷ b'a' ∷ b'd' ∷ b'd' ∷ b'i' ∷ b'n' ∷ b'g' ∷ []

abbrev pub map_option : {A : Type 0} → (Bytes → A) → Option Bytes → Option A
map_option f none = none
map_option f (some v) = some (f v)

abbrev pub unwrap_or_default : Option Bytes → Bytes
unwrap_or_default none = []
unwrap_or_default (some v) = v

-- `query_value(url, "x_padding")` or `query_param(query, "x_padding")`, before they are decoded: the
-- header if it is not empty, and else the query.
unfoldable pub raw_padding : Option Bytes → Option Bytes → Option Bytes
raw_padding (some (b ∷ referer)) query = query_value_ref (b ∷ referer) x_padding
raw_padding _ none = none
raw_padding _ (some query) = query_param_ref query x_padding

unfoldable pub extract_padding : (Bytes → Bytes) → Option Bytes → Option Bytes → Bytes
extract_padding lossy referer query =
    unwrap_or_default (map_option (percent_decode lossy) (raw_padding referer query))

unfoldable pub extract_padding_len : Option Bytes → Option Bytes → Option ℕ
extract_padding_len referer query = map_option percent_decoded_len (raw_padding referer query)

unfoldable pub is_padding_valid : Bytes → ℕ → ℕ → Bool
is_padding_valid value from to =
    if length value == 0
    then false
    else leb from (length value % 2 ^ 32) && leb (length value % 2 ^ 32) to

unfoldable pub is_padding_len_valid : Option ℕ → ℕ → ℕ → Bool
is_padding_len_valid none from to = false
is_padding_len_valid (some len) from to = not (len == 0) && leb from len && leb len to
