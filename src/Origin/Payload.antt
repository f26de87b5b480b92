-- ===== src/Origin/Payload.antt =====
-- src/origin.rs: the payload of an upload, in headers, in cookies and in the body. The loops over numbered
-- names have as many rounds as there are headers and a bit more, or as there are bytes in cookies and a bit
-- more: each round that goes on finds a name that no other round asks for.
use rust_xhttp.Common.{
  ℕ, zero, suc, ◌+◌, ◌*◌, ◌/◌, ◌%◌, ◌^◌, min, Bool, true, false, ◌&&◌, not, if◌then◌else◌, leb, ltb,
  List, [], ◌∷◌, ◌++◌, Option, none, some, Bytes, bytes_eq, length, u64_max, Result, ok, err, ◌>>=◌,
  saturating_add,
}
use rust_xhttp.Config.{XhttpConfig, UplinkDataPlacement, body, header, cookie, auto}
use rust_xhttp.Config.Text.{to_ascii_lowercase, trim}
use rust_xhttp.Xhttp.Padding.{split, split_once}
use rust_xhttp.Origin.{Frame, data_frame, trailers, failed, header_value, is_text, text_of}

-- `unfinished` says that the rounds of a loop have run out.
pub data UploadPayloadError : Type 0 where
  invalid_base64 too_large unfinished : UploadPayloadError

abbrev pub should_read_body : UplinkDataPlacement → Bool
should_read_body body = true
should_read_body auto = true
should_read_body _ = false

abbrev pub uses_headers : UplinkDataPlacement → Bool
uses_headers header = true
uses_headers auto = true
uses_headers _ = false

abbrev pub uses_cookies : UplinkDataPlacement → Bool
uses_cookies cookie = true
uses_cookies auto = true
uses_cookies _ = false

unfoldable pub encoded_len_limit : ℕ → ℕ
encoded_len_limit decoded_limit = saturating_add (min (decoded_limit * 4) u64_max) 2 / 3 + 4

abbrev pub within : ℕ → Option Bytes → Result UploadPayloadError Bytes
within limit none = err invalid_base64
within limit (some decoded) = if ltb limit (length decoded) then err too_large else ok decoded

-- `decode` is `URL_SAFE_NO_PAD.decode`
unfoldable pub decode_payload_chunks :
    (Bytes → Option Bytes) → Bytes → ℕ → Result UploadPayloadError Bytes
decode_payload_chunks decode [] limit = ok []
decode_payload_chunks decode (b ∷ encoded) limit = within limit (decode (b ∷ encoded))

-- A number in decimal digits.
unfoldable pub decimal_from : ℕ → ℕ → Bytes
decimal_from zero n = []
decimal_from (suc fuel) n =
    let front = decimal_from fuel (n / 10) in
    if ltb n 10 then (b'0' + n) ∷ [] else front ++ (b'0' + n % 10) ∷ []

abbrev pub decimal : ℕ → Bytes
decimal n = decimal_from (suc n) n

-- One numbered value, and the round behind it.
abbrev pub chunk_then :
    ℕ
    → Bytes
    → Option (Option Bytes)
    → (Bytes → Result UploadPayloadError Bytes)
    → Result UploadPayloadError Bytes
chunk_then limit encoded none next = ok encoded
chunk_then limit encoded (some none) next = err invalid_base64
chunk_then limit encoded (some (some value)) next =
    let later = next (encoded ++ value) in
    if ltb limit (length (encoded ++ value)) then err too_large else later

-- The loop over `get i`, which is absent, not text, or a text.
unfoldable pub collect :
    ℕ → (ℕ → Option (Option Bytes)) → ℕ → ℕ → Bytes → Result UploadPayloadError Bytes
collect zero get limit i encoded = err unfinished
collect (suc fuel) get limit i encoded =
    chunk_then limit encoded (get i) (collect fuel get limit (i + 1))

abbrev pub texted : Option Bytes → Option (Option Bytes)
texted none = none
texted (some value) = some (text_of (some value))

abbrev pub numbered_header : List (Bytes × Bytes) → Bytes → ℕ → Option (Option Bytes)
numbered_header headers key i =
    texted (header_value headers (to_ascii_lowercase (key ++ b'-' ∷ decimal i)))

unfoldable pub decode_header_payload :
    (Bytes → Option Bytes) → XhttpConfig → List (Bytes × Bytes) → Result UploadPayloadError Bytes
decode_header_payload decode x headers =
    if not (uses_headers x.uplink_data_placement)
    then ok []
    else collect (length headers + 1) (numbered_header headers x.uplink_data_key)
        (encoded_len_limit x.max_each_post_bytes) 0 []
      >>= λ encoded. decode_payload_chunks decode encoded x.max_each_post_bytes

-- A `name=value` part of a cookie.
abbrev pub part_value : Option (Bytes × Bytes) → Bytes → Option Bytes
part_value none key = none
part_value (some (name, value)) key = if bytes_eq name key then some value else none

abbrev pub or_else : Option Bytes → Option Bytes → Option Bytes
or_else none later = later
or_else (some value) later = some value

abbrev pub cookie_parts : List Bytes → Bytes → Option Bytes
cookie_parts [] key = none
cookie_parts (part ∷ parts) key =
    or_else (part_value (split_once b'=' (trim part)) key) (cookie_parts parts key)

abbrev pub cookie_name : Bytes
cookie_name = b'c' ∷ b'o' ∷ b'o' ∷ b'k' ∷ b'i' ∷ b'e' ∷ []

unfoldable pub cookie_value : List (Bytes × Bytes) → Bytes → Option Bytes
cookie_value [] key = none
cookie_value ((name, raw) ∷ headers) key =
    or_else
      (if bytes_eq name cookie_name && is_text raw then cookie_parts (split b';' raw) key else none)
      (cookie_value headers key)

abbrev pub present : Option Bytes → Option (Option Bytes)
present none = none
present (some value) = some (some value)

abbrev pub numbered_cookie : List (Bytes × Bytes) → Bytes → ℕ → Option (Option Bytes)
numbered_cookie headers key i = present (cookie_value headers (key ++ b'_' ∷ decimal i))

abbrev pub header_bytes : List (Bytes × Bytes) → ℕ
header_bytes [] = 0
header_bytes ((name, value) ∷ headers) = length value + 1 + header_bytes headers

unfoldable pub decode_cookie_payload :
    (Bytes → Option Bytes) → XhttpConfig → List (Bytes × Bytes) → Result UploadPayloadError Bytes
decode_cookie_payload decode x headers =
    if not (uses_cookies x.uplink_data_placement)
    then ok []
    else collect (header_bytes headers + 1) (numbered_cookie headers x.uplink_data_key)
        (encoded_len_limit x.max_each_post_bytes) 0 []
      >>= λ encoded. decode_payload_chunks decode encoded x.max_each_post_bytes

-- What `read_body_payload` keeps: the first frame alone, and two or more frames put together.
pub record Reading : Type 0 where
  pub first : Option Bytes
  pub combined : Option Bytes
  pub total : ℕ

abbrev pub kept : Option Bytes → Option Bytes → ℕ → Bytes → Reading
kept first (some payload) total bytes = record {
  first = first;
  combined = some (payload ++ bytes);
  total = total;
}
kept (some initial) none total bytes = record {
  first = none;
  combined = some (initial ++ bytes);
  total = total;
}
kept none none total bytes = record { first = some bytes; combined = none; total = total }

abbrev pub taken : Option Bytes → Option Bytes → Bytes
taken first (some payload) = payload
taken (some initial) none = initial
taken none none = []

unfoldable pub read_frames : ℕ → Reading → List Frame → Result UploadPayloadError Bytes
read_frames limit r [] = ok (taken r.first r.combined)
read_frames limit r (failed ∷ frames) = err invalid_base64
read_frames limit r (trailers ∷ frames) = read_frames limit r frames
read_frames limit r (data_frame [] ∷ frames) = read_frames limit r frames
read_frames limit r (data_frame (b ∷ bytes) ∷ frames) =
    let next_total = r.total + length (b ∷ bytes) in
    let later = read_frames limit (kept r.first r.combined next_total (b ∷ bytes)) frames in
    if leb (2 ^ 64) next_total
    then err too_large
    else if ltb limit next_total
    then err too_large
    else later

abbrev pub nothing_read : Reading
nothing_read = record { first = none; combined = none; total = 0 }

unfoldable pub read_body_payload : XhttpConfig → List Frame → Result UploadPayloadError Bytes
read_body_payload x frames = read_frames x.max_each_post_bytes nothing_read frames
