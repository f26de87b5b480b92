-- ===== src/Xhttp/Request.antt =====
-- src/xhttp/mod.rs: what a request is, from its method and path. A `Uri` is its path and, for the
-- host, what the `http` crate gives for it; a method is one of the two that the source asks for, or
-- another.
pub mod Paths
use rust_xhttp.Common.{
  ℕ, ◌+◌, ◌-◌, ◌*◌, ◌^◌, Bool, true, false, List, [], ◌∷◌, Option, none, some, Bytes, if◌then◌else◌,
  ◌==◌, leb, ltb, not, ◌&&◌, ◌||◌, bytes_eq, u64_max,
}
use rust_xhttp.Xhttp.Padding.{split, head_or}

pub data Method : Type 0 where
  get options another : Method

abbrev pub is_get : Method → Bool
is_get get = true
is_get options = false
is_get another = false

-- `Meta` and `BorrowedMeta`
pub record Meta : Type 0 where
  pub session_id : Bytes
  pub seq_str : Bytes

-- `RequestKind` and `BorrowedRequestKind`
pub data RequestKind : Type 0 where
  packet_upload : Bytes → ℕ → RequestKind
  stream_download : Bytes → RequestKind
  stream_up : Bytes → RequestKind
  stream_one options_request unsupported : RequestKind

-- `str::strip_prefix`
unfoldable pub strip_prefix : Bytes → Bytes → Option Bytes
strip_prefix [] full = some full
strip_prefix (b ∷ base) [] = none
strip_prefix (b ∷ base) (x ∷ full) =
    let rest = strip_prefix base full in if b == x then rest else none

abbrev pub or_empty : Option Bytes → Bytes
or_empty none = []
or_empty (some s) = s

-- The first two pieces: `segs.next().unwrap_or("")` twice.
abbrev pub meta_of : List Bytes → Meta
meta_of [] = record { session_id = []; seq_str = [] }
meta_of (s ∷ []) = record { session_id = s; seq_str = [] }
meta_of (s ∷ q ∷ more) = record { session_id = s; seq_str = q }

unfoldable pub extract_meta_from_path : Bytes → Bytes → Meta
extract_meta_from_path base path = meta_of (split b'/' (or_empty (strip_prefix base path)))

unfoldable pub path_matches : Bytes → Bytes → Bool
path_matches base path = elim (strip_prefix base path) [ none ↦ false | some rest ↦ true ]

-- `u8::eq_ignore_ascii_case`, on strings
abbrev lower : ℕ → ℕ
lower b = if leb b'A' b && leb b b'Z' then b + 32 else b

eq_ignore_ascii_case : Bytes → Bytes → Bool
eq_ignore_ascii_case [] [] = true
eq_ignore_ascii_case [] (y ∷ ys) = false
eq_ignore_ascii_case (x ∷ xs) [] = false
eq_ignore_ascii_case (x ∷ xs) (y ∷ ys) = lower x == lower y && eq_ignore_ascii_case xs ys

-- `header` is the `Host` header, if it is text, and `uri_host` the host of the URI.
unfoldable pub host_matches : Bytes → Option Bytes → Option Bytes → Bool
unfolding eq_ignore_ascii_case
host_matches [] header uri_host = true
host_matches (c ∷ configured) header uri_host =
    let host : Bytes = elim header [ none ↦ or_empty uri_host | some h ↦ h ] in
    eq_ignore_ascii_case (head_or (split b':' host) host)
      (head_or (split b':' (c ∷ configured)) (c ∷ configured))

-- `str::parse::<u64>`: a sign `+` is allowed in front of the digits.
unfoldable pub parse_digits : Bytes → ℕ → Option ℕ
parse_digits [] n = some n
parse_digits (d ∷ digits) n =
    let more = parse_digits digits (n * 10 + (d - b'0')) in
    if leb b'0' d && leb d b'9' && leb (n * 10 + (d - b'0')) u64_max then more else none

unfoldable pub parse_u64 : Bytes → Option ℕ
parse_u64 [] = none
parse_u64 (b ∷ []) = if b == b'+' then none else parse_digits (b ∷ []) 0
parse_u64 (b ∷ c ∷ digits) =
    if b == b'+' then parse_digits (c ∷ digits) 0 else parse_digits (b ∷ c ∷ digits) 0

abbrev is_empty : Bytes → Bool
is_empty [] = true
is_empty (b ∷ bytes) = false

abbrev upload_of : Bytes → Option ℕ → RequestKind
upload_of session none = unsupported
upload_of session (some seq) = packet_upload session seq

-- `classify_borrowed`, below its first test
unfoldable pub classify_meta : Method → Meta → RequestKind
classify_meta method meta =
    let has_session = not (is_empty meta.session_id) in
    let has_seq = not (is_empty meta.seq_str) in
    let is_uplink = if is_get method then has_seq else true in
    if is_uplink && has_session
    then (if has_seq
        then upload_of meta.session_id (parse_u64 meta.seq_str)
        else stream_up meta.session_id)
    else if is_get method || not has_session
    then (if has_session then stream_download meta.session_id else stream_one)
    else unsupported

-- `classify` and `classify_borrowed`
unfoldable pub classify : Method → Meta → RequestKind
classify options meta = options_request
classify get meta = classify_meta get meta
classify another meta = classify_meta another meta
