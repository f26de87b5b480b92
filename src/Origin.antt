-- ===== src/Origin.antt =====
-- src/origin.rs: the handler of a request. A request is its method, its URI as the `http` crate takes
-- it apart, its headers with names in lower case, and the frames of its body; a body that is streamed is the
-- number of its session. The decoder of base64 and the value of the response padding, which is
-- random, are arguments.
pub mod Names
pub mod Payload
pub mod Handle
pub mod Frames
pub mod Uploads
pub mod Camouflage
use rust_xhttp.Common.{
  ℕ, ◌+◌, ◌%◌, ◌^◌, Bool, true, false, ◌&&◌, ◌||◌, not, if◌then◌else◌, ◌==◌, leb, ltb, List, [],
  ◌∷◌, ◌++◌, Option, none, some, Bytes, bytes_eq, length, saturating_add,
}
use rust_xhttp.Config.{XhttpConfig}
use rust_xhttp.Session.Table.{SessionTable}
use rust_xhttp.Site.{StaticSite, get_name}
use rust_xhttp.Xhttp.Request.{Method, get, options, another}

-- The data of a frame, trailers, or a failure of the connection.
pub data Frame : Type 0 where
  data_frame : Bytes → Frame
  trailers failed : Frame

pub record Request : Type 0 where
  pub method : Bytes
  pub path : Bytes
  pub query : Option Bytes
  pub uri_host : Option Bytes
  pub headers : List (Bytes × Bytes)
  pub frames : List Frame
  -- `size_hint().upper()`
  pub size_upper : Option ℕ

-- `Method::GET` and `Method::OPTIONS`
abbrev pub options_name : Bytes
options_name = b'O' ∷ b'P' ∷ b'T' ∷ b'I' ∷ b'O' ∷ b'N' ∷ b'S' ∷ []

abbrev pub method_of : Bytes → Method
method_of name =
    if bytes_eq name get_name then get else if bytes_eq name options_name then options else another

-- `HeaderMap::get`: the first value of a name
abbrev pub header_value : List (Bytes × Bytes) → Bytes → Option Bytes
header_value [] name = none
header_value ((n, value) ∷ headers) name =
    let later = header_value headers name in if bytes_eq n name then some value else later

-- `HeaderValue::to_str`: visible ASCII and tabs
abbrev pub is_text : Bytes → Bool
is_text [] = true
is_text (b ∷ value) = ((leb 32 b && ltb b 127) || b == 9) && is_text value

abbrev pub text_of : Option Bytes → Option Bytes
text_of none = none
text_of (some value) = if is_text value then some value else none

pub data Body : Type 0 where
  no_body : Body
  fixed : Bytes → Body
  -- the download of a session
  streamed : ℕ → Body

pub record Response : Type 0 where
  pub status : ℕ
  pub headers : List (Bytes × Bytes)
  pub body : Body

-- `HeaderMap::insert`
abbrev pub insert : Bytes → Bytes → List (Bytes × Bytes) → List (Bytes × Bytes)
insert name value [] = (name, value) ∷ []
insert name value ((n, v) ∷ headers) =
    let later = insert name value headers in
    if bytes_eq n name then (n, value) ∷ headers else (n, v) ∷ later

abbrev pub with_header : Bytes → Bytes → Response → Response
with_header name value r = record r { headers = insert name value r.headers }

abbrev pub server : Bytes
server = b's' ∷ b'e' ∷ b'r' ∷ b'v' ∷ b'e' ∷ b'r' ∷ []

abbrev pub nginx : Bytes
nginx = b'n' ∷ b'g' ∷ b'i' ∷ b'n' ∷ b'x' ∷ []

abbrev pub response : ℕ → Body → Response
response status body = record { status = status; headers = (server, nginx) ∷ []; body = body }

abbrev pub empty : ℕ → Response
empty status = response status no_body

pub record Metrics : Type 0 where
  pub request_header_rejections : ℕ
  pub request_body_rejections : ℕ
  pub upload_bytes : ℕ
  pub memory_limit_rejections : ℕ

-- `fetch_add` of a counter of 64 bits
abbrev pub counted : ℕ → ℕ → ℕ
counted counter n = (counter + n) % 2 ^ 64

-- `Origin`
pub record Origin : Type 0 where
  pub xhttp : XhttpConfig
  pub site : StaticSite
  pub sessions : SessionTable
  pub metrics : Metrics

abbrev pub all_header_bytes : List (Bytes × Bytes) → ℕ → ℕ
all_header_bytes [] total = total
all_header_bytes ((name, value) ∷ headers) total =
    all_header_bytes headers
      (saturating_add (saturating_add (saturating_add total (length name)) (length value)) 4)

-- The path, a question mark and the query.
abbrev pub target_len : Bytes → Option Bytes → ℕ
target_len path none = length path
target_len path (some query) = length path + 1 + length query

unfoldable pub request_header_bytes : Request → ℕ
request_header_bytes r = all_header_bytes r.headers (length r.method + target_len r.path r.query)
