-- ===== src/Examples/Origin.antt =====
-- Runs of src/origin.rs.
use rust_xhttp.Common.{◌≡◌, refl, true, false, List, [], ◌∷◌, none, some, ok, arith}
use rust_xhttp.Config.{XhttpConfig, body, auto}
use rust_xhttp.Session.Table.{SessionConfig, new_table}
use rust_xhttp.Session.Table.Operations.{open_download}
use rust_xhttp.Site.{Asset, get_name}
use rust_xhttp.Origin.{Frame, data_frame, trailers, Request, Origin}
use rust_xhttp.Origin.Payload.{
  decode_header_payload, decode_payload_chunks, collect, encoded_len_limit, decimal_from,
}
use rust_xhttp.Origin.Handle.{upload, finish_upload}
use rust_xhttp.Origin.Uploads.{Bounded, upload-Bounded, upload-data}

abbrev xhttp : XhttpConfig
xhttp = record {
  path = b'/' ∷ b'x' ∷ b'/' ∷ [];
  host = [];
  max_each_post_bytes = 5;
  max_buffered_posts = 3;
  session_grace_secs = 30;
  sse_header = true;
  max_header_bytes = 8192;
  padding_from = 1;
  padding_to = 20;
  uplink_data_placement = body;
  uplink_data_key = b'X' ∷ [];
}

abbrev cfg : SessionConfig
cfg = record {
  shards = 2;
  max_sessions = 2;
  max_pending_packets = 4;
  max_pending_bytes = 100;
  global_buffer_budget = none;
}

abbrev page : Asset
page = record {
  content_type = [];
  body = b'p' ∷ [];
  cache_control = [];
  etag = b'e' ∷ [];
  last_modified = [];
}

abbrev origin : Origin
origin = record {
  xhttp = xhttp;
  site = record { assets = []; not_found = page; method_not_allowed = page };
  sessions = new_table cfg;
  metrics = record {
    request_header_rejections = 0;
    request_body_rejections = 0;
    upload_bytes = 0;
    memory_limit_rejections = 0;
  };
}

abbrev request : List Frame → Request
request frames = record {
  method = get_name;
  path = b'/' ∷ b'y' ∷ [];
  query = none;
  uri_host = none;
  headers = (b'x' ∷ b'-' ∷ b'0' ∷ [], b'a' ∷ b'b' ∷ []) ∷ (b'x' ∷ b'-' ∷ b'1' ∷ [], b'c' ∷ []) ∷ [];
  frames = frames;
  size_upper = none;
}

abbrev frames : List Frame
frames = data_frame (1 ∷ 2 ∷ []) ∷ data_frame [] ∷ trailers ∷ data_frame (3 ∷ []) ∷ []

upload-data_example :
    upload some origin (request frames) (b'1' ∷ []) 0
    ≡ finish_upload origin (b'1' ∷ []) 0 (1 ∷ 2 ∷ 3 ∷ [])
upload-data_example =
    upload-data some origin (request frames) (b'1' ∷ []) 0 refl (omega arith) refl
      (tt, (tt, (tt, (tt, tt))))

upload-Bounded_example :
    Bounded some origin
      (request frames)
      (b'1' ∷ [])
      0
      (upload some origin (request frames) (b'1' ∷ []) 0)
upload-Bounded_example = upload-Bounded some origin (request frames) (b'1' ∷ []) 0

-- The numbered headers are put together, with the name of the key in lower case.
header_chunks :
    decode_header_payload some (record xhttp { uplink_data_placement = auto }) (request []).headers
    ≡ ok (b'a' ∷ b'b' ∷ b'c' ∷ [])
unfolding decode_header_payload collect decimal_from encoded_len_limit decode_payload_chunks
header_chunks = refl

-- A server with another path, no limit on paddings and a session.
abbrev other : Origin
other = record origin {
  xhttp = record xhttp { path = b'/' ∷ b'z' ∷ b'/' ∷ []; padding_to = 4000; sse_header = false };
  sessions = (open_download (new_table cfg) (b'1' ∷ [])).0;
}
