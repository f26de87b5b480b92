-- ===== src/Origin/Handle.antt =====
-- src/origin.rs: the handlers. Where the rounds of a payload's loop run out, the status is zero: there
-- is no response.
use rust_xhttp.Common.{
  ℕ, Bool, false, ◌&&◌, ◌||◌, not, if◌then◌else◌, ltb, [], ◌∷◌, ◌++◌, Option, none, some, Bytes,
  bytes_eq, length, Result, ok, err,
}
use rust_xhttp.Config.{XhttpConfig}
use rust_xhttp.Config.Stream.{is_body}
use rust_xhttp.Session.Reorder.{
  PushResult, accepted, duplicate, too_many_pending, too_many_pending_bytes, global_buffer_exceeded,
  closed,
}
use rust_xhttp.Session.Table.{SessionTable}
use rust_xhttp.Session.Table.Operations.{
  OpenDownload, opened, conflict, capacity, push_uplink, open_download, remove,
}
use rust_xhttp.Site.{resolve, head_name}
use rust_xhttp.Xhttp.Padding.{extract_padding_len, is_padding_len_valid}
use rust_xhttp.Xhttp.Request.{
  RequestKind, packet_upload, stream_download, stream_up, stream_one, options_request, unsupported,
  extract_meta_from_path, path_matches, host_matches, classify,
}
use rust_xhttp.Origin.{
  Request, Response, no_body, fixed, streamed, Origin, method_of, options_name, header_value,
  text_of, with_header, response, empty, counted, request_header_bytes,
}
use rust_xhttp.Origin.Payload.{
  UploadPayloadError, invalid_base64, too_large, unfinished, should_read_body,
  decode_header_payload, decode_cookie_payload, read_body_payload, decimal,
}
use rust_xhttp.Origin.Names.{
  healthz, readyz, name_content_type, name_content_length, name_cache_control, name_etag,
  name_last_modified, name_nosniff, nosniff, name_referrer_policy, strict_origin, name_allow,
  name_if_none_match, name_x_padding, name_buffering, no_store, event_stream,
}

abbrev is_value : Option Bytes → Bytes → Bool
is_value none etag = false
is_value (some value) etag = bytes_eq value etag

abbrev allow_header : Option Bytes → Response → Response
allow_header none r = r
allow_header (some allow) r = with_header name_allow allow r

unfoldable pub site_response : Origin → Request → Response
site_response o request =
    let reply = resolve o.site request.method request.path in
    let asset = reply.asset in
    let not_modified = is_value (header_value request.headers name_if_none_match) asset.etag in
    let is_head = bytes_eq request.method head_name in
    let body = if is_head || not_modified then no_body else fixed asset.body in
    let status = if not_modified then 304 else reply.status in
    let typed = with_header name_content_type asset.content_type (response status body) in
    let sized =
      if not not_modified
      then with_header name_content_length (decimal (length asset.body)) typed
      else typed in
    allow_header reply.allow (
      with_header name_referrer_policy strict_origin (
        with_header name_nosniff nosniff (
          with_header name_last_modified asset.last_modified (
            with_header name_etag asset.etag
              (with_header name_cache_control asset.cache_control sized)))))

-- `reject_upload_too_large`
abbrev pub reject_upload_too_large : Origin → Origin × Response
reject_upload_too_large o = (
  record o {
    metrics = record o.metrics {
      request_body_rejections = counted o.metrics.request_body_rejections 1;
    };
  },
  empty 413,
)

abbrev pub memory_rejected : Origin → Origin × Response
memory_rejected o = (
  record o {
    metrics = record o.metrics {
      memory_limit_rejections = counted o.metrics.memory_limit_rejections 1;
    };
  },
  empty 503,
)

abbrev pub accepted_response : XhttpConfig → Response
accepted_response x =
    if not (is_body x.uplink_data_placement)
    then with_header name_cache_control no_store (empty 200)
    else empty 200

-- The result of the push, with the origin that it left.
unfoldable pub push_response : Origin → Bytes → Option PushResult → Origin × Response
push_response o session_id (some accepted) = (o, accepted_response o.xhttp)
push_response o session_id (some duplicate) = (o, accepted_response o.xhttp)
push_response o session_id (some too_many_pending) =
    (record o { sessions = remove o.sessions session_id }, empty 500)
push_response o session_id (some too_many_pending_bytes) =
    (record o { sessions = remove o.sessions session_id }, empty 500)
push_response o session_id (some global_buffer_exceeded) = memory_rejected o
push_response o session_id (some closed) = (o, empty 409)
push_response o session_id none = memory_rejected o

unfoldable pub finish_upload : Origin → Bytes → ℕ → Bytes → Origin × Response
finish_upload o session_id seq payload =
    let (sessions, result) = push_uplink o.sessions session_id seq payload in
    let counted_up = record o.metrics {
      upload_bytes = counted o.metrics.upload_bytes (length payload);
    } in
    if ltb o.xhttp.max_each_post_bytes (length payload)
    then reject_upload_too_large o
    else push_response (record o { sessions = sessions; metrics = counted_up }) session_id result

-- A payload, or the answer to its error.
abbrev pub payload_then :
    Origin → Result UploadPayloadError Bytes → (Bytes → Origin × Response) → Origin × Response
payload_then o (ok payload) next = next payload
payload_then o (err invalid_base64) next = (o, empty 400)
payload_then o (err too_large) next = reject_upload_too_large o
payload_then o (err unfinished) next = (o, empty 0)

abbrev pub hint_exceeds : Option ℕ → ℕ → Bool
hint_exceeds none limit = false
hint_exceeds (some n) limit = ltb limit n

unfoldable pub upload : (Bytes → Option Bytes) → Origin → Request → Bytes → ℕ → Origin × Response
upload decode o request session_id seq =
    payload_then o (decode_header_payload decode o.xhttp request.headers) λ header_payload.
      payload_then o (decode_cookie_payload decode o.xhttp request.headers) λ cookie_payload.
        if should_read_body o.xhttp.uplink_data_placement
        then (if hint_exceeds request.size_upper o.xhttp.max_each_post_bytes
            then reject_upload_too_large o
            else payload_then o (read_body_payload o.xhttp request.frames) λ body_payload.
              finish_upload o session_id seq (header_payload ++ cookie_payload ++ body_payload))
        else finish_upload o session_id seq (header_payload ++ cookie_payload)

abbrev download_response : XhttpConfig → ℕ → Response
download_response x serial =
    let stored =
      with_header name_cache_control no_store
        (with_header name_buffering (b'n' ∷ b'o' ∷ []) (response 200 (streamed serial))) in
    if x.sse_header then with_header name_content_type event_stream stored else stored

abbrev download_opened : Origin → SessionTable × OpenDownload → Origin × Response
download_opened o (sessions, opened serial reader) =
    (record o { sessions = sessions }, download_response o.xhttp serial)
download_opened o (sessions, conflict) = (record o { sessions = sessions }, empty 409)
download_opened o (sessions, capacity) = (record o { sessions = sessions }, empty 503)

unfoldable pub download : Origin → Bytes → Origin × Response
download o session_id = download_opened o (open_download o.sessions session_id)

-- `add_xhttp_response_padding`
abbrev pub padded : Bytes → Origin × Response → Origin × Response
padded padding (o, r) = (o, with_header name_x_padding padding r)

abbrev name_host : Bytes
name_host = b'h' ∷ b'o' ∷ b's' ∷ b't' ∷ []

abbrev name_referer : Bytes
name_referer = b'r' ∷ b'e' ∷ b'f' ∷ b'e' ∷ b'r' ∷ b'e' ∷ b'r' ∷ []

unfoldable pub dispatch :
    (Bytes → Option Bytes) → Origin → Request → RequestKind → Origin × Response
dispatch decode o request (packet_upload session_id seq) = upload decode o request session_id seq
dispatch decode o request (stream_download session_id) = download o session_id
dispatch decode o request unsupported = (o, empty 500)
dispatch decode o request (stream_up session_id) = (o, empty 400)
dispatch decode o request stream_one = (o, empty 400)
dispatch decode o request options_request = (o, empty 200)

-- The path and the host are the configured ones.
abbrev pub is_addressed : Origin → Request → Bool
is_addressed o request =
    path_matches o.xhttp.path request.path
    && host_matches o.xhttp.host (text_of (header_value request.headers name_host)) request.uri_host

abbrev pub has_padding : Origin → Request → Bool
has_padding o request =
    is_padding_len_valid
      (extract_padding_len (text_of (header_value request.headers name_referer)) request.query)
      o.xhttp.padding_from o.xhttp.padding_to

-- `handle`, with the value of the response padding
unfoldable pub handle : (Bytes → Option Bytes) → Bytes → Origin → Request → Origin × Response
handle decode padding o request =
    if ltb o.xhttp.max_header_bytes (request_header_bytes request)
    then (
      record o {
        metrics = record o.metrics {
          request_header_rejections = counted o.metrics.request_header_rejections 1;
        };
      },
      empty 431,
    )
    else if bytes_eq request.path healthz
    then (o, response 200 (fixed (b'o' ∷ b'k' ∷ 10 ∷ [])))
    else if bytes_eq request.path readyz
    then (o, response 200 (fixed (b'r' ∷ b'e' ∷ b'a' ∷ b'd' ∷ b'y' ∷ 10 ∷ [])))
    else if not (is_addressed o request)
    then (o, site_response o request)
    else if bytes_eq request.method options_name
    then padded padding (o, empty 200)
    else if not (has_padding o request)
    then (o, site_response o request)
    else padded padding (
        dispatch decode o request
          (classify (method_of request.method) (extract_meta_from_path o.xhttp.path request.path)))
