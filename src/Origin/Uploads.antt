-- ===== src/Origin/Uploads.antt =====
-- src/origin.rs: what an upload does to the sessions.
use rust_xhttp.Common.{
  ℕ, ◌+◌, ◌≤◌, ◌<◌, ◌^◌, ◌≡◌, ◌⊎◌, refl, ap, sym, append-nil, Bool, true, false, not, if◌then◌else◌,
  ltb, [], ◌++◌, Option, none, some, Bytes, length, All, Result, ok, err, ◌>>=◌, arith, Bool-cases,
  inl, inr,
}
use rust_xhttp.Config.{XhttpConfig, body}
use rust_xhttp.Config.Stream.{is_body}
use rust_xhttp.Session.Reorder.{
  PushResult, accepted, duplicate, too_many_pending, too_many_pending_bytes, global_buffer_exceeded,
  closed,
}
use rust_xhttp.Session.Table.{SessionTable}
use rust_xhttp.Session.Table.Operations.{push_uplink, remove}
use rust_xhttp.Origin.{Request, Response, Origin, counted, empty}
use rust_xhttp.Origin.Payload.{
  uses_headers, uses_cookies, collect, numbered_header, numbered_cookie, encoded_len_limit,
  decode_payload_chunks, header_bytes, UploadPayloadError, invalid_base64, too_large, unfinished,
  decode_header_payload, decode_cookie_payload, should_read_body, read_body_payload,
}
use rust_xhttp.Origin.Frames.{data_of, IsIntact, read_body_payload-limited}
use rust_xhttp.Origin.Handle.{
  accepted_response, push_response, finish_upload, payload_then, hint_exceeds,
  reject_upload_too_large, upload,
}

-- The status of an answer to a push, and the table that it leaves of the pushed one.
abbrev pub status_of : Option PushResult → ℕ
status_of (some accepted) = 200
status_of (some duplicate) = 200
status_of (some too_many_pending) = 500
status_of (some too_many_pending_bytes) = 500
status_of (some global_buffer_exceeded) = 503
status_of (some closed) = 409
status_of none = 503

abbrev pub left_of : SessionTable → Bytes → Option PushResult → SessionTable
left_of sessions id (some too_many_pending) = remove sessions id
left_of sessions id (some too_many_pending_bytes) = remove sessions id
left_of sessions id _ = sessions

-- The payload of an upload: what its headers, its cookies and its body give, one behind the other, of
-- those that carry payloads.
abbrev pub Gathered : (Bytes → Option Bytes) → Origin → Request → Bytes → Type 0
Gathered decode o request payload =
    (header : Bytes) × (cookie : Bytes) × (in_body : Bytes) × (decode_header_payload decode o.xhttp
        request.headers
      ≡ ok header)
    × (decode_cookie_payload decode o.xhttp request.headers ≡ ok cookie)
    × (if should_read_body o.xhttp.uplink_data_placement
        then (read_body_payload o.xhttp request.frames ≡ ok in_body)
        else (in_body ≡ []))
    × (payload ≡ header ++ cookie ++ in_body)

-- A refused upload has changed no session: 400 is for what is not base64, 413 for what is too large,
-- and zero stands for no response, where the rounds of a loop have run out.
abbrev pub Refused : Origin → Origin × Response → Type 0
Refused o (o', r) =
    (o'.sessions ≡ o.sessions) × ((r.status ≡ 400) ⊎ (r.status ≡ 413) ⊎ (r.status ≡ 0))

-- A payload within the limit went to the session of the upload, whose result was answered.
abbrev pub Pushed : Origin → Bytes → ℕ → Bytes → Origin × Response → Type 0
Pushed o id seq payload (o', r) =
    let (sessions, result) = push_uplink o.sessions id seq payload in
    (length payload ≤ o.xhttp.max_each_post_bytes)
    × (r.status ≡ status_of result)
    × (o'.sessions ≡ left_of sessions id result)

abbrev pub Bounded :
    (Bytes → Option Bytes) → Origin → Request → Bytes → ℕ → Origin × Response → Type 0
Bounded decode o request id seq r =
    Refused o r
    ⊎ ((payload : Bytes) × Gathered decode o request payload × Pushed o id seq payload r)

accepted_status : (x : XhttpConfig) → (accepted_response x).status ≡ 200
accepted_status x = elim (Bool-cases (not (is_body x.uplink_data_placement))) [
  | inl elsewhere ↦ rw elsewhere refl
  | inr in_body ↦ rw in_body refl
]

push_response-status :
    (o : Origin) (id : Bytes) (result : Option PushResult)
    → ((push_response o id result).1.status ≡ status_of result)
      × ((push_response o id result).0.sessions ≡ left_of o.sessions id result)
unfolding push_response
push_response-status o id (some accepted) = (accepted_status o.xhttp, refl)
push_response-status o id (some duplicate) = (accepted_status o.xhttp, refl)
push_response-status o id (some too_many_pending) = (refl, refl)
push_response-status o id (some too_many_pending_bytes) = (refl, refl)
push_response-status o id (some global_buffer_exceeded) = (refl, refl)
push_response-status o id (some closed) = (refl, refl)
push_response-status o id none = (refl, refl)

ltb_false→le : {m n : ℕ} → ltb m n ≡ false → n ≤ m
ltb_false→le e = ground arith

bad_base64 : (o : Origin) → Refused o (o, empty 400)
bad_base64 o = (refl, inl refl)

is_too_large : (o : Origin) → Refused o (reject_upload_too_large o)
is_too_large o = (refl, inr (inl refl))

module _ (decode : Bytes → Option Bytes) (o : Origin) (request : Request) (id : Bytes)
    (seq : ℕ) where
  finish_upload-Bounded :
      (payload : Bytes)
      → Gathered decode o request payload
      → Bounded decode o request id seq (finish_upload o id seq payload)
  unfolding finish_upload
  finish_upload-Bounded payload g =
      elim (Bool-cases (ltb o.xhttp.max_each_post_bytes (length payload))) [
        | inl large ↦ rw large (inl (is_too_large o))
        | inr fits ↦
            let counted_up = record o.metrics {
              upload_bytes = counted o.metrics.upload_bytes (length payload);
            } in
            let (sessions, result) = push_uplink o.sessions id seq payload in
            let (status, left) =
              push_response-status (record o { sessions = sessions; metrics = counted_up }) id
                result in
            rw fits (inr (payload, g, (ltb_false→le fits, status, left)))
      ]

  payload_then-Bounded :
      (r : Result UploadPayloadError Bytes) (next : Bytes → Origin × Response)
      → ((payload : Bytes) → r ≡ ok payload → Bounded decode o request id seq (next payload))
      → Bounded decode o request id seq (payload_then o r next)
  payload_then-Bounded (ok payload) next h = h payload refl
  payload_then-Bounded (err invalid_base64) next h = inl (bad_base64 o)
  payload_then-Bounded (err too_large) next h = inl (is_too_large o)
  payload_then-Bounded (err unfinished) next h = inl (refl, inr (inr refl))

  -- The part of an upload that comes from the body, if there is one, behind the other two.
  body-Bounded :
      (header cookie : Bytes) (read over : Bool)
      → decode_header_payload decode o.xhttp request.headers ≡ ok header
      → decode_cookie_payload decode o.xhttp request.headers ≡ ok cookie
      → should_read_body o.xhttp.uplink_data_placement ≡ read
      → Bounded decode o request id seq (
          if read
          then (if over
              then reject_upload_too_large o
              else payload_then o
                  (read_body_payload o.xhttp request.frames)
                  λ in_body. finish_upload o id seq (header ++ cookie ++ in_body))
          else finish_upload o id seq (header ++ cookie))
  body-Bounded header cookie true true eh ec e = inl (is_too_large o)
  body-Bounded header cookie true false eh ec e =
      payload_then-Bounded (read_body_payload o.xhttp request.frames)
        (λ in_body. finish_upload o id seq (header ++ cookie ++ in_body))
        λ in_body eb.
          finish_upload-Bounded (header ++ cookie ++ in_body)
            (header, cookie, in_body, eh, ec, rw e eb, refl)
  body-Bounded header cookie false over eh ec e =
      finish_upload-Bounded (header ++ cookie)
        (header, cookie, [], eh, ec, rw e refl, sym (append-nil (header ++ cookie)))

-- Wherever an upload carries its payload, in headers, cookies or the body, and whatever the decoder
-- of base64 gives: either the upload is refused, the sessions are left as they are and the status is
-- 400 or 413 (or there is no response, if the rounds of a loop run out), or what its headers, cookies
-- and body give, put together and within the configured limit, has gone to the session of the
-- request, the status is that for the result of the push, and the session is removed exactly where
-- too much was waiting.
pub upload-Bounded :
    (decode : Bytes → Option Bytes) (o : Origin) (request : Request) (id : Bytes) (seq : ℕ)
    → Bounded decode o request id seq (upload decode o request id seq)
unfolding upload
upload-Bounded decode o request id seq =
    payload_then-Bounded decode o request id seq
      (decode_header_payload decode o.xhttp request.headers) _
      λ header eh.
        payload_then-Bounded decode o request id seq
          (decode_cookie_payload decode o.xhttp request.headers) _
          λ cookie ec.
            body-Bounded decode o request id seq header cookie
              (should_read_body o.xhttp.uplink_data_placement)
              (hint_exceeds request.size_upper o.xhttp.max_each_post_bytes) eh ec refl

-- Where payloads go into the body, an upload whose frames all arrive is refused as too large, or the
-- data of its frames, put together, goes to the session; the size hint, if there is one, says no
-- more than the limit, which is below 2^64.
pub upload-data :
    (decode : Bytes → Option Bytes) (o : Origin) (request : Request) (id : Bytes) (seq : ℕ)
    → o.xhttp.uplink_data_placement ≡ body
    → o.xhttp.max_each_post_bytes < 2 ^ 64
    → hint_exceeds request.size_upper o.xhttp.max_each_post_bytes ≡ false
    → All IsIntact request.frames
    → upload decode o request id seq ≡ (
        if ltb o.xhttp.max_each_post_bytes (length (data_of request.frames))
        then reject_upload_too_large o
        else finish_upload o id seq (data_of request.frames))
unfolding upload
upload-data decode o request id seq in_body small hint intact =
    let read = read_body_payload-limited o.xhttp request.frames small intact in
    let no_header : decode_header_payload decode o.xhttp request.headers ≡ ok [] =
      unfold decode_header_payload in
      ap
        (λ p.
          if not (uses_headers p)
          then ok []
          else collect (length request.headers + 1)
              (numbered_header request.headers o.xhttp.uplink_data_key)
              (encoded_len_limit o.xhttp.max_each_post_bytes) 0 []
            >>= λ encoded. decode_payload_chunks decode encoded o.xhttp.max_each_post_bytes)
        in_body in
    let no_cookie : decode_cookie_payload decode o.xhttp request.headers ≡ ok [] =
      unfold decode_cookie_payload in
      ap
        (λ p.
          if not (uses_cookies p)
          then ok []
          else collect (header_bytes request.headers + 1)
              (numbered_cookie request.headers o.xhttp.uplink_data_key)
              (encoded_len_limit o.xhttp.max_each_post_bytes) 0 []
            >>= λ encoded. decode_payload_chunks decode encoded o.xhttp.max_each_post_bytes)
        in_body in
    let from_body : should_read_body o.xhttp.uplink_data_placement ≡ true =
      ap should_read_body in_body in
    elim (Bool-cases (ltb o.xhttp.max_each_post_bytes (length (data_of request.frames)))) [
      | inl large ↦ rw (no_header, no_cookie, from_body, hint, read, large) refl
      | inr fits ↦ rw (no_header, no_cookie, from_body, hint, read, fits) refl
    ]
