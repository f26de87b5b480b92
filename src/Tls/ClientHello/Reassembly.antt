-- ===== src/Tls/ClientHello/Reassembly.antt =====
-- src/tls/client_hello.rs: a message that arrives in several records.
use rust_xhttp.Common.{
  ℕ, ◌+◌, ◌*◌, ◌≤◌, ◌<◌, ◌≡◌, refl, ap, sym, subst, ◌∙◌, List, [], ◌∷◌, ◌++◌, none, some, ap₂,
  le→ltb_false, Bytes, length, ok, All, arith, IsU16, u16_be, u16_of-be, append_assoc, append-nil,
  length-append, replicate,
}
use rust_xhttp.Common.Utf8.{read_exact, read_exact-append}
use rust_xhttp.Tls.ClientHello.{handshake_type_client_hello}
use rust_xhttp.Tls.ClientHello.Message.{tls_record_handshake}
use rust_xhttp.Tls.ClientHello.RecordBuffer.{
  ClientHelloRecordBuffer, Answer, try_message, append_body, append_record, new_buffer,
}

-- A part of a message, and the version of the record that it goes into.
pub record Part : Type 0 where
  pub major : ℕ
  pub minor : ℕ
  pub body : Bytes

abbrev pub tls_record : Part → Bytes
tls_record p = tls_record_handshake ∷ p.major ∷ p.minor ∷ u16_be (length p.body) p.body

abbrev pub bodies : List Part → Bytes
bodies [] = []
bodies (p ∷ rest) = p.body ++ bodies rest

abbrev pub Fits : Part → Type 0
Fits p = IsU16 (length p.body)

-- The answers to a number of records.
unfoldable pub append_all : ClientHelloRecordBuffer → List Part → List Answer
append_all buffer [] = []
append_all buffer (p ∷ rest) =
    let (buffer', answer) = append_record buffer (tls_record p) in answer ∷ append_all buffer' rest

-- A ClientHello with a length that is right.
pub record IsHello (message : Bytes) : Type 0 where
  pub a : ℕ
  pub b : ℕ
  pub c : ℕ
  pub body : Bytes
  pub shape : message ≡ handshake_type_client_hello ∷ a ∷ b ∷ c ∷ body
  pub len : a * 65536 + b * 256 + c ≡ length body

try_message-whole :
    (max_payload : ℕ) (message : Bytes)
    → IsHello message
    → length message ≤ max_payload
    → try_message max_payload message ≡ ok (some message)
unfolding try_message
try_message-whole max_payload message h fits =
    let f = ap length h.shape in
    subst (λ m. try_message max_payload m ≡ ok (some m)) (sym h.shape) (ground (arith, h.len, f))

try_message-part :
    (max_payload : ℕ) (payload more : Bytes)
    → IsHello (payload ++ more)
    → length (payload ++ more) ≤ max_payload
    → 0 < length more
    → try_message max_payload payload ≡ ok none
unfolding try_message
try_message-part max_payload [] more h fits pos = refl
try_message-part max_payload (t ∷ []) more h fits pos = refl
try_message-part max_payload (t ∷ a ∷ []) more h fits pos = refl
try_message-part max_payload (t ∷ a ∷ b ∷ []) more h fits pos = refl
try_message-part max_payload (t ∷ a ∷ b ∷ c ∷ rest) more h fits pos =
    ground (arith, h.shape, h.len, length-append rest more)

-- A record within the bound.
append_record-body :
    (buffer : ClientHelloRecordBuffer) (p : Part)
    → Fits p
    → length (buffer.payload ++ p.body) ≤ buffer.max_payload
    → append_record buffer (tls_record p) ≡ (
      record buffer { payload = buffer.payload ++ p.body },
      try_message buffer.max_payload (buffer.payload ++ p.body),
    )
unfolding append_record append_body
append_record-body buffer p u fits =
    let body = p.body in
    let whole : read_exact (length body) body ≡ some (body, []) =
      subst (λ b. read_exact (length body) b ≡ some (body, [])) (append-nil body)
        (read_exact-append body []) in
    ap (λ n. append_body buffer (read_exact n body)) (u16_of-be (length body) u)
    ∙ ap (append_body buffer) whole
    ∙ rw
        (le→ltb_false buffer.max_payload (length buffer.payload + length body)
          (omega (arith, length-append buffer.payload body)))
        refl

answers :
    (buffer : ClientHelloRecordBuffer) (p : Part) (rest : List Part)
    → Fits p
    → length (buffer.payload ++ p.body) ≤ buffer.max_payload
    → append_all buffer (p ∷ rest)
      ≡ try_message buffer.max_payload (buffer.payload ++ p.body)
        ∷ append_all (record buffer { payload = buffer.payload ++ p.body }) rest
unfolding append_all
answers buffer p rest u fits =
    ap (λ (r : ClientHelloRecordBuffer × Answer). r.1 ∷ append_all r.0 rest)
      (append_record-body buffer p u fits)

append_all-from :
    (max_payload : ℕ) (payload : Bytes) (front : List Part) (end : Part)
    → IsHello (payload ++ (bodies front ++ end.body))
    → length (payload ++ (bodies front ++ end.body)) ≤ max_payload
    → 0 < length end.body
    → All Fits front
    → Fits end
    → append_all (record { payload = payload; max_payload = max_payload }) (front ++ end ∷ [])
      ≡ replicate (length front) (ok none) ++ ok (some (payload ++ (bodies front ++ end.body))) ∷ []
unfolding append_all
append_all-from max_payload payload [] end h fits pos fs f =
    answers (record { payload = payload; max_payload = max_payload }) end [] f fits
    ∙ ap (λ a. a ∷ []) (try_message-whole max_payload (payload ++ end.body) h fits)
append_all-from max_payload payload (p ∷ front) end h fits pos fs f =
    let more = bodies front ++ end.body in
    let apart : payload ++ ((p.body ++ bodies front) ++ end.body) ≡ (payload ++ p.body) ++ more =
      ap (◌++◌ payload) (append_assoc p.body (bodies front) end.body)
      ∙ sym (append_assoc payload p.body more) in
    let h' : IsHello ((payload ++ p.body) ++ more) = subst IsHello apart h in
    let fits' : length ((payload ++ p.body) ++ more) ≤ max_payload =
      subst (λ m. length m ≤ max_payload) apart fits in
    let len = length-append (payload ++ p.body) more in
    let len' = length-append (bodies front) end.body in
    answers (record { payload = payload; max_payload = max_payload }) p (front ++ end ∷ []) fs.0
      (omega (arith, len, fits'))
    ∙ ap₂ ◌∷◌
        (try_message-part max_payload (payload ++ p.body) more h' fits' (omega (arith, len', pos)))
        (append_all-from max_payload (payload ++ p.body) front end h' fits' pos fs.1 f)
    ∙ ap (λ m. ok none ∷ (replicate (length front) (ok none) ++ ok (some m) ∷ [])) (sym apart)

-- A ClientHello whose length field is right, within the limit of the buffer, that comes in any number
-- of handshake records of at most 65535 bytes, the last of them not empty: each record but the last
-- is answered with `None`, and the last one with exactly the message.
pub append_all-message :
    (max_payload : ℕ) (front : List Part) (end : Part)
    → IsHello (bodies front ++ end.body)
    → length (bodies front ++ end.body) ≤ max_payload
    → 0 < length end.body
    → All Fits front
    → Fits end
    → append_all (new_buffer max_payload) (front ++ end ∷ [])
      ≡ replicate (length front) (ok none) ++ ok (some (bodies front ++ end.body)) ∷ []
unfolding new_buffer
append_all-message max_payload front end h fits pos fs f =
    append_all-from max_payload [] front end h fits pos fs f
