-- ===== src/Tls/ClientHello/RecordBuffer.antt =====
-- src/tls/client_hello.rs: the buffer that puts a ClientHello together from several records.
use rust_xhttp.Common.{
  ℕ, ◌+◌, ◌*◌, ◌^◌, not, ◌==◌, ltb, if◌then◌else◌, [], ◌∷◌, ◌++◌, Option, none, some, Bytes, length,
  Result, ok, err, u16_of,
}
use rust_xhttp.Common.Utf8.{read_exact}
use rust_xhttp.Tls.ClientHello.{handshake_type_client_hello}
use rust_xhttp.Tls.ClientHello.Message.{tls_record_handshake}

pub data ClientHelloBufferError : Type 0 where
  truncated_record not_handshake_record trailing_record_bytes : ClientHelloBufferError
  not_client_hello payload_too_large trailing_handshake_bytes : ClientHelloBufferError

pub record ClientHelloRecordBuffer : Type 0 where
  pub payload : Bytes
  pub max_payload : ℕ

unfoldable pub new_buffer : ℕ → ClientHelloRecordBuffer
new_buffer max_payload = record { payload = []; max_payload = max_payload }

unfoldable pub default_buffer : ClientHelloRecordBuffer
unfolding new_buffer
default_buffer = new_buffer (2 ^ 16)

abbrev pub Answer : Type 0
Answer = Result ClientHelloBufferError (Option Bytes)

-- `try_message`
unfoldable pub try_message : ℕ → Bytes → Answer
try_message max_payload (t ∷ a ∷ b ∷ c ∷ rest) =
    let total = 4 + (a * 65536 + b * 256 + c) in
    let have = 4 + length rest in
    if not (t == handshake_type_client_hello)
    then err not_client_hello
    else if ltb max_payload total
    then err payload_too_large
    else if ltb have total
    then ok none
    else if not (have == total)
    then err trailing_handshake_bytes
    else ok (some (t ∷ a ∷ b ∷ c ∷ rest))
try_message max_payload payload = ok none

-- The body of a record, and what stands behind it.
unfoldable pub append_body :
    ClientHelloRecordBuffer → Option (Bytes × Bytes) → ClientHelloRecordBuffer × Answer
append_body buffer none = (buffer, err truncated_record)
append_body buffer (some (body, b ∷ after)) = (buffer, err trailing_record_bytes)
append_body buffer (some (body, [])) =
    let payload = buffer.payload ++ body in
    if ltb buffer.max_payload (length buffer.payload + length body)
    then (buffer, err payload_too_large)
    else (record buffer { payload = payload }, try_message buffer.max_payload payload)

unfoldable pub append_record : ClientHelloRecordBuffer → Bytes → ClientHelloRecordBuffer × Answer
append_record buffer (t ∷ major ∷ minor ∷ hi ∷ lo ∷ rest) =
    if not (t == tls_record_handshake)
    then (buffer, err not_handshake_record)
    else append_body buffer (read_exact (u16_of hi lo) rest)
append_record buffer record' = (buffer, err truncated_record)
