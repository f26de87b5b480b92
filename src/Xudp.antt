-- ===== src/Xudp.antt =====
-- src/xudp.rs: the XUDP frames and the plain VLESS datagrams. The reader is the list of the bytes
-- that it has still to give.
pub mod RoundTrip
use Prim.Native.Nat.{bit_and}
use rust_xhttp.Common.{
  ℕ, suc, ◌+◌, ◌≤◌, ◌<◌, ◌≡◌, ◌≢◌, Bool, true, false, List, [], ◌∷◌, ◌++◌, Option, none, some,
  Bytes, IsByte, IsU16, if◌then◌else◌, ◌==◌, ltb, leb, not, ◌&&◌, ◌||◌, Result, ok, err, ◌>>=◌,
  ◌>>◌, guard, ok_or, map_err, get_elem?, length, take, drop, u16_be, u16_of, get_or,
}
use rust_xhttp.Common.Utf8.{read_u16, read_exact}
use rust_xhttp.Vless.Address.{Address, AddrError, parse_port_then_address, write_port_then_address}

abbrev pub status_new : ℕ
status_new = 1

abbrev pub status_keep : ℕ
status_keep = 2

abbrev pub status_end : ℕ
status_end = 3

abbrev pub status_keep_alive : ℕ
status_keep_alive = 4

abbrev pub option_data : ℕ
option_data = 1

abbrev pub network_udp : ℕ
network_udp = 2

abbrev pub max_metadata_len : ℕ
max_metadata_len = 512

pub record Target : Type 0 where
  pub address : Address
  pub port : ℕ

pub record Frame : Type 0 where
  pub session_id : ℕ
  pub status : ℕ
  pub option : ℕ
  pub target : Option Target
  pub global_id : Option Bytes
  pub payload : Bytes

pub data XudpError : Type 0 where
  io : XudpError
  metadata_length : ℕ → XudpError
  payload_length : ℕ → XudpError
  unknown_status : ℕ → XudpError
  unsupported_network : ℕ → XudpError
  address_error : AddrError → XudpError

-- `option & OPTION_DATA != 0`
abbrev pub has_data : ℕ → Bool
has_data option = not (bit_and option option_data == 0)

abbrev known_status : ℕ → Bool
known_status s = s == status_new || s == status_keep || s == status_end || s == status_keep_alive

-- `metadata.get(4).copied() == Some(NETWORK_UDP)`
abbrev names_udp : Option ℕ → Bool
names_udp none = false
names_udp (some n) = n == network_udp

abbrev or_zero : Option ℕ → ℕ
or_zero none = 0
or_zero (some n) = n

read_global_id : ℕ → ℕ → Bytes → Option Bytes
read_global_id status option tail =
    if status == status_new && has_data option && leb 8 (length tail)
    then some (take 8 tail)
    else none

-- The block under `if has_target`.
read_target : ℕ → ℕ → Bytes → Result XudpError (Option Target × Option Bytes)
read_target status option metadata = do
  guard (names_udp (get_elem? metadata 4)) (unsupported_network (or_zero (get_elem? metadata 4)))
  (port, address, consumed) ← map_err address_error (parse_port_then_address (drop 5 metadata))
  ok (
    some (record { address = address; port = port }),
    read_global_id status option (drop consumed (drop 5 metadata)),
  )

-- Everything up to the payload.
unfoldable pub read_metadata : ℕ → ℕ → Bytes → Result XudpError (Option Target × Option Bytes)
unfolding read_target read_global_id
read_metadata status option metadata =
    if status == status_new || (status == status_keep && names_udp (get_elem? metadata 4))
    then read_target status option metadata
    else ok (none, none)

-- `read_plain_datagram`, and the payload of a frame: a length and as many bytes.
unfoldable pub read_plain_datagram : Bytes → Result XudpError (Bytes × Bytes)
read_plain_datagram r = do (len, r) ← ok_or (read_u16 r) io; ok_or (read_exact len r) io

unfoldable pub read_payload : ℕ → Bytes → Result XudpError (Bytes × Bytes)
unfolding read_plain_datagram
read_payload option r = if has_data option then read_plain_datagram r else ok ([], r)

unfoldable pub read_frame : Bytes → Result XudpError (Frame × Bytes)
read_frame r = do
  (metadata_len, r) ← ok_or (read_u16 r) io
  guard (leb 4 metadata_len && leb metadata_len max_metadata_len) (metadata_length metadata_len)
  (metadata, r) ← ok_or (read_exact metadata_len r) io
  let session_id = u16_of (get_or metadata 0 0) (get_or metadata 1 0)
  let status = get_or metadata 2 0
  let option = get_or metadata 3 0
  guard (known_status status) (unknown_status status)
  (target, global_id) ← read_metadata status option metadata
  (payload, r) ← read_payload option r
  ok (
    record {
      session_id = session_id;
      status = status;
      option = option;
      target = target;
      global_id = global_id;
      payload = payload;
    },
    r,
  )

abbrev global_id_bytes : ℕ → Option Bytes → Bytes
global_id_bytes status none = []
global_id_bytes status (some id) = if status == status_new then id else []

-- The block under `if let Some(target)`.
unfoldable pub target_bytes : ℕ → Option Target → Option Bytes → Bytes
target_bytes status none global_id = []
target_bytes status (some t) global_id =
    network_udp ∷ (write_port_then_address [] t.port t.address ++ global_id_bytes status global_id)

unfoldable pub metadata_bytes : Frame → Bytes
unfolding target_bytes
metadata_bytes f =
    u16_be f.session_id (f.status ∷ f.option ∷ target_bytes f.status f.target f.global_id)

unfoldable pub payload_bytes : ℕ → Bytes → Bytes
payload_bytes option payload = if has_data option then u16_be (length payload) payload else []

unfoldable pub encode_frame : Frame → Result XudpError Bytes
unfolding metadata_bytes payload_bytes
encode_frame f =
    let metadata = metadata_bytes f in
    if ltb max_metadata_len (length metadata)
    then err (metadata_length (length metadata))
    else if ltb 65535 (length f.payload)
    then err (payload_length (length f.payload))
    else ok (u16_be (length metadata) (metadata ++ payload_bytes f.option f.payload))

unfoldable pub encode_plain_datagram : Bytes → Result XudpError Bytes
encode_plain_datagram payload =
    if ltb 65535 (length payload)
    then err (payload_length (length payload))
    else ok (u16_be (length payload) payload)
