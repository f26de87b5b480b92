-- ===== src/Vless/Header.antt =====
-- src/vless/header.rs: the request and response headers. The reader is the list of the bytes that it
-- has still to give, and its end is the error `io`.
pub mod Agreement
pub mod Layout
use rust_xhttp.Common.{
  ℕ, ◌+◌, ◌≡◌, Bool, true, false, List, [], ◌∷◌, ◌++◌, Option, none, some, Bytes, if◌then◌else◌,
  ◌==◌, not, Result, ok, err, ◌>>=◌, ◌>>◌, guard, ok_or, map_err, get_or, u16_of,
}
use rust_xhttp.Common.Utf8.{is_utf8, read_u8, read_exact}
use rust_xhttp.Vless.Address.{
  Address, ipv4, ipv6, domain, AddrError, empty_domain, bad_domain_utf8, unknown_type,
  addr_type_ipv4, addr_type_ipv6, addr_type_domain,
}
use rust_xhttp.Vless.Addons.{
  Addons, AddonsError, default, Outcome, returns, panics, unfinished, decode_addons_body,
  encode_addons,
}
use rust_xhttp.Vless.Validator.{User, Validator, get_shared}

abbrev pub version : ℕ
version = 0

pub data Command : Type 0 where
  tcp udp mux reverse : Command

unfoldable pub from_byte : ℕ → Option Command
from_byte b =
    if b == 0x01
    then some tcp
    else if b == 0x02
    then some udp
    else if b == 0x03
    then some mux
    else if b == 0x04
    then some reverse
    else none

pub record RequestHeader : Type 0 where
  pub version : ℕ
  pub raw_id : Bytes
  pub command : Command
  pub address : Option Address
  pub port : ℕ

-- The last two are no errors of the source: the addons decoder panicked, or was still running when
-- the fuel of the model ran out.
pub data HeaderError : Type 0 where
  io : HeaderError
  bad_version : ℕ → HeaderError
  auth_failed : HeaderError
  bad_command : ℕ → HeaderError
  reverse_unsupported : HeaderError
  addons_error : AddonsError → HeaderError
  address_error : AddrError → HeaderError
  crashed : HeaderError
  hung : HeaderError

read_ipv4 : Bytes → Result HeaderError (Address × Bytes)
read_ipv4 r = do
  (o, r) ← ok_or (read_exact 4 r) io
  ok (ipv4 (get_or o 0 0) (get_or o 1 0) (get_or o 2 0) (get_or o 3 0), r)

read_ipv6 : Bytes → Result HeaderError (Address × Bytes)
read_ipv6 r = do (o, r) ← ok_or (read_exact 16 r) io; ok (ipv6 o, r)

read_domain : Bytes → Result HeaderError (Address × Bytes)
read_domain r = do
  (dlen, r) ← ok_or (read_u8 r) io
  guard (not (dlen == 0)) (address_error empty_domain)
  (d, r) ← ok_or (read_exact dlen r) io
  guard (is_utf8 d) (address_error bad_domain_utf8)
  ok (domain d, r)

read_address : ℕ → Bytes → Result HeaderError (Address × Bytes)
read_address atype r =
    if atype == addr_type_ipv4
    then read_ipv4 r
    else if atype == addr_type_ipv6
    then read_ipv6 r
    else if atype == addr_type_domain
    then read_domain r
    else err (address_error (unknown_type atype))

unfoldable pub read_address_port : Bytes → Result HeaderError (ℕ × Address × Bytes)
unfolding read_address read_ipv4 read_ipv6 read_domain
read_address_port r = do
  (head, r) ← ok_or (read_exact 3 r) io
  (address, r) ← read_address (get_or head 2 0) r
  ok (u16_of (get_or head 0 0) (get_or head 1 0), address, r)

of_outcome : Outcome → Result HeaderError Addons
of_outcome (returns r) = map_err addons_error r
of_outcome panics = err crashed
of_outcome unfinished = err hung

-- The `if` on the length of the addons.
unfoldable pub read_addons : ℕ → ℕ → Bytes → Result HeaderError (Addons × Bytes)
unfolding of_outcome
read_addons fuel addons_len r = if addons_len == 0 then ok (default, r) else do
  (body, r) ← ok_or (read_exact addons_len r) io
  addons ← of_outcome (decode_addons_body fuel body)
  ok (addons, r)

-- The `match` on the command.
unfoldable pub read_target : Command → Bytes → Result HeaderError (Option Address × ℕ × Bytes)
read_target tcp r = do (port, addr, r) ← read_address_port r; ok (some addr, port, r)
read_target udp r = do (port, addr, r) ← read_address_port r; ok (some addr, port, r)
read_target mux r = ok (none, 0, r)
read_target reverse r = ok (none, 0, r)

abbrev is_reverse : Command → Bool
is_reverse reverse = true
is_reverse _ = false

-- The user, the header, the addons and what is left of the input.
unfoldable pub decode_request_header_shared :
    ℕ → Validator → Bytes → Result HeaderError (User × RequestHeader × Addons × Bytes)
decode_request_header_shared fuel validator r = do
  (v, r) ← ok_or (read_u8 r) io
  guard (v == version) (bad_version v)
  (raw_id, r) ← ok_or (read_exact 16 r) io
  user ← ok_or (get_shared validator raw_id) auth_failed
  (addons_len, r) ← ok_or (read_u8 r) io
  (addons, r) ← read_addons fuel addons_len r
  (cmd_byte, r) ← ok_or (read_u8 r) io
  command ← ok_or (from_byte cmd_byte) (bad_command cmd_byte)
  guard (not (is_reverse command)) reverse_unsupported
  (address, port, r) ← read_target command r
  ok (
    user,
    record { version = v; raw_id = raw_id; command = command; address = address; port = port },
    addons,
    r,
  )

unfoldable pub encode_response_header : ℕ → Addons → Result HeaderError Bytes
encode_response_header v addons = do
  bytes ← map_err addons_error (encode_addons addons)
  ok (v ∷ bytes)
