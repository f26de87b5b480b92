-- ===== src/Vless/Header/Layout.antt =====
-- src/vless/header.rs: the decoder against the layout that the head of that file gives,
-- version(1) | uuid(16) | addonsLen(1) | addons | command(1) | [port+addr].
use rust_xhttp.Common.{
  ℕ, ◌<◌, ◌≡◌, ◌≢◌, refl, ap, ◌∙◌, [], ◌∷◌, ◌++◌, none, some, Bytes, IsU16, ok, err, length,
  drop-append, arith, ◌⊎◌, append_assoc,
}
use rust_xhttp.Common.Utf8.{read_exact-append, read_exact-append_eq}
use rust_xhttp.Vless.Address.{Address, write_port_then_address, IsEncodable}
use rust_xhttp.Vless.Address.RoundTrip.{parse-write}
use rust_xhttp.Vless.Addons.{Addons, default, returns, decode_addons_body}
use rust_xhttp.Vless.Header.Agreement.{read_address_port-parse}
use rust_xhttp.Vless.Header.{
  Command, tcp, udp, mux, reverse, RequestHeader, auth_failed, read_address_port, read_addons,
  read_target, from_byte, decode_request_header_shared,
}
use rust_xhttp.Vless.Validator.{User, Validator, get_shared}

-- The command bytes of the protocol.
abbrev pub command_byte : Command → ℕ
command_byte tcp = 1
command_byte udp = 2
command_byte mux = 3
command_byte reverse = 4

-- Where the request goes: an address and a port for TCP and UDP, nothing for Mux.
pub data Destination : Type 0 where
  tcp_to : ℕ → Address → Destination
  udp_to : ℕ → Address → Destination
  mux_cool : Destination

abbrev pub IsDestination : Destination → Type 0
IsDestination (tcp_to port a) = IsU16 port × IsEncodable a
IsDestination (udp_to port a) = IsU16 port × IsEncodable a
IsDestination mux_cool = Unit {0}

abbrev pub destination_bytes : Destination → Bytes
destination_bytes (tcp_to port a) = 1 ∷ write_port_then_address [] port a
destination_bytes (udp_to port a) = 2 ∷ write_port_then_address [] port a
destination_bytes mux_cool = 3 ∷ []

-- The header that the decoder should report.
abbrev pub header_of : Bytes → Destination → RequestHeader
header_of id (tcp_to port a) = record {
  version = 0;
  raw_id = id;
  command = tcp;
  address = some a;
  port = port;
}
header_of id (udp_to port a) = record {
  version = 0;
  raw_id = id;
  command = udp;
  address = some a;
  port = port;
}
header_of id mux_cool = record { version = 0; raw_id = id; command = mux; address = none; port = 0 }

-- The bytes of a request with a nonempty addons body.
abbrev pub request_bytes : Bytes → Bytes → Destination → Bytes
request_bytes id addons to = 0 ∷ (id ++ (length addons ∷ (addons ++ destination_bytes to)))

read_address_port-write :
    (port : ℕ) (a : Address) (rest : Bytes)
    → IsU16 port
    → IsEncodable a
    → read_address_port (write_port_then_address [] port a ++ rest) ≡ ok (port, a, rest)
read_address_port-write port a rest hp ha =
    read_address_port-parse _
    ∙ rw (parse-write port a rest hp ha)
        (ap (λ r. ok (port, a, r)) (drop-append (write_port_then_address [] port a) rest))

read_addons-body :
    (fuel : ℕ) (body rest : Bytes) (addons : Addons)
    → 0 < length body
    → decode_addons_body fuel body ≡ returns (ok addons)
    → read_addons fuel (length body) (body ++ rest) ≡ ok (addons, rest)
unfolding read_addons
read_addons-body fuel [] rest addons h e = absurd (omega arith)
read_addons-body fuel (b ∷ body) rest addons h e =
    rw (read_exact-append (b ∷ body) rest, e) (ground arith)

-- A request laid out in that order is decoded to exactly its parts, and what follows it is left
-- in the stream: for a UUID of 16 bytes that the validator knows, an addons body of 1 to 255 bytes
-- that decodes within the fuel, and a destination with an encodable address.
pub decode-request_bytes :
    (fuel : ℕ) (v : Validator) (id body rest : Bytes) (to : Destination) (user : User)
    (addons : Addons)
    → length id ≡ 16
    → get_shared v id ≡ some user
    → 0 < length body
    → decode_addons_body fuel body ≡ returns (ok addons)
    → IsDestination to
    → decode_request_header_shared fuel v (request_bytes id body to ++ rest)
      ≡ ok (user, header_of id to, addons, rest)
unfolding decode_request_header_shared
decode-request_bytes fuel v id body rest (tcp_to port a) user addons h16 known nonempty decoded
      dest =
    rw
      (
        append_assoc,
        read_exact-append_eq 16 id _ h16,
        known,
        append_assoc,
        read_addons-body fuel body _ addons nonempty decoded,
      )
      (unfold from_byte read_target in rw (read_address_port-write port a rest dest.0 dest.1))
decode-request_bytes fuel v id body rest (udp_to port a) user addons h16 known nonempty decoded
      dest =
    rw
      (
        append_assoc,
        read_exact-append_eq 16 id _ h16,
        known,
        append_assoc,
        read_addons-body fuel body _ addons nonempty decoded,
      )
      (unfold from_byte read_target in rw (read_address_port-write port a rest dest.0 dest.1))
decode-request_bytes fuel v id body rest mux_cool user addons h16 known nonempty decoded dest =
    rw
      (
        append_assoc,
        read_exact-append_eq 16 id _ h16,
        known,
        append_assoc,
        read_addons-body fuel body _ addons nonempty decoded,
      )
      (unfold from_byte read_target in refl)

-- A request whose addons length is 0 is decoded to exactly its parts with the default addons, and
-- what follows it is left in the stream: for a UUID of 16 bytes that the validator knows and a
-- destination with an encodable address.
pub decode-no_addons :
    (fuel : ℕ) (v : Validator) (id rest : Bytes) (to : Destination) (user : User)
    → length id ≡ 16
    → get_shared v id ≡ some user
    → IsDestination to
    → decode_request_header_shared fuel v (0 ∷ (id ++ (0 ∷ (destination_bytes to ++ rest))))
      ≡ ok (user, header_of id to, default, rest)
unfolding decode_request_header_shared
decode-no_addons fuel v id rest (tcp_to port a) user h16 known dest =
    rw (read_exact-append_eq 16 id _ h16, known)
      (unfold from_byte read_addons read_target in
        rw (read_address_port-write port a rest dest.0 dest.1))
decode-no_addons fuel v id rest (udp_to port a) user h16 known dest =
    rw (read_exact-append_eq 16 id _ h16, known)
      (unfold from_byte read_addons read_target in
        rw (read_address_port-write port a rest dest.0 dest.1))
decode-no_addons fuel v id rest mux_cool user h16 known dest =
    rw (read_exact-append_eq 16 id _ h16, known) (unfold from_byte read_addons read_target in refl)

-- A UUID that the validator does not know is answered by the one error `auth_failed`, whatever
-- follows it in the stream.
pub decode-auth_failed :
    (fuel : ℕ) (v : Validator) (id rest : Bytes)
    → length id ≡ 16
    → get_shared v id ≡ none
    → decode_request_header_shared fuel v (0 ∷ (id ++ rest)) ≡ err auth_failed
unfolding decode_request_header_shared
decode-auth_failed fuel v id rest h16 unknown = rw (read_exact-append_eq 16 id rest h16, unknown)

-- What a decoded request is known to satisfy.
pub record Authentic (v : Validator) (user : User) (h : RequestHeader) : Type 0 where
  pub version_zero : h.version ≡ 0
  pub known : get_shared v h.raw_id ≡ some user
  pub not_reverse : h.command ≢ reverse
  pub addressed : (h.command ≡ tcp) ⊎ (h.command ≡ udp) → h.address ≢ none
  pub unaddressed : h.command ≡ mux → (h.address ≡ none) × (h.port ≡ 0)

-- Whatever the input, a request that is decoded has version 0, was sent by a user that the
-- validator knows by the UUID in it, is no Reverse request, and carries an address if it is a TCP or
-- UDP request and none if it is a Mux request.
pub decode-Authentic :
    (fuel : ℕ) (v : Validator) (r : Bytes) (user : User) (h : RequestHeader) (addons : Addons)
    (rest : Bytes)
    → decode_request_header_shared fuel v r ≡ ok (user, h, addons, rest)
    → Authentic v user h
unfolding decode_request_header_shared from_byte read_target
decode-Authentic fuel v r user h addons rest e = ground arith
