-- ===== src/Examples/Vless.antt =====
-- Runs of src/vless/.
use rust_xhttp.Common.{
  zero, suc, ◌≡◌, ◌<◌, ◌^◌, ◌-◌, refl, [], ◌∷◌, ◌++◌, none, some, Bytes, arith, inl, Result, ok,
  replicate, length,
}
use rust_xhttp.Vless.Address.{Address, ipv4, parse_port_then_address, write_port_then_address}
use rust_xhttp.Vless.Address.RoundTrip.{parse-write, Parsed, parse-Parsed}
use rust_xhttp.Vless.Addons.{
  Addons, AddonsError, default, xrv, returns, panics, unfinished, read_varint, write_varint,
  decode_addons_body, decode_loop, decode_round, dispatch, encode_addons, message,
}
use rust_xhttp.Vless.Addons.RoundTrip.{decode-encode}
use rust_xhttp.Vless.Addons.Termination.{
  decode_never_returns, decode_panics, decode_total, turning_length, HasSmallVarints,
}
use rust_xhttp.Vless.Header.{decode_request_header_shared, read_address_port}
use rust_xhttp.Vless.Header.Agreement.{read_address_port-parse, as_stream}
use rust_xhttp.Vless.Header.Layout.{
  tcp_to, request_bytes, destination_bytes, header_of, decode-request_bytes, decode-no_addons,
  decode-Authentic, Authentic,
}
use rust_xhttp.Vless.Validator.{User, new, get_shared, process_uuid}

abbrev local_host : Address
local_host = ipv4 127 0 0 1

parse-write_example :
    parse_port_then_address (write_port_then_address [] 443 local_host ++ 9 ∷ [])
    ≡ ok (443, local_host, length (write_port_then_address [] 443 local_host))
parse-write_example = parse-write 443 local_host (9 ∷ []) (omega arith) (omega arith)

abbrev wire : Bytes
wire = 1 ∷ 187 ∷ 1 ∷ 127 ∷ 0 ∷ 0 ∷ 1 ∷ 9 ∷ []

parse_wire : parse_port_then_address wire ≡ ok (443, local_host, 7)
unfolding parse_port_then_address
parse_wire = refl

parse-Parsed_example : Parsed wire 443 local_host 7
parse-Parsed_example = parse-Parsed wire 443 local_host 7 (omega arith) parse_wire

read_address_port-parse_example :
    read_address_port wire ≡ as_stream wire (parse_port_then_address wire)
read_address_port-parse_example = read_address_port-parse wire

abbrev vision : Addons
vision = record { flow = xrv; seed = 1 ∷ 2 ∷ [] }

decode-encode_example :
    (body : Bytes) × (0x16 ∷ message vision ≡ length body ∷ body)
    × (length body < 256)
    × (decode_addons_body 3 body ≡ returns (ok vision))
unfolding encode_addons write_varint
decode-encode_example = decode-encode 0 (1 ∷ 2 ∷ []) (0x16 ∷ message vision) refl

decode_never_returns_example :
    decode_addons_body 1000 (0x1a ∷ (write_varint turning_length ++ [])) ≡ unfinished
decode_never_returns_example = decode_never_returns 1000 0x1a [] (omega arith) (omega arith)

decode_panics_example : decode_addons_body 1 (0x0a ∷ (write_varint (2 ^ 64 - 1) ++ 7 ∷ [])) ≡ panics
decode_panics_example =
    decode_panics 0 0x0a (2 ^ 64 - 1) (7 ∷ []) (inl refl) (omega arith) (omega arith)

-- An unknown varint field, and its value.
abbrev small_body : Bytes
small_body = 0x18 ∷ 5 ∷ []

small_body-HasSmallVarints : HasSmallVarints small_body
unfolding read_varint
small_body-HasSmallVarints zero v adv e = ground arith
small_body-HasSmallVarints (suc zero) v adv e = ground arith
small_body-HasSmallVarints (suc (suc zero)) v adv e = cc
small_body-HasSmallVarints (suc (suc (suc j))) v adv e = cc

decode_total_example :
    (r : Result AddonsError Addons) × (decode_addons_body 3 small_body ≡ returns r)
decode_total_example = decode_total small_body small_body-HasSmallVarints (omega arith)

abbrev alice : User
alice = record { id = replicate 16 7; email = b'a' ∷ []; flow = [] }

abbrev stranger : Bytes
stranger = replicate 16 8

abbrev stored_alice : User
stored_alice = record alice { id = process_uuid (replicate 16 7) }

knows_alice : get_shared (new (alice ∷ [])) (replicate 16 7) ≡ some stored_alice
unfolding get_shared new
knows_alice = refl

knows_no_stranger : get_shared (new (alice ∷ [])) stranger ≡ none
unfolding get_shared new
knows_no_stranger = refl

small_body_decodes : decode_addons_body 3 small_body ≡ returns (ok default)
unfolding decode_addons_body decode_loop decode_round dispatch read_varint
small_body_decodes = refl

decode-request_bytes_example :
    decode_request_header_shared 3
      (new (alice ∷ []))
      (request_bytes (replicate 16 7) small_body (tcp_to 443 local_host) ++ 9 ∷ [])
    ≡ ok (stored_alice, header_of (replicate 16 7) (tcp_to 443 local_host), default, 9 ∷ [])
decode-request_bytes_example =
    decode-request_bytes 3 (new (alice ∷ [])) (replicate 16 7) small_body (9 ∷ [])
      (tcp_to 443 local_host) stored_alice default refl knows_alice (omega arith) small_body_decodes
      (omega arith)

plain_request_decodes :
    decode_request_header_shared 1
      (new (alice ∷ []))
      (0 ∷ (replicate 16 7 ++ (0 ∷ (destination_bytes (tcp_to 443 local_host) ++ 9 ∷ []))))
    ≡ ok (stored_alice, header_of (replicate 16 7) (tcp_to 443 local_host), default, 9 ∷ [])
plain_request_decodes =
    decode-no_addons 1 (new (alice ∷ [])) (replicate 16 7) (9 ∷ []) (tcp_to 443 local_host)
      stored_alice refl knows_alice (omega arith)

decode-Authentic_example :
    Authentic (new (alice ∷ [])) stored_alice (header_of (replicate 16 7) (tcp_to 443 local_host))
decode-Authentic_example =
    decode-Authentic 1 (new (alice ∷ [])) _ stored_alice
      (header_of (replicate 16 7) (tcp_to 443 local_host)) default (9 ∷ []) plain_request_decodes
