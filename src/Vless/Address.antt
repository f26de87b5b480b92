-- ===== src/Vless/Address.antt =====
-- src/vless/address.rs: the port-then-address codec. A domain is the bytes of a Rust `String`.
pub mod RoundTrip
use rust_xhttp.Common.{
  ℕ, suc, ◌+◌, ◌<◌, ◌≡◌, true, Bool, List, [], ◌∷◌, ◌++◌, Bytes, IsByte, ltb, ◌==◌, if◌then◌else◌,
  Result, ok, err, ◌>>=◌, length, take, drop, get_or, All, as_u8, u16_be, u16_of,
}
use rust_xhttp.Common.Utf8.{is_utf8}

abbrev pub addr_type_ipv4 : ℕ
addr_type_ipv4 = 1

abbrev pub addr_type_domain : ℕ
addr_type_domain = 2

abbrev pub addr_type_ipv6 : ℕ
addr_type_ipv6 = 3

pub data Address : Type 0 where
  ipv4 : ℕ → ℕ → ℕ → ℕ → Address
  ipv6 : Bytes → Address
  domain : Bytes → Address

pub data AddrError : Type 0 where
  underrun : AddrError
  unknown_type : ℕ → AddrError
  empty_domain : AddrError
  bad_domain_utf8 : AddrError

-- The three arms of the `match` on the type byte; `off` is 3 there.
parse_ipv4 : Bytes → Result AddrError (Address × ℕ)
parse_ipv4 buf =
    if ltb (length buf) (3 + 4)
    then err underrun
    else ok (ipv4 (get_or buf 3 0) (get_or buf 4 0) (get_or buf 5 0) (get_or buf 6 0), 7)

parse_ipv6 : Bytes → Result AddrError (Address × ℕ)
parse_ipv6 buf =
    if ltb (length buf) (3 + 16) then err underrun else ok (ipv6 (take 16 (drop 3 buf)), 19)

parse_domain : Bytes → Result AddrError (Address × ℕ)
parse_domain buf =
    if ltb (length buf) (3 + 1)
    then err underrun
    else let dlen = get_or buf 3 0 in
      if dlen == 0
      then err empty_domain
      else if ltb (length buf) (4 + dlen)
      then err underrun
      else let d = take dlen (drop 4 buf) in
        if is_utf8 d then ok (domain d, 4 + dlen) else err bad_domain_utf8

parse_address : ℕ → Bytes → Result AddrError (Address × ℕ)
parse_address atype buf =
    if atype == addr_type_ipv4
    then parse_ipv4 buf
    else if atype == addr_type_ipv6
    then parse_ipv6 buf
    else if atype == addr_type_domain
    then parse_domain buf
    else err (unknown_type atype)

-- The port, the address and the number of bytes consumed.
unfoldable pub parse_port_then_address : Bytes → Result AddrError (ℕ × Address × ℕ)
unfolding parse_address parse_ipv4 parse_ipv6 parse_domain
parse_port_then_address buf = if ltb (length buf) 3 then err underrun else do
  (addr, off) ← parse_address (get_or buf 2 0) buf
  ok (u16_of (get_or buf 0 0) (get_or buf 1 0), addr, off)

-- What the `match` of `write_port_then_address` appends.
unfoldable pub address_bytes : Address → Bytes
address_bytes (ipv4 a b c d) = addr_type_ipv4 ∷ a ∷ b ∷ c ∷ d ∷ []
address_bytes (ipv6 octets) = addr_type_ipv6 ∷ octets
address_bytes (domain d) = addr_type_domain ∷ as_u8 (length d) ∷ d

unfoldable pub write_port_then_address : Bytes → ℕ → Address → Bytes
unfolding address_bytes
write_port_then_address out port addr = out ++ u16_be port (address_bytes addr)

-- The values of the Rust type that have an encoding: octets are bytes, an IPv6 address has sixteen
-- of them, and a domain is a nonempty UTF-8 string whose length fits its length byte.
abbrev pub IsEncodable : Address → Type 0
IsEncodable (ipv4 a b c d) = IsByte a × IsByte b × IsByte c × IsByte d
IsEncodable (ipv6 octets) = (length octets ≡ 16) × All IsByte octets
IsEncodable (domain d) = (0 < length d) × (length d < 256) × (is_utf8 d ≡ true) × All IsByte d
