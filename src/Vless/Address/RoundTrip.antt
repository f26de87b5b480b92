-- ===== src/Vless/Address/RoundTrip.antt =====
-- The codec of src/vless/address.rs: what was written is read back, and only that is read.
use Prim.Native.Nat.{◌≤◌}
use rust_xhttp.Common.{
  ℕ, suc, ◌≡◌, subst, [], ◌∷◌, ◌++◌, Bytes, IsByte, IsU16, ◌==◌, arith, Bool-cases, inl, inr, ok,
  length, drop, All, as_u8, u16_of, u16_of-be, length-append, take-append, length-take, All-take,
  take-append-drop, drop-add,
}
use rust_xhttp.Vless.Address.{
  Address, ipv4, ipv6, domain, parse_port_then_address, parse_address, parse_ipv4, parse_ipv6,
  parse_domain, address_bytes, write_port_then_address, IsEncodable,
}

parse_address-bytes :
    (hi lo : ℕ) (addr : Address) (rest : Bytes)
    → IsEncodable addr
    → parse_port_then_address (hi ∷ lo ∷ (address_bytes addr ++ rest))
      ≡ ok (u16_of hi lo, addr, suc (suc (length (address_bytes addr))))
unfolding parse_port_then_address address_bytes
parse_address-bytes hi lo (ipv4 a b c d) rest h = ground arith
parse_address-bytes hi lo (ipv6 octets) rest h =
    ground (arith, length-append octets rest, rw h.0 at (take-append octets rest))
parse_address-bytes hi lo (domain d) rest h =
    ground (arith, length-append d rest, take-append d rest)

-- Parsing what `write_port_then_address` appended gives back the port and the address, says how
-- many bytes it took, and does not look at what follows, for a 16-bit port and an encodable address.
pub parse-write :
    (port : ℕ) (addr : Address) (rest : Bytes)
    → IsU16 port
    → IsEncodable addr
    → parse_port_then_address (write_port_then_address [] port addr ++ rest)
      ≡ ok (port, addr, length (write_port_then_address [] port addr))
unfolding write_port_then_address
parse-write port addr rest hp ha =
    rw (parse_address-bytes (as_u8 _) (as_u8 port) addr rest ha, u16_of-be port hp)

-- What a successful parse of `buf` with result `port`, `addr` and `n` promises.
pub record Parsed (buf : Bytes) (port : ℕ) (addr : Address) (n : ℕ) : Type 0 where
  pub port_fits : IsU16 port
  pub encodable : IsEncodable addr
  pub consumed : n ≡ length (write_port_then_address [] port addr)
  pub rewritten : write_port_then_address [] port addr ++ drop n buf ≡ buf

Parsed-ipv4 :
    (x y t : ℕ) (rest : Bytes) {addr : Address} {n : ℕ}
    → t ≡ 1
    → All IsByte (x ∷ y ∷ t ∷ rest)
    → parse_ipv4 (x ∷ y ∷ t ∷ rest) ≡ ok (addr, n)
    → Parsed (x ∷ y ∷ t ∷ rest) (u16_of x y) addr n
unfolding write_port_then_address parse_ipv4
Parsed-ipv4 x y t [] k h e = ground arith
Parsed-ipv4 x y t (a ∷ []) k h e = ground arith
Parsed-ipv4 x y t (a ∷ b ∷ []) k h e = ground arith
Parsed-ipv4 x y t (a ∷ b ∷ c ∷ []) k h e = ground arith
Parsed-ipv4 x y t (a ∷ b ∷ c ∷ d ∷ rest) k h e = ground arith

Parsed-ipv6 :
    (x y t : ℕ) (rest : Bytes) {addr : Address} {n : ℕ}
    → t ≡ 3
    → All IsByte (x ∷ y ∷ t ∷ rest)
    → parse_ipv6 (x ∷ y ∷ t ∷ rest) ≡ ok (addr, n)
    → Parsed (x ∷ y ∷ t ∷ rest) (u16_of x y) addr n
unfolding write_port_then_address parse_ipv6
Parsed-ipv6 x y t rest k h e =
    ground (arith, length-take 16 rest, All-take IsByte 16 rest h.1.1.1, take-append-drop 16 rest)

Parsed-domain :
    (x y t : ℕ) (rest : Bytes) {addr : Address} {n : ℕ}
    → t ≡ 2
    → All IsByte (x ∷ y ∷ t ∷ rest)
    → parse_domain (x ∷ y ∷ t ∷ rest) ≡ ok (addr, n)
    → Parsed (x ∷ y ∷ t ∷ rest) (u16_of x y) addr n
unfolding write_port_then_address parse_domain
Parsed-domain x y t [] k h e = ground arith
Parsed-domain x y t (l ∷ rest) k h e = ground (
  arith,
  length-take l rest,
  All-take IsByte l rest h.1.1.1.1,
  take-append-drop l rest,
  drop-add 4 l (x ∷ y ∷ t ∷ l ∷ rest),
)

parse_address-Parsed :
    (x y t : ℕ) (rest : Bytes) {addr : Address} {n : ℕ}
    → All IsByte (x ∷ y ∷ t ∷ rest)
    → parse_address t (x ∷ y ∷ t ∷ rest) ≡ ok (addr, n)
    → Parsed (x ∷ y ∷ t ∷ rest) (u16_of x y) addr n
unfolding parse_address
parse_address-Parsed x y t rest {addr} {n} h e = elim (Bool-cases (t == 1)) [
  | inl e4 ↦ Parsed-ipv4 x y t rest (ground arith) h (rw e4 at e)
  | inr n4 ↦ elim (Bool-cases (t == 3)) [
    | inl e6 ↦ Parsed-ipv6 x y t rest (ground arith) h (rw (n4, e6) at e)
    | inr n6 ↦ elim (Bool-cases (t == 2)) [
      | inl ed ↦ Parsed-domain x y t rest (ground arith) h (rw (n4, n6, ed) at e)
      | inr nd ↦ cc (rw (n4, n6, nd) at e)
    ]
  ]
]

split_port :
    (x y t : ℕ) (rest : Bytes) {port : ℕ} {addr : Address} {n : ℕ}
    → parse_port_then_address (x ∷ y ∷ t ∷ rest) ≡ ok (port, addr, n)
    → (u16_of x y ≡ port) × (parse_address t (x ∷ y ∷ t ∷ rest) ≡ ok (addr, n))
unfolding parse_port_then_address
split_port x y t rest e = ground arith

-- A successful parse of a byte string gives a 16-bit port and an encodable address, and writing
-- those again gives exactly the bytes that the parse says it consumed.
pub parse-Parsed :
    (buf : Bytes) (port : ℕ) (addr : Address) (n : ℕ)
    → All IsByte buf
    → parse_port_then_address buf ≡ ok (port, addr, n)
    → Parsed buf port addr n
unfolding parse_port_then_address
parse-Parsed [] port addr n h e = ground arith
parse-Parsed (x ∷ []) port addr n h e = ground arith
parse-Parsed (x ∷ y ∷ []) port addr n h e = ground arith
parse-Parsed (x ∷ y ∷ t ∷ rest) port addr n h e =
    let (p, q) = split_port x y t rest e in
    subst (λ k. Parsed (x ∷ y ∷ t ∷ rest) k addr n) p (parse_address-Parsed x y t rest h q)

-- The longest encoding is that of a domain of 255 bytes.
pub length-write_le :
    (port : ℕ) (addr : Address)
    → IsEncodable addr
    → length (write_port_then_address [] port addr) ≤ 259
unfolding write_port_then_address
length-write_le port (ipv4 a b c d) h = omega arith
length-write_le port (ipv6 octets) h = omega arith
length-write_le port (domain d) h = omega arith
