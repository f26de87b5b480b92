-- ===== src/Vless/Header/Agreement.antt =====
-- src/vless/header.rs and src/vless/address.rs read the same address format: one from a stream, one
-- from a slice.
use rust_xhttp.Common.{ℕ, ◌≡◌, refl, [], ◌∷◌, Bytes, Result, ok, err, drop, drop-add, arith}
use rust_xhttp.Vless.Address.{Address, AddrError, underrun, parse_port_then_address}
use rust_xhttp.Vless.Header.{HeaderError, io, address_error, read_address_port}

-- The stream decoder's view of the slice decoder's result: bytes that are missing are the end of
-- the stream, and the number of bytes consumed says what is left.
abbrev pub as_stream :
    Bytes → Result AddrError (ℕ × Address × ℕ) → Result HeaderError (ℕ × Address × Bytes)
as_stream r (ok (port, address, n)) = ok (port, address, drop n r)
as_stream r (err underrun) = err io
as_stream r (err e) = err (address_error e)

-- On every input the stream decoder and the slice decoder give the same port and address, leave
-- the same bytes, and refuse for the same reason.
pub read_address_port-parse :
    (r : Bytes) → read_address_port r ≡ as_stream r (parse_port_then_address r)
unfolding read_address_port parse_port_then_address
read_address_port-parse [] = refl
read_address_port-parse (x ∷ []) = refl
read_address_port-parse (x ∷ y ∷ []) = refl
read_address_port-parse (x ∷ y ∷ t ∷ []) = ground arith
read_address_port-parse (x ∷ y ∷ t ∷ a ∷ []) = ground arith
read_address_port-parse (x ∷ y ∷ t ∷ a ∷ b ∷ []) =
    ground (arith, drop-add 4 a (x ∷ y ∷ t ∷ a ∷ b ∷ []))
read_address_port-parse (x ∷ y ∷ t ∷ a ∷ b ∷ c ∷ []) =
    ground (arith, drop-add 4 a (x ∷ y ∷ t ∷ a ∷ b ∷ c ∷ []))
read_address_port-parse (x ∷ y ∷ t ∷ a ∷ b ∷ c ∷ d ∷ rest) =
    ground (arith, drop-add 4 a (x ∷ y ∷ t ∷ a ∷ b ∷ c ∷ d ∷ rest))
