-- ===== src/Common/Utf8.antt =====
-- Rust's standard library on byte strings: the UTF-8 test of `str::from_utf8`, and reading from an
-- `AsyncRead` whose remaining input is a list (`read_exact`, `read_u8`, `read_u16`).
use rust_xhttp.Common.Tests.{ltb, leb, ◌==◌, if◌then◌else◌}
use rust_xhttp.Common.Lists.{length, take, drop, length-append, take-append, drop-append}
use rust_xhttp.Common.Words.{Bytes, u16_of, u16_be, IsU16, u16_of-be}
use Prim.Native.Nat.{ℕ, zero, suc}
use mathlib.Core.Path.{◌≡◌}
use mathlib.Core.Bool.{Bool, true, false, ◌&&◌}
use mathlib.Core.Option.{Option, none, some}
use mathlib.Core.List.{[], ◌∷◌, ◌++◌}
use native.Mathlib.Omega.{arith}

-- Where a scan stands: between characters; in a character, whose next byte lies in a range and is
-- followed by some more continuation bytes; or past an error.
pub data Scan : Type 0 where
  boundary : Scan
  within : ℕ → ℕ → ℕ → Scan
  invalid : Scan

-- The first byte of a character (the table of well-formed byte sequences of the Unicode standard).
pub lead : ℕ → Scan
lead b =
    if ltb b 0x80
    then boundary
    else if ltb b 0xc2
    then invalid
    else if ltb b 0xe0
    then within 0x80 0xbf 0
    else if b == 0xe0
    then within 0xa0 0xbf 1
    else if b == 0xed
    then within 0x80 0x9f 1
    else if ltb b 0xf0
    then within 0x80 0xbf 1
    else if b == 0xf0
    then within 0x90 0xbf 2
    else if b == 0xf4
    then within 0x80 0x8f 2
    else if ltb b 0xf4
    then within 0x80 0xbf 2
    else invalid

pub scan : Scan → ℕ → Scan
unfolding lead
scan boundary b = lead b
scan (within lo hi zero) b = if leb lo b && leb b hi then boundary else invalid
scan (within lo hi (suc k)) b = if leb lo b && leb b hi then within 0x80 0xbf k else invalid
scan invalid b = invalid

abbrev at_boundary : Scan → Bool
at_boundary boundary = true
at_boundary _ = false

pub scan_all : Scan → Bytes → Bool
unfolding scan
scan_all s [] = at_boundary s
scan_all s (b ∷ bs) = scan_all (scan s b) bs

-- `str::from_utf8(bytes).is_ok()`
unfoldable pub is_utf8 : Bytes → Bool
unfolding scan_all
is_utf8 = scan_all boundary

-- `read_exact` of `n` bytes: `none` is the error `UnexpectedEof`.
abbrev pub read_exact : ℕ → Bytes → Option (Bytes × Bytes)
read_exact n input = if ltb (length input) n then none else some (take n input, drop n input)

abbrev pub read_u8 : Bytes → Option (ℕ × Bytes)
read_u8 [] = none
read_u8 (b ∷ rest) = some (b, rest)

-- big endian
abbrev pub read_u16 : Bytes → Option (ℕ × Bytes)
read_u16 (hi ∷ lo ∷ rest) = some (u16_of hi lo, rest)
read_u16 _ = none

pub read_exact-append : (xs rest : Bytes) → read_exact (length xs) (xs ++ rest) ≡ some (xs, rest)
read_exact-append xs rest =
    rw (take-append xs rest, drop-append xs rest) (ground (arith, length-append xs rest))

pub read_exact-append_eq :
    (n : ℕ) (xs rest : Bytes) → length xs ≡ n → read_exact n (xs ++ rest) ≡ some (xs, rest)
read_exact-append_eq n xs rest e = rw (← e) (read_exact-append xs rest)

pub read_u16-be : (n : ℕ) (rest : Bytes) → IsU16 n → read_u16 (u16_be n rest) ≡ some (n, rest)
read_u16-be n rest h = rw (u16_of-be n h)
