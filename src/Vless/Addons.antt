-- ===== src/Vless/Addons.antt =====
-- src/vless/addons.rs: the protobuf message of the header addons. The arithmetic on `usize` wraps,
-- as in the release profile of Cargo.toml, and a slice whose ends are out of order panics.
pub mod Varint
mod Loop
pub mod RoundTrip
pub mod Termination
use rust_xhttp.Common.{
  ℕ, zero, suc, ◌+◌, ◌*◌, ◌/◌, ◌%◌, ◌^◌, ◌<◌, ◌≡◌, Bool, true, List, [], ◌∷◌, ◌++◌, Option, none,
  some, Bytes, bytes_eq, if◌then◌else◌, length, take, drop, get_or, ltb, ◌==◌, ◌&&◌, ◌||◌, not,
  Result, ok, err, as_u8, arith,
}
use rust_xhttp.Common.Utf8.{is_utf8}
use rust_xhttp.Common.Order.{lt_wf}
use Prim.Native.Nat.{bit_and, bit_or}
use mathlib.Core.Logic.{dite}
use mathlib.Core.WellFounded.{Acc}
use native.Mathlib.Decide.{dec_lt}

-- "xtls-rprx-vision"
abbrev pub xrv : Bytes
xrv =
    b'x' ∷ b't' ∷ b'l' ∷ b's' ∷ b'-' ∷ b'r' ∷ b'p' ∷ b'r' ∷ b'x' ∷ b'-' ∷ b'v' ∷ b'i' ∷ b's' ∷ b'i'
    ∷ b'o' ∷ b'n' ∷ []

pub record Addons : Type 0 where
  pub flow : Bytes
  pub seed : Bytes

abbrev pub default : Addons
default = record { flow = []; seed = [] }

pub data AddonsError : Type 0 where
  truncated : AddonsError
  too_long : ℕ → AddonsError
  bad_wire : AddonsError
  bad_utf8 : AddonsError

-- `result` and `shift` are the loop's variables and `i` its index; the list is what is left.
pub read_varint_loop : Bytes → ℕ → ℕ → ℕ → Option (ℕ × ℕ)
read_varint_loop [] result shift i = none
read_varint_loop (byte ∷ rest) result shift i =
    let result' = bit_or result (bit_and byte 0x7f * 2 ^ shift % 2 ^ 64) in
    let more = read_varint_loop rest result' (shift + 7) (i + 1) in
    if not (ltb shift 64)
    then none
    else if bit_and byte 0x80 == 0
    then some (result', i + 1)
    else more

unfoldable pub read_varint : Bytes → Option (ℕ × ℕ)
unfolding read_varint_loop
read_varint b = read_varint_loop b 0 0 0

pub shifted_lt : (v : ℕ) → 0 < v / 128 → v / 128 < v
shifted_lt v h = omega arith

-- The loop of `write_varint`, as long as what is left of `v` is not 0.
pub write_varint_loop : (v : ℕ) → Acc ◌<◌ v → Bytes
write_varint_loop v (Acc.intro _ smaller) =
    let b = as_u8 (bit_and v 0x7f) in
    dite (dec_lt 0 (v / 2 ^ 7))
      (λ more. bit_or b 0x80 ∷ write_varint_loop (v / 2 ^ 7) (smaller _ (shifted_lt v more)))
      (λ _. b ∷ [])

-- The bytes that `write_varint` pushes.
unfoldable pub write_varint : ℕ → Bytes
unfolding write_varint_loop lt_wf dec_lt
write_varint v = write_varint_loop v (lt_wf.apply v)

-- How the decoder ends: it returns, it panics at a slice, or the fuel of the model ran out while
-- its loop was still running.
pub data Outcome : Type 0 where
  returns : Result AddonsError Addons → Outcome
  panics : Outcome
  unfinished : Outcome

-- One round of the loop: the next index and the addons so far, or the end.
pub data Round : Type 0 where
  next : ℕ → Addons → Round
  stop : Outcome → Round

-- `usize` addition in the release profile
abbrev pub wrapping_add : ℕ → ℕ → ℕ
wrapping_add a b = (a + b) % 2 ^ 64

store_field : ℕ → Bytes → ℕ → Addons → Round
store_field field slice i addons =
    if not (field == 1)
    then next i (record addons { seed = slice })
    else if is_utf8 slice
    then next i (record addons { flow = slice })
    else stop (returns (err bad_utf8))

-- `(1, 2) | (2, 2)`; `i` is behind the tag, and the first argument is what `read_varint` gives there.
take_field : Option (ℕ × ℕ) → ℕ → Bytes → ℕ → Addons → Round
take_field none field body i addons = stop (returns (err bad_wire))
take_field (some (len, adv)) field body i addons =
    let i' = wrapping_add i adv in
    let end = wrapping_add i' len in
    if ltb (length body) end
    then stop (returns (err truncated))
    else if ltb end i'
    then stop panics
    else store_field field (take len (drop i' body)) end addons

-- `(_, 0)`
skip_varint : Option (ℕ × ℕ) → ℕ → Addons → Round
skip_varint none i addons = stop (returns (err bad_wire))
skip_varint (some (_, adv)) i addons = next (wrapping_add i adv) addons

-- `(_, 2)`
skip_bytes : Option (ℕ × ℕ) → ℕ → Addons → Round
skip_bytes none i addons = stop (returns (err bad_wire))
skip_bytes (some (len, adv)) i addons = next (wrapping_add i (wrapping_add adv len)) addons

-- The `match` on the field and the wire type; `i` is behind the tag.
unfoldable pub dispatch : ℕ → Option (ℕ × ℕ) → Bytes → ℕ → Addons → Round
unfolding take_field store_field skip_varint skip_bytes
dispatch tag varint body i addons =
    let field = tag / 2 ^ 3 in
    let wire = bit_and tag 0x7 in
    if (field == 1 || field == 2) && wire == 2
    then take_field varint field body i addons
    else if wire == 0
    then skip_varint varint i addons
    else if wire == 2
    then skip_bytes varint i addons
    else stop (returns (err bad_wire))

unfoldable pub decode_round : Bytes → ℕ → Addons → Round
decode_round body i addons =
    dispatch (get_or body i 0) (read_varint (drop (i + 1) body)) body (i + 1) addons

unfoldable pub decode_loop : ℕ → Bytes → ℕ → Addons → Outcome
decode_loop zero body i addons = unfinished
decode_loop (suc fuel) body i addons =
    let go = elim (decode_round body i addons) as (λ _. Outcome) [
      | next i' addons' ↦ decode_loop fuel body i' addons'
      | stop o ↦ o
    ] in
    if ltb i (length body) then go else returns (ok addons)

-- `decode_addons_body` with as many rounds as the fuel allows.
unfoldable pub decode_addons_body : ℕ → Bytes → Outcome
decode_addons_body fuel body = decode_loop fuel body 0 default

seed_field : Bytes → Bytes
seed_field [] = []
seed_field (s ∷ seed) = 0x12 ∷ (write_varint (length (s ∷ seed)) ++ (s ∷ seed))

-- The message that `encode_addons` builds for the Vision flow.
pub message : Addons → Bytes
unfolding seed_field
message addons =
    0x0a ∷ (write_varint (length addons.flow) ++ (addons.flow ++ seed_field addons.seed))

unfoldable pub encode_addons : Addons → Result AddonsError Bytes
unfolding message
encode_addons addons =
    if not (bytes_eq addons.flow xrv)
    then ok (0 ∷ [])
    else let body = message addons in
      if ltb 255 (length body)
      then err (too_long (length body))
      else ok (as_u8 (length body) ∷ body)
