-- ===== src/Vless/Addons/Varint.antt =====
-- src/vless/addons.rs: what `write_varint` pushes, in plain arithmetic, and that `read_varint` reads
-- it back.
use rust_xhttp.Common.{
  ℕ, zero, suc, ◌+◌, ◌*◌, ◌/◌, ◌%◌, ◌^◌, ◌≤◌, ◌<◌, ◌≡◌, refl, ap, ◌∙◌, [], ◌∷◌, ◌++◌, some, Bytes,
  if◌then◌else◌, length, ltb, ltb→lt, Bool-cases, inl, inr, arith, IsU64, IsByte, All,
}
use rust_xhttp.Common.Bits.{low_mask, bit_and-128, bit_or-128, bit_or-shifted}
use rust_xhttp.Vless.Addons.{read_varint_loop, read_varint, write_varint_loop, write_varint}
use rust_xhttp.Common.Order.{lt_wf}
use Prim.Native.Nat.{bit_and, bit_or}
use mathlib.Core.WellFounded.{Acc}
use native.Mathlib.Nat.{div-add-mod, pow-suc}
use native.Mathlib.Numerals.{towards_suc}

-- Seven bits to a byte, lowest first, the top bit set on all but the last; at most `suc k` bytes.
unfoldable pub groups : ℕ → ℕ → Bytes
groups zero v = v ∷ []
groups (suc k) v =
    let rest = groups k (v / 128) in if ltb v 128 then v ∷ [] else (v % 128 + 128) ∷ rest

write_varint_loop-groups :
    (k v : ℕ) (w : Acc ◌<◌ v) → v < 128 ^ suc k → write_varint_loop v w ≡ groups k v
unfolding write_varint_loop groups
write_varint_loop-groups zero v (Acc.intro _ smaller) h = ground (arith, low_mask v)
write_varint_loop-groups (suc k) v (Acc.intro _ smaller) h = grind (
  arith,
  low_mask v,
  bit_or-128 (v % 128),
  λ (w : Acc ◌<◌ (v / 128)). write_varint_loop-groups k (v / 128) w (omega arith),
)

pub write_varint-groups : (v : ℕ) → IsU64 v → write_varint v ≡ groups 9 v
unfolding write_varint
write_varint-groups v h = write_varint_loop-groups 9 v (lt_wf.apply v) (omega arith)

groups-IsByte : (k v : ℕ) → v < 128 ^ suc k → All IsByte (groups k v)
unfolding groups
groups-IsByte zero v h = omega arith
groups-IsByte (suc k) v h = ground (arith, groups-IsByte k (v / 128) (omega arith))

pub length-groups : (k v : ℕ) → (1 ≤ length (groups k v)) × (length (groups k v) ≤ k + 1)
unfolding groups
length-groups zero v = omega arith
length-groups (suc k) v = ground (arith, length-groups k (v / 128))

-- The round of `read_varint` on a byte of seven bits, and on one with the top bit set.
last_byte :
    (w result shift i : ℕ) (rest : Bytes)
    → w < 128
    → shift < 64
    → result < 2 ^ shift
    → IsU64 (result + w * 2 ^ shift)
    → read_varint_loop (w ∷ rest) result shift i ≡ some (result + w * 2 ^ shift, i + 1)
unfolding read_varint_loop
last_byte w result shift i rest hw hs hr fits =
    ground (arith, low_mask w, bit_and-128 w, bit_or-shifted shift result w hr)

inner_byte :
    (g result shift i : ℕ) (rest : Bytes)
    → g < 128
    → shift < 64
    → result < 2 ^ shift
    → IsU64 (result + g * 2 ^ shift)
    → read_varint_loop ((g + 128) ∷ rest) result shift i
      ≡ read_varint_loop rest (result + g * 2 ^ shift) (shift + 7) (i + 1)
unfolding read_varint_loop
inner_byte g result shift i rest hg hs hr fits =
    ground (arith, low_mask (g + 128), bit_and-128 (g + 128), bit_or-shifted shift result g hr)

pow-shift : (s : ℕ) → 2 ^ (s + 7) ≡ 128 * 2 ^ s
pow-shift s = simp towards_suc (omega arith)

-- The lowest group of `w` and the others, both shifted.
cut_group : (w s : ℕ) → w * 2 ^ s ≡ w % 128 * 2 ^ s + w / 128 * 2 ^ (s + 7)
cut_group w s = omega (
  arith,
  ap (λ (t : ℕ). t * 2 ^ s) (div-add-mod w 128),
  ap (λ (t : ℕ). w / 128 * t) (pow-shift s),
)

group_fits : (w s result : ℕ) → result < 2 ^ s → result + w % 128 * 2 ^ s < 2 ^ (s + 7)
group_fits w s result h = let top : w % 128 ≤ 127 = omega arith in rw pow-shift (grind arith)

-- `w` is what is still to be read, from bit `shift` on.
read_varint_loop-groups :
    (k w result shift i : ℕ) (rest : Bytes)
    → w < 128 ^ suc k
    → shift + 7 * k < 64
    → result < 2 ^ shift
    → IsU64 (result + w * 2 ^ shift)
    → read_varint_loop (groups k w ++ rest) result shift i
      ≡ some (result + w * 2 ^ shift, i + length (groups k w))
unfolding groups
read_varint_loop-groups zero w result shift i rest hw hs hr fits =
    last_byte w result shift i rest hw (omega arith) hr fits
read_varint_loop-groups (suc k) w result shift i rest hw hs hr fits =
    elim (Bool-cases (ltb w 128)) [
      | inl small ↦
          rw small (last_byte w result shift i rest (ltb→lt w 128 small) (omega arith) hr fits)
      | inr big ↦ rw big (
          inner_byte (w % 128) result shift i (groups k (w / 128) ++ rest) (omega arith)
            (omega arith) hr (omega (arith, cut_group w shift))
          ∙ read_varint_loop-groups k (w / 128) (result + w % 128 * 2 ^ shift) (shift + 7) (i + 1)
              rest (omega arith) (omega arith) (group_fits w shift result hr)
              (omega (arith, cut_group w shift))
          ∙ ground (arith, cut_group w shift))
    ]

-- `read_varint` reads back a 64-bit number that `write_varint` wrote, takes exactly the bytes
-- written, and does not look at what follows them.
pub read_varint-write_varint :
    (v : ℕ) (rest : Bytes)
    → IsU64 v
    → read_varint (write_varint v ++ rest) ≡ some (v, length (write_varint v))
unfolding read_varint
read_varint-write_varint v rest h =
    rw (write_varint-groups v h) (ground (arith, read_varint_loop-groups 9 v 0 0 0 rest))

pow_pos : (k : ℕ) → 1 ≤ 128 ^ k
pow_pos zero = omega arith
pow_pos (suc k) = omega (arith, pow-suc 128 k, pow_pos k)

-- A number that needs the top group takes all the bytes.
length-groups_top : (k v : ℕ) → 128 ^ k ≤ v → length (groups k v) ≡ suc k
unfolding groups
length-groups_top zero v h = refl
length-groups_top (suc k) v h =
    let up : 128 ^ suc k ≡ 128 ^ k * 128 = pow-suc 128 k in
    let large : 128 ^ k ≤ v / 128 = omega arith in
    let one : 1 ≤ 128 ^ k = pow_pos k in ground (arith, length-groups_top k (v / 128))

pub length-write_varint_top : (v : ℕ) → 2 ^ 63 ≤ v → IsU64 v → length (write_varint v) ≡ 10
length-write_varint_top v lo hi = rw (write_varint-groups v hi) (length-groups_top 9 v lo)

read_varint_loop_takes :
    (b : Bytes) (result shift i v adv : ℕ)
    → read_varint_loop b result shift i ≡ some (v, adv)
    → (i < adv) × (adv ≤ i + length b)
unfolding read_varint_loop
read_varint_loop_takes [] result shift i v adv e = cc
read_varint_loop_takes (byte ∷ rest) result shift i v adv e = ground (
  arith,
  read_varint_loop_takes rest (bit_or result (bit_and byte 0x7f * 2 ^ shift % 2 ^ 64)) (shift + 7)
      (i + 1) v adv,
)

-- A varint that is read takes at least one byte, and no more than there are.
pub read_varint_takes :
    (b : Bytes) (v adv : ℕ) → read_varint b ≡ some (v, adv) → (0 < adv) × (adv ≤ length b)
unfolding read_varint
read_varint_takes b v adv e = omega (arith, read_varint_loop_takes b 0 0 0 v adv e)
