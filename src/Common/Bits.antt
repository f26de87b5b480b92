-- ===== src/Common/Bits.antt =====
-- The bit operations at variables: joining a low part and a shifted part, and masks on a byte.
use Prim.Native.Nat.{
  ℕ, zero, min, bit_and-bitwise, suc, ◌+◌, ◌*◌, ◌/◌, ◌%◌, ◌^◌, ◌≤◌, ◌<◌, max, bit_and, bit_or,
  digits, bitwise, bit_or-bitwise, ◌-◌, bit_xor, bit_xor-bitwise, differ,
}
use mathlib.Core.Path.{◌≡◌, refl, ◌∙◌, ap, sym}
use mathlib.Core.Bool.{Bool, true, ◌&&◌}
use native.Mathlib.Omega.{arith}
use native.Mathlib.Nat.{pow-suc}
use rust_xhttp.Common.Tests.{◌==◌, ==_iff}

-- A test at every number below a bound, by evaluation.
pub below : ℕ → (ℕ → Bool) → Bool
below zero p = true
below (suc n) p = p n && below n p

pub below_at : (n : ℕ) (p : ℕ → Bool) (x : ℕ) → below n p ≡ true → x < n → p x ≡ true
unfolding below
below_at zero p x h lt = absurd (omega arith)
below_at (suc n) p x h lt = ground (arith, below_at n p x)

flag_table : below 256 (λ b. bit_and b 0x80 == b / 128 * 128) ≡ true
unfolding below
flag_table = refl

pub bit_and-128 : (b : ℕ) → b < 256 → bit_and b 0x80 ≡ b / 128 * 128
bit_and-128 b h = (==_iff _ _).0 (below_at 256 _ b flag_table h)

raise_table : below 128 (λ b. bit_or b 0x80 == b + 128) ≡ true
unfolding below
raise_table = refl

pub bit_or-128 : (b : ℕ) → b < 128 → bit_or b 0x80 ≡ b + 128
bit_or-128 b h = (==_iff _ _).0 (below_at 128 _ b raise_table h)

-- Any number of rounds from the first number on does what the operation does, so that the operation
-- splits off the lowest digit.
module _ (end_with : ℕ → ℕ) (join : ℕ → ℕ → ℕ) where
  abbrev rounds : ℕ → ℕ → ℕ → ℕ
  rounds = digits end_with join

  rounds_enough : (a b n m : ℕ) → a ≤ n → a ≤ m → rounds n a b ≡ rounds m a b
  rounds_enough zero b zero zero hn hm = refl
  rounds_enough zero b zero (suc m) hn hm = refl
  rounds_enough zero b (suc n) zero hn hm = refl
  rounds_enough zero b (suc n) (suc m) hn hm = refl
  rounds_enough (suc a) b zero m hn hm = absurd (omega arith)
  rounds_enough (suc a) b (suc n) zero hn hm = absurd (omega arith)
  rounds_enough (suc a) b (suc n) (suc m) hn hm =
      ap (λ (k : ℕ). k * 2 + join (suc a % 2) (b % 2))
        (rounds_enough (suc a / 2) (b / 2) n m (omega arith) (omega arith))

  lowest_digit :
      (a b : ℕ)
      → bitwise end_with join (suc a) b
        ≡ bitwise end_with join (suc a / 2) (b / 2) * 2 + join (suc a % 2) (b % 2)
  lowest_digit a b =
      ap (λ (k : ℕ). k * 2 + join (suc a % 2) (b % 2))
        (rounds_enough (suc a / 2) (b / 2) a (suc a / 2) (omega arith) (omega arith))

none-bit_or : (b : ℕ) → bit_or 0 b ≡ b
none-bit_or = bit_or-bitwise 0

none-bit_and : (b : ℕ) → bit_and 0 b ≡ 0
none-bit_and = bit_and-bitwise 0

bit_or_step : (a b : ℕ) → bit_or a b ≡ bit_or (a / 2) (b / 2) * 2 + max (a % 2) (b % 2)
bit_or_step zero b = omega (arith, none-bit_or b, none-bit_or (b / 2))
bit_or_step (suc a) b =
    bit_or-bitwise (suc a) b
    ∙ lowest_digit (λ b. b) max a b
    ∙ ap (λ (k : ℕ). k * 2 + max (suc a % 2) (b % 2)) (sym (bit_or-bitwise (suc a / 2) (b / 2)))

bit_and_step : (a b : ℕ) → bit_and a b ≡ bit_and (a / 2) (b / 2) * 2 + min (a % 2) (b % 2)
bit_and_step zero b = omega (arith, none-bit_and b, none-bit_and (b / 2))
bit_and_step (suc a) b =
    bit_and-bitwise (suc a) b
    ∙ lowest_digit (λ b. zero) min a b
    ∙ ap (λ (k : ℕ). k * 2 + min (suc a % 2) (b % 2)) (sym (bit_and-bitwise (suc a / 2) (b / 2)))

-- `a | (b << k)` is a sum where `a` fits below the shift.
pub bit_or-shifted : (k a b : ℕ) → a < 2 ^ k → bit_or a (b * 2 ^ k) ≡ a + b * 2 ^ k
bit_or-shifted zero a b h =
    let low : a ≡ 0 = omega arith in
    let unshifted : b * 2 ^ 0 ≡ b = omega arith in
    rw (low, unshifted) (omega (arith, none-bit_or b))
bit_or-shifted (suc k) a b h =
    let half : b * 2 ^ suc k / 2 ≡ b * 2 ^ k = rw pow-suc (omega arith) in
    let even : b * 2 ^ suc k % 2 ≡ 0 = rw pow-suc (omega arith) in
    let small : a / 2 < 2 ^ k = omega (arith, pow-suc 2 k) in
    bit_or_step a (b * 2 ^ suc k)
    ∙ rw (half, even, bit_or-shifted k (a / 2) b small, pow-suc) (omega arith)

and_nothing : (a n : ℕ) → a ≤ n → bit_and a 0 ≡ 0
and_nothing zero n h = refl
and_nothing (suc a) zero h = absurd (omega arith)
and_nothing (suc a) (suc n) h =
    omega (arith, bit_and_step (suc a) 0, and_nothing (suc a / 2) n (omega arith))

pub bit_and-1 : (a : ℕ) → bit_and a 1 ≡ a % 2
bit_and-1 a = omega (arith, bit_and_step a 1, and_nothing (a / 2) (a / 2))

pub bit_and-7 : (a : ℕ) → bit_and a 7 ≡ a % 8
bit_and-7 a = omega (arith, bit_and_step a 7, bit_and_step (a / 2) 3, bit_and-1 (a / 2 / 2))

pub low_mask : (a : ℕ) → bit_and a 0x7f ≡ a % 128
low_mask a = omega (
  arith,
  bit_and_step a 127,
  bit_and_step (a / 2) 63,
  bit_and_step (a / 2 / 2) 31,
  bit_and_step (a / 2 / 2 / 2) 15,
  bit_and-7 (a / 2 / 2 / 2 / 2),
)

differ_lem : (a b : ℕ) → differ a b ≡ (a - b) + (b - a)
differ_lem zero b = omega arith
differ_lem (suc a) zero = omega arith
differ_lem (suc a) (suc b) = omega (arith, differ_lem a b)

none-bit_xor : (b : ℕ) → bit_xor 0 b ≡ b
none-bit_xor = bit_xor-bitwise 0

bit_xor_step :
    (a b : ℕ) → bit_xor a b ≡ bit_xor (a / 2) (b / 2) * 2 + ((a % 2 - b % 2) + (b % 2 - a % 2))
bit_xor_step zero b = omega (arith, none-bit_xor b, none-bit_xor (b / 2))
bit_xor_step (suc a) b =
    let digit = differ_lem (suc a % 2) (b % 2) in
    bit_xor-bitwise (suc a) b
    ∙ lowest_digit (λ b. b) differ a b
    ∙ ap (λ (k : ℕ). k * 2 + differ (suc a % 2) (b % 2)) (sym (bit_xor-bitwise (suc a / 2) (b / 2)))
    ∙ ap (λ (d : ℕ). bit_xor (suc a / 2) (b / 2) * 2 + d) digit

bit_xor_cancel_upto : (n a x y : ℕ) → a ≤ n → bit_xor a x ≡ bit_xor a y → x ≡ y
bit_xor_cancel_upto n zero x y h e = omega (arith, none-bit_xor x, none-bit_xor y)
bit_xor_cancel_upto zero (suc a) x y h e = absurd (omega arith)
bit_xor_cancel_upto (suc n) (suc a) x y h e =
    let halves = bit_xor_cancel_upto n (suc a / 2) (x / 2) (y / 2) (omega arith) in
    let high : bit_xor (suc a / 2) (x / 2) ≡ bit_xor (suc a / 2) (y / 2) =
      omega (arith, bit_xor_step (suc a) x, bit_xor_step (suc a) y) in
    omega (arith, bit_xor_step (suc a) x, bit_xor_step (suc a) y, halves high)

-- Exclusive or with the same number takes different numbers to different numbers.
pub bit_xor_cancel : (a x y : ℕ) → bit_xor a x ≡ bit_xor a y → x ≡ y
bit_xor_cancel a x y = bit_xor_cancel_upto a a x y (omega arith)
