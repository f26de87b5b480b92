-- ===== src/Vless/Encryption/Record/Nonce.antt =====
-- src/vless/encryption/record.rs: the counter of the records.
use rust_xhttp.Common.{
  ℕ, ◌+◌, ◌*◌, ◌^◌, ◌<◌, ◌≡◌, refl, false, [], ◌∷◌, Bytes, if◌then◌else◌, ◌==◌, length, All, IsByte,
  as_u8, arith, Bool-cases, inl, inr, subst, sym,
}
use native.Mathlib.Nat.{pow-suc}
use rust_xhttp.Vless.Encryption.Record.{increment, increment_nonce}

-- The number that the bytes stand for, the first byte first.
abbrev pub value : Bytes → ℕ
value [] = 0
value (b ∷ bytes) = b * 256 ^ length bytes + value bytes

-- One byte that takes the carry, in front of bytes that count up to `top`.
carried :
    (b top v v' : ℕ)
    → b < 256
    → v' + top ≡ v + 1
    → as_u8 (b + 1) * top + v' + (if as_u8 (b + 1) == 0 then top * 256 else 0) ≡ b * top + v + 1
carried b top v v' byte h = elim (Bool-cases (b == 255)) [
  | inl last ↦
      let full : b ≡ 255 = ground arith in
      subst
        (λ k.
          as_u8 (k + 1) * top + v' + (if as_u8 (k + 1) == 0 then top * 256 else 0)
          ≡ k * top + v + 1)
        (sym full) (omega arith)
  | inr lower ↦
      let next : as_u8 (b + 1) ≡ b + 1 = ground arith in
      let some_left : (b + 1 == 0) ≡ false = ground arith in rw (next, some_left) (omega arith)
]

-- The carry is there exactly where the number was the largest of its length.
increment-value :
    (bytes : Bytes)
    → All IsByte bytes
    → (length (increment bytes).0 ≡ length bytes)
      × (value (increment bytes).0 + (if (increment bytes).1 then 256 ^ length bytes else 0)
          ≡ value bytes + 1)
unfolding increment
increment-value [] h = (refl, refl)
increment-value (b ∷ bytes) h =
    let (len, sum) = increment-value bytes h.1 in
    elim (Bool-cases (increment bytes).1) [
      | inl carry ↦
          rw (carry, len, pow-suc)
            (
              refl,
              carried b (256 ^ length bytes) (value bytes) (value (increment bytes).0) h.0
                  (ground (arith, sum, carry)),
            )
      | inr stays ↦ rw (stays, len) (refl, ground (arith, sum, stays))
    ]

-- Below the largest number of its length, a nonce of bytes is counted up by one and keeps its length.
pub value-increment_nonce :
    (nonce : Bytes)
    → All IsByte nonce
    → value nonce + 1 < 256 ^ length nonce
    → (value (increment_nonce nonce) ≡ value nonce + 1)
      × (length (increment_nonce nonce) ≡ length nonce)
unfolding increment_nonce
value-increment_nonce nonce h lt =
    let (len, sum) = increment-value nonce h in
    elim (Bool-cases (increment nonce).1) [
      | inl carry ↦ absurd (ground (arith, sum, carry))
      | inr stays ↦ (ground (arith, sum, stays), len)
    ]
