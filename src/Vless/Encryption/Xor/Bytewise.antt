-- ===== src/Vless/Encryption/Xor/Bytewise.antt =====
-- src/vless/encryption/xor.rs: the loop does what a machine does that takes one byte at a time.
use rust_xhttp.Common.{
  ℕ, ◌⊎◌, zero, suc, ◌+◌, ◌-◌, ◌≤◌, ◌<◌, ◌≡◌, refl, ap, ap₂, sym, ◌∙◌, min, Bool, true, false,
  if◌then◌else◌, ◌==◌, [], ◌∷◌, ◌++◌, Bytes, length, take, drop, Result, ok, err, arith,
  length-take, length-drop, take-append-drop, length-append, append_assoc, Bool-cases, inl, inr,
}
use rust_xhttp.Vless.Encryption.Record.{RecordError, decode_header}
use rust_xhttp.Vless.Encryption.Xor.{
  HeaderXor, Applied, behind, apply_keystream, on_header, check_header, apply_header, apply_rounds,
  apply,
}

abbrev pub state : ℕ → ℕ → Bytes → Bool → HeaderXor
state used skip header decrypt = record {
  used = used;
  skip = skip;
  header = header;
  decrypt = decrypt;
}

module _ (mask : ℕ → ℕ → ℕ) where
  -- The state after some bytes of a header.
  abbrev pub header_bytes : HeaderXor → Bytes → HeaderXor
  header_bytes x part = record x {
    used = x.used + length part;
    header = x.header ++ (if x.decrypt then apply_keystream mask x.used part else part);
  }

  -- The machine.
  unfoldable pub run : ℕ → ℕ → Bytes → Bool → Bytes → Applied
  run used skip header decrypt [] = (state used skip header decrypt, [], ok tt)
  run used (suc skip) header decrypt (b ∷ bytes) =
      behind (b ∷ []) (run used skip header decrypt bytes)
  run used zero header decrypt (b ∷ bytes) = behind (mask used b ∷ []) (
      check_header mask (header_bytes (state used zero header decrypt) (b ∷ [])) bytes
        (λ x. run x.used x.skip x.header x.decrypt bytes))

  run-skips :
      (used k skip skip' : ℕ) (header : Bytes) (decrypt : Bool) (bytes : Bytes)
      → k ≤ length bytes
      → skip ≡ k + skip'
      → run used skip header decrypt bytes
        ≡ behind (take k bytes) (run used skip' header decrypt (drop k bytes))
  unfolding run
  run-skips used zero skip skip' header decrypt bytes le e =
      ap (λ n. run used n header decrypt bytes) (omega arith)
  run-skips used (suc k) zero skip' header decrypt bytes le e = absurd (omega arith)
  run-skips used (suc k) (suc skip) skip' header decrypt [] le e = absurd (omega arith)
  run-skips used (suc k) (suc skip) skip' header decrypt (b ∷ bytes) le e =
      ap (behind (b ∷ []))
        (run-skips used k skip skip' header decrypt bytes (omega arith) (omega arith))

  -- The machine from a state.
  abbrev pub run_from : HeaderXor → Bytes → Applied
  run_from x = run x.used x.skip x.header x.decrypt

  header_bytes-cons :
      (used : ℕ) (header : Bytes) (decrypt : Bool) (b : ℕ) (part : Bytes)
      → header_bytes (header_bytes (state used zero header decrypt) (b ∷ [])) part
        ≡ header_bytes (state used zero header decrypt) (b ∷ part)
  header_bytes-cons used header true b part =
      ap₂ (λ (u : ℕ) h. state u zero h true) (omega arith)
        (append_assoc header (mask used b ∷ []) (apply_keystream mask (used + 1) part))
  header_bytes-cons used header false b part =
      ap₂ (λ (u : ℕ) h. state u zero h false) (omega arith) (append_assoc header (b ∷ []) part)

  keystream-len : (i : ℕ) (bytes : Bytes) → length (apply_keystream mask i bytes) ≡ length bytes
  keystream-len i [] = refl
  keystream-len i (b ∷ bytes) = ap suc (keystream-len (i + 1) bytes)

  pub header_bytes-len :
      (used : ℕ) (header : Bytes) (decrypt : Bool) (part : Bytes)
      → length (header_bytes (state used zero header decrypt) part).header
        ≡ length header + length part
  header_bytes-len used header true part =
      omega (arith, length-append header (apply_keystream mask used part), keystream-len used part)
  header_bytes-len used header false part = length-append header part

  goes_on :
      (x : HeaderXor) (rest : Bytes) (next : HeaderXor → Applied)
      → length x.header < 5
      → check_header mask x rest next ≡ next x
  unfolding check_header
  goes_on x rest next lt = ground arith

  -- Some bytes of a header, one at least.
  run-header :
      (used : ℕ) (header : Bytes) (decrypt : Bool) (part rest : Bytes)
      → 0 < length part
      → length header + length part ≤ 5
      → run used zero header decrypt (part ++ rest)
        ≡ behind (apply_keystream mask used part) (
            check_header mask
              (header_bytes (state used zero header decrypt) part)
              rest
              (λ x. run_from x rest))
  unfolding run
  run-header used header decrypt [] rest pos le = absurd (omega arith)
  run-header used header decrypt (b ∷ []) rest pos le = refl
  run-header used header decrypt (b ∷ c ∷ part) rest pos le =
      let x = header_bytes (state used zero header decrypt) (b ∷ []) in
      let small : length x.header < 5 =
        omega (arith, header_bytes-len used header decrypt (b ∷ [])) in
      ap (behind (mask used b ∷ [])) (
        goes_on x (c ∷ (part ++ rest)) (λ x. run_from x (c ∷ (part ++ rest))) small
        ∙ run-header x.used x.header decrypt (c ∷ part) rest (omega arith)
            (omega (arith, header_bytes-len used header decrypt (b ∷ [])))
        ∙ ap
            (λ y.
              behind (apply_keystream mask (used + 1) (c ∷ part))
                (check_header mask y rest (λ x. run_from x rest)))
            (header_bytes-cons used header decrypt b (c ∷ part)))

  on_header-cong :
      (x : HeaderXor) (found : Result RecordError ℕ) (rest : Bytes)
      (next next' : HeaderXor → Applied)
      → ((y : HeaderXor) → length y.header < 5 → next y ≡ next' y)
      → on_header mask x found rest next ≡ on_header mask x found rest next'
  unfolding on_header
  on_header-cong x (err e) rest next next' same = refl
  on_header-cong x (ok len) rest next next' same =
      same (record x { skip = len; header = [] }) (omega arith)

  check_header-cong :
      (x : HeaderXor) (rest : Bytes) (next next' : HeaderXor → Applied)
      → length x.header ≤ 5
      → ((y : HeaderXor) → length y.header < 5 → next y ≡ next' y)
      → check_header mask x rest next ≡ check_header mask x rest next'
  unfolding check_header
  check_header-cong x rest next next' le same = elim (Bool-cases (length x.header == 5)) [
    | inl full ↦ rw full (on_header-cong x (decode_header x.header) rest next next' same)
    | inr short ↦ rw short (same x (ground arith))
  ]

  abbrev Agrees : ℕ → Type 0
  Agrees fuel =
      (x : HeaderXor) (bytes : Bytes)
      → length x.header < 5
      → length bytes ≤ fuel
      → apply_rounds mask fuel x bytes ≡ run_from x bytes

  apply_header-run :
      (fuel used skip : ℕ) (header : Bytes) (decrypt : Bool) (bytes : Bytes)
      → length header < 5
      → (skip ≡ 0) ⊎ (length bytes ≡ 0)
      → length bytes ≤ suc fuel
      → Agrees fuel
      → apply_header mask (state used skip header decrypt) bytes (apply_rounds mask fuel)
        ≡ run used skip header decrypt bytes
  unfolding apply_header run
  apply_header-run fuel used skip header decrypt [] lt none le agrees = refl
  apply_header-run fuel used (suc skip) header decrypt (b ∷ bytes) lt none le agrees =
      absurd (ground arith)
  apply_header-run fuel used zero header decrypt (b ∷ bytes) lt none le agrees =
      let rest : Bytes = b ∷ bytes in
      let n = min (5 - length header) (length rest) in
      let part = take n rest in
      let part_len : length part ≡ n = omega (arith, length-take n rest) in
      let x = header_bytes (state used zero header decrypt) part in
      let later = drop n rest in
      ap
        (λ (k : ℕ). behind (apply_keystream mask used part) (
          check_header mask (record x { used = used + k }) later
            (λ y. apply_rounds mask fuel y later)))
        (sym part_len)
      ∙ ap (behind (apply_keystream mask used part)) (
          check_header-cong x later (λ y. apply_rounds mask fuel y later) (λ y. run_from y later)
            (omega (arith, header_bytes-len used header decrypt part))
            (λ y small. agrees y later small (omega (arith, length-drop n rest))))
      ∙ sym (run-header used header decrypt part later (omega arith) (omega arith))
      ∙ ap (run used zero header decrypt) (take-append-drop n rest)

  apply_rounds-run : (fuel : ℕ) → Agrees fuel
  unfolding apply_rounds run
  apply_rounds-run zero x [] lt le = refl
  apply_rounds-run (suc fuel) x [] lt le = refl
  apply_rounds-run zero x (b ∷ bytes) lt le = absurd (omega arith)
  apply_rounds-run (suc fuel) x (b ∷ bytes) lt le =
      let rest : Bytes = b ∷ bytes in
      let s = min x.skip (length rest) in
      ap (behind (take s rest)) (
        apply_header-run fuel x.used (x.skip - s) x.header x.decrypt (drop s rest) lt
          (ground (arith, length-drop s rest)) (omega (arith, length-drop s rest))
          (apply_rounds-run fuel))
      ∙ sym (
          run-skips x.used s x.skip (x.skip - s) x.header x.decrypt rest (omega arith)
            (omega arith))

  pub apply-run :
      (x : HeaderXor) (bytes : Bytes) → length x.header < 5 → apply mask x bytes ≡ run_from x bytes
  unfolding apply
  apply-run x bytes lt = apply_rounds-run (length bytes) x bytes lt (omega arith)
