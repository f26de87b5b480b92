-- ===== src/Vless/Encryption/Xor/Fragments.antt =====
-- src/vless/encryption/xor.rs: several calls do what one call does.
use rust_xhttp.Common.{
  ℕ, zero, suc, ◌<◌, ◌≡◌, refl, ap, sym, ◌∙◌, ◌==◌, List, [], ◌∷◌, ◌++◌, Bytes, length, concat,
  Result, ok, err, arith, append_assoc, Bool-cases, inl, inr,
}
use rust_xhttp.Vless.Encryption.Record.{RecordError, decode_header}
use rust_xhttp.Vless.Encryption.Xor.{HeaderXor, Applied, behind, on_header, check_header, apply}
use rust_xhttp.Vless.Encryption.Xor.Bytewise.{
  state, run, run_from, header_bytes, header_bytes-len, apply-run,
}

module _ (mask : ℕ → ℕ → ℕ) where
  -- One call for each piece, up to an error.
  unfoldable pub and_then : Applied → Bytes → (HeaderXor → Applied) → Applied
  and_then (x, out, ok u) rest next = behind out (next x)
  and_then (x, out, err e) rest next = (x, out ++ rest, err e)

  unfoldable pub apply_all : HeaderXor → List Bytes → Applied
  apply_all x [] = (x, [], ok tt)
  apply_all x (p ∷ ps) = and_then (apply mask x p) (concat ps) (λ y. apply_all y ps)

  behind-and_then :
      (front : Bytes) (r : Applied) (rest : Bytes) (next : HeaderXor → Applied)
      → behind front (and_then r rest next) ≡ and_then (behind front r) rest next
  unfolding and_then
  behind-and_then front (x, out, ok u) rest next =
      ap (λ o. ((next x).0, o, (next x).2)) (sym (append_assoc front out (next x).1))
  behind-and_then front (x, out, err e) rest next =
      ap (λ o. (x, o, err e)) (sym (append_assoc front out rest))

  -- A run over two pieces.
  abbrev Splits : Bytes → Bytes → Type 0
  Splits xs ys =
      (x : HeaderXor)
      → run_from mask x (xs ++ ys) ≡ and_then (run_from mask x xs) ys (λ y. run_from mask y ys)

  check_header-Splits :
      (x : HeaderXor) (xs ys : Bytes)
      → Splits xs ys
      → check_header mask x (xs ++ ys) (λ y. run_from mask y (xs ++ ys))
        ≡ and_then (check_header mask x xs (λ y. run_from mask y xs)) ys (λ y. run_from mask y ys)
  unfolding check_header on_header and_then
  check_header-Splits x xs ys splits = elim (Bool-cases (length x.header == 5)) [
    | inl full ↦ rw full (decoded (decode_header x.header))
    | inr short ↦ rw short (splits x)
  ]
    where
      decoded :
          (found : Result RecordError ℕ)
          → on_header mask x found (xs ++ ys) (λ y. run_from mask y (xs ++ ys))
            ≡ and_then
                (on_header mask x found xs (λ y. run_from mask y xs))
                ys
                (λ y. run_from mask y ys)
      decoded (err e) = refl
      decoded (ok len) = splits (record x { skip = len; header = [] })

  run-append : (xs ys : Bytes) → Splits xs ys
  unfolding run and_then
  run-append [] ys x = refl
  run-append (b ∷ xs) ys x = go x.skip (run-append xs ys)
    where
      go :
          (skip : ℕ)
          → Splits xs ys
          → run mask x.used skip x.header x.decrypt (b ∷ (xs ++ ys))
            ≡ and_then
                (run mask x.used skip x.header x.decrypt (b ∷ xs))
                ys
                (λ y. run_from mask y ys)
      go zero splits =
          let y = header_bytes mask (state x.used zero x.header x.decrypt) (b ∷ []) in
          ap (behind (mask x.used b ∷ [])) (check_header-Splits y xs ys splits)
          ∙ behind-and_then (mask x.used b ∷ []) (check_header mask y xs (λ z. run_from mask z xs))
              ys (λ z. run_from mask z ys)
      go (suc skip) splits =
          let y = state x.used skip x.header x.decrypt in
          ap (behind (b ∷ [])) (splits y)
          ∙ behind-and_then (b ∷ []) (run_from mask y xs) ys (λ z. run_from mask z ys)

  -- A header is never complete between two calls, unless it was refused.
  abbrev pub IsBetween : Applied → Type 0
  IsBetween (x, out, ok u) = length x.header < 5
  IsBetween (x, out, err e) = Unit {0}

  behind-IsBetween : (front : Bytes) (r : Applied) → IsBetween r → IsBetween (behind front r)
  behind-IsBetween front (x, out, ok u) h = h
  behind-IsBetween front (x, out, err e) h = h

  abbrev StaysBetween : Bytes → Type 0
  StaysBetween bytes = (x : HeaderXor) → length x.header < 5 → IsBetween (run_from mask x bytes)

  check_header-IsBetween :
      (x : HeaderXor) (bytes : Bytes)
      → length x.header < 6
      → StaysBetween bytes
      → IsBetween (check_header mask x bytes (λ y. run_from mask y bytes))
  unfolding check_header on_header
  check_header-IsBetween x bytes lt again = elim (Bool-cases (length x.header == 5)) [
    | inl full ↦ rw full (decoded (decode_header x.header))
    | inr short ↦ rw short (again x (ground arith))
  ]
    where
      decoded :
          (found : Result RecordError ℕ)
          → IsBetween (on_header mask x found bytes (λ y. run_from mask y bytes))
      decoded (err e) = tt
      decoded (ok len) = again (record x { skip = len; header = [] }) (omega arith)

  run-IsBetween : (bytes : Bytes) → StaysBetween bytes
  unfolding run
  run-IsBetween [] x lt = lt
  run-IsBetween (b ∷ bytes) x lt = go x.skip (run-IsBetween bytes)
    where
      go :
          (skip : ℕ)
          → StaysBetween bytes
          → IsBetween (run mask x.used skip x.header x.decrypt (b ∷ bytes))
      go zero again =
          let y = header_bytes mask (state x.used zero x.header x.decrypt) (b ∷ []) in
          behind-IsBetween (mask x.used b ∷ [])
            (check_header mask y bytes (λ z. run_from mask z bytes))
            (check_header-IsBetween y bytes
              (omega (arith, header_bytes-len mask x.used x.header x.decrypt (b ∷ []))) again)
      go (suc skip) again =
          behind-IsBetween (b ∷ []) (run mask x.used skip x.header x.decrypt bytes)
            (again (state x.used skip x.header x.decrypt) lt)

  -- Bytes given in several calls, the last of which may leave a header open, are masked as they are in
  -- one call, also where a header is refused: what is behind it stays as it is.
  pub apply_all-concat :
      (x : HeaderXor) (pieces : List Bytes)
      → length x.header < 5
      → apply_all x pieces ≡ apply mask x (concat pieces)
  unfolding apply_all and_then run
  apply_all-concat x [] lt = sym (apply-run mask x [] lt)
  apply_all-concat x (p ∷ ps) lt =
      ap (λ r. and_then r (concat ps) (λ y. apply_all y ps)) (apply-run mask x p lt)
      ∙ go (run_from mask x p) (run-IsBetween p x lt) (λ y. apply_all-concat y ps)
      ∙ sym (run-append p (concat ps) x)
      ∙ sym (apply-run mask x (p ++ concat ps) lt)
    where
      go :
          (r : Applied)
          → IsBetween r
          → ((y : HeaderXor) → length y.header < 5 → apply_all y ps ≡ apply mask y (concat ps))
          → and_then r (concat ps) (λ y. apply_all y ps)
            ≡ and_then r (concat ps) (λ y. run_from mask y (concat ps))
      go (y, out, ok u) h again = ap (behind out) (again y h ∙ apply-run mask y (concat ps) h)
      go (y, out, err e) h again = refl
