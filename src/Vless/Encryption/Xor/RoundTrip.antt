-- ===== src/Vless/Encryption/Xor/RoundTrip.antt =====
-- src/vless/encryption/xor.rs: what one end masks, the other end unmasks, however the bytes are cut.
use rust_xhttp.Common.{
  ℕ, zero, suc, ◌+◌, ◌<◌, ◌≡◌, refl, ap, sym, ◌∙◌, true, false, ◌==◌, List, [], ◌∷◌, ◌++◌, Bytes,
  length, concat, Result, ok, err, Bool-cases, inl, inr,
}
use rust_xhttp.Vless.Encryption.Record.{RecordError, decode_header}
use rust_xhttp.Vless.Encryption.Xor.{HeaderXor, Applied, behind, on_header, check_header}
use rust_xhttp.Vless.Encryption.Xor.Fragments.{apply_all, apply_all-concat}
use rust_xhttp.Vless.Encryption.Xor.Bytewise.{state, run, run_from, apply-run}

-- The other end in the same state.
abbrev pub other_end : HeaderXor → HeaderXor
other_end x = record x { decrypt = true }

module _ (mask : ℕ → ℕ → ℕ) where
  module _ (unmask : (i b : ℕ) → mask i (mask i b) ≡ b) where
    abbrev Reverses : Bytes → Type 0
    Reverses bytes =
        (used skip : ℕ) (header : Bytes)
        → let r = run mask used skip header false bytes in
          run mask used skip header true r.1 ≡ (other_end r.0, bytes, r.2)

    check_header-Reverses :
        (used : ℕ) (header bytes : Bytes)
        → Reverses bytes
        → let r =
            check_header mask (state used zero header false) bytes (λ y. run_from mask y bytes) in
          check_header mask (state used zero header true) r.1 (λ y. run_from mask y r.1)
          ≡ (other_end r.0, bytes, r.2)
    unfolding check_header on_header
    check_header-Reverses used header bytes again = elim (Bool-cases (length header == 5)) [
      | inl full ↦ rw full (decoded (decode_header header))
      | inr short ↦ rw short (again used zero header)
    ]
      where
        decoded :
            (found : Result RecordError ℕ)
            → let r =
                on_header mask
                  (state used zero header false)
                  found
                  bytes
                  (λ y. run_from mask y bytes) in
              on_header mask (state used zero header true) found r.1 (λ y. run_from mask y r.1)
              ≡ (other_end r.0, bytes, r.2)
        decoded (err e) = refl
        decoded (ok len) = again used len []

    run-Reverses : (bytes : Bytes) → Reverses bytes
    unfolding run
    run-Reverses [] used skip header = refl
    run-Reverses (b ∷ bytes) used (suc skip) header =
        ap (behind (b ∷ [])) (run-Reverses bytes used skip header)
    run-Reverses (b ∷ bytes) used zero header =
        let r =
          check_header mask (state (used + 1) zero (header ++ b ∷ []) false) bytes
            (λ y. run_from mask y bytes) in
        ap
          (λ (c : ℕ). behind (c ∷ []) (
            check_header mask (state (used + 1) zero (header ++ c ∷ []) true) r.1
              (λ y. run_from mask y r.1)))
          (unmask used b)
        ∙ ap (behind (b ∷ []))
            (check_header-Reverses (used + 1) (header ++ b ∷ []) bytes (run-Reverses bytes))

    -- The bytes that an end masks, from any state between two calls and in any number of calls, are
    -- given back by an end in the same state that unmasks, however they are cut for it, and the two ends
    -- stay in step, also where a header is refused; for a keystream under which masking twice changes
    -- nothing.
    pub apply_all-other_end :
        (used skip : ℕ) (header : Bytes) (pieces pieces' : List Bytes)
        → length header < 5
        → concat pieces' ≡ (apply_all mask (state used skip header false) pieces).1
        → apply_all mask (state used skip header true) pieces' ≡ (
          other_end (apply_all mask (state used skip header false) pieces).0,
          concat pieces,
          (apply_all mask (state used skip header false) pieces).2,
        )
    apply_all-other_end used skip header pieces pieces' lt e =
        let x = state used skip header false in
        let y = state used skip header true in
        let one : apply_all mask x pieces ≡ run_from mask x (concat pieces) =
          apply_all-concat mask x pieces lt ∙ apply-run mask x (concat pieces) lt in
        apply_all-concat mask y pieces' lt
        ∙ apply-run mask y (concat pieces') lt
        ∙ ap (run_from mask y) (e ∙ ap (λ r. r.1) one)
        ∙ run-Reverses (concat pieces) used skip header
        ∙ ap (λ (r : Applied). (other_end r.0, concat pieces, r.2)) (sym one)
