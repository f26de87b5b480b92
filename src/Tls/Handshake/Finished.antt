-- ===== src/Tls/Handshake/Finished.antt =====
-- src/tls/tls13/handshake.rs: which Finished message of a client is accepted.
use rust_xhttp.Common.{
  ◌+◌, ◌*◌, ◌/◌, ◌%◌, ◌^◌, ◌<◌, Bool, ◌≡◌, ◌↔◌, refl, ap, sym, ◌∙◌, true, false, [], ◌∷◌, Bytes,
  length, bytes_eq, bytes_eq-eq, bytes_eq_refl, ◌==◌, Result, ok, err, ◌>>◌, guard, All, IsByte,
  as_u8, arith, ==_self,
}
use rust_xhttp.Tls.Messages.{finished_message, handshake_message, hs_finished}
use rust_xhttp.Tls.Handshake.{
  verify_client_finished, ClientFinishedError, malformed, verify_data_mismatch,
}

ok_err :
    {e : ClientFinishedError} → ◌≡◌ {A = Result ClientFinishedError (Unit {0})} (err e) (ok tt) → ⊥
ok_err e = cc

-- The four guards, each of which holds where the message is accepted.
guards_hold :
    (p q r s : Bool)
    → (guard p malformed
        >> (guard q malformed >> (guard r malformed >> (guard s verify_data_mismatch >> ok tt))))
      ≡ ok tt
    → (p ≡ true) × (q ≡ true) × (r ≡ true) × (s ≡ true)
guards_hold true true true true e = (refl, refl, refl, refl)
guards_hold true true true false e = absurd (ok_err e)
guards_hold true true false s e = absurd (ok_err e)
guards_hold true false r s e = absurd (ok_err e)
guards_hold false q r s e = absurd (ok_err e)

too_short :
    (expected message : Bytes)
    → length message < 4
    → ◌≡◌ {A = Result ClientFinishedError (Unit {0})} (err malformed) (ok tt)
      ↔ (message ≡ finished_message expected)
unfolding finished_message handshake_message
too_short expected message short =
    (λ e. absurd (ok_err e), λ e. absurd (omega (arith, ap length e)))

pub verify_client_finished-finished :
    (expected : Bytes)
    → length expected < 2 ^ 24
    → verify_client_finished expected (finished_message expected) ≡ ok tt
unfolding verify_client_finished finished_message handshake_message
verify_client_finished-finished expected small =
    let n = length expected in
    let size : as_u8 (n % 2 ^ 32 / 65536) * 65536
          + as_u8 (n % 2 ^ 32 / 256) * 256
          + as_u8 (n % 2 ^ 32)
        ≡ n =
      omega arith in
    rw (size, ==_self n, bytes_eq_refl expected) refl

-- A message is accepted if and only if it is, to the byte, the Finished message with the verify
-- data that is expected; the data is shorter than 2^24 bytes, and the message consists of bytes.
pub verify_client_finished_iff :
    (expected message : Bytes)
    → length expected < 2 ^ 24
    → All IsByte message
    → (verify_client_finished expected message ≡ ok tt) ↔ (message ≡ finished_message expected)
unfolding verify_client_finished finished_message handshake_message
verify_client_finished_iff expected [] small h = too_short expected [] (omega arith)
verify_client_finished_iff expected (t ∷ []) small h = too_short expected (t ∷ []) (omega arith)
verify_client_finished_iff expected (t ∷ a ∷ []) small h =
    too_short expected (t ∷ a ∷ []) (omega arith)
verify_client_finished_iff expected (t ∷ a ∷ b ∷ []) small h =
    too_short expected (t ∷ a ∷ b ∷ []) (omega arith)
verify_client_finished_iff expected (t ∷ a ∷ b ∷ c ∷ data_bytes) small h =
    let ha = h.1.0 in
    let hb = h.1.1.0 in
    let hc = h.1.1.1.0 in
    (
      λ e.
          let (len, kind, size, same) =
            guards_hold (length data_bytes == length expected) (t == hs_finished)
              (a * 65536 + b * 256 + c == length expected) (bytes_eq expected data_bytes) e in
          let n = length expected in
          let e0 : t ≡ hs_finished = ground arith in
          let total : a * 65536 + b * 256 + c ≡ n = ground arith in
          let ea : a ≡ as_u8 (n % 2 ^ 32 / 65536) = omega arith in
          let eb : b ≡ as_u8 (n % 2 ^ 32 / 256) = omega arith in
          let ec : c ≡ as_u8 (n % 2 ^ 32) = omega arith in
          let ed = bytes_eq-eq expected data_bytes same in
          ap (λ x. x ∷ a ∷ b ∷ c ∷ data_bytes) e0
          ∙ ap (λ x. hs_finished ∷ x ∷ b ∷ c ∷ data_bytes) ea
          ∙ ap (λ x. hs_finished ∷ as_u8 (n % 2 ^ 32 / 65536) ∷ x ∷ c ∷ data_bytes) eb
          ∙ ap
              (λ x.
                hs_finished
                ∷ as_u8 (n % 2 ^ 32 / 65536)
                ∷ as_u8 (n % 2 ^ 32 / 256)
                ∷ x
                ∷ data_bytes)
              ec
          ∙ ap
              (λ d.
                hs_finished
                ∷ as_u8 (n % 2 ^ 32 / 65536)
                ∷ as_u8 (n % 2 ^ 32 / 256)
                ∷ as_u8 (n % 2 ^ 32)
                ∷ d)
              (sym ed),
      λ e. ap (verify_client_finished expected) e ∙ verify_client_finished-finished expected small,
    )
