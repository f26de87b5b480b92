-- ===== src/Vless/Addons/Termination.antt =====
-- src/vless/addons.rs: when the loop of `decode_addons_body` ends. The wrapping sums of the release
-- profile let a ten-byte length turn the index back or put the ends of a slice out of order.
use rust_xhttp.Common.{
  ℕ, zero, suc, ◌+◌, ◌-◌, ◌/◌, ◌%◌, ◌^◌, ◌≤◌, ◌<◌, ◌≡◌, refl, ◌∙◌, ◌∷◌, ◌++◌, Option, none, some,
  Bytes, length, ltb, arith, IsU64, ◌⊎◌, inl, inr, length-append, drop, get_or, length-drop, Result,
  ok, Bool-cases, ltb→lt,
}
use rust_xhttp.Common.Bits.{bit_and-7}
use rust_xhttp.Vless.Addons.{
  Addons, AddonsError, read_varint, write_varint, Round, next, stop, returns, panics, unfinished,
  take_field, store_field, dispatch, decode_round, decode_loop, decode_addons_body, default,
  skip_bytes, skip_varint,
}
use rust_xhttp.Vless.Addons.Loop.{loop-next, loop-stop, loop-end}
use rust_xhttp.Vless.Addons.Varint.{
  read_varint-write_varint, read_varint_takes, length-write_varint_top,
}

-- The length that sends the index of an unknown field at the start of the body back to 0.
abbrev pub turning_length : ℕ
turning_length = 2 ^ 64 - 11

round_turns :
    (tag : ℕ) (rest : Bytes) (addons : Addons)
    → tag % 8 ≡ 2
    → 3 ≤ tag / 8
    → decode_round (tag ∷ (write_varint turning_length ++ rest)) 0 addons ≡ next 0 addons
unfolding decode_round
round_turns tag rest addons w f =
    rw
      (
        read_varint-write_varint turning_length rest (omega arith),
        length-write_varint_top turning_length (omega arith) (omega arith),
      )
      (unfold dispatch skip_bytes in ground (arith, bit_and-7 tag))

loop_turns :
    (fuel tag : ℕ) (rest : Bytes) (addons : Addons)
    → tag % 8 ≡ 2
    → 3 ≤ tag / 8
    → decode_loop fuel (tag ∷ (write_varint turning_length ++ rest)) 0 addons ≡ unfinished
loop_turns zero tag rest addons w f = unfold decode_loop in refl
loop_turns (suc fuel) tag rest addons w f =
    loop-next fuel _ 0 addons 0 addons (omega arith) (round_turns tag rest addons w f)
    ∙ loop_turns fuel tag rest addons w f

-- A body that starts with an unknown length-delimited field (field number 3 or more) of length
-- 2^64 - 11 is never decoded: however many rounds are given, the loop is still running, since
-- each round comes back to index 0.
pub decode_never_returns :
    (fuel tag : ℕ) (rest : Bytes)
    → tag % 8 ≡ 2
    → 3 ≤ tag / 8
    → decode_addons_body fuel (tag ∷ (write_varint turning_length ++ rest)) ≡ unfinished
unfolding decode_addons_body
decode_never_returns fuel tag rest w f = loop_turns fuel tag rest default w f

round_panics :
    (tag len : ℕ) (rest : Bytes) (addons : Addons)
    → (tag ≡ 0x0a) ⊎ (tag ≡ 0x12)
    → turning_length ≤ len
    → IsU64 len
    → decode_round (tag ∷ (write_varint len ++ rest)) 0 addons ≡ stop panics
unfolding decode_round
round_panics tag len rest addons t lo hi =
    let ten = length-write_varint_top len (omega arith) hi in
    rw (read_varint-write_varint len rest hi, ten)
      (unfold dispatch take_field in
        ground (arith, bit_and-7 tag, ten, length-append (write_varint len) rest))

-- A body that starts with a Flow or Seed field whose length is one of the eleven largest 64-bit
-- numbers makes the decoder panic, at the first round.
pub decode_panics :
    (fuel tag len : ℕ) (rest : Bytes)
    → (tag ≡ 0x0a) ⊎ (tag ≡ 0x12)
    → turning_length ≤ len
    → IsU64 len
    → decode_addons_body (suc fuel) (tag ∷ (write_varint len ++ rest)) ≡ panics
unfolding decode_addons_body
decode_panics fuel tag len rest t lo hi =
    loop-stop fuel _ 0 default panics (omega arith) (round_panics tag len rest default t lo hi)

-- What a round promises: it moves the index on, or the decoder returns.
abbrev Advances : ℕ → Round → Type 0
Advances i (next i' _) = i < i'
Advances i (stop (returns _)) = Unit {0}
Advances i (stop panics) = ⊥
Advances i (stop unfinished) = ⊥

-- Every varint that the decoder could meet in the body is below 2^63.
abbrev pub HasSmallVarints : Bytes → Type 0
HasSmallVarints body = (j v adv : ℕ) → read_varint (drop j body) ≡ some (v, adv) → v < 2 ^ 63

dispatch-Advances :
    (tag : ℕ) (o : Option (ℕ × ℕ)) (body : Bytes) (i : ℕ) (addons : Addons)
    → i < 2 ^ 62
    → ((v adv : ℕ) → o ≡ some (v, adv) → (v < 2 ^ 63) × (0 < adv) × (adv < 2 ^ 62))
    → Advances i (dispatch tag o body i addons)
unfolding dispatch take_field store_field skip_bytes skip_varint
dispatch-Advances tag none body i addons hi h = ground arith
dispatch-Advances tag (some (v, adv)) body i addons hi h = ground (arith, h v adv refl)

round-Advances :
    (body : Bytes) (i : ℕ) (addons : Addons)
    → HasSmallVarints body
    → length body < 2 ^ 61
    → i < length body
    → Advances (i + 1) (decode_round body i addons)
unfolding decode_round
round-Advances body i addons small fits hi =
    dispatch-Advances (get_or body i 0) (read_varint (drop (i + 1) body)) body (i + 1) addons
      (omega arith)
      λ v adv e.
        let (lo, up) = read_varint_takes (drop (i + 1) body) v adv e in
        (small (i + 1) v adv e, lo, omega (arith, length-drop (i + 1) body))

decode_loop_total :
    (fuel : ℕ) (body : Bytes) (i : ℕ) (addons : Addons)
    → HasSmallVarints body
    → length body < 2 ^ 61
    → length body - i < fuel
    → (r : Result AddonsError Addons) × (decode_loop fuel body i addons ≡ returns r)
decode_loop_total zero body i addons small fits h = absurd (omega arith)
decode_loop_total (suc fuel) body i addons small fits h = elim (Bool-cases (ltb i (length body))) [
  | inr done ↦ (ok addons, loop-end fuel body i addons (ground arith))
  | inl more ↦
      step (ltb→lt i _ more) (λ i' addons'. decode_loop_total fuel body i' addons' small fits)
        (decode_round body i addons) refl
        (round-Advances body i addons small fits (ltb→lt i _ more))
]
  where
    step :
        i < length body
        → ((i' : ℕ) (addons' : Addons)
            → length body - i' < fuel
            → (r : Result AddonsError Addons) × (decode_loop fuel body i' addons' ≡ returns r))
        → (o : Round) → decode_round body i addons ≡ o
        → Advances (i + 1) o
        → (r : Result AddonsError Addons) × (decode_loop (suc fuel) body i addons ≡ returns r)
    step lt again (next i' addons') e a =
        let (r, q) = again i' addons' (omega arith) in
        (r, loop-next fuel body i addons i' addons' lt e ∙ q)
    step lt again (stop (returns r)) e a = (r, loop-stop fuel body i addons (returns r) lt e)
    step lt again (stop panics) e a = absurd a
    step lt again (stop unfinished) e a = absurd a

-- On a body in which no varint reaches 2^63, the decoder returns, with addons or an error, within
-- one round more than the body has bytes: it neither panics nor loops.
pub decode_total :
    (body : Bytes)
    → HasSmallVarints body
    → length body < 2 ^ 61
    → (r : Result AddonsError Addons) × (decode_addons_body (suc (length body)) body ≡ returns r)
unfolding decode_addons_body
decode_total body small fits =
    decode_loop_total (suc (length body)) body 0 default small fits (omega arith)
