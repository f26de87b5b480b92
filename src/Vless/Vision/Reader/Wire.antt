-- ===== src/Vless/Vision/Reader/Wire.antt =====
-- src/vless/vision.rs: what a wire carries, and what a reader in the middle of it has still to give.
use rust_xhttp.Common.{
  ℕ, zero, suc, ◌≤◌, ◌<◌, ◌≡◌, ◌≢◌, inl, inr, refl, ap, sym, ◌∙◌, true, false, List, [], ◌∷◌, ◌++◌,
  Bytes, if◌then◌else◌, ◌==◌, leb, length, take, drop, All, arith, u16_be, IsU16, take-append-drop,
  length-take, length-drop, append_assoc, Bool-cases,
}
use rust_xhttp.Vless.Vision.{known_command, command_continue}
use rust_xhttp.Vless.Vision.Reader.{
  Arrival, arrived, not_yet, failing, Filled, filled, pending, poll_inner,
}

-- A frame with no UUID in front of it.
abbrev pub frame : ℕ → Bytes → Bytes → Bytes
frame command body pad = command ∷ u16_be (length body) (u16_be (length pad) (body ++ pad))

-- The bytes that a wire carries: those of its frames, up to the first one that does not say
-- `Continue`, and everything behind that.
pub data Carries : Bytes → Bytes → Type 0 where
  nothing : {wire out : Bytes} → wire ≡ [] → out ≡ [] → Carries wire out
  more :
      {wire out : Bytes} (body pad wire' out' : Bytes)
      → IsU16 (length body)
      → IsU16 (length pad)
      → wire ≡ frame command_continue body pad ++ wire'
      → out ≡ body ++ out'
      → Carries wire' out'
      → Carries wire out
  last :
      {wire out : Bytes} (command : ℕ) (body pad tail : Bytes)
      → known_command command ≡ true
      → (command == command_continue) ≡ false
      → IsU16 (length body)
      → IsU16 (length pad)
      → wire ≡ frame command body pad ++ tail
      → out ≡ body ++ tail
      → Carries wire out

-- Behind the padding of a frame with that command.
abbrev pub After : ℕ → Bytes → Bytes → Type 0
After command wire out = if command == command_continue then Carries wire out else (wire ≡ out)

-- The bytes that are still to arrive, and the number of polls that find none yet.
abbrev pub left : List Arrival → Bytes
left [] = []
left (arrived b ∷ rest) = b ++ left rest
left (not_yet ∷ rest) = left rest
left (failing ∷ rest) = left rest

abbrev pub waiting : List Arrival → ℕ
waiting [] = 0
waiting (arrived b ∷ rest) = waiting rest
waiting (not_yet ∷ rest) = suc (waiting rest)
waiting (failing ∷ rest) = waiting rest

-- No error, and no poll that gives no bytes before the end.
abbrev pub IsSound : Arrival → Type 0
IsSound (arrived b) = b ≢ []
IsSound not_yet = Unit {0}
IsSound failing = ⊥

-- What a poll into some room finds.
pub data Finds (room : ℕ) (inner : List Arrival) : Filled → List Arrival → Type 0 where
  finds_end :
      {rest : List Arrival} → left inner ≡ [] → rest ≡ [] → Finds room inner (filled []) rest
  finds_none :
      {rest : List Arrival}
      → left rest ≡ left inner
      → All IsSound rest
      → waiting rest < waiting inner
      → Finds room inner pending rest
  finds :
      {rest : List Arrival} (b : ℕ) (bs : Bytes)
      → left inner ≡ (b ∷ bs) ++ left rest
      → length (b ∷ bs) ≤ room
      → All IsSound rest
      → waiting rest ≤ waiting inner
      → Finds room inner (filled (b ∷ bs)) rest

pub poll_inner-Finds :
    (room : ℕ) (inner : List Arrival)
    → 0 < room
    → All IsSound inner
    → Finds room inner (poll_inner room inner).0 (poll_inner room inner).1
unfolding poll_inner
poll_inner-Finds room [] pos s = finds_end refl refl
poll_inner-Finds room (not_yet ∷ rest) pos s = finds_none refl s.1 (omega arith)
poll_inner-Finds room (failing ∷ rest) pos s = absurd s.0
poll_inner-Finds room (arrived [] ∷ rest) pos s = absurd (s.0 refl)
poll_inner-Finds zero (arrived (b ∷ bs) ∷ rest) pos s = absurd (omega arith)
poll_inner-Finds (suc room) (arrived (b ∷ bs) ∷ rest) pos s =
    elim (Bool-cases (leb (length (b ∷ bs)) (suc room))) [
      | inl fits ↦ rw fits (finds b bs refl (ground arith) s.1 (omega arith))
      | inr over ↦ rw over (
          finds {rest = arrived (drop room bs) ∷ rest} b (take room bs)
            (ap (◌∷◌ b) (
              sym (ap (λ t. t ++ left rest) (take-append-drop room bs))
              ∙ append_assoc (take room bs) (drop room bs) (left rest)))
            (omega (arith, length-take room bs)) (some_left over, s.1) (omega arith))
    ]
  where
    some_left : leb (length (b ∷ bs)) (suc room) ≡ false → drop room bs ≢ []
    some_left over e =
        let len : length (drop room bs) ≡ 0 = ap length e in ground (arith, length-drop room bs)

-- A list that starts in two ways.
pub split_front :
    (us vs xs ys : Bytes)
    → us ++ vs ≡ xs ++ ys
    → length us ≤ length xs
    → (zs : Bytes) × (xs ≡ us ++ zs) × (vs ≡ zs ++ ys)
split_front [] vs xs ys e h = (xs, refl, e)
split_front (u ∷ us) vs [] ys e h = absurd (omega arith)
split_front (u ∷ us) vs (x ∷ xs) ys e h =
    let (zs, p, q) = split_front us vs xs ys (cc) (omega arith) in (zs, cc, q)
