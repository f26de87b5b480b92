-- ===== src/Vless/Vision/Reader/Loop.antt =====
-- src/vless/vision.rs: a round of the reader's loop in every state, and the loop.
use rust_xhttp.Common.{
  ℕ, zero, suc, ◌+◌, ◌*◌, ◌-◌, ◌≤◌, ◌<◌, ◌≡◌, ◌≢◌, inl, inr, refl, ap, sym, subst, ◌∙◌, Bool, true,
  false, List, [], ◌∷◌, ◌++◌, Bytes, ◌==◌, ltb, min, length, take, drop, All, arith, length-append,
  take-append-drop, length-take, append_assoc, append-nil, Bool-cases, nil_of_length, bytes_eq_refl,
}
use rust_xhttp.Vless.Vision.{command_continue}
use rust_xhttp.Vless.Vision.Reader.{
  Arrival, Filled, filled, poll_inner, ReadState, header, content, padding, VisionReader, Round,
  returns, waits, continues, fails, on_state, fill_prefix, round,
}
use rust_xhttp.Vless.Vision.Reader.Wire.{
  Carries, After, left, IsSound, Finds, finds_end, finds_none, finds, poll_inner-Finds, split_front,
}
use rust_xhttp.Vless.Vision.Reader.Expecting.{
  InState, InPrefix, Later, Expects, weight, Shorter, Keeps, reader, shorter,
}
use rust_xhttp.Vless.Vision.Reader.Rounds.{on_raw-Keeps, fill_padding-Keeps, fill_content-Keeps}
use rust_xhttp.Vless.Vision.Reader.Headers.{fill_header-Keeps}

-- What is promised from a state on is promised from one before it.
pub Keeps-before :
    (r r' : VisionReader) (out : Bytes) (res : VisionReader × Round)
    → Shorter r r'
    → weight r' ≤ weight r
    → Keeps r' out res
    → Keeps r out res
Keeps-before r r' out (t, returns bytes) (l, w) le (rest, o, only, e, (l', w')) =
    (rest, o, only, e, (omega arith, omega arith))
Keeps-before r r' out (t, waits) (l, w) le (e, (l', w'), lt) =
    (e, (omega arith, omega arith), omega arith)
Keeps-before r r' out (t, continues) (l, w) le (e, (l', w'), lt) =
    (e, (omega arith, omega arith), omega arith)
Keeps-before r r' out (t, fails x) sh le h = absurd h

-- The last bytes of the UUID, if it is the right one.
fill_prefix-full :
    (rest : List Arrival) (uuid prefix : Bytes) (b : ℕ) (bs : Bytes)
    → prefix ++ b ∷ bs ≡ uuid
    → ltb (length (prefix ++ b ∷ bs)) 16 ≡ false
    → fill_prefix (reader rest uuid prefix false (header []) []) (filled (b ∷ bs))
      ≡ on_state (reader rest uuid uuid false (header []) []) (header [])
unfolding fill_prefix
fill_prefix-full rest uuid prefix b bs e full =
    subst
      (λ u.
        fill_prefix (reader rest u prefix false (header []) []) (filled (b ∷ bs))
        ≡ on_state (reader rest u u false (header []) []) (header []))
      e (rw (full, bytes_eq_refl (prefix ++ b ∷ bs)))

module _ (uuid : Bytes) (sixteen : length uuid ≡ 16) where
  on_state-Keeps :
      (inner : List Arrival) (state : ReadState) (out : Bytes)
      → All IsSound inner
      → InState state (left inner) out
      → Keeps
          (reader inner uuid uuid false state [])
          out
          (on_state (reader inner uuid uuid false state []) state)
  unfolding on_state
  on_state-Keeps inner (header bytes) out s h =
      fill_header-Keeps uuid sixteen bytes out h
        (poll_inner-Finds (5 - length bytes) inner (omega (arith, h.0)) s)
  on_state-Keeps inner (content zero padded command) out s
        (body, pad, wire', out', e, len, plen, o, after) =
      let none : body ≡ [] = nil_of_length body len in
      (
        record {
          sound = s;
          sixteen = sixteen;
          rest = out;
          given = refl;
          later = inr (
            refl,
            (
              pad,
              wire',
              e ∙ ap (λ t. t ++ (pad ++ wire')) none,
              plen,
              subst (λ t. After command wire' t) (sym (o ∙ ap (λ t. t ++ out') none)) after,
            ),
          );
        },
        (omega arith, omega arith),
        omega arith,
      )
  on_state-Keeps inner (content (suc n) padded command) out s h =
      fill_content-Keeps uuid sixteen (suc n) padded command out (omega arith) (omega arith) h
        (poll_inner-Finds (min (suc n) (32 * 1024)) inner (omega arith) s)
  on_state-Keeps inner (padding zero command) out s (pad, wire', e, len, after) =
      let all : left inner ≡ wire' = e ∙ ap (λ t. t ++ wire') (nil_of_length pad len) in
      elim (Bool-cases (command == command_continue)) [
        | inl goes_on ↦ rw goes_on (
          record {
            sound = s;
            sixteen = sixteen;
            rest = out;
            given = refl;
            later =
                inr
                  (refl, (omega arith, subst (λ t. Carries t out) (sym all) (rw goes_on at after)));
          },
          (omega arith, omega arith),
          omega arith,
        )
        | inr stops ↦ rw stops (
          record {
            sound = s;
            sixteen = sixteen;
            rest = out;
            given = refl;
            later = all ∙ (rw stops at after);
          },
          (omega arith, omega arith),
          omega arith,
        )
      ]
  on_state-Keeps inner (padding (suc n) command) out s h =
      fill_padding-Keeps uuid sixteen (suc n) command out (omega arith) (omega arith) h
        (poll_inner-Finds (min (suc n) 8192) inner (omega arith) s)

  fill_prefix-Keeps :
      {inner rest : List Arrival} (prefix out : Bytes) {f : Filled}
      → InPrefix prefix uuid (header []) (left inner) out
      → Finds (16 - length prefix) inner f rest
      → Keeps
          (reader inner uuid prefix false (header []) [])
          out
          (fill_prefix (reader rest uuid prefix false (header []) []) f)
  unfolding fill_prefix
  fill_prefix-Keeps prefix out (p, wire', u, some, e, _, c) (finds_end h q) =
      absurd (some (nil_of_length p (omega (arith, ap length (sym e ∙ h), length-append p wire'))))
  fill_prefix-Keeps prefix out (p, wire', u, some, e, _, c) (finds_none h s w) = (
    record {
      sound = s;
      sixteen = sixteen;
      rest = out;
      given = refl;
      later = inl (p, wire', u, some, h ∙ e, refl, c);
    },
    (omega (arith, ap length h), omega arith),
    w,
  )
  fill_prefix-Keeps {inner} {rest} prefix out (p, wire', u, some, e, _, c) (finds b bs h fits s w) =
      let plen : length prefix + length p ≡ 16 =
        omega (arith, ap length u, sixteen, length-append prefix p) in
      let (zs, front, back) =
        split_front (b ∷ bs) (left rest) p wire' (sym h ∙ e) (omega (arith, plen)) in
      let whole : uuid ≡ (prefix ++ b ∷ bs) ++ zs =
        u ∙ ap (λ t. prefix ++ t) front ∙ sym (append_assoc prefix (b ∷ bs) zs) in
      elim (Bool-cases (ltb (length (prefix ++ b ∷ bs)) 16)) [
        | inl short ↦ rw short (
          record {
            sound = s;
            sixteen = sixteen;
            rest = out;
            given = refl;
            later = inl (zs, wire', whole, (λ n. some_left zs whole short n), back, refl, c);
          },
          (omega (arith, shorter inner rest b bs h), w),
          omega (arith, shorter inner rest b bs h),
        )
        | inr full ↦
            let ulen : length uuid ≡ length (prefix ++ b ∷ bs) + length zs =
              ap length whole ∙ length-append (prefix ++ b ∷ bs) zs in
            let none : zs ≡ [] = nil_of_length zs (ground (arith, sixteen, ulen, full)) in
            let same : uuid ≡ prefix ++ b ∷ bs =
              whole ∙ ap (λ t. (prefix ++ b ∷ bs) ++ t) none ∙ append-nil (prefix ++ b ∷ bs) in
            let all : left rest ≡ wire' = back ∙ ap (λ t. t ++ wire') none in
            let done =
              on_state-Keeps rest (header []) out s
                (omega arith, subst (λ t. Carries t out) (sym all) c) in
            subst (λ res. Keeps (reader inner uuid prefix false (header []) []) out res)
              (sym (fill_prefix-full rest uuid prefix b bs (sym same) full))
              (Keeps-before (reader inner uuid prefix false (header []) [])
                (reader rest uuid uuid false (header []) []) out
                (on_state (reader rest uuid uuid false (header []) []) (header []))
                (omega (arith, shorter inner rest b bs h), w)
                (omega (arith, shorter inner rest b bs h)) done)
      ]
    where
      some_left :
          (zs : Bytes)
          → uuid ≡ (prefix ++ b ∷ bs) ++ zs
          → ltb (length (prefix ++ b ∷ bs)) 16 ≡ true
          → zs ≢ []
      some_left zs whole short n =
          let zlen : length zs ≡ 0 = ap length n in
          let ulen : length uuid ≡ length (prefix ++ b ∷ bs) + length zs =
            ap length whole ∙ length-append (prefix ++ b ∷ bs) zs in
          ground (arith, sixteen, ulen, zlen, short)

  -- Every round keeps the promise.
  pub round-Keeps :
      (inner : List Arrival) (prefix : Bytes) (raw : Bool) (state : ReadState) (output out : Bytes)
      (room : ℕ)
      → 0 < room
      → Expects (reader inner uuid prefix raw state output) out
      → Keeps
          (reader inner uuid prefix raw state output)
          out
          (round (reader inner uuid prefix raw state output) room)
  unfolding round
  round-Keeps inner prefix raw state (o ∷ output) out room pos e = rw some_output (
    drop k (o ∷ output) ++ e.rest,
    given,
    λ n. absurd (omega (arith, ap length n, length-take k (o ∷ output))),
    record { sound = e.sound; sixteen = sixteen; rest = e.rest; given = refl; later = e.later },
    (omega arith, omega arith),
  )
    where
      k : ℕ
      k = min (length (o ∷ output)) room

      some_output : (length (o ∷ output) == 0) ≡ false
      some_output = ground arith

      given : out ≡ take k (o ∷ output) ++ (drop k (o ∷ output) ++ e.rest)
      given =
          e.given
          ∙ ap (λ t. t ++ e.rest) (sym (take-append-drop k (o ∷ output)))
          ∙ append_assoc (take k (o ∷ output)) (drop k (o ∷ output)) e.rest
  round-Keeps inner prefix true state [] out room pos e =
      on_raw-Keeps uuid sixteen prefix state out (e.later ∙ sym e.given)
        (poll_inner-Finds room inner pos e.sound)
  round-Keeps inner prefix false state [] out room pos e = elim (later e.later) [
    | inl h ↦
        let (p, wire', u, some, w, st, c) = h in
        let early : ltb (length prefix) 16 ≡ true = begun p u some in
        let (f, rest) = poll_inner (16 - length prefix) inner in
        rw early (
          subst
            (λ x.
              Keeps (reader inner uuid prefix false x []) out
                (fill_prefix (reader rest uuid prefix false x []) f))
            (sym st)
            (fill_prefix-Keeps prefix out (p, wire', u, some, w, refl, c)
              (poll_inner-Finds (16 - length prefix) inner (ground (arith, early)) e.sound)))
    | inr h ↦
        let late : ltb (length prefix) 16 ≡ false = ground (arith, ap length h.0, sixteen) in
        rw late (
          subst
            (λ x.
              Keeps (reader inner uuid x false state []) out
                (on_state (reader inner uuid x false state []) state))
            (sym h.0) (on_state-Keeps inner state out e.sound h.1))
  ]
    where
      later :
          Later false prefix uuid state (left inner) e.rest
          → Later false prefix uuid state (left inner) out
      later h = subst (λ t. Later false prefix uuid state (left inner) t) (sym e.given) h

      begun : (p : Bytes) → uuid ≡ prefix ++ p → p ≢ [] → ltb (length prefix) 16 ≡ true
      begun p u some =
          let len : length uuid ≡ length prefix + length p = ap length u ∙ length-append prefix p in
          let left_over : length p ≢ 0 = λ n. some (nil_of_length p n) in
          ground (arith, len, left_over, sixteen)
