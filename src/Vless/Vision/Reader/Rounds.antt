-- ===== src/Vless/Vision/Reader/Rounds.antt =====
-- src/vless/vision.rs: a poll of the inner reader in the content, in the padding and behind them.
use rust_xhttp.Common.{
  ℕ, ◌-◌, ◌≤◌, ◌<◌, ◌≡◌, inr, refl, ap, sym, ◌∙◌, true, false, List, [], ◌∷◌, ◌++◌, Bytes, length,
  arith, length-append, append_assoc,
}
use rust_xhttp.Vless.Vision.Reader.{
  Arrival, Filled, ReadState, content, padding, fill_content, fill_padding, on_raw,
}
use rust_xhttp.Vless.Vision.Reader.Wire.{left, Finds, finds_end, finds_none, finds, split_front}
use rust_xhttp.Vless.Vision.Reader.Expecting.{InState, Keeps, reader, shorter}

module _ (uuid : Bytes) (sixteen : length uuid ≡ 16) where
  pub on_raw-Keeps :
      {inner rest : List Arrival} (prefix : Bytes) (state : ReadState) (out : Bytes) {f : Filled}
      {room : ℕ}
      → left inner ≡ out
      → Finds room inner f rest
      → Keeps
          (reader inner uuid prefix true state [])
          out
          (on_raw (reader rest uuid prefix true state []) f)
  unfolding on_raw
  on_raw-Keeps prefix state out e (finds_end h q) = (
    out,
    refl,
    λ _. sym e ∙ h,
    record {
      sound = rw q tt;
      sixteen = sixteen;
      rest = out;
      given = refl;
      later = rw q (sym h ∙ e);
    },
    rw q (omega arith, omega arith),
  )
  on_raw-Keeps prefix state out e (finds_none h s w) = (
    record { sound = s; sixteen = sixteen; rest = out; given = refl; later = h ∙ e },
    (omega (arith, ap length h), omega arith),
    w,
  )
  on_raw-Keeps {inner} {rest} prefix state out e (finds b bs h fits s w) = (
    left rest,
    sym e ∙ h,
    λ n. absurd (omega (arith, ap length n)),
    record { sound = s; sixteen = sixteen; rest = left rest; given = refl; later = refl },
    (omega (arith, shorter inner rest b bs h), w),
  )

  -- In the padding of a frame.
  pub fill_padding-Keeps :
      {inner rest : List Arrival} (n command : ℕ) (out : Bytes) {f : Filled} {room : ℕ}
      → 0 < n
      → room ≤ n
      → InState (padding n command) (left inner) out
      → Finds room inner f rest
      → Keeps
          (reader inner uuid uuid false (padding n command) [])
          out
          (fill_padding (reader rest uuid uuid false (padding n command) []) n command f)
  unfolding fill_padding
  fill_padding-Keeps n command out pos le (pad, wire', e, len, after) (finds_end h q) =
      absurd (omega (arith, ap length (sym e ∙ h), length-append pad wire', len))
  fill_padding-Keeps n command out pos le (pad, wire', e, len, after) (finds_none h s w) = (
    record {
      sound = s;
      sixteen = sixteen;
      rest = out;
      given = refl;
      later = inr (refl, (pad, wire', h ∙ e, len, after));
    },
    (omega (arith, ap length h), omega arith),
    w,
  )
  fill_padding-Keeps {inner} {rest} n command out pos le (pad, wire', e, len, after)
        (finds b bs h fits s w) =
      let (zs, front, back) =
        split_front (b ∷ bs) (left rest) pad wire' (sym h ∙ e) (omega arith) in
      let cut : length zs ≡ n - length (b ∷ bs) =
        omega (arith, ap length front, length-append (b ∷ bs) zs, len) in
      (
        record {
          sound = s;
          sixteen = sixteen;
          rest = out;
          given = refl;
          later = inr (refl, (zs, wire', back, cut, after));
        },
        (omega (arith, shorter inner rest b bs h), w),
        omega (arith, shorter inner rest b bs h),
      )

  -- In the content of a frame.
  pub fill_content-Keeps :
      {inner rest : List Arrival} (n padded command : ℕ) (out : Bytes) {f : Filled} {room : ℕ}
      → 0 < n
      → room ≤ n
      → InState (content n padded command) (left inner) out
      → Finds room inner f rest
      → Keeps (reader inner uuid uuid false (content n padded command) []) out (
          fill_content
            (reader rest uuid uuid false (content n padded command) [])
            n
            padded
            command
            f)
  unfolding fill_content
  fill_content-Keeps n padded command out pos le (body, pad, wire', out', e, len, plen, o, after)
        (finds_end h q) =
      absurd (omega (arith, ap length (sym e ∙ h), length-append body (pad ++ wire'), len))
  fill_content-Keeps n padded command out pos le (body, pad, wire', out', e, len, plen, o, after)
        (finds_none h s w) =
      (
        record {
          sound = s;
          sixteen = sixteen;
          rest = out;
          given = refl;
          later = inr (refl, (body, pad, wire', out', h ∙ e, len, plen, o, after));
        },
        (omega (arith, ap length h), omega arith),
        w,
      )
  fill_content-Keeps {inner} {rest} n padded command out pos le
        (body, pad, wire', out', e, len, plen, o, after) (finds b bs h fits s w) =
      let (zs, front, back) =
        split_front (b ∷ bs) (left rest) body (pad ++ wire') (sym h ∙ e) (omega arith) in
      let cut : length zs ≡ n - length (b ∷ bs) =
        omega (arith, ap length front, length-append (b ∷ bs) zs, len) in
      (
        record {
          sound = s;
          sixteen = sixteen;
          rest = zs ++ out';
          given = o ∙ ap (λ t. t ++ out') front ∙ append_assoc (b ∷ bs) zs out';
          later = inr (refl, (zs, pad, wire', out', back, cut, plen, refl, after));
        },
        (omega (arith, shorter inner rest b bs h), w),
        omega (arith, shorter inner rest b bs h),
      )
