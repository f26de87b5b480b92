-- ===== src/Vless/Vision/Reader/Headers.antt =====
-- src/vless/vision.rs: the header of a frame, in any pieces.
use rust_xhttp.Common.{
  ℕ, ◌-◌, ◌≤◌, ◌<◌, ◌≡◌, inr, refl, ap, ap₂, sym, subst, ◌∙◌, true, false, List, [], ◌∷◌, ◌++◌,
  Bytes, length, All, arith, u16_of, u16_of-be, IsU16, length-append, append_assoc, append-nil,
}
use rust_xhttp.Vless.Vision.{known_command, command_continue}
use rust_xhttp.Vless.Vision.Reader.{Arrival, Filled, header, continues, on_header, fill_header}
use rust_xhttp.Vless.Vision.Reader.Wire.{
  Carries, nothing, more, last, frame, After, left, waiting, IsSound, Finds, finds_end, finds_none,
  finds,
}
use rust_xhttp.Vless.Vision.Reader.Expecting.{InState, Keeps, reader, shorter}

-- Fewer than five bytes are no frame.
no_header : (bytes out : Bytes) → length bytes < 5 → Carries bytes out → out ≡ []
no_header bytes out lt (nothing e o) = o
no_header bytes out lt (more body pad wire' out' hb hp e o c) = absurd (omega (arith, ap length e))
no_header bytes out lt (last command body pad tail known stops hb hp e o) =
    absurd (omega (arith, ap length e))

module _ (uuid : Bytes) (sixteen : length uuid ≡ 16) where
  -- In a header: the bytes of a wire are those of a frame.
  header_of :
      (bytes wire out : Bytes)
      → 0 < length (bytes ++ wire)
      → Carries (bytes ++ wire) out
      → (command : ℕ) × (body : Bytes) × (pad : Bytes) × (wire' : Bytes) × (out' : Bytes)
        × (known_command command ≡ true)
        × IsU16 (length body)
        × IsU16 (length pad)
        × (bytes ++ wire ≡ frame command body pad ++ wire')
        × (out ≡ body ++ out')
        × After command wire' out'
  header_of bytes wire out pos (nothing e o) = absurd (omega (arith, ap length e))
  header_of bytes wire out pos (more body pad wire' out' hb hp e o c) =
      (command_continue, body, pad, wire', out', refl, hb, hp, e, o, c)
  header_of bytes wire out pos (last command body pad tail known stops hb hp e o) =
      (command, body, pad, tail, tail, known, hb, hp, e, o, rw stops refl)

  -- A header that has got more bytes, when some have arrived.
  on_header-Keeps :
      (inner rest : List Arrival) (bytes bytes' out : Bytes)
      → All IsSound rest
      → length (left rest) < length (left inner)
      → waiting rest ≤ waiting inner
      → 0 < length bytes'
      → length bytes' ≤ 5
      → Carries (bytes' ++ left rest) out
      → Keeps
          (reader inner uuid uuid false (header bytes) [])
          out
          (on_header (reader rest uuid uuid false (header bytes) []) bytes')
  unfolding on_header
  on_header-Keeps inner rest bytes bytes' out s fewer w pos le c = keeps bytes' pos le c
    where
      partly :
          (bs : Bytes)
          → length bs < 5
          → Carries (bs ++ left rest) out
          → Keeps
              (reader inner uuid uuid false (header bytes) [])
              out
              (reader rest uuid uuid false (header bs) [], continues)
      partly bs lt c = (
        record {
          sound = s;
          sixteen = sixteen;
          rest = out;
          given = refl;
          later = inr (refl, (lt, c));
        },
        (omega arith, w),
        omega arith,
      )

      keeps :
          (bs : Bytes)
          → 0 < length bs
          → length bs ≤ 5
          → Carries (bs ++ left rest) out
          → Keeps
              (reader inner uuid uuid false (header bytes) [])
              out
              (on_header (reader rest uuid uuid false (header bytes) []) bs)
      keeps [] pos le c = absurd (omega arith)
      keeps (a1 ∷ []) pos le c = partly (a1 ∷ []) (omega arith) c
      keeps (a1 ∷ a2 ∷ []) pos le c = partly (a1 ∷ a2 ∷ []) (omega arith) c
      keeps (a1 ∷ a2 ∷ a3 ∷ []) pos le c = partly (a1 ∷ a2 ∷ a3 ∷ []) (omega arith) c
      keeps (a1 ∷ a2 ∷ a3 ∷ a4 ∷ []) pos le c = partly (a1 ∷ a2 ∷ a3 ∷ a4 ∷ []) (omega arith) c
      keeps (a1 ∷ a2 ∷ a3 ∷ a4 ∷ a5 ∷ []) pos le c =
          let (command, body, pad, wire', out', known, hb, hp, e, o, after) =
            header_of (a1 ∷ a2 ∷ a3 ∷ a4 ∷ a5 ∷ []) (left rest) out (omega arith) c in
          let e1 : a1 ≡ command = cc e in
          let e2 : u16_of a2 a3 ≡ length body =
            ap₂ u16_of (cc e) (cc e) ∙ u16_of-be (length body) hb in
          let e4 : u16_of a4 a5 ≡ length pad =
            ap₂ u16_of (cc e) (cc e) ∙ u16_of-be (length pad) hp in
          let behind : left rest ≡ (body ++ pad) ++ wire' = cc e in
          rw (ap known_command e1 ∙ known) (
            record {
              sound = s;
              sixteen = sixteen;
              rest = out;
              given = refl;
              later = inr (
                refl,
                (
                  body,
                  pad,
                  wire',
                  out',
                  behind ∙ append_assoc body pad wire',
                  sym e2,
                  sym e4,
                  o,
                  subst (λ k. After k wire' out') (sym e1) after,
                ),
              );
            },
            (omega arith, w),
            omega arith,
          )
      keeps (a1 ∷ a2 ∷ a3 ∷ a4 ∷ a5 ∷ a6 ∷ bs) pos le c = absurd (omega arith)

  pub fill_header-Keeps :
      {inner rest : List Arrival} (bytes out : Bytes) {f : Filled}
      → InState (header bytes) (left inner) out
      → Finds (5 - length bytes) inner f rest
      → Keeps
          (reader inner uuid uuid false (header bytes) [])
          out
          (fill_header (reader rest uuid uuid false (header bytes) []) bytes f)
  unfolding fill_header
  fill_header-Keeps {inner} bytes out (lt, c) (finds_end h q) =
      let nil =
        no_header bytes out lt
          (subst (λ t. Carries t out) (ap (λ t. bytes ++ t) h ∙ append-nil bytes) c) in
      (
        out,
        refl,
        λ _. nil,
        record {
          sound = rw q tt;
          sixteen = sixteen;
          rest = out;
          given = refl;
          later = rw q (inr (refl, (lt, subst (λ t. Carries (bytes ++ t) out) h c)));
        },
        rw q (omega arith, omega arith),
      )
  fill_header-Keeps {inner} {rest} bytes out (lt, c) (finds_none h s w) = (
    record {
      sound = s;
      sixteen = sixteen;
      rest = out;
      given = refl;
      later = inr (refl, (lt, subst (λ t. Carries (bytes ++ t) out) (sym h) c));
    },
    (omega (arith, ap length h), omega arith),
    w,
  )
  fill_header-Keeps {inner} {rest} bytes out (lt, c) (finds b bs h fits s w) =
      on_header-Keeps inner rest bytes (bytes ++ b ∷ bs) out s
        (omega (arith, shorter inner rest b bs h)) w (omega (arith, length-append bytes (b ∷ bs)))
        (omega (arith, length-append bytes (b ∷ bs)))
        (subst (λ t. Carries t out)
          (ap (λ t. bytes ++ t) h ∙ sym (append_assoc bytes (b ∷ bs) (left rest))) c)
