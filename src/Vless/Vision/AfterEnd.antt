-- ===== src/Vless/Vision/AfterEnd.antt =====
-- src/vless/vision.rs: what the writer does behind the last padded frame.
use rust_xhttp.Common.{
  ℕ, zero, suc, ◌-◌, ◌≤◌, ◌<◌, ◌≡◌, refl, ap, subst, ◌∙◌, true, false, not, [], ◌∷◌, ◌++◌, none,
  Bytes, length, length-append, take-append, drop-append, take-all, drop-all, ok, arith,
  if◌then◌else◌,
}
use rust_xhttp.Vless.Vision.{
  VisionWriter, max_frame_content, command_end, or_empty, frame_bytes, chunks, push_frame,
  after_chunk, encode_chunks, encode, observe, ends,
}
use rust_xhttp.Vless.Vision.Writer.{command_of, chunk_frame-frame_bytes, encode-padding}

chunks-append :
    (fuel : ℕ) (xs ys : Bytes)
    → 0 < length xs
    → chunks (suc fuel) (length xs) (xs ++ ys) ≡ xs ∷ chunks fuel (length xs) ys
unfolding chunks
chunks-append fuel [] ys pos = absurd (omega arith)
chunks-append fuel (x ∷ xs) ys pos = rw (take-append xs ys, drop-append xs ys)

pub chunks_last :
    (fuel n : ℕ) (xs : Bytes) → 0 < length xs → length xs ≤ n → chunks (suc fuel) n xs ≡ xs ∷ []
unfolding chunks
chunks_last fuel n [] pos h = absurd (omega arith)
chunks_last zero n (x ∷ xs) pos h = rw (take-all n (x ∷ xs) h)
chunks_last (suc fuel) n (x ∷ xs) pos h = rw (take-all n (x ∷ xs) h, drop-all n (x ∷ xs) h)

chunks_two :
    (xs ys : Bytes)
    → length xs ≡ max_frame_content
    → 0 < length ys
    → length ys ≤ max_frame_content
    → chunks (length (xs ++ ys)) max_frame_content (xs ++ ys) ≡ xs ∷ ys ∷ []
chunks_two xs ys full pos h =
    let k = length (xs ++ ys) - 2 in
    let two : length (xs ++ ys) ≡ suc (suc k) = omega (arith, length-append xs ys) in
    ap (λ m. chunks m max_frame_content (xs ++ ys)) two
    ∙ subst (λ n. chunks (suc (suc k)) n (xs ++ ys) ≡ xs ∷ ys ∷ []) full
        (chunks-append (suc k) xs ys (omega arith)
          ∙ ap (◌∷◌ xs) (chunks_last k (length xs) ys pos (omega arith)))

chunks_one :
    (xs : Bytes) → length xs ≡ max_frame_content → chunks (length xs) max_frame_content xs ≡ xs ∷ []
chunks_one xs full =
    let one : length xs ≡ suc (length xs - 1) = omega arith in
    ap (λ m. chunks m max_frame_content xs) one
    ∙ chunks_last (length xs - 1) max_frame_content xs (omega arith) (omega arith)

pub encode-raw :
    (gen_range : ℕ → ℕ → ℕ) (w : VisionWriter) (bytes : Bytes)
    → w.padding ≡ false
    → encode gen_range w bytes ≡ (w, ok (bytes ∷ []))
unfolding encode
encode-raw gen_range w bytes raw =
    ap
      (λ p.
        if not p
        then (w, ok (bytes ∷ []))
        else encode_chunks gen_range w (chunks (length bytes) max_frame_content bytes))
      raw

module _ (gen_range : ℕ → ℕ → ℕ) (w : VisionWriter) (first second : Bytes) where
  module _ (u : length (or_empty w.uuid) ≤ 16) (small : length first ≤ max_frame_content) where
    writer_after_one : (encode_chunks gen_range w (first ∷ [])).0 ≡ after_chunk w first
    unfolding encode_chunks
    writer_after_one =
        let (p, made, fits) = chunk_frame-frame_bytes gen_range w first small u in
        rw (made, push_frame)

    frames_of_two :
        length second ≤ max_frame_content
        → ends (observe w.filter first) first ≡ true
        → (p : ℕ) × (q : ℕ) × (command : ℕ) × ((encode_chunks gen_range w (first ∷ second ∷ [])).1
            ≡ ok (frame_bytes first command_end w.uuid p ∷ frame_bytes second command none q ∷ []))
    unfolding encode_chunks after_chunk
    frames_of_two h last =
        let (p, made, fits) = chunk_frame-frame_bytes gen_range w first small u in
        let (q, made', fits') =
          chunk_frame-frame_bytes gen_range (after_chunk w first) second h (omega arith) in
        (
          p,
          q,
          command_of (ends (observe (after_chunk w first).filter second) second),
          rw (made, made', push_frame, last) refl,
        )

-- For a writer that still pads, with a UUID of at most 16 bytes, a first chunk of the full 8171 bytes
-- at which the filter ends the padding, and a second one of 1 to 8171 bytes: written in one call,
-- the second chunk is framed too, behind the frame with the command `End`; written in a second call,
-- it goes out as it is.
pub encode-frames_after_end :
    (gen_range : ℕ → ℕ → ℕ) (w : VisionWriter) (first second : Bytes)
    → w.padding ≡ true
    → length (or_empty w.uuid) ≤ 16
    → length first ≡ max_frame_content
    → 0 < length second
    → length second ≤ max_frame_content
    → ends (observe w.filter first) first ≡ true
    → (p : ℕ) × (q : ℕ) × (command : ℕ) × ((encode gen_range w (first ++ second)).1
        ≡ ok (frame_bytes first command_end w.uuid p ∷ frame_bytes second command none q ∷ []))
      × (encode gen_range (encode gen_range w first).0 second
          ≡ ((encode gen_range w first).0, ok (second ∷ [])))
encode-frames_after_end gen_range w first second pads u full pos h last =
    let small : length first ≤ max_frame_content = omega arith in
    let (p, q, command, made) = frames_of_two gen_range w first second u small h last in
    let both =
      encode-padding gen_range w (first ++ second) pads
      ∙ ap (encode_chunks gen_range w) (chunks_two first second full pos h) in
    let one =
      ap (λ r. r.0)
        (encode-padding gen_range w first pads
          ∙ ap (encode_chunks gen_range w) (chunks_one first full))
      ∙ writer_after_one gen_range w first second u small in
    let raw : (encode gen_range w first).0.padding ≡ false =
      ap (λ v. v.padding) one ∙ (unfold after_chunk in rw last) in
    (
      p,
      q,
      command,
      ap (λ r. r.1) both ∙ made,
      encode-raw gen_range (encode gen_range w first).0 second raw,
    )
