-- ===== src/Origin/Frames.antt =====
-- src/origin.rs: the payload that is read from the frames of a body.
use rust_xhttp.Common.{
  ℕ, ◌+◌, ◌≤◌, ◌<◌, ◌^◌, ◌≡◌, refl, ap, ◌∙◌, true, false, if◌then◌else◌, leb, ltb, List, [], ◌∷◌,
  ◌++◌, Option, none, some, Bytes, length, All, Result, ok, err, arith, Bool-cases, inl, inr,
  length-append, append-nil, append_assoc,
}
use rust_xhttp.Config.{XhttpConfig}
use rust_xhttp.Origin.{Frame, data_frame, trailers, failed}
use rust_xhttp.Origin.Payload.{
  UploadPayloadError, too_large, Reading, kept, taken, read_frames, nothing_read, read_body_payload,
}

-- The data of all frames, one after the other.
abbrev pub data_of : List Frame → Bytes
data_of [] = []
data_of (data_frame bytes ∷ frames) = bytes ++ data_of frames
data_of (trailers ∷ frames) = data_of frames
data_of (failed ∷ frames) = data_of frames

abbrev pub IsIntact : Frame → Type 0
IsIntact (data_frame bytes) = Unit {0}
IsIntact trailers = Unit {0}
IsIntact failed = ⊥

-- The data, if it is within the limit.
abbrev pub limited : ℕ → Bytes → Result UploadPayloadError Bytes
limited limit bytes = if ltb limit (length bytes) then err too_large else ok bytes

taken-kept :
    (first combined : Option Bytes) (total : ℕ) (bytes : Bytes)
    → (taken (kept first combined total bytes).first (kept first combined total bytes).combined
        ≡ taken first combined ++ bytes)
      × ((kept first combined total bytes).total ≡ total)
taken-kept first (some payload) total bytes = (refl, refl)
taken-kept (some initial) none total bytes = (refl, refl)
taken-kept none none total bytes = (refl, refl)

read_frames-limited :
    (limit : ℕ) (r : Reading) (frames : List Frame)
    → limit < 2 ^ 64
    → r.total ≡ length (taken r.first r.combined)
    → r.total ≤ limit
    → All IsIntact frames
    → read_frames limit r frames ≡ limited limit (taken r.first r.combined ++ data_of frames)
unfolding read_frames
read_frames-limited limit r [] small same fits h =
    let inside : ltb limit (length (taken r.first r.combined)) ≡ false = ground arith in
    rw (append-nil (taken r.first r.combined), inside) refl
read_frames-limited limit r (failed ∷ frames) small same fits h = absurd h.0
read_frames-limited limit r (trailers ∷ frames) small same fits h =
    read_frames-limited limit r frames small same fits h.1
read_frames-limited limit r (data_frame [] ∷ frames) small same fits h =
    read_frames-limited limit r frames small same fits h.1
read_frames-limited limit r (data_frame (b ∷ bytes) ∷ frames) small same fits h =
    let before = taken r.first r.combined in
    let total : ℕ = r.total + length (b ∷ bytes) in
    let next = kept r.first r.combined total (b ∷ bytes) in
    let (joined, counted) = taken-kept r.first r.combined total (b ∷ bytes) in
    let l1 = length-append before ((b ∷ bytes) ++ data_of frames) in
    let l2 = length-append (b ∷ bytes) (data_of frames) in
    elim (Bool-cases (ltb limit total)) [
      | inl over ↦
          let beyond : ltb limit (length (before ++ ((b ∷ bytes) ++ data_of frames))) ≡ true =
            ground (arith, over, l1, l2) in
          elim (Bool-cases (leb (2 ^ 64) total)) [
            | inl wraps ↦ rw (wraps, beyond) refl
            | inr counts ↦ rw (counts, over, beyond) refl
          ]
      | inr under ↦
          let counts : leb (2 ^ 64) total ≡ false = ground (arith, under) in
          rw (counts, under)
            (read_frames-limited limit next frames small
                (counted ∙ omega (arith, ap length joined, length-append before (b ∷ bytes)))
                (omega (arith, counted, under_le under)) h.1
              ∙ ap (limited limit) (
                  ap (λ t. t ++ data_of frames) joined
                  ∙ append_assoc before (b ∷ bytes) (data_of frames)))
    ]
  where
    under_le : {m n : ℕ} → ltb m n ≡ false → n ≤ m
    under_le e = ground arith

-- A body whose frames all arrive is read as the data of its frames, one after the other, if this is
-- within the configured limit, and else it is too large; the limit is below 2^64.
pub read_body_payload-limited :
    (x : XhttpConfig) (frames : List Frame)
    → x.max_each_post_bytes < 2 ^ 64
    → All IsIntact frames
    → read_body_payload x frames ≡ limited x.max_each_post_bytes (data_of frames)
unfolding read_body_payload
read_body_payload-limited x frames small h =
    read_frames-limited x.max_each_post_bytes nothing_read frames small refl (omega arith) h
