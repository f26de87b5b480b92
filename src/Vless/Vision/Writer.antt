-- ===== src/Vless/Vision/Writer.antt =====
-- src/vless/vision.rs: the frame of a chunk, and a writer that pads.
use rust_xhttp.Common.{
  ℕ, ◌≤◌, ◌≡◌, refl, ap, Bool, true, false, not, [], ◌∷◌, Bytes, length, ok, if◌then◌else◌,
}
use rust_xhttp.Vless.Vision.{
  VisionWriter, max_frame_content, command_end, command_continue, known_command, or_empty,
  frame_bytes, chunks, chunk_frame, encode_chunks, encode, observe, ends,
}
use rust_xhttp.Vless.Vision.Frames.{encode_frame_fits}

abbrev pub command_of : Bool → ℕ
command_of last = if last then command_end else command_continue

pub command_of-known : (last : Bool) → known_command (command_of last) ≡ true
command_of-known true = refl
command_of-known false = refl

-- The frame of a chunk.
pub chunk_frame-frame_bytes :
    (gen_range : ℕ → ℕ → ℕ) (w : VisionWriter) (chunk : Bytes)
    → length chunk ≤ max_frame_content
    → length (or_empty w.uuid) ≤ 16
    → (padding : ℕ) × (chunk_frame gen_range w chunk
        ≡ ok (frame_bytes chunk (command_of (ends (observe w.filter chunk) chunk)) w.uuid padding))
      × (length
            (frame_bytes chunk (command_of (ends (observe w.filter chunk) chunk)) w.uuid padding)
          ≤ 8192)
unfolding chunk_frame
chunk_frame-frame_bytes gen_range w chunk h u =
    encode_frame_fits (gen_range w.draws) chunk (command_of (ends (observe w.filter chunk) chunk))
      w.uuid (observe w.filter chunk).is_tls h
      (command_of-known (ends (observe w.filter chunk) chunk)) u

pub encode-padding :
    (gen_range : ℕ → ℕ → ℕ) (w : VisionWriter) (bytes : Bytes)
    → w.padding ≡ true
    → encode gen_range w bytes
      ≡ encode_chunks gen_range w (chunks (length bytes) max_frame_content bytes)
unfolding encode
encode-padding gen_range w bytes pads =
    ap
      (λ p.
        if not p
        then (w, ok (bytes ∷ []))
        else encode_chunks gen_range w (chunks (length bytes) max_frame_content bytes))
      pads
