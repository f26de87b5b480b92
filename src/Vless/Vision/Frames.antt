-- ===== src/Vless/Vision/Frames.antt =====
-- src/vless/vision.rs: one frame.
use rust_xhttp.Common.{
  ℕ, ◌+◌, ◌-◌, ◌≤◌, ◌≡◌, Bool, true, ◌∷◌, ◌++◌, Option, Bytes, length, length-append,
  length-replicate, replicate, u16_be, ok, arith,
}
use rust_xhttp.Vless.Vision.{
  max_frame_content, known_command, or_empty, padding_len, frame_bytes, encode_frame,
}

-- The size of the padding.
padding_bound :
    (gen_range : ℕ → ℕ) (len : ℕ) (long : Bool)
    → padding_len gen_range len long ≤ max_frame_content - len
unfolding padding_len
padding_bound gen_range len long = omega arith

pub length-frame_bytes :
    (content : Bytes) (command : ℕ) (uuid : Option Bytes) (padding : ℕ)
    → length (frame_bytes content command uuid padding)
      ≡ length (or_empty uuid) + (5 + length content + padding)
unfolding frame_bytes
length-frame_bytes content command uuid padding =
    let zeros : Bytes = replicate padding 0 in
    let zeros_len : length zeros ≡ padding = length-replicate {A = ℕ} padding 0 in
    omega (
      arith,
      length-append (or_empty uuid)
          (command ∷ u16_be (length content) (u16_be padding (content ++ zeros))),
      length-append content zeros,
      zeros_len,
    )

-- Content of at most 8171 bytes is encoded under each of the three commands, and the frame, with a
-- UUID of at most 16 bytes or without, has at most 8192 bytes.
pub encode_frame_fits :
    (gen_range : ℕ → ℕ) (content : Bytes) (command : ℕ) (uuid : Option Bytes) (long : Bool)
    → length content ≤ max_frame_content
    → known_command command ≡ true
    → length (or_empty uuid) ≤ 16
    → (padding : ℕ) × (encode_frame gen_range content command uuid long
        ≡ ok (frame_bytes content command uuid padding))
      × (length (frame_bytes content command uuid padding) ≤ 8192)
unfolding encode_frame
encode_frame_fits gen_range content command uuid long h k u =
    let padding = padding_len gen_range (length content) long in
    (
      padding,
      ground (arith, h, k),
      omega (
        arith,
        length-frame_bytes content command uuid padding,
        padding_bound gen_range (length content) long,
      ),
    )
