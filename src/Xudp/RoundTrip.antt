-- ===== src/Xudp/RoundTrip.antt =====
-- src/xudp.rs: reading back what was encoded.
use rust_xhttp.Common.{
  ℕ, ◌≤◌, ◌<◌, ◌≡◌, ◌≢◌, ◌∙◌, true, false, [], ◌∷◌, ◌++◌, Option, none, some, Bytes, IsU16, ◌⊎◌, ok,
  length, u16_be, u16_of, arith, drop-append, length-append, take-all, append_assoc, u16_of-be,
}
use rust_xhttp.Common.Utf8.{read_exact-append}
use rust_xhttp.Vless.Address.{write_port_then_address, IsEncodable}
use rust_xhttp.Vless.Address.RoundTrip.{parse-write, length-write_le}
use rust_xhttp.Xudp.{
  Frame, Target, has_data, known_status, read_metadata, read_payload, read_frame,
  read_plain_datagram, target_bytes, metadata_bytes, payload_bytes, encode_frame,
  encode_plain_datagram, read_global_id, global_id_bytes,
}

-- A datagram of less than 2^16 bytes is encoded, and read back with what follows it left alone.
pub read-encode_plain :
    (payload rest : Bytes)
    → length payload < 65536
    → (out : Bytes) × (encode_plain_datagram payload ≡ ok out)
      × (read_plain_datagram (out ++ rest) ≡ ok (payload, rest))
unfolding encode_plain_datagram read_plain_datagram
read-encode_plain payload rest h = (
  u16_be (length payload) payload,
  ground arith,
  rw (u16_of-be (length payload) h, read_exact-append payload rest),
)

abbrev GlobalIdFits : ℕ → ℕ → Option Bytes → Type 0
GlobalIdFits status option none = Unit {0}
GlobalIdFits status option (some id) = (status ≡ 1) × (has_data option ≡ true) × (length id ≡ 8)

-- Which targets the frame of a status carries: a New frame has one, a Keep frame may have one, and
-- only a New frame with data carries a global id, of eight bytes.
abbrev pub TargetFits : ℕ → ℕ → Option Target → Option Bytes → Type 0
TargetFits status option none global_id = (status ≢ 1) × (global_id ≡ none)
TargetFits status option (some t) global_id =
    ((status ≡ 1) ⊎ (status ≡ 2))
    × IsU16 t.port
    × IsEncodable t.address
    × GlobalIdFits status option global_id

pub record IsFrame (f : Frame) : Type 0 where
  pub session_fits : IsU16 f.session_id
  pub status_known : known_status f.status ≡ true
  pub target_fits : TargetFits f.status f.option f.target f.global_id
  pub payload_fits : length f.payload < 65536
  pub payload_flagged : has_data f.option ≡ false → f.payload ≡ []

read_global_id-bytes :
    (status option : ℕ) (gid : Option Bytes)
    → GlobalIdFits status option gid
    → read_global_id status option (global_id_bytes status gid) ≡ gid
unfolding read_global_id
read_global_id-bytes status option none h = ground arith
read_global_id-bytes status option (some id) h = ground (arith, take-all 8 id)

read_metadata-bytes :
    (a b status option : ℕ) (t : Option Target) (gid : Option Bytes)
    → TargetFits status option t gid
    → read_metadata status option (a ∷ b ∷ status ∷ option ∷ target_bytes status t gid)
      ≡ ok (t, gid)
unfolding read_metadata target_bytes
read_metadata-bytes a b status option none gid h = ground arith
read_metadata-bytes a b status option (some t) gid h = ground (
  arith,
  parse-write t.port t.address (global_id_bytes status gid) h.1 h.2,
  drop-append (write_port_then_address [] t.port t.address) (global_id_bytes status gid),
  read_global_id-bytes status option gid h.3,
)

length-global_id_bytes :
    (status option : ℕ) (gid : Option Bytes)
    → GlobalIdFits status option gid
    → length (global_id_bytes status gid) ≤ 8
length-global_id_bytes status option none h = omega arith
length-global_id_bytes status option (some id) h = ground arith

-- The length check of `encode_frame` never refuses a frame whose parts fit.
length-target_bytes :
    (status option : ℕ) (t : Option Target) (gid : Option Bytes)
    → TargetFits status option t gid
    → length (target_bytes status t gid) ≤ 268
unfolding target_bytes
length-target_bytes status option none gid h = omega arith
length-target_bytes status option (some t) gid h = omega (
  arith,
  length-append (write_port_then_address [] t.port t.address) (global_id_bytes status gid),
  length-write_le t.port t.address h.2,
  length-global_id_bytes status option gid h.3,
)

read_payload-bytes :
    (option : ℕ) (payload rest : Bytes)
    → length payload < 65536
    → (has_data option ≡ false → payload ≡ [])
    → read_payload option (payload_bytes option payload ++ rest) ≡ ok (payload, rest)
unfolding read_payload payload_bytes
read_payload-bytes option payload rest h flagged =
    ground (arith, u16_of-be (length payload) h, read_exact-append payload rest)

read_frame-parts :
    (s0 s1 status option : ℕ) (t p payload rest : Bytes) (target : Option Target)
    (gid : Option Bytes)
    → length t ≤ 268
    → known_status status ≡ true
    → read_metadata status option (s0 ∷ s1 ∷ status ∷ option ∷ t) ≡ ok (target, gid)
    → read_payload option p ≡ ok (payload, rest)
    → read_frame
        (u16_be (length (s0 ∷ s1 ∷ status ∷ option ∷ t)) (s0 ∷ s1 ∷ status ∷ option ∷ (t ++ p)))
      ≡ ok (
        record {
          session_id = u16_of s0 s1;
          status = status;
          option = option;
          target = target;
          global_id = gid;
          payload = payload;
        },
        rest,
      )
unfolding read_frame
read_frame-parts s0 s1 status option t p payload rest target gid short known meta pay =
    rw (u16_of-be (length (s0 ∷ s1 ∷ status ∷ option ∷ t)) (omega arith))
      (ground (arith, read_exact-append (s0 ∷ s1 ∷ status ∷ option ∷ t) p))

module _ (f : Frame) (h : IsFrame f) where
  metadata_fits : length (metadata_bytes f) ≤ 272
  unfolding metadata_bytes
  metadata_fits =
      omega (arith, length-target_bytes f.status f.option f.target f.global_id h.target_fits)

  -- A frame whose parts fit is encoded, and reading the encoding gives the frame back and leaves
  -- what follows it.
  pub read_frame-encode_frame :
      (rest : Bytes)
      → (out : Bytes) × (encode_frame f ≡ ok out) × (read_frame (out ++ rest) ≡ ok (f, rest))
  unfolding encode_frame
  read_frame-encode_frame rest = (
    u16_be (length (metadata_bytes f)) (metadata_bytes f ++ payload_bytes f.option f.payload),
    ground (arith, metadata_fits, h.payload_fits),
    rw append_assoc (
        read_frame-parts _ _ f.status f.option (target_bytes f.status f.target f.global_id)
          (payload_bytes f.option f.payload ++ rest) f.payload rest f.target f.global_id
          (length-target_bytes f.status f.option f.target f.global_id h.target_fits) h.status_known
          (read_metadata-bytes _ _ f.status f.option f.target f.global_id h.target_fits)
          (read_payload-bytes f.option f.payload rest h.payload_fits h.payload_flagged)
        ∙ rw (u16_of-be f.session_id h.session_fits)),
  )
