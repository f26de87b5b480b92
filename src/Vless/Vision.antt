-- ===== src/Vless/Vision.antt =====
-- src/vless/vision.rs: the frames and the writer. The random numbers are a parameter: `gen_range k n`
-- is what the k-th call of `gen_range(0..n)` gives, and the writer counts its calls. The writer's
-- `encode` changes the writer also where it fails, so that it gives the writer and the result.
pub mod Frames
pub mod Writer
pub mod AfterEnd
pub mod Reader
pub mod Pipe
use rust_xhttp.Common.{
  ℕ, zero, suc, ◌+◌, ◌-◌, min, Bool, true, false, List, [], ◌∷◌, ◌++◌, Option, none, some, Bytes,
  if◌then◌else◌, ◌==◌, ltb, leb, not, ◌&&◌, ◌||◌, length, take, drop, replicate, get_or, u16_be,
  Result, ok, err, ◌>>=◌, ◌>>◌, guard,
}

abbrev pub command_continue : ℕ
command_continue = 0

abbrev pub command_end : ℕ
command_end = 1

abbrev pub command_direct : ℕ
command_direct = 2

abbrev pub max_frame_content : ℕ
max_frame_content = 8192 - 21

pub data VisionError : Type 0 where
  bad_command : ℕ → VisionError
  content_length : ℕ → VisionError

abbrev pub known_command : ℕ → Bool
known_command c = c == command_continue || c == command_end || c == command_direct

abbrev pub or_empty : Option Bytes → Bytes
or_empty none = []
or_empty (some uuid) = uuid

-- `padding_len`, from the random numbers below 500 and below 256.
unfoldable pub padding_len : (ℕ → ℕ) → ℕ → Bool → ℕ
padding_len gen_range len long_padding =
    let wanted = if ltb len 900 && long_padding then gen_range 500 + 900 - len else gen_range 256 in
    min wanted (max_frame_content - len)

-- The bytes of a frame.
unfoldable pub frame_bytes : Bytes → ℕ → Option Bytes → ℕ → Bytes
frame_bytes content command user_uuid padding =
    or_empty user_uuid
    ++ command ∷ u16_be (length content) (u16_be padding (content ++ replicate padding 0))

unfoldable pub encode_frame : (ℕ → ℕ) → Bytes → ℕ → Option Bytes → Bool → Result VisionError Bytes
encode_frame gen_range content command user_uuid long_padding = do
  guard (known_command command) (bad_command command)
  guard (not (ltb max_frame_content (length content) || ltb 65535 (length content)))
      (content_length (length content))
  ok (frame_bytes content command user_uuid (padding_len gen_range (length content) long_padding))

pub record TlsFilter : Type 0 where
  pub packets_left : ℕ
  pub is_tls : Bool

-- `TlsFilter::observe`
unfoldable pub observe : TlsFilter → Bytes → TlsFilter
observe f data' = record {
  packets_left = f.packets_left - 1;
  is_tls =
      f.is_tls
      || leb 6 (length data')
        && ((get_or data' 0 0 == 0x16 && get_or data' 1 0 == 0x03)
            || (get_or data' 0 0 == 0x17 && get_or data' 1 0 == 0x03 && get_or data' 2 0 == 0x03));
}

pub record VisionWriter : Type 0 where
  pub uuid : Option Bytes
  pub filter : TlsFilter
  pub padding : Bool
  pub draws : ℕ

unfoldable pub new_writer : Bytes → VisionWriter
new_writer uuid = record {
  uuid = some uuid;
  filter = record { packets_left = 8; is_tls = false };
  padding = true;
  draws = 0;
}

-- `slice::chunks`, with as many chunks at most as `fuel`.
unfoldable pub chunks : ℕ → ℕ → Bytes → List Bytes
chunks zero n data' = []
chunks (suc fuel) n [] = []
chunks (suc fuel) n (b ∷ data') = take n (b ∷ data') ∷ chunks fuel n (drop n (b ∷ data'))

abbrev pub is_application_data : Bytes → Bool
is_application_data chunk =
    leb 5 (length chunk)
    && get_or chunk 0 0 == 0x17
    && get_or chunk 1 0 == 0x03
    && get_or chunk 2 0 == 0x03

-- Whether the chunk that the filter has just seen is the last one to be padded.
unfoldable pub ends : TlsFilter → Bytes → Bool
ends filter chunk = (filter.is_tls && is_application_data chunk) || filter.packets_left == 0

-- The writer after a chunk.
unfoldable pub after_chunk : VisionWriter → Bytes → VisionWriter
after_chunk w chunk =
    let filter = observe w.filter chunk in
    record {
      uuid = none;
      filter = filter;
      padding = if ends filter chunk then false else w.padding;
      draws = suc w.draws;
    }

-- The frame of a chunk.
unfoldable pub chunk_frame : (ℕ → ℕ → ℕ) → VisionWriter → Bytes → Result VisionError Bytes
chunk_frame gen_range w chunk =
    let filter = observe w.filter chunk in
    encode_frame (gen_range w.draws) chunk
      (if ends filter chunk then command_end else command_continue) w.uuid filter.is_tls

unfoldable pub push_frame :
    VisionWriter
    → Result VisionError Bytes
    → VisionWriter × Result VisionError (List Bytes)
    → VisionWriter × Result VisionError (List Bytes)
push_frame w (err e) rest = (w, err e)
push_frame w (ok frame) (w', err e) = (w', err e)
push_frame w (ok frame) (w', ok frames) = (w', ok (frame ∷ frames))

unfoldable pub encode_chunks :
    (ℕ → ℕ → ℕ) → VisionWriter → List Bytes → VisionWriter × Result VisionError (List Bytes)
unfolding push_frame
encode_chunks gen_range w [] = (w, ok [])
encode_chunks gen_range w (chunk ∷ rest) =
    push_frame (after_chunk w chunk) (chunk_frame gen_range w chunk)
      (encode_chunks gen_range (after_chunk w chunk) rest)

-- `VisionWriter::encode`
unfoldable pub encode :
    (ℕ → ℕ → ℕ) → VisionWriter → Bytes → VisionWriter × Result VisionError (List Bytes)
unfolding chunks
encode gen_range w data' =
    if not w.padding
    then (w, ok (data' ∷ []))
    else encode_chunks gen_range w (chunks (length data') max_frame_content data')
