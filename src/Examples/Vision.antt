-- ===== src/Examples/Vision.antt =====
-- Runs of src/vless/vision.rs.
use rust_xhttp.Common.{
  ℕ, ◌≡◌, refl, ap, some, [], ◌∷◌, ◌++◌, none, Bytes, true, arith, ok, replicate, length,
  length-replicate,
}
use rust_xhttp.Vless.Vision.{
  new_writer, encode, encode_chunks, chunk_frame, encode_frame, frame_bytes, padding_len, observe,
  ends, after_chunk, push_frame, chunks, command_end,
}
use rust_xhttp.Vless.Vision.Reader.{
  Arrival, arrived, not_yet, VisionReader, Round, returns, waits, new_reader, poll_read,
  after_round, round, on_state, fill_prefix, fill_header, on_header, fill_content, fill_padding,
  on_raw, poll_inner,
}
use rust_xhttp.Common.{List, zero, suc}
use rust_xhttp.Vless.Vision.Reader.Wire.{last}
use rust_xhttp.Vless.Vision.Reader.Whole.{read_to_end, read_to_end-Carries}
use rust_xhttp.Vless.Vision.Pipe.{transfer, transfer-concat}
use rust_xhttp.Vless.Vision.AfterEnd.{encode-frames_after_end}

-- The random numbers of the runs.
abbrev always_two : ℕ → ℕ → ℕ
always_two k n = 2

abbrev client : Bytes
client = replicate 16 7

abbrev hello : Bytes
hello = b'h' ∷ b'i' ∷ []

hello_frames :
    (encode always_two (new_writer client) hello).1
    ≡ ok ((client ++ 0 ∷ 0 ∷ 2 ∷ 0 ∷ 2 ∷ b'h' ∷ b'i' ∷ 0 ∷ 0 ∷ []) ∷ [])
unfolding encode encode_chunks chunk_frame encode_frame frame_bytes padding_len observe ends
    after_chunk push_frame chunks new_writer
hello_frames = refl

-- A record of TLS application data that fills a chunk.
abbrev record_start : Bytes
record_start = 0x17 ∷ 3 ∷ 3 ∷ 0x1f ∷ 0xe6 ∷ 0 ∷ replicate 8165 0

record_start_full : length record_start ≡ 8171
record_start_full = omega (arith, length-replicate {A = ℕ} 8165 0)

record_start-ends : ends (observe (new_writer client).filter record_start) record_start ≡ true
unfolding ends observe new_writer
record_start-ends = refl

encode-frames_after_end_example :
    (p : ℕ) × (q : ℕ) × (command : ℕ) × ((encode always_two
        (new_writer client)
        (record_start ++ hello)).1
      ≡ ok (
          frame_bytes record_start command_end (some client) p
          ∷ frame_bytes hello command none q
          ∷ []))
    × (encode always_two (encode always_two (new_writer client) record_start).0 hello
        ≡ ((encode always_two (new_writer client) record_start).0, ok (hello ∷ [])))
unfolding new_writer
encode-frames_after_end_example =
    encode-frames_after_end always_two (new_writer client) record_start hello refl (omega arith)
      record_start_full (omega arith) (omega arith) record_start-ends

-- A frame with the command `End` and one byte of padding, in three pieces, and a tail.
abbrev pieces : List Arrival
pieces =
    arrived (replicate 9 7)
    ∷ not_yet
    ∷ arrived (replicate 7 7 ++ 1 ∷ 0 ∷ [])
    ∷ arrived (2 ∷ 0 ∷ 1 ∷ b'h' ∷ [])
    ∷ arrived (b'i' ∷ 0 ∷ b'!' ∷ [])
    ∷ []

-- The results of a number of polls, each with room for 100 bytes.
abbrev polls : ℕ → VisionReader → List Round
polls zero r = []
polls (suc n) r = let (r', result) = poll_read 10 r 100 in result ∷ polls n r'

pieces-polls :
    polls 5 (new_reader pieces client)
    ≡ waits ∷ returns (b'h' ∷ []) ∷ returns (b'i' ∷ []) ∷ returns (b'!' ∷ []) ∷ returns [] ∷ []
unfolding new_reader poll_read after_round round on_state fill_prefix fill_header on_header
    fill_content fill_padding on_raw poll_inner
pieces-polls = refl

-- The same pieces, read to their end.
read_to_end-Carries_example :
    read_to_end 6 107 100 (new_reader pieces client) ≡ some (b'h' ∷ b'i' ∷ b'!' ∷ [])
read_to_end-Carries_example =
    read_to_end-Carries client (1 ∷ 0 ∷ 2 ∷ 0 ∷ 1 ∷ b'h' ∷ b'i' ∷ 0 ∷ b'!' ∷ [])
      (b'h' ∷ b'i' ∷ b'!' ∷ []) pieces 6 107 100 refl
      (
        (λ e. absurd (omega (arith, ap length e))),
        (
          tt,
          (
            (λ e. absurd (omega (arith, ap length e))),
            (
              (λ e. absurd (omega (arith, ap length e))),
              ((λ e. absurd (omega (arith, ap length e))), tt),
            ),
          ),
        ),
      )
      refl
      (last command_end (b'h' ∷ b'i' ∷ []) (0 ∷ []) (b'!' ∷ []) refl refl (omega arith)
        (omega arith) refl refl)
      (omega arith) (omega arith) (omega arith)

transfer-concat_example :
    transfer always_two client (hello ∷ hello ∷ []) (some 3 ∷ none ∷ some 20 ∷ []) 8 100
    ≡ some (hello ++ hello)
transfer-concat_example =
    transfer-concat always_two client hello (hello ∷ []) (some 3 ∷ none ∷ some 20 ∷ []) 8 100 refl
      (omega arith, omega arith) ((omega arith, omega arith), tt) (omega arith) (omega arith)
