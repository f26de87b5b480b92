-- ===== src/Vless/Vision/Pipe.antt =====
-- src/vless/vision.rs: the writer at one end, the reader at the other.
use rust_xhttp.Common.{
  ℕ, suc, ◌+◌, ◌*◌, ◌-◌, ◌≤◌, ◌<◌, ◌≡◌, refl, ap, sym, ◌∙◌, Bool, true, false, List, [], ◌∷◌, ◌++◌,
  Option, none, some, Bytes, length, concat, take, drop, All, Result, ok, err, arith, IsU16,
  append-nil, append_assoc, take-append-drop, replicate, length-replicate, u16_be, Bool-cases, inl,
  inr,
}
use rust_xhttp.Vless.Vision.{
  VisionWriter, VisionError, new_writer, max_frame_content, command_end, command_continue, or_empty,
  frame_bytes, push_frame, chunks, after_chunk, encode_chunks, encode, observe, ends,
}
use rust_xhttp.Vless.Vision.Frames.{length-frame_bytes}
use rust_xhttp.Vless.Vision.Writer.{command_of, chunk_frame-frame_bytes, encode-padding}
use rust_xhttp.Vless.Vision.AfterEnd.{chunks_last, encode-raw}
use rust_xhttp.Vless.Vision.Reader.{Arrival, arrived, not_yet, new_reader}
use rust_xhttp.Vless.Vision.Reader.Wire.{
  Carries, nothing, more, last, frame, left, waiting, IsSound,
}
use rust_xhttp.Vless.Vision.Reader.Whole.{read_to_end, read_to_end-Carries}

-- `send`: the bytes that go out for a number of writes, each into one call of the writer.
unfoldable pub sent :
    VisionWriter × Result VisionError (List Bytes) → (VisionWriter → Option Bytes) → Option Bytes
sent (w, err e) again = none
sent (w, ok frames) again = elim (again w) [
  | none ↦ none
  | some wire ↦ some (concat frames ++ wire)
]

unfoldable pub send : (ℕ → ℕ → ℕ) → VisionWriter → List Bytes → Option Bytes
send gen_range w [] = some []
send gen_range w (bytes ∷ rest) = sent (encode gen_range w bytes) (λ w'. send gen_range w' rest)

-- `cut`: a wire that arrives in pieces: a number is how many bytes come after the first one, `none`
-- is a poll that finds no bytes yet, and the last piece is what is left.
unfoldable pub cut : List (Option ℕ) → Bytes → List Arrival
cut plan [] = []
cut [] (b ∷ wire) = arrived (b ∷ wire) ∷ []
cut (none ∷ plan) (b ∷ wire) = not_yet ∷ cut plan (b ∷ wire)
cut (some n ∷ plan) (b ∷ wire) = arrived (b ∷ take n wire) ∷ cut plan (drop n wire)

-- `transfer`: some writes, and the reads of what they send, up to the end of the wire.
unfoldable pub receive : Bytes → List (Option ℕ) → ℕ → ℕ → Option Bytes → Option Bytes
receive uuid plan polls room none = none
receive uuid plan polls room (some wire) =
    read_to_end polls (4 * length wire + 3) room (new_reader (cut plan wire) uuid)

unfoldable pub transfer : (ℕ → ℕ → ℕ) → Bytes → List Bytes → List (Option ℕ) → ℕ → ℕ → Option Bytes
transfer gen_range uuid writes plan polls room =
    receive uuid plan polls room (send gen_range (new_writer uuid) writes)

left-cut : (plan : List (Option ℕ)) (wire : Bytes) → left (cut plan wire) ≡ wire
unfolding cut
left-cut [] [] = refl
left-cut (x ∷ plan) [] = refl
left-cut [] (b ∷ wire) = append-nil (b ∷ wire)
left-cut (none ∷ plan) (b ∷ wire) = left-cut plan (b ∷ wire)
left-cut (some n ∷ plan) (b ∷ wire) =
    ap (◌∷◌ b) (ap (◌++◌ (take n wire)) (left-cut plan (drop n wire)) ∙ take-append-drop n wire)

cut-IsSound : (plan : List (Option ℕ)) (wire : Bytes) → All IsSound (cut plan wire)
unfolding cut
cut-IsSound [] [] = tt
cut-IsSound (x ∷ plan) [] = tt
cut-IsSound [] (b ∷ wire) = ((λ e. absurd (omega (arith, ap length e))), tt)
cut-IsSound (none ∷ plan) (b ∷ wire) = (tt, cut-IsSound plan (b ∷ wire))
cut-IsSound (some n ∷ plan) (b ∷ wire) =
    ((λ e. absurd (omega (arith, ap length e))), cut-IsSound plan (drop n wire))

abbrev pub plan_len : List (Option ℕ) → ℕ
plan_len [] = 0
plan_len (x ∷ plan) = suc (plan_len plan)

waiting-cut : (plan : List (Option ℕ)) (wire : Bytes) → waiting (cut plan wire) ≤ plan_len plan
unfolding cut
waiting-cut [] [] = omega arith
waiting-cut (x ∷ plan) [] = omega arith
waiting-cut [] (b ∷ wire) = omega arith
waiting-cut (none ∷ plan) (b ∷ wire) = omega (arith, waiting-cut plan (b ∷ wire))
waiting-cut (some n ∷ plan) (b ∷ wire) = omega (arith, waiting-cut plan (drop n wire))

-- What a writer sends while it pads: a UUID if it has one, and frames that carry the writes.
abbrev pub Small : Bytes → Type 0
Small bytes = (0 < length bytes) × (length bytes ≤ max_frame_content)

frame_of :
    (body : Bytes) (command : ℕ) (uuid : Option Bytes) (padding : ℕ)
    → frame_bytes body command uuid padding
      ≡ or_empty uuid ++ frame command body (replicate padding 0)
unfolding frame_bytes
frame_of body command uuid padding =
    ap
      (λ n.
        or_empty uuid ++ (command ∷ u16_be (length body) (u16_be n (body ++ replicate padding 0))))
      (sym (length-replicate {A = ℕ} padding 0))

encode_one :
    (gen_range : ℕ → ℕ → ℕ) (w : VisionWriter) (bytes : Bytes)
    → w.padding ≡ true
    → length (or_empty w.uuid) ≤ 16
    → Small bytes
    → (pad : Bytes) × IsU16 (length pad)
      × (encode gen_range w bytes ≡ (
        after_chunk w bytes,
        ok (
            (or_empty w.uuid ++ frame (command_of (ends (observe w.filter bytes) bytes)) bytes pad)
            ∷ []),
      ))
unfolding encode_chunks push_frame
encode_one gen_range w bytes pads u (pos, small) =
    let command = command_of (ends (observe w.filter bytes) bytes) in
    let (padding, made, fits) = chunk_frame-frame_bytes gen_range w bytes small u in
    let zeros : Bytes = replicate padding 0 in
    let zeros_len : length zeros ≡ padding = length-replicate {A = ℕ} padding 0 in
    let one : length bytes ≡ suc (length bytes - 1) = omega arith in
    let only : chunks (length bytes) max_frame_content bytes ≡ bytes ∷ [] =
      ap (λ m. chunks m max_frame_content bytes) one
      ∙ chunks_last (length bytes - 1) max_frame_content bytes pos small in
    (
      zeros,
      omega (arith, zeros_len, length-frame_bytes bytes command w.uuid padding),
      encode-padding gen_range w bytes pads
          ∙ ap (encode_chunks gen_range w) only
          ∙ rw (made, push_frame)
              (ap (λ f. (after_chunk w bytes, ok (f ∷ [])))
                (frame_of bytes command w.uuid padding)),
    )

sent_one :
    (w : VisionWriter) (bytes wire : Bytes) (again : VisionWriter → Option Bytes)
    → again w ≡ some wire
    → sent (w, ok (bytes ∷ [])) again ≡ some (bytes ++ wire)
unfolding sent
sent_one w bytes wire again e =
    ap (λ found. sent (w, ok (bytes ∷ [])) (λ v. found)) e
    ∙ ap (λ b. some (b ++ wire)) (append-nil bytes)

send-raw :
    (gen_range : ℕ → ℕ → ℕ) (w : VisionWriter) (writes : List Bytes)
    → w.padding ≡ false
    → send gen_range w writes ≡ some (concat writes)
unfolding send
send-raw gen_range w [] raw = refl
send-raw gen_range w (bytes ∷ rest) raw =
    ap (λ r. sent r (λ w'. send gen_range w' rest)) (encode-raw gen_range w bytes raw)
    ∙ sent_one w bytes (concat rest) (λ w'. send gen_range w' rest) (send-raw gen_range w rest raw)

-- A writer that pads.
record Sends (gen_range : ℕ → ℕ → ℕ) (w : VisionWriter) (writes : List Bytes) : Type 0 where
  pub wire : Bytes
  pub made : send gen_range w writes ≡ some (or_empty w.uuid ++ wire)
  pub carries : Carries wire (concat writes)

-- The first write, and the others behind it: as they are, or by a writer that still pads.
first-Sends :
    (gen_range : ℕ → ℕ → ℕ) (w : VisionWriter) (bytes : Bytes) (rest : List Bytes)
    → w.padding ≡ true
    → length (or_empty w.uuid) ≤ 16
    → Small bytes
    → (ends (observe w.filter bytes) bytes ≡ false → Sends gen_range (after_chunk w bytes) rest)
    → Sends gen_range w (bytes ∷ rest)
unfolding send after_chunk
first-Sends gen_range w bytes rest pads u small next =
    let (pad, fits, one) = encode_one gen_range w bytes pads u small in
    let again : VisionWriter → Option Bytes = λ w'. send gen_range w' rest in
    let front : Bool → Bytes = λ last. or_empty w.uuid ++ frame (command_of last) bytes pad in
    let made : (last : Bool) (wire : Bytes)
        → ends (observe w.filter bytes) bytes ≡ last
        → again (after_chunk w bytes) ≡ some wire
        → send gen_range w (bytes ∷ rest) ≡ some (front last ++ wire) =
      λ last wire e found.
        ap (λ r. sent r again) (one ∙ ap (λ t. (after_chunk w bytes, ok (front t ∷ []))) e)
        ∙ sent_one (after_chunk w bytes) (front last) wire again found in
    elim (Bool-cases (ends (observe w.filter bytes) bytes)) [
      | inl ended ↦ record {
        wire = frame command_end bytes pad ++ concat rest;
        made =
            made true (concat rest) ended
              (send-raw gen_range (after_chunk w bytes) rest (rw ended refl))
            ∙ ap some (append_assoc (or_empty w.uuid) (frame command_end bytes pad) (concat rest));
        carries = last command_end bytes pad (concat rest) refl refl (omega arith) fits refl refl;
      }
      | inr goes ↦ record {
        wire = frame command_continue bytes pad ++ (next goes).wire;
        made =
            made false (next goes).wire goes (next goes).made
            ∙ ap some (
                append_assoc (or_empty w.uuid) (frame command_continue bytes pad) (next goes).wire);
        carries =
            more bytes pad (next goes).wire (concat rest) (omega arith) fits refl refl
              (next goes).carries;
      }
    ]

send-Carries :
    (gen_range : ℕ → ℕ → ℕ) (w : VisionWriter) (bytes : Bytes) (rest : List Bytes)
    → w.padding ≡ true
    → length (or_empty w.uuid) ≤ 16
    → Small bytes
    → All Small rest
    → Sends gen_range w (bytes ∷ rest)
unfolding send after_chunk
send-Carries gen_range w bytes [] pads u small smalls =
    first-Sends gen_range w bytes [] pads u small
      (λ goes. record { wire = []; made = refl; carries = nothing refl refl })
send-Carries gen_range w bytes (next ∷ rest) pads u small smalls =
    first-Sends gen_range w bytes (next ∷ rest) pads u small (λ goes.
      send-Carries gen_range (after_chunk w bytes) next rest (rw goes pads) (omega arith) smalls.0
        smalls.1)

-- For a UUID of 16 bytes, any random numbers, and one or more writes of 1 to 8171 bytes each, the reads
-- of what a new writer sends give exactly the bytes written, in order and to the end, however the
-- wire is cut into arrivals, with enough polls: one for each byte written, for each piece of the
-- cut, and one more.
pub transfer-concat :
    (gen_range : ℕ → ℕ → ℕ) (uuid bytes : Bytes) (rest : List Bytes) (plan : List (Option ℕ))
    (polls room : ℕ)
    → length uuid ≡ 16
    → Small bytes
    → All Small rest
    → 0 < room
    → length (concat (bytes ∷ rest)) + plan_len plan < polls
    → transfer gen_range uuid (bytes ∷ rest) plan polls room ≡ some (concat (bytes ∷ rest))
unfolding transfer receive new_writer
transfer-concat gen_range uuid bytes rest plan polls room sixteen small smalls pos lt =
    let sends =
      send-Carries gen_range (new_writer uuid) bytes rest refl (omega arith) small smalls in
    let wire : Bytes = uuid ++ sends.wire in
    ap (receive uuid plan polls room) sends.made
    ∙ read_to_end-Carries uuid sends.wire (concat (bytes ∷ rest)) (cut plan wire) polls
        (4 * length wire + 3) room sixteen (cut-IsSound plan wire) (left-cut plan wire)
        sends.carries pos (omega (arith, ap length (left-cut plan wire)))
        (omega (arith, waiting-cut plan wire))
