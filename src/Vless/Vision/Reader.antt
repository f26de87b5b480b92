-- ===== src/Vless/Vision/Reader.antt =====
-- src/vless/vision.rs: the reader, a state machine over what the polls of the inner reader give. The
-- bytes of the UUID prefix and of a header are those read so far, so that `prefix_read` and `read` are
-- their lengths.
pub mod Wire
pub mod Expecting
pub mod Rounds
pub mod Headers
pub mod Loop
pub mod Whole
use rust_xhttp.Common.{
  ℕ, zero, suc, ◌*◌, ◌-◌, min, Bool, true, false, List, [], ◌∷◌, ◌++◌, Bytes, if◌then◌else◌, ◌==◌,
  ltb, leb, not, length, take, drop, bytes_eq, u16_of,
}
use rust_xhttp.Vless.Vision.{known_command, command_continue}

-- What a poll of the inner reader finds: bytes, none yet, or an error. Its end is the end of the list.
pub data Arrival : Type 0 where
  arrived : Bytes → Arrival
  not_yet failing : Arrival

pub data Filled : Type 0 where
  filled : Bytes → Filled
  pending failed : Filled

-- A poll into a buffer with room for `room` bytes; what does not fit stays.
unfoldable pub poll_inner : ℕ → List Arrival → Filled × List Arrival
poll_inner room [] = (filled [], [])
poll_inner room (not_yet ∷ rest) = (pending, rest)
poll_inner room (failing ∷ rest) = (failed, rest)
poll_inner room (arrived bytes ∷ rest) =
    if leb (length bytes) room
    then (filled bytes, rest)
    else (filled (take room bytes), arrived (drop room bytes) ∷ rest)

pub data ReadState : Type 0 where
  header : Bytes → ReadState
  content : (remaining padding command : ℕ) → ReadState
  padding : (remaining command : ℕ) → ReadState

pub record VisionReader : Type 0 where
  pub inner : List Arrival
  pub uuid : Bytes
  pub prefix : Bytes
  pub raw : Bool
  pub state : ReadState
  pub output : Bytes

unfoldable pub new_reader : List Arrival → Bytes → VisionReader
new_reader inner uuid = record {
  inner = inner;
  uuid = uuid;
  prefix = [];
  raw = false;
  state = header [];
  output = [];
}

pub data ReadError : Type 0 where
  inner_failed prefix_truncated prefix_mismatch unknown_command content_truncated
        padding_truncated :
      ReadError

-- How a round of the loop ends.
pub data Round : Type 0 where
  returns : Bytes → Round
  waits continues : Round
  fails : ReadError → Round

-- The header that is complete.
unfoldable pub on_header : VisionReader → Bytes → VisionReader × Round
on_header r (c ∷ h ∷ l ∷ p ∷ q ∷ []) =
    if not (known_command c)
    then (record r { state = header (c ∷ h ∷ l ∷ p ∷ q ∷ []) }, fails unknown_command)
    else (record r { state = content (u16_of h l) (u16_of p q) c }, continues)
on_header r bytes = (record r { state = header bytes }, continues)

unfoldable pub fill_header : VisionReader → Bytes → Filled → VisionReader × Round
fill_header r bytes pending = (r, waits)
fill_header r bytes failed = (r, fails inner_failed)
fill_header r bytes (filled []) = (r, returns [])
fill_header r bytes (filled (b ∷ more)) = on_header r (bytes ++ b ∷ more)

unfoldable pub fill_content : VisionReader → ℕ → ℕ → ℕ → Filled → VisionReader × Round
fill_content r remaining padded command pending = (r, waits)
fill_content r remaining padded command failed = (r, fails inner_failed)
fill_content r remaining padded command (filled []) = (r, fails content_truncated)
fill_content r remaining padded command (filled (b ∷ more)) = (
  record r { state = content (remaining - length (b ∷ more)) padded command; output = b ∷ more },
  continues,
)

unfoldable pub fill_padding : VisionReader → ℕ → ℕ → Filled → VisionReader × Round
fill_padding r remaining command pending = (r, waits)
fill_padding r remaining command failed = (r, fails inner_failed)
fill_padding r remaining command (filled []) = (r, fails padding_truncated)
fill_padding r remaining command (filled (b ∷ more)) =
    (record r { state = padding (remaining - length (b ∷ more)) command }, continues)

-- The reader with what is left of the inner one, and what was filled.
abbrev pub polled : VisionReader → ℕ → VisionReader × Filled
polled r room = let (f, inner) = poll_inner room r.inner in (record r { inner = inner }, f)

-- The `match` on the state.
unfoldable pub on_state : VisionReader → ReadState → VisionReader × Round
on_state r (header bytes) = let (r', f) = polled r (5 - length bytes) in fill_header r' bytes f
on_state r (content zero padded command) = (record r { state = padding padded command }, continues)
on_state r (content (suc n) padded command) =
    let (r', f) = polled r (min (suc n) (32 * 1024)) in fill_content r' (suc n) padded command f
on_state r (padding zero command) =
    if command == command_continue
    then (record r { state = header [] }, continues)
    else (record r { raw = true }, continues)
on_state r (padding (suc n) command) =
    let (r', f) = polled r (min (suc n) 8192) in fill_padding r' (suc n) command f

unfoldable pub fill_prefix : VisionReader → Filled → VisionReader × Round
fill_prefix r pending = (r, waits)
fill_prefix r failed = (r, fails inner_failed)
fill_prefix r (filled []) = (r, fails prefix_truncated)
fill_prefix r (filled (b ∷ more)) =
    let r' = record r { prefix = r.prefix ++ b ∷ more } in
    if ltb (length r'.prefix) 16
    then (r', continues)
    else if not (bytes_eq r'.prefix r'.uuid)
    then (r', fails prefix_mismatch)
    else on_state r' r'.state

unfoldable pub on_raw : VisionReader → Filled → VisionReader × Round
on_raw r pending = (r, waits)
on_raw r failed = (r, fails inner_failed)
on_raw r (filled bytes) = (r, returns bytes)

-- One round of the loop, with room for `remaining` bytes in `dst`.
unfoldable pub round : VisionReader → ℕ → VisionReader × Round
round r remaining =
    if not (length r.output == 0)
    then (
      record r { output = drop (min (length r.output) remaining) r.output },
      returns (take (min (length r.output) remaining) r.output),
    )
    else if r.raw
    then (let (r', f) = polled r remaining in on_raw r' f)
    else if ltb (length r.prefix) 16
    then (let (r', f) = polled r (16 - length r.prefix) in fill_prefix r' f)
    else on_state r r.state

unfoldable pub after_round :
    (VisionReader → VisionReader × Round) → VisionReader × Round → VisionReader × Round
after_round again (r, returns bytes) = (r, returns bytes)
after_round again (r, waits) = (r, waits)
after_round again (r, fails e) = (r, fails e)
after_round again (r, continues) = again r

-- The loop; `continues` says that the rounds have run out.
unfoldable pub poll_read : ℕ → VisionReader → ℕ → VisionReader × Round
poll_read zero r remaining = (r, continues)
poll_read (suc rounds) r remaining =
    after_round (λ r'. poll_read rounds r' remaining) (round r remaining)
