-- ===== src/Session/Downlink.antt =====
-- src/session/downlink.rs: the channel from the protocol to the download. The two ends are one record;
-- the bound of the mpsc channel and the loss of an end are as tokio documents them.
use rust_xhttp.Common.{
  ℕ, max, Bool, true, not, if◌then◌else◌, ◌==◌, leb, List, [], ◌∷◌, ◌++◌, Option, none, some, Bytes,
  length,
}

pub record Downlink : Type 0 where
  pub chunks : List Bytes
  pub capacity : ℕ
  pub sender_alive : Bool
  pub receiver_alive : Bool
  pub session_key : Option (Bytes × ℕ)

-- `channel`
unfoldable pub open_channel : ℕ → Downlink
open_channel capacity = record {
  chunks = [];
  capacity = max capacity 1;
  sender_alive = true;
  receiver_alive = true;
  session_key = none;
}

-- A send into a full channel waits.
pub data Sent : Type 0 where
  delivered waits_for_room receiver_gone : Sent

unfoldable pub send_chunk : Downlink → Bytes → Downlink × Sent
send_chunk d b =
    if length b == 0
    then (d, delivered)
    else if not d.receiver_alive
    then (d, receiver_gone)
    else if leb d.capacity (length d.chunks)
    then (d, waits_for_room)
    else (record d { chunks = d.chunks ++ b ∷ [] }, delivered)

unfoldable pub is_closed : Downlink → Bool
is_closed d = not d.receiver_alive

unfoldable pub set_session_key : Downlink → Bytes → ℕ → Downlink
set_session_key d id id_hash = record d { session_key = some (id, id_hash) }

unfoldable pub take_session_key : Downlink → Downlink × Option (Bytes × ℕ)
take_session_key d = (record d { session_key = none }, d.session_key)

-- A chunk, the end of the stream, or none yet.
pub data Received : Type 0 where
  chunk : Bytes → Received
  ended waits_for_chunk : Received

abbrev pub first_chunk : Downlink → List Bytes → Downlink × Received
first_chunk d [] = (d, if d.sender_alive then waits_for_chunk else ended)
first_chunk d (b ∷ rest) = (record d { chunks = rest }, chunk b)

unfoldable pub recv : Downlink → Downlink × Received
recv d = first_chunk d d.chunks
