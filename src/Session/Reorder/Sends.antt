-- ===== src/Session/Reorder/Sends.antt =====
-- src/session/reorder.rs: a send while the receiver stays.
use rust_xhttp.Common.{◌≡◌, ◌++◌, Option, none, some, Bytes, true, arith, append-nil, append_assoc}
use rust_xhttp.Buffer.{Budget}
use rust_xhttp.Session.Reorder.{Uplink, Chunk, send_in_order, send, reserve_payload}
use rust_xhttp.Session.Reorder.Stream.{in_flight, cur_bytes, queue_bytes, queue_bytes-append}

-- All but the channel and the budget is as it was, and the channel has the chunk's bytes more.
pub record Sent (u : Uplink) (c : Chunk) (u' : Uplink) : Type 0 where
  pub next_same : u'.next_seq ≡ u.next_seq
  pub exhausted_same : u'.sequence_exhausted ≡ u.sequence_exhausted
  pub pending_same : u'.pending ≡ u.pending
  pub alive : u'.sends_left ≡ none
  pub flow : in_flight u' ≡ in_flight u ++ c.bytes

pub send_in_order-Sent :
    (u : Uplink) (c : Chunk)
    → u.sends_left ≡ none
    → ((send_in_order u c).1 ≡ true) × Sent u c (send_in_order u c).0
unfolding send_in_order send
send_in_order-Sent u c stay = ground (
  arith,
  append-nil (in_flight u),
  queue_bytes-append u.queue c,
  append_assoc (cur_bytes u.cur) (queue_bytes u.queue) c.bytes,
)

pub reserve_payload-bytes :
    (budget b' : Option Budget) (payload : Bytes) (c : Chunk)
    → reserve_payload budget payload ≡ some (b', c)
    → c.bytes ≡ payload
unfolding reserve_payload
reserve_payload-bytes budget b' payload c e = ground arith
