-- ===== src/Session/Reorder.antt =====
-- src/session/reorder.rs: the bounded reordering of the uplink. One record holds the state behind
-- the lock, the shared counters, the chunks in the channel and the reader's current chunk. A send
-- that waits for room in the channel ends by a place or by the loss of the receiver, so the channel
-- has no bound here, and `sends_left` says after how many sends the receiver is dropped (`none`: it
-- stays).
pub mod Counters
pub mod Stream
mod Sends
pub mod Order
pub mod Pushes
pub mod Reads
pub mod Runs
pub mod Refusals
pub mod Closing
pub mod Lost
use rust_xhttp.Common.{
  ℕ, zero, suc, ◌+◌, ◌^◌, min, Bool, true, false, List, [], ◌∷◌, ◌++◌, Option, none, some, Bytes,
  if◌then◌else◌, ◌==◌, ltb, leb, not, ◌&&◌, ◌||◌, u64_max, length, take, drop,
}
use rust_xhttp.Common.Maps.{lookup, remove}
use rust_xhttp.Buffer.{Budget, try_reserve, release, fetch_add, fetch_sub}

pub data PushResult : Type 0 where
  accepted duplicate too_many_pending too_many_pending_bytes global_buffer_exceeded closed :
      PushResult

-- `BudgetedBytes`: the reservation keeps the length that was reserved.
pub record Chunk : Type 0 where
  pub bytes : Bytes
  pub reservation : Option ℕ

pub record Uplink : Type 0 where
  pub next_seq : ℕ
  pub sequence_exhausted : Bool
  pub pending : List (ℕ × Chunk)
  pub queue : List Chunk
  pub cur : Option Chunk
  pub sends_left : Option ℕ
  pub sender_alive : Bool
  pub max_packets : ℕ
  pub max_bytes : ℕ
  pub budget : Option Budget
  pub pending_bytes : ℕ
  pub pending_count : ℕ

-- `channel_with_budget`
unfoldable pub channel_with_budget : ℕ → ℕ → Option Budget → Uplink
channel_with_budget max_packets max_bytes budget = record {
  next_seq = 0;
  sequence_exhausted = false;
  pending = [];
  queue = [];
  cur = none;
  sends_left = none;
  sender_alive = true;
  max_packets = if max_packets == 0 then 1 else max_packets;
  max_bytes = max_bytes;
  budget = budget;
  pending_bytes = 0;
  pending_count = 0;
}

-- `channel`
unfoldable pub channel : ℕ → ℕ → Uplink
unfolding channel_with_budget
channel max_packets max_bytes = channel_with_budget max_packets max_bytes none

abbrev pub pending_packets : Uplink → ℕ
pending_packets u = u.pending_count

-- `reserve_payload`: the budget afterwards and the chunk.
unfoldable pub reserve_payload : Option Budget → Bytes → Option (Option Budget × Chunk)
reserve_payload none payload = some (none, record { bytes = payload; reservation = none })
reserve_payload (some b) payload = elim (try_reserve b (length payload)) [
  | none ↦ none
  | some b' ↦ some (some b', record { bytes = payload; reservation = some (length payload) })
]

-- What dropping a chunk does to the budget.
unfoldable pub drop_chunk : Option Budget → Chunk → Option Budget
drop_chunk none c = none
drop_chunk (some b) c = elim c.reservation [ none ↦ some b | some n ↦ some (release b n) ]

-- `tx.send`
unfoldable pub send : Option ℕ → Uplink → Chunk → Uplink × Bool
send none u c = (record u { queue = u.queue ++ c ∷ [] }, true)
send (some zero) u c = (record u { budget = drop_chunk u.budget c }, false)
send (some (suc k)) u c = (record u { queue = u.queue ++ c ∷ []; sends_left = some k }, true)

unfoldable pub send_in_order : Uplink → Chunk → Uplink × Bool
send_in_order u c = elim c.bytes [
  | [] ↦ (record u { budget = drop_chunk u.budget c }, true)
  | b ∷ bs ↦ send u.sends_left u c
]

-- `pending.remove`, with the counters.
unfoldable pub take_pending : Uplink → Chunk → Uplink
take_pending u c = record u {
  pending = remove u.next_seq u.pending;
  pending_bytes = fetch_sub u.pending_bytes (length c.bytes);
  pending_count = fetch_sub u.pending_count 1;
}

-- What follows a send in order, in `push` and in its loop: `Closed` if it failed; the end of the
-- numbers; or the next number, and the loop.
unfoldable pub after_send : Uplink × Bool → (Uplink → Uplink × PushResult) → Uplink × PushResult
after_send (u, false) loop = (u, closed)
after_send (u, true) loop =
    if u.next_seq == u64_max
    then (record u { sequence_exhausted = true }, accepted)
    else loop (record u { next_seq = u.next_seq + 1 })

-- The loop behind a delivered packet. A round takes one pending packet, so as many rounds as there
-- are pending packets are enough.
unfoldable pub drain : ℕ → Uplink → Uplink × PushResult
drain zero u = (u, accepted)
drain (suc rounds) u = elim (lookup u.next_seq u.pending) [
  | none ↦ (u, accepted)
  | some c ↦ after_send (send_in_order (take_pending u c) c) (drain rounds)
]

-- `seq > next_seq`
unfoldable pub push_ahead : Uplink → ℕ → Bytes → Uplink × PushResult
push_ahead u seq payload =
    let next_bytes = u.pending_bytes + length payload in
    elim (lookup seq u.pending) [
      | some c ↦ (u, duplicate)
      | none ↦
          if leb u.max_packets (length u.pending)
          then (u, too_many_pending)
          else if ltb u64_max next_bytes
          then (u, too_many_pending_bytes)
          else if not (u.max_bytes == 0) && ltb u.max_bytes next_bytes
          then (u, too_many_pending_bytes)
          else elim (reserve_payload u.budget payload) [
            | none ↦ (u, global_buffer_exceeded)
            | some (budget, chunk) ↦ (
              record u {
                pending = (seq, chunk) ∷ u.pending;
                budget = budget;
                pending_bytes = next_bytes;
                pending_count = fetch_add u.pending_count 1;
              },
              accepted,
            )
          ]
    ]

-- `seq == next_seq`
unfoldable pub push_next : Uplink → Bytes → Uplink × PushResult
push_next u payload = elim (reserve_payload u.budget payload) [
  | none ↦ (u, global_buffer_exceeded)
  | some (budget, chunk) ↦
      after_send (send_in_order (record u { budget = budget }) chunk)
        (λ u'. drain (length u'.pending) u')
]

unfoldable pub push : Uplink → ℕ → Bytes → Uplink × PushResult
push u seq payload =
    if u.sequence_exhausted || ltb seq u.next_seq
    then (u, duplicate)
    else if ltb u.next_seq seq
    then push_ahead u seq payload
    else push_next u payload

drop_all : Option Budget → List (ℕ × Chunk) → Option Budget
drop_all b [] = b
drop_all b ((k, c) ∷ m) = drop_all (drop_chunk b c) m

-- `close`, where the lock is free: the sender is replaced by one whose receiver is gone.
unfoldable pub close : Uplink → Uplink
unfolding drop_all
close u = record u {
  pending = [];
  sends_left = some 0;
  sender_alive = false;
  budget = drop_all u.budget u.pending;
}

pub data Poll : Type 0 where
  ready : Bytes → Poll
  pending : Poll

-- Reading from the current chunk into a buffer with room for `remaining` bytes.
unfoldable pub read_cur : Uplink → Chunk → ℕ → Uplink × Poll
read_cur u c remaining =
    let n = min (length c.bytes) remaining in
    let left = record c { bytes = drop n c.bytes } in
    if length left.bytes == 0
    then (record u { cur = none; budget = drop_chunk u.budget left }, ready (take n c.bytes))
    else (record u { cur = some left }, ready (take n c.bytes))

abbrev drop_cur : Option Budget → Option Chunk → Option Budget
drop_cur budget none = budget
drop_cur budget (some c) = drop_chunk budget c

-- `rx.poll_recv`: a chunk that comes takes the place of the current one.
unfoldable pub receive : Uplink → List Chunk → ℕ → Uplink × Poll
receive u [] remaining = (u, if u.sender_alive then pending else ready [])
receive u (c ∷ queue) remaining =
    read_cur (record u { queue = queue; budget = drop_cur u.budget u.cur }) c remaining

unfoldable pub poll_cur : Option Chunk → Uplink → ℕ → Uplink × Poll
poll_cur none u remaining = receive u u.queue remaining
poll_cur (some c) u remaining =
    if length c.bytes == 0 then receive u u.queue remaining else read_cur u c remaining

unfoldable pub poll_read : Uplink → ℕ → Uplink × Poll
poll_read u = poll_cur u.cur u
