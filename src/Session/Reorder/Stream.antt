-- ===== src/Session/Reorder/Stream.antt =====
-- src/session/reorder.rs: what the reader should see, from the packets that were accepted.
use rust_xhttp.Common.{
  ℕ, zero, suc, ◌≤◌, ◌≡◌, refl, List, [], ◌∷◌, ◌++◌, Option, none, some, Bytes, if◌then◌else◌,
  arith, append-nil, append_assoc, ne→==_false,
}
use rust_xhttp.Common.Maps.{lookup}
use rust_xhttp.Session.Reorder.{Uplink, Chunk}

-- The accepted packets, latest first: number and payload.
abbrev pub Log : Type 0
Log = List (ℕ × Bytes)

abbrev pub or_empty : Option Bytes → Bytes
or_empty none = []
or_empty (some p) = p

-- The payloads of the packets 0, 1, …, n - 1, in that order.
unfoldable pub stream : Log → ℕ → Bytes
stream log zero = []
stream log (suc n) = stream log n ++ or_empty (lookup n log)

-- A packet with a later number does not change the stream up to there.
pub stream-later :
    (log : Log) (k : ℕ) (p : Bytes) (n : ℕ) → n ≤ k → stream ((k, p) ∷ log) n ≡ stream log n
unfolding stream
stream-later log k p zero h = refl
stream-later log k p (suc n) h =
    rw (stream-later log k p n (omega arith), ne→==_false k n (λ e. omega arith))

-- The bytes on the way to the reader: what is left of its current chunk, and the channel.
abbrev pub cur_bytes : Option Chunk → Bytes
cur_bytes none = []
cur_bytes (some c) = c.bytes

abbrev pub queue_bytes : List Chunk → Bytes
queue_bytes [] = []
queue_bytes (c ∷ cs) = c.bytes ++ queue_bytes cs

pub queue_bytes-append :
    (cs : List Chunk) (c : Chunk) → queue_bytes (cs ++ c ∷ []) ≡ queue_bytes cs ++ c.bytes
queue_bytes-append [] c = append-nil c.bytes
queue_bytes-append (d ∷ cs) c = rw (queue_bytes-append cs c, append_assoc)

abbrev pub in_flight : Uplink → Bytes
in_flight u = cur_bytes u.cur ++ queue_bytes u.queue

-- The number of packets delivered to the channel.
abbrev pub delivered_count : Uplink → ℕ
delivered_count u = if u.sequence_exhausted then suc u.next_seq else u.next_seq

abbrev pub payload? : Option Chunk → Option Bytes
payload? none = none
payload? (some c) = some c.bytes
