-- ===== src/Session/Reorder/Reads.antt =====
-- src/session/reorder.rs: what a read hands over.
use rust_xhttp.Common.{
  ℕ, ◌≡◌, refl, ap, ◌∙◌, List, [], ◌∷◌, ◌++◌, Option, none, some, Bytes, ◌==◌, arith, length,
  append-nil, append_assoc, Bool-cases, inl, inr, take, drop, take-append-drop, nil_of_length, min,
}
use rust_xhttp.Session.Reorder.{
  Uplink, Chunk, Poll, ready, read_cur, receive, poll_read, poll_cur, drop_cur,
}
use rust_xhttp.Session.Reorder.Order.{InOrder, IsDrained}
use rust_xhttp.Session.Reorder.Stream.{Log, in_flight, cur_bytes, queue_bytes}

-- The bytes that a read puts into the reader's buffer.
abbrev pub poll_bytes : Poll → Bytes
poll_bytes (ready b) = b
poll_bytes Poll.pending = []

-- What a read changes: bytes go from the front of what is in flight to the reader.
pub record Polled (u : Uplink) (r : Uplink × Poll) : Type 0 where
  pub next_same : r.0.next_seq ≡ u.next_seq
  pub exhausted_same : r.0.sequence_exhausted ≡ u.sequence_exhausted
  pub pending_same : r.0.pending ≡ u.pending
  pub sends_same : r.0.sends_left ≡ u.sends_left
  pub bytes_moved : poll_bytes r.1 ++ in_flight r.0 ≡ in_flight u

read_cur-Polled :
    (u s : Uplink) (c : Chunk) (n : ℕ)
    → s.next_seq ≡ u.next_seq
    → s.sequence_exhausted ≡ u.sequence_exhausted
    → s.pending ≡ u.pending
    → s.sends_left ≡ u.sends_left
    → in_flight u ≡ c.bytes ++ queue_bytes s.queue
    → Polled u (read_cur s c n)
unfolding read_cur
read_cur-Polled u s c n a b d e f = elim (Bool-cases (length (drop m c.bytes) == 0)) [
  | inl empty ↦ rw empty (record {
    next_same = a;
    exhausted_same = b;
    pending_same = d;
    sends_same = e;
    bytes_moved = ground (
      arith,
      take-append-drop m c.bytes,
      append-nil (take m c.bytes),
      nil_of_length (drop m c.bytes) (ground arith),
    );
  })
  | inr more ↦ rw more (record {
    next_same = a;
    exhausted_same = b;
    pending_same = d;
    sends_same = e;
    bytes_moved = ground (
      arith,
      take-append-drop m c.bytes,
      append_assoc (take m c.bytes) (drop m c.bytes) (queue_bytes s.queue),
    );
  })
]
  where
    m : ℕ
    m = min (length c.bytes) n

receive-Polled :
    (u : Uplink) (queue : List Chunk) (n : ℕ)
    → u.queue ≡ queue
    → cur_bytes u.cur ≡ []
    → Polled u (receive u queue n)
unfolding receive
receive-Polled u [] n e h = ground arith
receive-Polled u (c ∷ queue) n e h =
    read_cur-Polled u (record u { queue = queue; budget = drop_cur u.budget u.cur }) c n refl refl
      refl refl (ground arith)

poll_cur-Polled : (u : Uplink) (o : Option Chunk) (n : ℕ) → u.cur ≡ o → Polled u (poll_cur o u n)
unfolding poll_cur
poll_cur-Polled u none n e = receive-Polled u u.queue n refl (rw e)
poll_cur-Polled u (some c) n e = elim (Bool-cases (length c.bytes == 0)) [
  | inl empty ↦
      rw empty
        (receive-Polled u u.queue n refl (ap cur_bytes e ∙ nil_of_length c.bytes (ground arith)))
  | inr more ↦
      rw more (
        read_cur-Polled u u c n refl refl refl refl
          (ap (λ o. cur_bytes o ++ queue_bytes u.queue) e))
]

pub poll_read-Polled : (u : Uplink) (n : ℕ) → Polled u (poll_read u n)
unfolding poll_read
poll_read-Polled u n = poll_cur-Polled u u.cur n refl

-- A read hands over the next bytes in order, and keeps the rest.
pub Polled-InOrder :
    (out : Bytes) (log : Log) (u : Uplink) (r : Uplink × Poll)
    → Polled u r
    → InOrder out log u × IsDrained u
    → InOrder (out ++ poll_bytes r.1) log r.0 × IsDrained r.0
Polled-InOrder out log u r p (v, d) = (
  record {
    stays = p.sends_same ∙ v.stays;
    distinct = rw p.pending_same v.distinct;
    fits = rw p.pending_same v.fits;
    flow =
        append_assoc out (poll_bytes r.1) (in_flight r.0)
        ∙ rw (p.bytes_moved, p.exhausted_same, p.next_same) v.flow;
    prefix = rw (p.exhausted_same, p.next_same) v.prefix;
    buffered = rw (p.pending_same, p.exhausted_same, p.next_same) v.buffered;
    bounded = rw p.next_same v.bounded;
  },
  rw (p.pending_same, p.exhausted_same, p.next_same) d,
)
