-- ===== src/Session/Reorder/Closing.antt =====
-- src/session/reorder.rs: a closed uplink is read to its end.
use rust_xhttp.Common.{
  ℕ, zero, suc, ◌+◌, ◌-◌, ◌≤◌, ◌<◌, ◌≡◌, refl, ap, sym, ◌∙◌, false, List, [], ◌∷◌, ◌++◌, Option,
  none, some, Bytes, ◌==◌, arith, length, Bool-cases, inl, inr, drop, length-append, length-drop,
  nil_of_length, min,
}
use rust_xhttp.Session.Reorder.{
  Uplink, Chunk, Poll, ready, read_cur, receive, poll_read, poll_cur, drop_cur, close,
}
use rust_xhttp.Session.Reorder.Stream.{in_flight, cur_bytes, queue_bytes}
use rust_xhttp.Session.Reorder.Reads.{poll_bytes, poll_read-Polled}

-- What is on the way: its bytes, and the chunks in the channel.
abbrev pub weight : Uplink → ℕ
weight u = length (in_flight u) + length u.queue

-- A read with room takes something, as long as there is something.
record Shrinks (u : Uplink) (r : Uplink × Poll) : Type 0 where
  alive_same : r.0.sender_alive ≡ u.sender_alive
  smaller : weight r.0 ≤ weight u - 1

read_cur-Shrinks :
    (u s : Uplink) (c : Chunk) (n : ℕ)
    → 0 < n
    → s.sender_alive ≡ u.sender_alive
    → length c.bytes + length (queue_bytes s.queue) + length s.queue - min (length c.bytes) n
      ≤ weight u - 1
    → Shrinks u (read_cur s c n)
unfolding read_cur
read_cur-Shrinks u s c n room alive h =
    elim (Bool-cases (length (drop (min (length c.bytes) n) c.bytes) == 0)) [
      | inl empty ↦ rw empty (record {
        alive_same = alive;
        smaller = ground (arith, length-drop (min (length c.bytes) n) c.bytes);
      })
      | inr more ↦ rw more (record {
        alive_same = alive;
        smaller = omega (
          arith,
          length-drop (min (length c.bytes) n) c.bytes,
          length-append (drop (min (length c.bytes) n) c.bytes) (queue_bytes s.queue),
          h,
        );
      })
    ]

receive-Shrinks :
    (u : Uplink) (queue : List Chunk) (n : ℕ)
    → 0 < n
    → u.queue ≡ queue
    → cur_bytes u.cur ≡ []
    → Shrinks u (receive u queue n)
unfolding receive
receive-Shrinks u [] n room e h = record { alive_same = refl; smaller = rw (e, h) (omega arith) }
receive-Shrinks u (c ∷ queue) n room e h =
    read_cur-Shrinks u (record u { queue = queue; budget = drop_cur u.budget u.cur }) c n room refl
      (rw (e, h) (omega (arith, length-append c.bytes (queue_bytes queue))))

poll_cur-Shrinks :
    (u : Uplink) (o : Option Chunk) (n : ℕ) → 0 < n → u.cur ≡ o → Shrinks u (poll_cur o u n)
unfolding poll_cur
poll_cur-Shrinks u none n room e = receive-Shrinks u u.queue n room refl (rw e)
poll_cur-Shrinks u (some c) n room e = elim (Bool-cases (length c.bytes == 0)) [
  | inl empty ↦ rw empty (
      receive-Shrinks u u.queue n room refl (ap cur_bytes e ∙ nil_of_length c.bytes (ground arith)))
  | inr more ↦ rw more (
      read_cur-Shrinks u u c n room refl
        (rw e (ground (arith, length-append c.bytes (queue_bytes u.queue)))))
]

poll_read-Shrinks : (u : Uplink) (n : ℕ) → 0 < n → Shrinks u (poll_read u n)
unfolding poll_read
poll_read-Shrinks u n room = poll_cur-Shrinks u u.cur n room refl

-- As many reads, each with room for `n` bytes, and all the bytes that they hand over.
unfoldable pub read_all : ℕ → ℕ → Uplink → Uplink × Bytes
read_all zero n u = (u, [])
read_all (suc reads) n u =
    let (u', poll) = poll_read u n in
    let (u'', bytes) = read_all reads n u' in (u'', poll_bytes poll ++ bytes)

-- The end of the stream.
receive-end :
    (u : Uplink) (queue : List Chunk) (n : ℕ)
    → queue ≡ []
    → u.sender_alive ≡ false
    → (receive u queue n).1 ≡ ready []
unfolding receive
receive-end u [] n e dead = rw dead
receive-end u (c ∷ queue) n e dead = cc

poll_cur-end :
    (u : Uplink) (o : Option Chunk) (n : ℕ)
    → cur_bytes o ≡ []
    → u.queue ≡ []
    → u.sender_alive ≡ false
    → (poll_cur o u n).1 ≡ ready []
unfolding poll_cur
poll_cur-end u none n h e dead = receive-end u u.queue n e dead
poll_cur-end u (some c) n h e dead = rw h (receive-end u u.queue n e dead)

poll_read-end :
    (u : Uplink) (n : ℕ) → weight u ≡ 0 → u.sender_alive ≡ false → (poll_read u n).1 ≡ ready []
unfolding poll_read
poll_read-end u n h dead =
    poll_cur-end u u.cur n
      (nil_of_length (cur_bytes u.cur)
        (omega (arith, h, length-append (cur_bytes u.cur) (queue_bytes u.queue))))
      (nil_of_length u.queue (omega (arith, h))) dead

read_all-end :
    (reads n : ℕ) (u : Uplink)
    → 0 < n
    → u.sender_alive ≡ false
    → weight u ≤ reads
    → ((read_all reads n u).1 ≡ in_flight u) × ((poll_read (read_all reads n u).0 n).1 ≡ ready [])
unfolding read_all
read_all-end zero n u room dead h = (
  sym (nil_of_length (in_flight u) (omega (arith, h))),
  poll_read-end u n (omega (arith, h)) dead,
)
read_all-end (suc reads) n u room dead h =
    let s = poll_read-Shrinks u n room in
    let (all, last) =
      read_all-end reads n (poll_read u n).0 room (s.alive_same ∙ dead)
        (omega (arith, s.smaller, h)) in
    (ap (◌++◌ (poll_bytes (poll_read u n).1)) all ∙ (poll_read-Polled u n).bytes_moved, last)

-- After `close`, the reader gets exactly the bytes that were on the way, and then the end of the
-- stream, where a read hands over nothing and does not wait: as many reads as there are bytes and
-- chunks on the way are enough, if each has room for a byte.
pub close-read_all :
    (u : Uplink) (reads n : ℕ)
    → 0 < n
    → length (in_flight u) + length u.queue ≤ reads
    → ((read_all reads n (close u)).1 ≡ in_flight u)
      × ((poll_read (read_all reads n (close u)).0 n).1 ≡ ready [])
unfolding close
close-read_all u reads n room h = read_all-end reads n (close u) room refl h
