-- ===== src/Session/Reorder/Counters.antt =====
-- src/session/reorder.rs: the counters and the bounds of the buffer of packets that are early.
use rust_xhttp.Common.{
  ℕ, zero, suc, ◌+◌, ◌^◌, ◌≤◌, ◌<◌, ◌≡◌, ◌≢◌, ap, List, [], ◌∷◌, Option, some, Bytes, Bool, true,
  false, ◌==◌, ltb, not, arith, length, u64_max, Bool-cases, Option-cases, inl, inr, leb, ◌||◌,
  ◌&&◌,
}
use rust_xhttp.Common.Maps.{lookup, remove, length-remove}
use rust_xhttp.Buffer.{Budget, fetch_add}
use rust_xhttp.Session.Reorder.Sends.{reserve_payload-bytes}
use rust_xhttp.Session.Reorder.{
  Uplink, Chunk, PushResult, drain, take_pending, send_in_order, send, push_ahead, push_next, push,
  after_send, reserve_payload,
}

-- The bytes of the buffered packets.
abbrev pub total : List (ℕ × Chunk) → ℕ
total [] = 0
total ((k, c) ∷ m) = length c.bytes + total m

-- The counters are exact, and the buffer is within its two bounds (a `max_bytes` of 0 is no bound).
pub record Counted (u : Uplink) : Type 0 where
  pub packets_exact : u.pending_count ≡ length u.pending
  pub bytes_exact : u.pending_bytes ≡ total u.pending
  pub packets_bound : length u.pending ≤ u.max_packets
  pub bytes_bound : u.max_bytes ≢ 0 → total u.pending ≤ u.max_bytes
  pub packets_word : u.max_packets < 2 ^ 64
  pub bytes_word : total u.pending < 2 ^ 64

total-remove :
    (k : ℕ) (c : Chunk) (m : List (ℕ × Chunk))
    → lookup k m ≡ some c
    → total m ≡ length c.bytes + total (remove k m)
total-remove k c [] e = cc
total-remove k c ((j, d) ∷ m) e = ground (arith, total-remove k c m)

-- The fields that the counters speak of are the same.
pub record SameBuffer (u u' : Uplink) : Type 0 where
  pub same_pending : u'.pending ≡ u.pending
  pub same_count : u'.pending_count ≡ u.pending_count
  pub same_bytes : u'.pending_bytes ≡ u.pending_bytes
  pub same_packets : u'.max_packets ≡ u.max_packets
  pub same_limit : u'.max_bytes ≡ u.max_bytes

SameBuffer-Counted : (u u' : Uplink) → SameBuffer u u' → Counted u → Counted u'
SameBuffer-Counted u u' s v = record {
  packets_exact = rw (s.same_count, s.same_pending) v.packets_exact;
  bytes_exact = rw (s.same_bytes, s.same_pending) v.bytes_exact;
  packets_bound = rw (s.same_pending, s.same_packets) v.packets_bound;
  bytes_bound = rw (s.same_pending, s.same_limit) v.bytes_bound;
  packets_word = rw s.same_packets v.packets_word;
  bytes_word = rw s.same_pending v.bytes_word;
}

send_in_order-SameBuffer : (u : Uplink) (c : Chunk) → SameBuffer u (send_in_order u c).0
unfolding send_in_order send
send_in_order-SameBuffer u c = ground arith

take_pending-Counted :
    (u : Uplink) (c : Chunk)
    → lookup u.next_seq u.pending ≡ some c
    → Counted u
    → Counted (take_pending u c)
unfolding take_pending
take_pending-Counted u c e v =
    let bytes = total-remove u.next_seq c u.pending e in
    let count = length-remove u.next_seq c u.pending e in
    record {
      packets_exact = omega (arith, v.packets_exact, v.packets_bound, v.packets_word);
      bytes_exact = omega (arith, v.bytes_exact, v.bytes_word);
      packets_bound = omega (arith, v.packets_bound);
      bytes_bound = λ h. omega (arith, v.bytes_bound h);
      packets_word = v.packets_word;
      bytes_word = omega (arith, v.bytes_word);
    }

after_send-Counted :
    (w : Uplink × Bool) (loop : Uplink → Uplink × PushResult)
    → Counted w.0
    → ((u : Uplink) → Counted u → Counted (loop u).0)
    → Counted (after_send w loop).0
unfolding after_send
after_send-Counted (w, false) loop v ih = v
after_send-Counted (w, true) loop v ih = elim (Bool-cases (w.next_seq == u64_max)) [
  | inl last ↦ rw last (SameBuffer-Counted w _ (ground arith) v)
  | inr more ↦ rw more (ih _ (SameBuffer-Counted w _ (ground arith) v))
]

drain-Counted : (rounds : ℕ) (u : Uplink) → Counted u → Counted (drain rounds u).0
unfolding drain
drain-Counted zero u v = v
drain-Counted (suc rounds) u v = elim (Option-cases (lookup u.next_seq u.pending)) [
  | inl e ↦ rw (e, drain) v
  | inr (c, e) ↦
      rw (e, drain)
        (after_send-Counted (send_in_order (take_pending u c) c) (drain rounds)
          (SameBuffer-Counted (take_pending u c) _ (send_in_order-SameBuffer (take_pending u c) c)
            (take_pending-Counted u c e v))
          (drain-Counted rounds))
]

module _ (u : Uplink) (seq : ℕ) (payload : Bytes) (v : Counted u) where
  insert-Counted :
      (c : Chunk) (budget : Option Budget)
      → leb u.max_packets (length u.pending) ≡ false
      → ltb u64_max (u.pending_bytes + length payload) ≡ false
      → (not (u.max_bytes == 0) && ltb u.max_bytes (u.pending_bytes + length payload)) ≡ false
      → c.bytes ≡ payload
      → Counted (record u {
        pending = (seq, c) ∷ u.pending;
        budget = budget;
        pending_bytes = u.pending_bytes + length payload;
        pending_count = fetch_add u.pending_count 1;
      })
  insert-Counted c budget room sum light same =
      let bytes : length c.bytes ≡ length payload = ap length same in
      record {
        packets_exact = ground (arith, v.packets_exact, v.packets_word);
        bytes_exact = omega (arith, v.bytes_exact);
        packets_bound = ground arith;
        bytes_bound = λ h. ground (arith, v.bytes_exact);
        packets_word = v.packets_word;
        bytes_word = ground (arith, v.bytes_exact);
      }

  push_ahead-Counted : Counted (push_ahead u seq payload).0
  unfolding push_ahead
  push_ahead-Counted = elim (Option-cases (lookup seq u.pending)) [
    | inr (c, e) ↦ rw (e, push_ahead) v
    | inl e ↦ elim (Bool-cases (leb u.max_packets (length u.pending))) [
      | inl full ↦ rw (e, push_ahead, full) v
      | inr room ↦ elim (Bool-cases (ltb u64_max (u.pending_bytes + length payload))) [
        | inl over ↦ rw (e, push_ahead, room, over) v
        | inr sum ↦
            elim (Bool-cases
              (not (u.max_bytes == 0) && ltb u.max_bytes (u.pending_bytes + length payload))) [
                | inl heavy ↦ rw (e, push_ahead, room, sum, heavy) v
                | inr light ↦ elim (Option-cases (reserve_payload u.budget payload)) [
                  | inl refused ↦ rw (e, push_ahead, room, sum, light, refused) v
                  | inr ((b, c), given) ↦
                      rw (e, push_ahead, room, sum, light, given)
                        (insert-Counted c b room sum light
                          (reserve_payload-bytes u.budget b payload c given))
                ]
              ]
      ]
    ]
  ]

  push_next-Counted : Counted (push_next u payload).0
  unfolding push_next
  push_next-Counted = elim (Option-cases (reserve_payload u.budget payload)) [
    | inl refused ↦ rw (refused, push_next) v
    | inr ((b, c), given) ↦
        rw (given, push_next)
          (after_send-Counted (send_in_order (record u { budget = b }) c)
            (λ u'. drain (length u'.pending) u')
            (SameBuffer-Counted (record u { budget = b }) _
              (send_in_order-SameBuffer (record u { budget = b }) c)
              (SameBuffer-Counted u (record u { budget = b }) (ground arith) v))
            (λ u' v'. drain-Counted (length u'.pending) u' v'))
  ]

  -- Every push, whatever its result and whether or not the receiver stays, keeps the counters equal
  -- to the number and the bytes of the buffered packets, and these within `max_packets` and
  -- `max_bytes`.
  pub push-Counted : Counted (push u seq payload).0
  unfolding push
  push-Counted = elim (Bool-cases (u.sequence_exhausted || ltb seq u.next_seq)) [
    | inl old ↦ rw old v
    | inr new ↦ elim (Bool-cases (ltb u.next_seq seq)) [
      | inl later ↦ rw (new, later) push_ahead-Counted
      | inr now ↦ rw (new, now) push_next-Counted
    ]
  ]
