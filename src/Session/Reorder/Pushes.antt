-- ===== src/Session/Reorder/Pushes.antt =====
-- src/session/reorder.rs: a push keeps the order, while the receiver stays.
use rust_xhttp.Common.{
  ℕ, ◌+◌, ◌≤◌, ◌<◌, ◌≡◌, refl, sym, ◌∙◌, ◌∷◌, Option, none, Bytes, false, ◌==◌, ltb, not, ◌&&◌,
  arith, length, u64_max, IsU64, Bool-cases, Option-cases, inl, inr, ne→==_false, leb, ◌||◌,
}
use rust_xhttp.Common.Maps.{lookup}
use rust_xhttp.Buffer.{Budget}
use rust_xhttp.Session.Reorder.{
  Uplink, Chunk, PushResult, accepted, drain, send_in_order, push_ahead, push_next, push,
  reserve_payload,
}
use rust_xhttp.Session.Reorder.Order.{
  InOrder, IsDrained, Sendable, Settles, after_send-Settles, drain-Settles,
}
use rust_xhttp.Session.Reorder.Sends.{reserve_payload-bytes, send_in_order-Sent}
use rust_xhttp.Session.Reorder.Stream.{Log, stream-later, delivered_count}

-- The log after a push with that result.
abbrev pub log_push : PushResult → ℕ → Bytes → Log → Log
log_push accepted seq payload log = (seq, payload) ∷ log
log_push _ seq payload log = log

-- What every push keeps while the receiver stays.
abbrev pub Keeps : Bytes → Log → ℕ → Bytes → Uplink × PushResult → Type 0
Keeps out log seq payload r = InOrder out (log_push r.1 seq payload log) r.0 × IsDrained r.0

module _ (out : Bytes) (log : Log) (u : Uplink) (seq : ℕ) (payload : Bytes) (v : InOrder out log u)
    (d : IsDrained u) where
  -- A packet that is buffered.
  insert-Keeps :
      (c : Chunk) (budget : Option Budget) (nb nc : ℕ)
      → u.sequence_exhausted ≡ false
      → u.next_seq < seq
      → IsU64 seq
      → lookup seq u.pending ≡ none
      → c.bytes ≡ payload
      → Keeps out log seq payload (
        record u {
          pending = (seq, c) ∷ u.pending;
          budget = budget;
          pending_bytes = nb;
          pending_count = nc;
        },
        accepted,
      )
  insert-Keeps c budget nb nc active later fits new same = (
    record {
      stays = v.stays;
      distinct = (new, v.distinct);
      fits = λ k h. rw (ne→==_false seq k (λ e. omega arith)) (v.fits k h);
      flow = v.flow ∙ sym (stream-later log seq payload (delivered_count u) before);
      prefix = λ k h. rw (ne→==_false seq k (λ e. omega (arith, before))) (v.prefix k h);
      buffered = λ k h. ground (arith, v.buffered k h);
      bounded = v.bounded;
    },
    rw (ne→==_false seq (delivered_count u) (λ e. omega (arith, count))) d,
  )
    where
      count : delivered_count u ≡ u.next_seq
      count = rw active

      before : delivered_count u ≤ seq
      before = omega (arith, count)

  push_ahead-Keeps :
      u.sequence_exhausted ≡ false
      → u.next_seq < seq
      → IsU64 seq
      → Keeps out log seq payload (push_ahead u seq payload)
  unfolding push_ahead
  push_ahead-Keeps active later fits = elim (Option-cases (lookup seq u.pending)) [
    | inr (c, e) ↦ rw (e, push_ahead) (v, d)
    | inl e ↦ elim (Bool-cases (leb u.max_packets (length u.pending))) [
      | inl full ↦ rw (e, push_ahead, full) (v, d)
      | inr room ↦ elim (Bool-cases (ltb u64_max (u.pending_bytes + length payload))) [
        | inl over ↦ rw (e, push_ahead, room, over) (v, d)
        | inr sum ↦
            elim (Bool-cases
              (not (u.max_bytes == 0) && ltb u.max_bytes (u.pending_bytes + length payload))) [
                | inl heavy ↦ rw (e, push_ahead, room, sum, heavy) (v, d)
                | inr light ↦ elim (Option-cases (reserve_payload u.budget payload)) [
                  | inl refused ↦ rw (e, push_ahead, room, sum, light, refused) (v, d)
                  | inr ((b, c), given) ↦
                      rw (e, push_ahead, room, sum, light, given)
                        (insert-Keeps c b _ _ active later fits e
                          (reserve_payload-bytes u.budget b payload c given))
                ]
              ]
      ]
    ]
  ]

  next-Sendable :
      (c : Chunk) (b : Option Budget)
      → u.sequence_exhausted ≡ false
      → seq ≡ u.next_seq
      → c.bytes ≡ payload
      → Sendable log ((seq, payload) ∷ log) c u (record u { budget = b })
  next-Sendable c b active now same = record {
    active = active;
    same_exhausted = refl;
    same_next = refl;
    same_flight = refl;
    s_distinct = v.distinct;
    s_fits = v.fits;
    s_kept = λ k h. refl;
    c_logged = ground arith;
    c_log_kept = λ k ne. ground arith;
    c_stream_kept = stream-later log seq payload u.next_seq (omega arith);
  }

  Settles-Keeps :
      (r : Uplink × PushResult) → Settles out ((seq, payload) ∷ log) r → Keeps out log seq payload r
  Settles-Keeps (u', a) (i, dr, e) = rw e (i, dr)

  push_next-Keeps :
      u.sequence_exhausted ≡ false
      → seq ≡ u.next_seq
      → Keeps out log seq payload (push_next u payload)
  unfolding push_next
  push_next-Keeps active now = elim (Option-cases (reserve_payload u.budget payload)) [
    | inl refused ↦ rw (refused, push_next) (v, d)
    | inr ((b, c), given) ↦
        let (ok, t) = send_in_order-Sent (record u { budget = b }) c v.stays in
        let same = reserve_payload-bytes u.budget b payload c given in
        rw (given, push_next)
          (Settles-Keeps _ (
            after_send-Settles out log ((seq, payload) ∷ log) c u (record u { budget = b })
              (send_in_order (record u { budget = b }) c) (λ u'. drain (length u'.pending) u') v
              (next-Sendable c b active now same) ok t
              (λ w v' active' _.
                drain-Settles (length w.pending) out ((seq, payload) ∷ log) w v' active'
                  (omega arith))))
  ]

  -- A push, accepted or refused, while the receiver stays.
  pub push-Keeps : IsU64 seq → Keeps out log seq payload (push u seq payload)
  unfolding push
  push-Keeps fits = elim (Bool-cases (u.sequence_exhausted || ltb seq u.next_seq)) [
    | inl old ↦ rw old (v, d)
    | inr new ↦ elim (Bool-cases (ltb u.next_seq seq)) [
      | inl later ↦ rw (new, later) (push_ahead-Keeps (ground arith) (ground arith) fits)
      | inr now ↦ rw (new, now) (push_next-Keeps (ground arith) (ground arith))
    ]
  ]
