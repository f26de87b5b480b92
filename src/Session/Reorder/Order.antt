-- ===== src/Session/Reorder/Order.antt =====
-- src/session/reorder.rs: the bytes come in the order of the packet numbers, while the receiver stays.
use rust_xhttp.Common.{
  ℕ, zero, suc, ◌+◌, ◌^◌, ◌≤◌, ◌<◌, ◌≡◌, ◌≢◌, refl, ap, sym, ◌∙◌, List, [], ◌∷◌, ◌++◌, none, some,
  Bytes, Bool, true, false, ◌==◌, arith, length, append_assoc, u64_max, Bool-cases, Option-cases,
  inl, inr, ==_iff,
}
use rust_xhttp.Common.Maps.{
  lookup, Distinct, lookup-remove_ne, lookup-remove-none, remove-Distinct, length-remove,
}
use rust_xhttp.Session.Reorder.{
  Uplink, Chunk, PushResult, accepted, drain, take_pending, send_in_order, after_send,
}
use rust_xhttp.Session.Reorder.Sends.{Sent, send_in_order-Sent}
use rust_xhttp.Session.Reorder.Stream.{Log, stream, in_flight, delivered_count, payload?}

-- The uplink `u`, whose reader has had the bytes `out`, against the packets accepted so far.
pub record InOrder (out : Bytes) (log : Log) (u : Uplink) : Type 0 where
  pub stays : u.sends_left ≡ none
  pub distinct : Distinct u.pending
  pub fits : (k : ℕ) → 2 ^ 64 ≤ k → lookup k u.pending ≡ none
  pub flow : out ++ in_flight u ≡ stream log (delivered_count u)
  pub prefix : (k : ℕ) → k < delivered_count u → lookup k log ≢ none
  pub buffered : (k : ℕ) → delivered_count u ≤ k → lookup k log ≡ payload? (lookup k u.pending)
  pub bounded : u.next_seq ≤ u64_max

-- One more packet, that with the next number and the payload `p`, has been sent.
record Advanced (log log' : Log) (p : Bytes) (u u' : Uplink) : Type 0 where
  was_active : u.sequence_exhausted ≡ false
  now_counts : delivered_count u' ≡ suc u.next_seq
  now_bounded : u'.next_seq ≤ u64_max
  now_stays : u'.sends_left ≡ none
  now_distinct : Distinct u'.pending
  now_fits : (k : ℕ) → 2 ^ 64 ≤ k → lookup k u'.pending ≡ none
  kept : (k : ℕ) → u.next_seq < k → lookup k u'.pending ≡ lookup k u.pending
  sent : in_flight u' ≡ in_flight u ++ p
  logged : lookup u.next_seq log' ≡ some p
  log_kept : (k : ℕ) → k ≢ u.next_seq → lookup k log' ≡ lookup k log
  stream_kept : stream log' u.next_seq ≡ stream log u.next_seq

module _ (out : Bytes) (log log' : Log) (p : Bytes) (u u' : Uplink) (a : Advanced log log' p u u')
    (v : InOrder out log u) where
  count_was : delivered_count u ≡ u.next_seq
  count_was = rw a.was_active

  flow-Advanced : out ++ in_flight u' ≡ stream log' (delivered_count u')
  flow-Advanced =
      rw (a.sent, a.now_counts)
        (sym (append_assoc out (in_flight u) p)
          ∙ ap (λ b. b ++ p) (v.flow ∙ ap (stream log) count_was ∙ sym a.stream_kept)
          ∙ unfold stream in rw a.logged)

  prefix-Advanced : (k : ℕ) → k < delivered_count u' → lookup k log' ≢ none
  prefix-Advanced k h = elim (Bool-cases (k == u.next_seq)) [
    | inl last ↦ rw ((==_iff k u.next_seq).0 last, a.logged) (λ e. cc)
    | inr other ↦
        let ne : k ≢ u.next_seq = ground arith in
        rw (a.log_kept k ne) (v.prefix k (omega (arith, a.now_counts, count_was, ne)))
  ]

  buffered-Advanced :
      (k : ℕ) → delivered_count u' ≤ k → lookup k log' ≡ payload? (lookup k u'.pending)
  buffered-Advanced k h =
      let later : u.next_seq < k = omega (arith, a.now_counts) in
      rw (a.kept k later, a.log_kept k (omega arith)) (v.buffered k (omega (arith, count_was)))

  Advanced-InOrder : InOrder out log' u'
  Advanced-InOrder = record {
    stays = a.now_stays;
    distinct = a.now_distinct;
    fits = a.now_fits;
    flow = flow-Advanced;
    prefix = prefix-Advanced;
    buffered = buffered-Advanced;
    bounded = a.now_bounded;
  }

-- What a send of the packet with the next number is given: `s` is the state in which it is made.
pub record Sendable (log log' : Log) (c : Chunk) (u s : Uplink) : Type 0 where
  pub active : u.sequence_exhausted ≡ false
  pub same_exhausted : s.sequence_exhausted ≡ u.sequence_exhausted
  pub same_next : s.next_seq ≡ u.next_seq
  pub same_flight : in_flight s ≡ in_flight u
  pub s_distinct : Distinct s.pending
  pub s_fits : (k : ℕ) → 2 ^ 64 ≤ k → lookup k s.pending ≡ none
  pub s_kept : (k : ℕ) → u.next_seq < k → lookup k s.pending ≡ lookup k u.pending
  pub c_logged : lookup u.next_seq log' ≡ some c.bytes
  pub c_log_kept : (k : ℕ) → k ≢ u.next_seq → lookup k log' ≡ lookup k log
  pub c_stream_kept : stream log' u.next_seq ≡ stream log u.next_seq

module _ (log log' : Log) (c : Chunk) (u s w : Uplink) (r : Sendable log log' c u s)
    (t : Sent s c w) (small : u.next_seq ≤ u64_max) where
  w_next : w.next_seq ≡ u.next_seq
  w_next = t.next_same ∙ r.same_next

  w_active : w.sequence_exhausted ≡ false
  w_active = t.exhausted_same ∙ r.same_exhausted ∙ r.active

  step-Advanced :
      w.next_seq ≢ u64_max → Advanced log log' c.bytes u (record w { next_seq = w.next_seq + 1 })
  step-Advanced ne = record {
    was_active = r.active;
    now_counts = rw w_active (omega (arith, w_next));
    now_bounded = omega (arith, w_next);
    now_stays = t.alive;
    now_distinct = rw t.pending_same r.s_distinct;
    now_fits = rw t.pending_same r.s_fits;
    kept = rw t.pending_same r.s_kept;
    sent = t.flow ∙ ap (λ b. b ++ c.bytes) r.same_flight;
    logged = r.c_logged;
    log_kept = r.c_log_kept;
    stream_kept = r.c_stream_kept;
  }

  last-Advanced :
      w.next_seq ≡ u64_max → Advanced log log' c.bytes u (record w { sequence_exhausted = true })
  last-Advanced e = record {
    was_active = r.active;
    now_counts = ap suc w_next;
    now_bounded = omega (arith, w_next);
    now_stays = t.alive;
    now_distinct = rw t.pending_same r.s_distinct;
    now_fits = rw t.pending_same r.s_fits;
    kept = rw t.pending_same r.s_kept;
    sent = t.flow ∙ ap (λ b. b ++ c.bytes) r.same_flight;
    logged = r.c_logged;
    log_kept = r.c_log_kept;
    stream_kept = r.c_stream_kept;
  }

-- After a push every packet that can be delivered has been.
abbrev pub IsDrained : Uplink → Type 0
IsDrained u = lookup (delivered_count u) u.pending ≡ none

empty-IsDrained : (u : Uplink) → length u.pending ≤ 0 → IsDrained u
empty-IsDrained u h = no_entry u.pending h
  where
    no_entry : (m : List (ℕ × Chunk)) → length m ≤ 0 → lookup (delivered_count u) m ≡ none
    no_entry [] h = refl
    no_entry (x ∷ m) h = absurd (omega arith)

take_pending-Sendable :
    (out : Bytes) (log : Log) (u : Uplink) (c : Chunk)
    → InOrder out log u
    → u.sequence_exhausted ≡ false
    → lookup u.next_seq u.pending ≡ some c
    → Sendable log log c u (take_pending u c)
unfolding take_pending
take_pending-Sendable out log u c v active found = record {
  active = active;
  same_exhausted = refl;
  same_next = refl;
  same_flight = refl;
  s_distinct = remove-Distinct u.next_seq u.pending v.distinct;
  s_fits = λ k h. lookup-remove-none k u.next_seq u.pending (v.fits k h);
  s_kept = λ k h. lookup-remove_ne k u.next_seq u.pending (λ e. omega arith);
  c_logged = v.buffered u.next_seq (rw active (omega arith)) ∙ ap payload? found;
  c_log_kept = λ k ne. refl;
  c_stream_kept = refl;
}

-- What a push or its loop leaves.
abbrev pub Settles : Bytes → Log → Uplink × PushResult → Type 0
Settles out log r = InOrder out log r.0 × IsDrained r.0 × (r.1 ≡ accepted)

pub after_send-Settles :
    (out : Bytes) (log log' : Log) (c : Chunk) (u s : Uplink) (w : Uplink × Bool)
    (loop : Uplink → Uplink × PushResult)
    → InOrder out log u
    → Sendable log log' c u s
    → w.1 ≡ true
    → Sent s c w.0
    → ((w' : Uplink)
        → InOrder out log' w'
        → w'.sequence_exhausted ≡ false
        → w'.pending ≡ s.pending
        → Settles out log' (loop w'))
    → Settles out log' (after_send w loop)
unfolding after_send
after_send-Settles out log log' c u s (w, false) loop v r e t ih = cc
after_send-Settles out log log' c u s (w, true) loop v r e t ih =
    elim (Bool-cases (w.next_seq == u64_max)) [
      | inl last ↦
          let end : w.next_seq ≡ u64_max = (==_iff w.next_seq u64_max).0 last in
          rw last (
            Advanced-InOrder out log log' c.bytes u (record w { sequence_exhausted = true })
                (last-Advanced log log' c u s w r t v.bounded end) v,
            rw t.pending_same (r.s_fits (suc w.next_seq) (omega arith)),
            refl,
          )
      | inr more ↦
          let ne : w.next_seq ≢ u64_max = ground arith in
          rw more (
            ih (record w { next_seq = w.next_seq + 1 })
              (Advanced-InOrder out log log' c.bytes u (record w { next_seq = w.next_seq + 1 })
                (step-Advanced log log' c u s w r t v.bounded ne) v)
              (w_active log log' c u s w r t v.bounded) t.pending_same)
    ]

pub drain-Settles :
    (rounds : ℕ) (out : Bytes) (log : Log) (u : Uplink)
    → InOrder out log u
    → u.sequence_exhausted ≡ false
    → length u.pending ≤ rounds
    → Settles out log (drain rounds u)
unfolding drain
drain-Settles zero out log u v active h = (v, empty-IsDrained u h, refl)
drain-Settles (suc rounds) out log u v active h =
    elim (Option-cases (lookup u.next_seq u.pending)) [
      | inl e ↦ rw (e, drain) (v, rw (active, e), refl)
      | inr (c, e) ↦
          let (sent, t) =
            send_in_order-Sent (take_pending u c) c (unfold take_pending in v.stays) in
          rw (e, drain)
            (after_send-Settles out log log c u (take_pending u c)
              (send_in_order (take_pending u c) c) (drain rounds) v
              (take_pending-Sendable out log u c v active e) sent t
              λ w' v' active' same. drain-Settles rounds out log w' v' active' (
                rw same
                  (unfold take_pending in omega (arith, length-remove u.next_seq c u.pending e))))
    ]
