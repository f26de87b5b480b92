-- ===== src/Session/Reorder/Refusals.antt =====
-- src/session/reorder.rs: a push that is refused.
use rust_xhttp.Common.{
  ℕ, zero, suc, ◌+◌, ◌≡◌, ◌≢◌, refl, Bytes, Bool, true, false, ◌==◌, arith, length, u64_max,
  Bool-cases, Option-cases, inl, inr, ◌⊎◌,
}
use rust_xhttp.Common.Maps.{lookup}
use rust_xhttp.Session.Reorder.{
  Uplink, PushResult, accepted, closed, drain, push_ahead, push_next, push, after_send,
  reserve_payload,
}

-- The two results after which the uplink may be another one.
abbrev MayChange : PushResult → Type 0
MayChange r = (r ≡ accepted) ⊎ (r ≡ closed)

after_send-MayChange :
    (w : Uplink × Bool) (loop : Uplink → Uplink × PushResult)
    → ((u : Uplink) → MayChange (loop u).1)
    → MayChange (after_send w loop).1
unfolding after_send
after_send-MayChange (w, false) loop ih = inr refl
after_send-MayChange (w, true) loop ih = elim (Bool-cases (w.next_seq == u64_max)) [
  | inl last ↦ rw last (inl refl)
  | inr more ↦ rw more (ih (record w { next_seq = w.next_seq + 1 }))
]

drain-MayChange : (rounds : ℕ) (u : Uplink) → MayChange (drain rounds u).1
unfolding drain
drain-MayChange zero u = inl refl
drain-MayChange (suc rounds) u = elim (Option-cases (lookup u.next_seq u.pending)) [
  | inl e ↦ rw (e, drain) (inl refl)
  | inr (c, e) ↦ rw (e, drain) (after_send-MayChange _ (drain rounds) (drain-MayChange rounds))
]

push_next-refused :
    (u : Uplink) (payload : Bytes)
    → (MayChange (push_next u payload).1) ⊎ ((push_next u payload).0 ≡ u)
unfolding push_next
push_next-refused u payload = elim (Option-cases (reserve_payload u.budget payload)) [
  | inl refused ↦ rw (refused, push_next) (inr refl)
  | inr ((b, c), given) ↦
      rw (given, push_next)
        (inl (
          after_send-MayChange _ (λ u'. drain (length u'.pending) u')
            λ u'. drain-MayChange (length u'.pending) u'))
]

-- A push that is answered by anything but `Accepted` or `Closed` (a duplicate, a full buffer, an
-- exhausted budget) leaves the uplink exactly as it was.
pub push_refused :
    (u : Uplink) (seq : ℕ) (payload : Bytes)
    → (push u seq payload).1 ≢ accepted
    → (push u seq payload).1 ≢ closed
    → (push u seq payload).0 ≡ u
unfolding push push_ahead
push_refused u seq payload na nc = ground (arith, push_next-refused u payload)
