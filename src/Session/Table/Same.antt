-- ===== src/Session/Table/Same.antt =====
-- src/session/mod.rs: what leaves the entries, their number and the names of the sessions alone.
use rust_xhttp.Common.{
  ℕ, ◌≡◌, refl, ◌∙◌, Bool, true, false, not, ◌||◌, if◌then◌else◌, ◌∷◌, Option, none, some, Bytes,
  get_elem?, Option-cases, inl, inr,
}
use rust_xhttp.Session.Reorder.{Uplink, PushResult, push}
use rust_xhttp.Session.Table.{
  Session, SessionTable, fnv1a, shard_of, modify, start_reaper, with_reaper, abort_reaper,
  is_connected, is_current,
}
use rust_xhttp.Session.Table.Keys.{find}
use rust_xhttp.Session.Table.Operations.{
  pushed, push_to, take_reader, connect, open_upserted, store_closed, with_budget,
}
use rust_xhttp.Session.Table.View.{names, names-modify}
use rust_xhttp.Session.Table.Wellformed.{Wellformed}

-- The parts that the invariant speaks of are the same.
abbrev pub Same : SessionTable → SessionTable → Type 0
Same t t' =
    (t'.shards ≡ t.shards)
    × (t'.cfg ≡ t.cfg)
    × (t'.active ≡ t.active)
    × (names t'.sessions ≡ names t.sessions)

pub Same-refl : (t : SessionTable) → Same t t
Same-refl t = (refl, refl, refl, refl)

pub Same-trans : (a b c : SessionTable) → Same a b → Same b c → Same a c
Same-trans a b c (p, q, r, s) (p', q', r', s') = (p' ∙ p, q' ∙ q, r' ∙ r, s' ∙ s)

pub Same-Wellformed :
    (t t' : SessionTable) (f : ℕ → ℕ)
    → Same t t'
    → Wellformed t.shards t.cfg.max_sessions (f t.active) (names t.sessions)
    → Wellformed t'.shards t'.cfg.max_sessions (f t'.active) (names t'.sessions)
Same-Wellformed t t' f (p, q, r, s) w = rw (p, q, r, s) w

pub abort_reaper-Same : (t : SessionTable) (serial : ℕ) → Same t (abort_reaper t serial)
unfolding abort_reaper
abort_reaper-Same t serial = (
  refl,
  refl,
  refl,
  names-modify (λ s. record s { grace_reaper = none }) serial t.sessions (λ s. refl),
)

pub start_reaper-Same :
    (t : SessionTable) (id : Bytes) (serial : ℕ) → Same t (start_reaper t id serial)
unfolding start_reaper
start_reaper-Same t id serial =
    let t' = record t {
      sessions = modify (λ s. record s { grace_reaper = some serial }) serial t.sessions;
      reapers = serial ∷ t.reapers;
    } in
    let armed : Same t t' = (
      refl,
      refl,
      refl,
      names-modify (λ s. record s { grace_reaper = some serial }) serial t.sessions (λ s. refl),
    ) in
    either
      (is_connected (get_elem? t'.sessions serial)
        || not (is_current (find id (shard_of t' (fnv1a id))) serial))
      t' armed
  where
    either :
        (b : Bool) (t' : SessionTable)
        → Same t t'
        → Same t (if b then abort_reaper t' serial else t')
    either true t' armed =
        Same-trans t t' (abort_reaper t' serial) armed (abort_reaper-Same t' serial)
    either false t' armed = armed

pub store_closed-Same :
    (t : SessionTable) (serial : ℕ) (u : Option Uplink) → Same t (store_closed t serial u)
unfolding store_closed
store_closed-Same t serial none = Same-refl t
store_closed-Same t serial (some u) =
    (refl, refl, refl, names-modify (λ s. record s { uplink = u }) serial t.sessions (λ s. refl))

pub pushed-Same :
    (t : SessionTable) (serial : ℕ) (r : Uplink × PushResult) → Same t (pushed t serial r).0
unfolding pushed
pushed-Same t serial (u, r) =
    (refl, refl, refl, names-modify (λ s. record s { uplink = u }) serial t.sessions (λ s. refl))

pub push_to-Same :
    (t : SessionTable) (serial : ℕ) (s : Option Session) (seq : ℕ) (payload : Bytes)
    → Same t (push_to t serial s seq payload).0
unfolding push_to
push_to-Same t serial none seq payload = Same-refl t
push_to-Same t serial (some s) seq payload =
    pushed-Same t serial (push (with_budget t.budget s.uplink) seq payload)

pub take_reader-Same :
    (t : SessionTable) (serial : ℕ) (s : Option Session) → Same t (take_reader t serial s).0
unfolding take_reader
take_reader-Same t serial none = Same-refl t
take_reader-Same t serial (some s) = elim (Option-cases s.downlink_reader) [
  | inl e ↦ rw e (Same-refl t)
  | inr (reader, e) ↦ rw e (
    refl,
    refl,
    refl,
    names-modify (λ s. record s { downlink_reader = none }) serial t.sessions (λ s. refl),
  )
]

pub open_upserted-Same : (t : SessionTable) (found : Option ℕ) → Same t (open_upserted (t, found)).0
unfolding open_upserted
open_upserted-Same t none = Same-refl t
open_upserted-Same t (some serial) =
    let t1 = connect t serial in
    let t2 = abort_reaper t1 serial in
    let connected : Same t t1 = (
      refl,
      refl,
      refl,
      names-modify (λ s. record s { fully_connected = true }) serial t.sessions (λ s. refl),
    ) in
    Same-trans t t1 (take_reader t2 serial (get_elem? t2.sessions serial)).0 connected (
      Same-trans t1 t2 (take_reader t2 serial (get_elem? t2.sessions serial)).0
        (abort_reaper-Same t1 serial) (take_reader-Same t2 serial (get_elem? t2.sessions serial)))

pub with_reaper-Same :
    (fully_connected : Bool) (t : SessionTable) (id : Bytes) (serial : ℕ)
    → Same t (with_reaper fully_connected t id serial)
unfolding with_reaper
with_reaper-Same true t id serial = Same-refl t
with_reaper-Same false t id serial = start_reaper-Same t id serial
