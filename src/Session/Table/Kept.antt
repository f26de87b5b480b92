-- ===== src/Session/Table/Kept.antt =====
-- src/session/mod.rs: every operation keeps the table well-formed.
use rust_xhttp.Common.{
  ℕ, zero, suc, ◌<◌, ◌^◌, max, ◌≡◌, refl, sym, subst, Bool, true, false, not, ◌&&◌, if◌then◌else◌,
  List, [], ◌∷◌, Option, none, some, Bytes, length, get_elem?, set, arith, All, leb,
  length-replicate, Bool-cases, Option-cases, inl, inr, ◌⊎◌, set-get_or,
}
use rust_xhttp.Buffer.{fetch_add, fetch_sub}
use rust_xhttp.Session.Table.{
  Session, SessionTable, SessionConfig, fnv1a, shard_of, shard_index, new_table, new_session,
  insert_session, with_reaper, abort_reaper, upsert, upsert_found, without,
}
use rust_xhttp.Session.Table.Keys.{Map, find, erase, erase-absent}
use rust_xhttp.Session.Table.Operations.{
  push_to, push_upserted, push_uplink, open_upserted, open_download, closed_uplink, store_closed,
  removed, is_expected, remove_inner, remove, remove_hashed, reap, wake, Action, pushes, opens,
  removes, ends_download, wakes, end_download, act, run,
}
use rust_xhttp.Session.Table.View.{
  view, name_of, names, names-append, length-names, get_elem?-names,
}
use rust_xhttp.Session.Table.Wellformed.{
  IsHashed, Wellformed, IsTable, get_or-replicate, total-replicate, insert-Wellformed,
  erase-Wellformed,
}
use rust_xhttp.Session.Table.Same.{
  Same, Same-refl, Same-trans, Same-Wellformed, abort_reaper-Same, with_reaper-Same,
  store_closed-Same, push_to-Same, open_upserted-Same,
}

-- A new table.
pub new_table-IsTable : (cfg : SessionConfig) → cfg.max_sessions < 2 ^ 64 → IsTable (new_table cfg)
unfolding new_table
new_table-IsTable cfg fits =
    let n = max cfg.shards 1 in
    record {
      some_shards = omega (arith, length-replicate {A = Map} n []);
      fits = fits;
      counted = sym (total-replicate n);
      bounded = omega arith;
      distinct = λ i. rw (get_or-replicate n i) tt;
      filed = λ i id serial found.
          let none_found : find id [] ≡ some serial =
            subst (λ m. find id m ≡ some serial) (get_or-replicate n i) found in
          cc;
      hashed = tt;
    }

pub insert_session-IsTable :
    (t : SessionTable) (id : Bytes) (fully_connected : Bool)
    → IsTable t
    → view t id ≡ none
    → t.active < t.cfg.max_sessions
    → IsTable (insert_session t id fully_connected)
unfolding insert_session new_session
insert_session-IsTable t id fully_connected w absent room =
    rw (names-append t.sessions (new_session t id fully_connected ∷ []), ← length-names t.sessions)
      (insert-Wellformed t.shards t.cfg.max_sessions t.active (names t.sessions) w id absent room)

upsert-IsTable :
    (t : SessionTable) (id : Bytes) (fully_connected : Bool)
    → IsTable t
    → IsTable (upsert t id fully_connected).0
unfolding upsert upsert_found
upsert-IsTable t id fully_connected w = go (view t id) refl
  where
    go :
        (found : Option ℕ) → view t id ≡ found → IsTable (upsert_found t id fully_connected found).0
    go (some serial) e = w
    go none absent = elim (Bool-cases (leb t.cfg.max_sessions t.active)) [
      | inl full ↦ rw full w
      | inr room ↦
          let t' = insert_session t id fully_connected in
          let serial = length t.sessions in
          rw room (
            Same-Wellformed t' (with_reaper fully_connected t' id serial) (λ n. n)
              (with_reaper-Same fully_connected t' id serial)
              (insert_session-IsTable t id fully_connected w absent (ground (arith, room))))
    ]

push_uplink-IsTable :
    (t : SessionTable) (id : Bytes) (seq : ℕ) (payload : Bytes)
    → IsTable t
    → IsTable (push_uplink t id seq payload).0
unfolding push_uplink push_upserted
push_uplink-IsTable t id seq payload w = go (upsert t id false) (upsert-IsTable t id false w)
  where
    go : (r : SessionTable × Option ℕ) → IsTable r.0 → IsTable (push_upserted r seq payload).0
    go (t', none) w' = w'
    go (t', some serial) w' =
        Same-Wellformed t' (push_to t' serial (get_elem? t'.sessions serial) seq payload).0 (λ n. n)
          (push_to-Same t' serial (get_elem? t'.sessions serial) seq payload) w'

open_download-IsTable : (t : SessionTable) (id : Bytes) → IsTable t → IsTable (open_download t id).0
unfolding open_download
open_download-IsTable t id w =
    let r = upsert t id true in
    Same-Wellformed r.0 (open_upserted r).0 (λ n. n) (open_upserted-Same r.0 r.1)
      (upsert-IsTable t id true w)

removed-IsTable :
    (t : SessionTable) (cancel_reaper : Bool) (serial : ℕ)
    → Wellformed t.shards t.cfg.max_sessions (fetch_sub t.active 1) (names t.sessions)
    → IsTable (removed t cancel_reaper (some serial))
unfolding removed
removed-IsTable t cancel_reaper serial w =
    let t' = if cancel_reaper then abort_reaper t serial else t in
    let u = closed_uplink (get_elem? t'.sessions serial) t'.budget in
    Same-Wellformed t (store_closed t' serial u) (λ n. fetch_sub n 1)
      (Same-trans t t' (store_closed t' serial u) (aborts cancel_reaper)
        (store_closed-Same t' serial u))
      w
  where
    aborts : (b : Bool) → Same t (if b then abort_reaper t serial else t)
    aborts true = abort_reaper-Same t serial
    aborts false = Same-refl t

remove_inner-IsTable :
    (t : SessionTable) (id : Bytes) (expected : Option ℕ) (cancel_reaper : Bool)
    → IsTable t
    → IsTable (remove_inner t id (fnv1a id) expected cancel_reaper)
unfolding remove_inner removed
remove_inner-IsTable t id expected cancel_reaper w =
    elim (Bool-cases (is_expected expected (view t id))) [
      | inr other ↦ rw other w
      | inl same ↦ rw same (go (Option-cases (view t id)))
    ]
  where
    after : SessionTable
    after = record t {
      shards = set t.shards (shard_index t (fnv1a id)) (erase id (shard_of t (fnv1a id)));
    }

    go :
        (view t id ≡ none) ⊎ ((s : ℕ) × (view t id ≡ some s))
        → IsTable (removed after cancel_reaper (view t id))
    go (inl absent) =
        rw
          (
            absent,
            erase-absent id (shard_of t (fnv1a id)) absent,
            set-get_or t.shards (shard_index t (fnv1a id)) [],
          )
          w
    go (inr (serial, found)) = rw found (
        removed-IsTable after cancel_reaper serial (
          erase-Wellformed t.shards t.cfg.max_sessions t.active (names t.sessions) w id serial
            found))

remove_hashed-IsTable :
    (t : SessionTable) (s : Option Session)
    → IsTable t
    → ((x : Session) → s ≡ some x → x.id_hash ≡ fnv1a x.id)
    → IsTable (end_download t s)
unfolding end_download remove_hashed
remove_hashed-IsTable t none w h = w
remove_hashed-IsTable t (some x) w h =
    subst (λ n. IsTable (remove_inner t x.id n none true)) (sym (h x refl))
      (remove_inner-IsTable t x.id none true w)

reap-IsTable :
    (t : SessionTable) (serial : ℕ) (upgraded : Bool) (s : Option Session)
    → IsTable t
    → ((x : Session) → s ≡ some x → x.id_hash ≡ fnv1a x.id)
    → IsTable (reap t serial upgraded s)
unfolding reap
reap-IsTable t serial upgraded none w h = w
reap-IsTable t serial upgraded (some x) w h =
    elim (Bool-cases (upgraded && not x.fully_connected)) [
      | inr stays ↦ rw stays w
      | inl goes ↦
          let t' = record t { session_timeouts = fetch_add t.session_timeouts 1 } in
          rw goes (
            subst (λ n. IsTable (remove_inner t' x.id n (some serial) false)) (sym (h x refl))
              (remove_inner-IsTable t' x.id (some serial) false w))
    ]

some-injective : {a b : Bytes × ℕ} → some a ≡ some b → a ≡ b
some-injective e = cc

pub hashed_at :
    (t : SessionTable) (serial : ℕ) (s : Session)
    → IsTable t
    → get_elem? t.sessions serial ≡ some s
    → s.id_hash ≡ fnv1a s.id
hashed_at t serial s w h =
    All-at (names t.sessions) serial (get_elem?-names t.sessions serial s h) w.hashed
  where
    All-at :
        (ns : List (Bytes × ℕ)) (i : ℕ)
        → get_elem? ns i ≡ some (name_of s)
        → All IsHashed ns
        → IsHashed (name_of s)
    All-at [] i e h = cc
    All-at (n ∷ ns) zero e h = subst IsHashed (some-injective e) h.0
    All-at (n ∷ ns) (suc i) e h = All-at ns i e h.1

-- Every action keeps the table well-formed.
pub act-IsTable : (t : SessionTable) (a : Action) → IsTable t → IsTable (act t a)
unfolding act remove wake
act-IsTable t (pushes id seq payload) w = push_uplink-IsTable t id seq payload w
act-IsTable t (opens id) w = open_download-IsTable t id w
act-IsTable t (removes id) w = remove_inner-IsTable t id none true w
act-IsTable t (ends_download serial) w =
    remove_hashed-IsTable t (get_elem? t.sessions serial) w (λ s e. hashed_at t serial s w e)
act-IsTable t (wakes serial upgraded) w =
    let t' = record t { reapers = without serial t.reapers } in
    reap-IsTable t' serial upgraded (get_elem? t'.sessions serial) w
      (λ s e. hashed_at t serial s w e)

-- For a limit that a 64-bit counter holds, any calls of a new table that come one after another, each
-- running to its end before the next one starts, ends of downloads and of reapers' sleeps among
-- them, leave it well-formed: every entry stands in the shard of its id and is a session of that id,
-- no id has two entries, and the counter of active sessions is the number of entries, which does not
-- pass the limit. Calls that overlap under the locks of different shards are not spoken of.
pub run-IsTable :
    (cfg : SessionConfig) (actions : List Action)
    → cfg.max_sessions < 2 ^ 64
    → IsTable (run (new_table cfg) actions)
unfolding run
run-IsTable cfg actions fits = go (new_table cfg) actions (new_table-IsTable cfg fits)
  where
    go : (t : SessionTable) (rest : List Action) → IsTable t → IsTable (run t rest)
    go t [] w = w
    go t (a ∷ rest) w = go (act t a) rest (act-IsTable t a w)
