-- ===== src/Session/Table/Stays.antt =====
-- src/session/mod.rs: a reader that has been taken stays taken.
use rust_xhttp.Common.{
  ℕ, zero, suc, ◌≡◌, refl, sym, subst, Bool, true, false, not, ◌&&◌, ◌||◌, if◌then◌else◌, List, [],
  ◌∷◌, ◌++◌, Option, none, some, Bytes, length, get_elem?, set, Bool-cases, Option-cases, inl, inr,
  leb, get_elem?-append,
}
use rust_xhttp.Buffer.{fetch_add}
use rust_xhttp.Session.Reorder.{Uplink, push}
use rust_xhttp.Session.Table.{
  Session, SessionTable, fnv1a, shard_of, shard_index, modify, new_session, insert_session,
  start_reaper, with_reaper, abort_reaper, upsert, upsert_found, without, is_connected, is_current,
}
use rust_xhttp.Session.Table.Keys.{find, erase}
use rust_xhttp.Session.Table.Operations.{
  with_budget, pushed, push_to, push_upserted, push_uplink, take_reader, connect, open_upserted,
  open_download, closed_uplink, store_closed, removed, is_expected, remove_inner, remove,
  remove_hashed, reap, wake, Action, pushes, opens, removes, ends_download, wakes, end_download,
  act, run,
}

-- The session's reader has been taken.
abbrev pub Taken : ℕ → List Session → Type 0
Taken serial sessions =
    (s : Session) × (get_elem? sessions serial ≡ some s) × (s.downlink_reader ≡ none)

-- What has been taken stays taken.
abbrev pub Stays : List Session → List Session → Type 0
Stays xs ys = (serial : ℕ) → Taken serial xs → Taken serial ys

Stays-trans : (xs ys zs : List Session) → Stays xs ys → Stays ys zs → Stays xs zs
Stays-trans xs ys zs f g serial h = g serial (f serial h)

pub modify-Stays :
    (f : Session → Session) (at : ℕ) (sessions : List Session)
    → ((s : Session) → s.downlink_reader ≡ none → (f s).downlink_reader ≡ none)
    → Stays sessions (modify f at sessions)
modify-Stays f at [] h serial t = t
modify-Stays f zero (x ∷ xs) h zero (s, e, gone) =
    (f x, refl, h x (subst (λ o. taken_of o) (sym e) gone))
  where
    taken_of : Option Session → Type 0
    taken_of none = ⊥
    taken_of (some y) = y.downlink_reader ≡ none
modify-Stays f zero (x ∷ xs) h (suc serial) t = t
modify-Stays f (suc at) (x ∷ xs) h zero t = t
modify-Stays f (suc at) (x ∷ xs) h (suc serial) t = modify-Stays f at xs h serial t

append-Stays : (xs ys : List Session) → Stays xs (xs ++ ys)
append-Stays xs ys serial (s, e, gone) = (s, get_elem?-append xs ys serial s e, gone)

abbrev pub Keeps : SessionTable → SessionTable → Type 0
Keeps t t' = Stays t.sessions t'.sessions

either-Keeps :
    (b : Bool) (t t' t'' : SessionTable)
    → Keeps t t'
    → Keeps t t''
    → Keeps t (if b then t' else t'')
either-Keeps true t t' t'' h h' = h
either-Keeps false t t' t'' h h' = h'

pub abort_reaper-Keeps : (t : SessionTable) (serial : ℕ) → Keeps t (abort_reaper t serial)
unfolding abort_reaper
abort_reaper-Keeps t serial =
    modify-Stays (λ s. record s { grace_reaper = none }) serial t.sessions (λ s h. h)

with_reaper-Keeps :
    (b : Bool) (t : SessionTable) (id : Bytes) (serial : ℕ) → Keeps t (with_reaper b t id serial)
unfolding with_reaper start_reaper
with_reaper-Keeps true t id serial = λ n h. h
with_reaper-Keeps false t id serial =
    let t' = record t {
      sessions = modify (λ s. record s { grace_reaper = some serial }) serial t.sessions;
      reapers = serial ∷ t.reapers;
    } in
    let armed : Keeps t t' =
      modify-Stays (λ s. record s { grace_reaper = some serial }) serial t.sessions (λ s h. h) in
    either-Keeps
      (is_connected (get_elem? t'.sessions serial)
        || not (is_current (find id (shard_of t' (fnv1a id))) serial))
      t (abort_reaper t' serial) t'
      (Stays-trans t.sessions t'.sessions (abort_reaper t' serial).sessions armed
        (abort_reaper-Keeps t' serial))
      armed

pub upsert-Keeps : (t : SessionTable) (id : Bytes) (b : Bool) → Keeps t (upsert t id b).0
unfolding upsert upsert_found insert_session
upsert-Keeps t id b = go (find id (shard_of t (fnv1a id)))
  where
    go : (found : Option ℕ) → Keeps t (upsert_found t id b found).0
    go (some serial) = λ n h. h
    go none = elim (Bool-cases (leb t.cfg.max_sessions t.active)) [
      | inl full ↦ rw full (λ n h. h)
      | inr room ↦
          let t' = insert_session t id b in
          rw room (
            Stays-trans t.sessions t'.sessions (with_reaper b t' id (length t.sessions)).sessions
              (append-Stays t.sessions (new_session t id b ∷ []))
              (with_reaper-Keeps b t' id (length t.sessions)))
    ]

push_to-Keeps :
    (t : SessionTable) (serial : ℕ) (s : Option Session) (seq : ℕ) (payload : Bytes)
    → Keeps t (push_to t serial s seq payload).0
unfolding push_to pushed
push_to-Keeps t serial none seq payload = λ n h. h
push_to-Keeps t serial (some s) seq payload =
    modify-Stays (λ x. record x { uplink = (push (with_budget t.budget s.uplink) seq payload).0 })
      serial t.sessions (λ x h. h)

push_uplink-Keeps :
    (t : SessionTable) (id : Bytes) (seq : ℕ) (payload : Bytes)
    → Keeps t (push_uplink t id seq payload).0
unfolding push_uplink push_upserted
push_uplink-Keeps t id seq payload = go (upsert t id false) (upsert-Keeps t id false)
  where
    go : (r : SessionTable × Option ℕ) → Keeps t r.0 → Keeps t (push_upserted r seq payload).0
    go (t', none) h = h
    go (t', some serial) h =
        let s = get_elem? t'.sessions serial in
        Stays-trans t.sessions t'.sessions (push_to t' serial s seq payload).0.sessions h
          (push_to-Keeps t' serial s seq payload)

take_reader-Keeps :
    (t : SessionTable) (serial : ℕ) (s : Option Session) → Keeps t (take_reader t serial s).0
unfolding take_reader
take_reader-Keeps t serial none = λ n h. h
take_reader-Keeps t serial (some s) = elim (Option-cases s.downlink_reader) [
  | inl e ↦ rw e (λ n h. h)
  | inr (reader, e) ↦
      rw e (modify-Stays (λ x. record x { downlink_reader = none }) serial t.sessions (λ x h. refl))
]

open_upserted-Keeps : (t : SessionTable) (found : Option ℕ) → Keeps t (open_upserted (t, found)).0
unfolding open_upserted
open_upserted-Keeps t none = λ n h. h
open_upserted-Keeps t (some serial) =
    let t1 = connect t serial in
    let t2 = abort_reaper t1 serial in
    let t3 = (take_reader t2 serial (get_elem? t2.sessions serial)).0 in
    λ n h. take_reader-Keeps t2 serial (get_elem? t2.sessions serial) n (
      abort_reaper-Keeps t1 serial n
        (modify-Stays (λ s. record s { fully_connected = true }) serial t.sessions (λ s e. e) n h))

removed-Keeps :
    (t : SessionTable) (cancel_reaper : Bool) (entry : Option ℕ)
    → Keeps t (removed t cancel_reaper entry)
unfolding removed store_closed
removed-Keeps t cancel_reaper none = λ n h. h
removed-Keeps t cancel_reaper (some serial) =
    let t' = if cancel_reaper then abort_reaper t serial else t in
    λ n h. closed t' (closed_uplink (get_elem? t'.sessions serial) t'.budget) n (
      either-Keeps cancel_reaper t (abort_reaper t serial) t (abort_reaper-Keeps t serial)
        (λ m k. k) n h)
  where
    closed : (x : SessionTable) (u : Option Uplink) → Keeps x (store_closed x serial u)
    closed x none = λ n h. h
    closed x (some u) = modify-Stays (λ s. record s { uplink = u }) serial x.sessions (λ s h. h)

remove_inner-Keeps :
    (t : SessionTable) (id : Bytes) (id_hash : ℕ) (expected : Option ℕ) (cancel_reaper : Bool)
    → Keeps t (remove_inner t id id_hash expected cancel_reaper)
unfolding remove_inner
remove_inner-Keeps t id id_hash expected cancel_reaper =
    let entry = find id (shard_of t id_hash) in
    let t' = record t {
      shards = set t.shards (shard_index t id_hash) (erase id (shard_of t id_hash));
    } in
    either-Keeps (not (is_expected expected entry)) t t (removed t' cancel_reaper entry) (λ n h. h)
      (removed-Keeps t' cancel_reaper entry)

reap-Keeps :
    (t : SessionTable) (serial : ℕ) (upgraded : Bool) (s : Option Session)
    → Keeps t (reap t serial upgraded s)
unfolding reap
reap-Keeps t serial upgraded none = λ n h. h
reap-Keeps t serial upgraded (some s) =
    let t' = record t { session_timeouts = fetch_add t.session_timeouts 1 } in
    either-Keeps (upgraded && not s.fully_connected) t
      (remove_inner t' s.id s.id_hash (some serial) false) t
      (remove_inner-Keeps t' s.id s.id_hash (some serial) false) (λ n h. h)

end_download-Keeps : (t : SessionTable) (s : Option Session) → Keeps t (end_download t s)
unfolding end_download remove_hashed
end_download-Keeps t none = λ n h. h
end_download-Keeps t (some s) = remove_inner-Keeps t s.id s.id_hash none true

act-Keeps : (t : SessionTable) (a : Action) → Keeps t (act t a)
unfolding act remove wake open_download
act-Keeps t (pushes id seq payload) = push_uplink-Keeps t id seq payload
act-Keeps t (opens id) =
    let r = upsert t id true in λ n h. open_upserted-Keeps r.0 r.1 n (upsert-Keeps t id true n h)
act-Keeps t (removes id) = remove_inner-Keeps t id (fnv1a id) none true
act-Keeps t (ends_download serial) = end_download-Keeps t (get_elem? t.sessions serial)
act-Keeps t (wakes serial upgraded) =
    let t' = record t { reapers = without serial t.reapers } in
    reap-Keeps t' serial upgraded (get_elem? t'.sessions serial)

pub run-Keeps : (t : SessionTable) (actions : List Action) → Keeps t (run t actions)
unfolding run
run-Keeps t [] = λ n h. h
run-Keeps t (a ∷ rest) = λ n h. run-Keeps (act t a) rest n (act-Keeps t a n h)
