-- ===== src/Session/Table/Refinement.antt =====
-- src/session/mod.rs: the table is one map from ids to sessions; the hash and the shards do not show.
use rust_xhttp.Common.{
  ℕ, ◌%◌, ◌≡◌, refl, ap, sym, ◌∙◌, Bool, true, false, not, ◌&&◌, if◌then◌else◌, [], Option, none,
  some, Bytes, length, get_or, get_elem?, set, leb, bytes_eq, bytes_eq-eq, Bool-cases, inl, inr,
}
use rust_xhttp.Buffer.{fetch_add}
use rust_xhttp.Session.Table.{
  Session, SessionTable, fnv1a, shard_of, shard_index, insert_session, with_reaper, abort_reaper,
  upsert, upsert_found, without,
}
use rust_xhttp.Session.Table.Keys.{find, erase}
use rust_xhttp.Session.Table.Operations.{
  push_to, push_upserted, push_uplink, open_upserted, open_download, closed_uplink, removed,
  is_expected, remove_inner, remove, remove_hashed, reap, wake, Action, pushes, opens, removes,
  ends_download, wakes, end_download, act,
}
use rust_xhttp.Session.Table.View.{view}
use rust_xhttp.Session.Table.Wellformed.{IsTable}
use rust_xhttp.Session.Table.Same.{
  abort_reaper-Same, store_closed-Same, with_reaper-Same, push_to-Same, open_upserted-Same,
}
use rust_xhttp.Session.Table.Kept.{hashed_at}
use rust_xhttp.Session.Table.Spec.{
  after_upsert, after_remove, after_end, after_wake, spec, Same-view, removed-view,
  insert_session-view,
}

upsert-view :
    (t : SessionTable) (id key : Bytes) (fully_connected : Bool)
    → IsTable t
    → view (upsert t id fully_connected).0 key ≡ after_upsert t id key
unfolding upsert upsert_found
upsert-view t id key fully_connected w = go (view t id) refl
  where
    wanted : Option ℕ → Option ℕ
    wanted entry =
        if bytes_eq id key
        then elim entry [
          | some serial ↦ some serial
          | none ↦ if leb t.cfg.max_sessions t.active then none else some (length t.sessions)
        ]
        else view t key

    same_key : bytes_eq id key ≡ true → view t key ≡ view t id
    same_key e = ap (view t) (sym (bytes_eq-eq id key e))

    unchanged :
        (entry : Option ℕ)
        → view t id ≡ entry
        → view t key ≡ (if bytes_eq id key then entry else view t key)
    unchanged entry e = elim (Bool-cases (bytes_eq id key)) [
      | inl is_key ↦ rw is_key (same_key is_key ∙ e)
      | inr other ↦ rw other refl
    ]

    go :
        (entry : Option ℕ)
        → view t id ≡ entry
        → view (upsert_found t id fully_connected entry).0 key ≡ wanted (view t id)
    go (some serial) e = unchanged (some serial) e ∙ ap wanted (sym e)
    go none e = elim (Bool-cases (leb t.cfg.max_sessions t.active)) [
      | inl full ↦ (rw full (unchanged none e)) ∙ ap wanted (sym e)
      | inr room ↦
          let t' = insert_session t id fully_connected in
          (rw room (
            Same-view t' (with_reaper fully_connected t' id (length t.sessions)) key
              (with_reaper-Same fully_connected t' id (length t.sessions))
            ∙ insert_session-view t id key fully_connected w))
          ∙ ap wanted (sym e)
    ]

push_uplink-view :
    (t : SessionTable) (id key : Bytes) (seq : ℕ) (payload : Bytes)
    → IsTable t
    → view (push_uplink t id seq payload).0 key ≡ after_upsert t id key
unfolding push_uplink push_upserted
push_uplink-view t id key seq payload w = go (upsert t id false) ∙ upsert-view t id key false w
  where
    go : (r : SessionTable × Option ℕ) → view (push_upserted r seq payload).0 key ≡ view r.0 key
    go (t', none) = refl
    go (t', some serial) =
        let s = get_elem? t'.sessions serial in
        Same-view t' (push_to t' serial s seq payload).0 key (push_to-Same t' serial s seq payload)

open_download-view :
    (t : SessionTable) (id key : Bytes)
    → IsTable t
    → view (open_download t id).0 key ≡ after_upsert t id key
unfolding open_download
open_download-view t id key w =
    let r = upsert t id true in
    Same-view r.0 (open_upserted r).0 key (open_upserted-Same r.0 r.1) ∙ upsert-view t id key true w

removed-shards :
    (t : SessionTable) (cancel_reaper : Bool) (entry : Option ℕ)
    → (removed t cancel_reaper entry).shards ≡ t.shards
unfolding removed
removed-shards t cancel_reaper none = refl
removed-shards t true (some serial) =
    let t' = abort_reaper t serial in
    (store_closed-Same t' serial (closed_uplink (get_elem? t'.sessions serial) t'.budget)).0
    ∙ (abort_reaper-Same t serial).0
removed-shards t false (some serial) =
    (store_closed-Same t serial (closed_uplink (get_elem? t.sessions serial) t.budget)).0

remove_inner-view :
    (t : SessionTable) (id key : Bytes) (expected : Option ℕ) (cancel_reaper : Bool)
    → IsTable t
    → view (remove_inner t id (fnv1a id) expected cancel_reaper) key
      ≡ after_remove t (is_expected expected (view t id)) id key
unfolding remove_inner
remove_inner-view t id key expected cancel_reaper w =
    elim (Bool-cases (is_expected expected (view t id))) [
      | inr other ↦ rw other refl
      | inl same ↦
          let t' = record t {
            shards = set t.shards (shard_index t (fnv1a id)) (erase id (shard_of t (fnv1a id)));
          } in
          rw same (
            ap (λ ms. find key (get_or ms (fnv1a key % length ms) []))
              (removed-shards t' cancel_reaper (view t id))
            ∙ removed-view t id key w)
    ]

end_download-view :
    (t : SessionTable) (s : Option Session) (key : Bytes)
    → IsTable t
    → ((x : Session) → s ≡ some x → x.id_hash ≡ fnv1a x.id)
    → view (end_download t s) key ≡ after_end t s key
unfolding end_download remove_hashed
end_download-view t none key w h = refl
end_download-view t (some x) key w h =
    ap (λ n. view (remove_inner t x.id n none true) key) (h x refl)
    ∙ remove_inner-view t x.id key none true w

reap-view :
    (t : SessionTable) (serial : ℕ) (upgraded : Bool) (s : Option Session) (key : Bytes)
    → IsTable t
    → ((x : Session) → s ≡ some x → x.id_hash ≡ fnv1a x.id)
    → view (reap t serial upgraded s) key ≡ after_wake t serial upgraded s key
unfolding reap
reap-view t serial upgraded none key w h = refl
reap-view t serial upgraded (some x) key w h =
    elim (Bool-cases (upgraded && not x.fully_connected)) [
      | inr stays ↦ rw stays refl
      | inl goes ↦
          let t' = record t { session_timeouts = fetch_add t.session_timeouts 1 } in
          rw goes (
            ap (λ n. view (remove_inner t' x.id n (some serial) false) key) (h x refl)
            ∙ remove_inner-view t' x.id key (some serial) false w)
    ]

-- Every action on a well-formed table changes the map from ids to sessions as it changes a single
-- map: an upload or a download enters a new session under its id if there is none and the limit is not
-- reached, a removal takes away the entry of its id, the end of a download takes away the entry of
-- its session's id, and a reaper that wakes up takes away its own session, if it is still there and
-- no download has opened it; no other id is touched.
pub act-view :
    (t : SessionTable) (a : Action) (key : Bytes) → IsTable t → view (act t a) key ≡ spec t a key
unfolding act remove wake
act-view t (pushes id seq payload) key w = push_uplink-view t id key seq payload w
act-view t (opens id) key w = open_download-view t id key w
act-view t (removes id) key w = remove_inner-view t id key none true w
act-view t (ends_download serial) key w =
    end_download-view t (get_elem? t.sessions serial) key w (λ s e. hashed_at t serial s w e)
act-view t (wakes serial upgraded) key w =
    let t' = record t { reapers = without serial t.reapers } in
    reap-view t' serial upgraded (get_elem? t'.sessions serial) key w
      (λ s e. hashed_at t serial s w e)
