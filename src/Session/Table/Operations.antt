-- ===== src/Session/Table/Operations.antt =====
-- src/session/mod.rs: the operations on the table. An operation is whole: no other one comes in
-- between, so that `UplinkSink::close` gets its lock.
use rust_xhttp.Common.{
  ℕ, Bool, true, false, if◌then◌else◌, not, ◌&&◌, List, [], ◌∷◌, Option, none, some, Bytes,
  get_elem?, set,
}
use rust_xhttp.Buffer.{Budget, fetch_add, fetch_sub}
use rust_xhttp.Session.Reorder.{Uplink, PushResult, push, close, pending_packets}
use rust_xhttp.Session.Table.{
  Session, SessionTable, DownlinkReader, fnv1a, shard_index, shard_of, modify, upsert, abort_reaper,
  without, is_current,
}
use rust_xhttp.Session.Table.Keys.{find, erase}

-- An uplink with the budget that all sessions share.
abbrev pub with_budget : Option Budget → Uplink → Uplink
with_budget budget u = record u { budget = budget }

unfoldable pub pushed : SessionTable → ℕ → Uplink × PushResult → SessionTable × Option PushResult
pushed t serial (u, r) = (
  record t {
    sessions = modify (λ s. record s { uplink = u }) serial t.sessions;
    budget = u.budget;
    pending_gauge = pending_packets u;
  },
  some r,
)

unfoldable pub push_to :
    SessionTable → ℕ → Option Session → ℕ → Bytes → SessionTable × Option PushResult
push_to t serial none seq payload = (t, none)
push_to t serial (some s) seq payload =
    pushed t serial (push (with_budget t.budget s.uplink) seq payload)

unfoldable pub push_upserted :
    SessionTable × Option ℕ → ℕ → Bytes → SessionTable × Option PushResult
push_upserted (t, none) seq payload = (t, none)
push_upserted (t, some serial) seq payload =
    push_to t serial (get_elem? t.sessions serial) seq payload

-- `push_uplink`
unfoldable pub push_uplink : SessionTable → Bytes → ℕ → Bytes → SessionTable × Option PushResult
push_uplink t id seq payload = push_upserted (upsert t id false) seq payload

pub data OpenDownload : Type 0 where
  opened : ℕ → DownlinkReader → OpenDownload
  conflict capacity : OpenDownload

-- The take of the reader.
unfoldable pub take_reader : SessionTable → ℕ → Option Session → SessionTable × OpenDownload
take_reader t serial none = (t, conflict)
take_reader t serial (some s) = elim s.downlink_reader [
  | none ↦ (t, conflict)
  | some reader ↦ (
    record t { sessions = modify (λ s. record s { downlink_reader = none }) serial t.sessions },
    opened serial (record reader { session_key = some (s.id, s.id_hash) }),
  )
]

abbrev pub connect : SessionTable → ℕ → SessionTable
connect t serial = record t {
  sessions = modify (λ s. record s { fully_connected = true }) serial t.sessions;
}

unfoldable pub open_upserted : SessionTable × Option ℕ → SessionTable × OpenDownload
open_upserted (t, none) = (t, capacity)
open_upserted (t, some serial) =
    let t' = abort_reaper (connect t serial) serial in
    take_reader t' serial (get_elem? t'.sessions serial)

-- `open_download`
unfoldable pub open_download : SessionTable → Bytes → SessionTable × OpenDownload
open_download t id = open_upserted (upsert t id true)

abbrev pub active_sessions : SessionTable → ℕ
active_sessions t = t.active

-- The session that has left its shard: its uplink is closed.
abbrev pub closed_uplink : Option Session → Option Budget → Option Uplink
closed_uplink none budget = none
closed_uplink (some s) budget = some (close (with_budget budget s.uplink))

unfoldable pub store_closed : SessionTable → ℕ → Option Uplink → SessionTable
store_closed t serial none = t
store_closed t serial (some u) = record t {
  sessions = modify (λ s. record s { uplink = u }) serial t.sessions;
  budget = u.budget;
}

unfoldable pub removed : SessionTable → Bool → Option ℕ → SessionTable
removed t cancel_reaper none = t
removed t cancel_reaper (some serial) =
    let t' = if cancel_reaper then abort_reaper t serial else t in
    let closed = store_closed t' serial (closed_uplink (get_elem? t'.sessions serial) t'.budget) in
    record closed {
      active = fetch_sub closed.active 1;
      active_gauge = fetch_sub closed.active_gauge 1;
    }

-- The entry may go if none is expected there or it is the one expected.
abbrev pub is_expected : Option ℕ → Option ℕ → Bool
is_expected none entry = true
is_expected (some expected) entry = is_current entry expected

unfoldable pub remove_inner : SessionTable → Bytes → ℕ → Option ℕ → Bool → SessionTable
remove_inner t id id_hash expected cancel_reaper =
    let i = shard_index t id_hash in
    let entry = find id (shard_of t id_hash) in
    if not (is_expected expected entry)
    then t
    else removed (record t { shards = set t.shards i (erase id (shard_of t id_hash)) })
        cancel_reaper entry

-- `remove`
unfoldable pub remove : SessionTable → Bytes → SessionTable
remove t id = remove_inner t id (fnv1a id) none true

unfoldable pub remove_hashed : SessionTable → Bytes → ℕ → SessionTable
remove_hashed t id id_hash = remove_inner t id id_hash none true

-- The end of a reaper's sleep; `upgraded` says whether somebody still has the session.
unfoldable pub reap : SessionTable → ℕ → Bool → Option Session → SessionTable
reap t serial upgraded none = t
reap t serial upgraded (some s) =
    if upgraded && not s.fully_connected
    then remove_inner (record t { session_timeouts = fetch_add t.session_timeouts 1 }) s.id
        s.id_hash (some serial) false
    else t

unfoldable pub wake : SessionTable → ℕ → Bool → SessionTable
wake t serial upgraded =
    let t' = record t { reapers = without serial t.reapers } in
    reap t' serial upgraded (get_elem? t'.sessions serial)

-- What happens to a table: `end_download` is the drop of the reader of a session, which removes it by
-- its key. A reaper may also wake up when it has just been aborted.
pub data Action : Type 0 where
  pushes : Bytes → ℕ → Bytes → Action
  opens : Bytes → Action
  removes : Bytes → Action
  ends_download : ℕ → Action
  wakes : ℕ → Bool → Action

unfoldable pub end_download : SessionTable → Option Session → SessionTable
end_download t none = t
end_download t (some s) = remove_hashed t s.id s.id_hash

unfoldable pub act : SessionTable → Action → SessionTable
act t (pushes id seq payload) = (push_uplink t id seq payload).0
act t (opens id) = (open_download t id).0
act t (removes id) = remove t id
act t (ends_download serial) = end_download t (get_elem? t.sessions serial)
act t (wakes serial upgraded) = wake t serial upgraded

unfoldable pub run : SessionTable → List Action → SessionTable
run t [] = t
run t (a ∷ rest) = run (act t a) rest
