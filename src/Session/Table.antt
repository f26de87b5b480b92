-- ===== src/Session/Table.antt =====
-- src/session/mod.rs: the table of sessions. An `Arc<Session>` is the number of the session, under which
-- the list `sessions` keeps it also when it has left the table; `==` on the numbers is `Arc::ptr_eq`.
-- A map is an association list, and a grace reaper is the number of the session that it sleeps for.
-- The handler is called with the new session's ends, and what it does with them is not part of the
-- table. The budget is shared by all sessions: an operation on an uplink takes the table's.
pub mod Keys
pub mod Operations
pub mod View
pub mod Wellformed
pub mod Same
pub mod Kept
pub mod Spec
pub mod Refinement
pub mod Stays
pub mod Once
use rust_xhttp.Common.{
  ℕ, zero, suc, ◌+◌, ◌-◌, ◌*◌, ◌^◌, ◌%◌, max, Bool, true, false, if◌then◌else◌, ◌==◌, leb, not,
  ◌&&◌, ◌||◌, List, [], ◌∷◌, ◌++◌, Option, none, some, Bytes, length, get_or, get_elem?, set,
  replicate,
}
use Prim.Native.Nat.{bit_xor}
use rust_xhttp.Buffer.{Budget, fetch_add}
use rust_xhttp.Session.Reorder.{Uplink, channel_with_budget}
use rust_xhttp.Session.Table.Keys.{Map, find}

-- The receiver of the channel of a session, which the session's number stands for.
pub record DownlinkReader : Type 0 where
  pub rx : ℕ
  pub session_key : Option (Bytes × ℕ)

pub record Session : Type 0 where
  pub id : Bytes
  pub id_hash : ℕ
  pub uplink : Uplink
  pub downlink_reader : Option DownlinkReader
  pub fully_connected : Bool
  pub grace_reaper : Option ℕ

pub record SessionConfig : Type 0 where
  pub shards : ℕ
  pub max_sessions : ℕ
  pub max_pending_packets : ℕ
  pub max_pending_bytes : ℕ
  pub global_buffer_budget : Option Budget

-- `SessionTable` with the three metrics that it writes, and the reapers that sleep.
pub record SessionTable : Type 0 where
  pub shards : List Map
  pub cfg : SessionConfig
  pub active : ℕ
  pub sessions : List Session
  pub reapers : List ℕ
  pub budget : Option Budget
  pub active_gauge : ℕ
  pub pending_gauge : ℕ
  pub session_timeouts : ℕ

unfoldable pub fnv1a_from : ℕ → Bytes → ℕ
fnv1a_from h [] = h
fnv1a_from h (b ∷ bytes) = fnv1a_from (bit_xor h b * 0x100000001b3 % 2 ^ 64) bytes

unfoldable pub fnv1a : Bytes → ℕ
unfolding fnv1a_from
fnv1a bytes = fnv1a_from 0xcbf29ce484222325 bytes

-- `SessionTable::new`
unfoldable pub new_table : SessionConfig → SessionTable
new_table cfg = record {
  shards = replicate (max cfg.shards 1) [];
  cfg = cfg;
  active = 0;
  sessions = [];
  reapers = [];
  budget = cfg.global_buffer_budget;
  active_gauge = 0;
  pending_gauge = 0;
  session_timeouts = 0;
}

abbrev pub shard_index : SessionTable → ℕ → ℕ
shard_index t id_hash = id_hash % length t.shards

abbrev pub shard_of : SessionTable → ℕ → Map
shard_of t id_hash = get_or t.shards (shard_index t id_hash) []

-- A change of a session.
abbrev pub modify : (Session → Session) → ℕ → List Session → List Session
modify f serial [] = []
modify f zero (s ∷ sessions) = f s ∷ sessions
modify f (suc serial) (s ∷ sessions) = s ∷ modify f serial sessions

unfoldable pub new_session : SessionTable → Bytes → Bool → Session
new_session t id fully_connected = record {
  id = id;
  id_hash = fnv1a id;
  uplink = channel_with_budget t.cfg.max_pending_packets t.cfg.max_pending_bytes t.budget;
  downlink_reader = some (record { rx = length t.sessions; session_key = none });
  fully_connected = fully_connected;
  grace_reaper = none;
}

-- The new session in its shard.
unfoldable pub insert_session : SessionTable → Bytes → Bool → SessionTable
insert_session t id fully_connected =
    let i = shard_index t (fnv1a id) in
    record t {
      shards = set t.shards i ((id, length t.sessions) ∷ get_or t.shards i []);
      sessions = t.sessions ++ new_session t id fully_connected ∷ [];
      active = fetch_add t.active 1;
      active_gauge = fetch_add t.active_gauge 1;
    }

-- The take of the reaper's handle, and the abort of the reaper if there was one.
abbrev pub without : ℕ → List ℕ → List ℕ
without serial [] = []
without serial (r ∷ rs) = if r == serial then without serial rs else r ∷ without serial rs

unfoldable pub aborted : Option ℕ → List ℕ → List ℕ
aborted none reapers = reapers
aborted (some reaper) reapers = without reaper reapers

abbrev pub handle_of : Option Session → Option ℕ
handle_of none = none
handle_of (some s) = s.grace_reaper

unfoldable pub abort_reaper : SessionTable → ℕ → SessionTable
unfolding aborted
abort_reaper t serial = record t {
  sessions = modify (λ s. record s { grace_reaper = none }) serial t.sessions;
  reapers = aborted (handle_of (get_elem? t.sessions serial)) t.reapers;
}

abbrev pub is_connected : Option Session → Bool
is_connected none = false
is_connected (some s) = s.fully_connected

-- Whether an entry is there and is that session.
abbrev pub is_current : Option ℕ → ℕ → Bool
is_current none serial = false
is_current (some current) serial = current == serial

-- The reaper of a new session, and the second look behind it.
unfoldable pub start_reaper : SessionTable → Bytes → ℕ → SessionTable
unfolding abort_reaper
start_reaper t id serial =
    let t' = record t {
      sessions = modify (λ s. record s { grace_reaper = some serial }) serial t.sessions;
      reapers = serial ∷ t.reapers;
    } in
    if is_connected (get_elem? t'.sessions serial)
      || not (is_current (find id (shard_of t' (fnv1a id))) serial)
    then abort_reaper t' serial
    else t'

-- A session that a download creates is connected already and needs no reaper.
unfoldable pub with_reaper : Bool → SessionTable → Bytes → ℕ → SessionTable
unfolding start_reaper
with_reaper true t id serial = t
with_reaper false t id serial = start_reaper t id serial

-- `upsert`, with the entry that the look-up found.
unfoldable pub upsert_found : SessionTable → Bytes → Bool → Option ℕ → SessionTable × Option ℕ
upsert_found t id fully_connected_on_create (some found) = (t, some found)
upsert_found t id fully_connected_on_create none =
    let t' = insert_session t id fully_connected_on_create in
    let serial = length t.sessions in
    if leb t.cfg.max_sessions t.active
    then (t, none)
    else (with_reaper fully_connected_on_create t' id serial, some serial)

unfoldable pub upsert : SessionTable → Bytes → Bool → SessionTable × Option ℕ
upsert t id fully_connected_on_create =
    upsert_found t id fully_connected_on_create (find id (shard_of t (fnv1a id)))
