-- ===== src/Examples/Table.antt =====
-- Runs of src/session/mod.rs and src/session/downlink.rs.
use rust_xhttp.Common.{◌≡◌, ◌≢◌, refl, true, List, [], ◌∷◌, none, some, Bytes, arith}
use rust_xhttp.Session.Downlink.{Downlink, open_channel, send_chunk, waits_for_room, recv, chunk}
use rust_xhttp.Session.Table.Once.{open_download-once}
use rust_xhttp.Session.Table.{
  DownlinkReader, SessionConfig, fnv1a, new_table, insert_session, new_session, upsert,
  upsert_found, with_reaper, abort_reaper,
}
use rust_xhttp.Session.Table.Operations.{
  Action, opened, pushes, opens, removes, ends_download, wakes, act, run, open_download,
  open_upserted, take_reader, remove, remove_hashed, remove_inner, removed, store_closed,
  end_download,
}
use rust_xhttp.Session.Table.View.{view}
use rust_xhttp.Session.Table.Wellformed.{IsTable}
use rust_xhttp.Session.Table.Kept.{run-IsTable}
use rust_xhttp.Session.Table.Spec.{spec}
use rust_xhttp.Session.Table.Refinement.{act-view}

-- The hash of the FNV test vector `a`.
hash_of_a : fnv1a (b'a' ∷ []) ≡ 0xaf63dc4c8601ec8c
unfolding fnv1a
hash_of_a = refl

abbrev cfg : SessionConfig
cfg = record {
  shards = 4;
  max_sessions = 2;
  max_pending_packets = 4;
  max_pending_bytes = 100;
  global_buffer_budget = none;
}

abbrev one : Bytes
one = b'1' ∷ []

abbrev two : Bytes
two = b'2' ∷ []

-- A session that is uploaded to and downloaded from, and one whose reaper wakes up.
abbrev actions : List Action
actions = pushes one 0 (b'h' ∷ []) ∷ opens one ∷ wakes 0 true ∷ pushes two 0 [] ∷ wakes 1 true ∷ []

run-IsTable_example : IsTable (run (new_table cfg) actions)
run-IsTable_example = run-IsTable cfg actions (omega arith)

act-view_example :
    view (act (run (new_table cfg) actions) (ends_download 0)) one
    ≡ spec (run (new_table cfg) actions) (ends_download 0) one
act-view_example =
    act-view (run (new_table cfg) actions) (ends_download 0) one
      (run-IsTable cfg actions (omega arith))

-- The end of an old download takes away the session that has been entered under the id since.
old_download_ends :
    view (run (new_table cfg) (opens one ∷ removes one ∷ opens one ∷ [])) one ≡ some 1
unfolding run act new_table open_download open_upserted upsert upsert_found insert_session
    new_session with_reaper abort_reaper take_reader remove remove_inner removed store_closed fnv1a
old_download_ends = refl

new_session_gone :
    view (run (new_table cfg) (opens one ∷ removes one ∷ opens one ∷ ends_download 0 ∷ [])) one
    ≡ none
unfolding run act new_table open_download open_upserted upsert upsert_found insert_session
    new_session with_reaper abort_reaper take_reader remove remove_inner removed store_closed fnv1a
    end_download remove_hashed
new_session_gone = refl

abbrev reader : DownlinkReader
reader = record { rx = 0; session_key = some (one, 0xaf63ac4c86019afc) }

open_download-once_example :
    (open_download (run (open_download (new_table cfg) one).0 (removes one ∷ [])) one).1
    ≢ opened 0 reader
open_download-once_example =
    open_download-once (new_table cfg) one 0 reader (removes one ∷ []) one reader (
      unfold open_download open_upserted new_table upsert upsert_found insert_session new_session
        with_reaper abort_reaper take_reader fnv1a in
      refl)

-- A channel for one chunk: the second one waits, and the first one is received.
abbrev one_chunk : Downlink
one_chunk = (send_chunk (open_channel 0) one).0

full_channel : (send_chunk one_chunk two).1 ≡ waits_for_room
unfolding send_chunk open_channel
full_channel = refl

received_chunk : (recv one_chunk).1 ≡ chunk one
unfolding recv send_chunk open_channel
received_chunk = refl
