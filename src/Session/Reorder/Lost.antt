-- ===== src/Session/Reorder/Lost.antt =====
-- src/session/reorder.rs: pushes whose receiver is gone.
use rust_xhttp.Common.{◌≡◌, ◌++◌, some, Bytes}
use rust_xhttp.Session.Reorder.{Uplink, PushResult, closed}
use rust_xhttp.Session.Reorder.Runs.{Run}
use rust_xhttp.Session.Reorder.Stream.{in_flight}

-- The receiver is gone: no send comes through any more.
abbrev pub IsLost : Uplink → Type 0
IsLost u = u.sends_left ≡ some 0

-- Nothing has been put into the channel, and the receiver is still gone.
abbrev Silent : Uplink → Uplink → Type 0
Silent u u' = (in_flight u' ≡ in_flight u) × IsLost u'

-- An answer `Closed` comes from a send that has failed.
abbrev Closes : Uplink × PushResult → Type 0
Closes r = r.1 ≡ closed → IsLost r.0

-- What the reader has had, and what it can still get.
abbrev pub reaching : Run → Bytes
reaching r = r.out ++ in_flight r.uplink
