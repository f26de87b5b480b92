-- ===== src/Session/Reorder/Runs.antt =====
-- src/session/reorder.rs: any interleaving of pushes and reads.
use rust_xhttp.Common.{
  ℕ, ◌<◌, ◌≡◌, ◌≢◌, refl, ap, ◌∙◌, List, [], ◌∷◌, ◌++◌, Option, none, Bytes, arith, IsU64, All,
}
use rust_xhttp.Common.Maps.{lookup}
use rust_xhttp.Buffer.{Budget}
use rust_xhttp.Session.Reorder.{Uplink, push, poll_read, channel_with_budget}
use rust_xhttp.Session.Reorder.Order.{InOrder, IsDrained}
use rust_xhttp.Session.Reorder.Reads.{poll_bytes, poll_read-Polled, Polled-InOrder}
use rust_xhttp.Session.Reorder.Pushes.{log_push, push-Keeps}
use rust_xhttp.Session.Reorder.Stream.{Log, stream, in_flight, delivered_count, payload?}

-- The two operations that a client and the reader interleave.
pub data Event : Type 0 where
  pushes : ℕ → Bytes → Event
  reads : ℕ → Event

abbrev pub IsEvent : Event → Type 0
IsEvent (pushes seq payload) = IsU64 seq
IsEvent (reads n) = Unit {0}

-- The uplink, the bytes that the reader has had, and the packets that were accepted.
pub record Run : Type 0 where
  pub uplink : Uplink
  pub out : Bytes
  pub log : Log

unfoldable pub step : Run → Event → Run
step r (pushes seq payload) =
    let (u, result) = push r.uplink seq payload in
    record r { uplink = u; log = log_push result seq payload r.log }
step r (reads n) =
    let (u, poll) = poll_read r.uplink n in record r { uplink = u; out = r.out ++ poll_bytes poll }

unfoldable pub run : Run → List Event → Run
run r [] = r
run r (e ∷ es) = run (step r e) es

abbrev pub fresh : ℕ → ℕ → Option Budget → Run
fresh max_packets max_bytes budget = record {
  uplink = channel_with_budget max_packets max_bytes budget;
  out = [];
  log = [];
}

abbrev pub Good : Run → Type 0
Good r = InOrder r.out r.log r.uplink × IsDrained r.uplink

step-Good : (r : Run) (e : Event) → IsEvent e → Good r → Good (step r e)
unfolding step
step-Good r (pushes seq payload) h (v, d) = push-Keeps r.out r.log r.uplink seq payload v d h
step-Good r (reads n) h g =
    Polled-InOrder r.out r.log r.uplink (poll_read r.uplink n) (poll_read-Polled r.uplink n) g

run-Good : (r : Run) (es : List Event) → All IsEvent es → Good r → Good (run r es)
unfolding run
run-Good r [] h g = g
run-Good r (e ∷ es) h g = run-Good (step r e) es h.1 (step-Good r e h.0 g)

pub fresh-Good :
    (max_packets max_bytes : ℕ) (budget : Option Budget) → Good (fresh max_packets max_bytes budget)
unfolding channel_with_budget stream
fresh-Good max_packets max_bytes budget = (
  record {
    stays = refl;
    distinct = tt;
    fits = λ k h. refl;
    flow = refl;
    prefix = λ k h. absurd (omega arith);
    buffered = λ k h. refl;
    bounded = omega arith;
  },
  refl,
)

-- What the reader of an uplink is promised.
pub record Promise (r : Run) : Type 0 where
  pub in_order : r.out ++ in_flight r.uplink ≡ stream r.log (delivered_count r.uplink)
  pub all_before : (k : ℕ) → k < delivered_count r.uplink → lookup k r.log ≢ none
  pub none_missed : lookup (delivered_count r.uplink) r.log ≡ none

Good-Promise : (r : Run) → Good r → Promise r
Good-Promise r (v, d) = record {
  in_order = v.flow;
  all_before = v.prefix;
  none_missed = v.buffered (delivered_count r.uplink) (omega arith) ∙ ap payload? d;
}

-- After any interleaving of pushes of any packets and reads of any sizes, while the receiver
-- stays, the bytes read and those in flight are together the payloads of packets 0, 1, …, n - 1 in
-- that order, where n is the first number that was not accepted: no byte is lost, repeated or
-- out of order, and no packet that could be delivered waits.
pub run-Promise :
    (max_packets max_bytes : ℕ) (budget : Option Budget) (es : List Event)
    → All IsEvent es
    → Promise (run (fresh max_packets max_bytes budget) es)
run-Promise max_packets max_bytes budget es h =
    Good-Promise _ (run-Good _ es h (fresh-Good max_packets max_bytes budget))
