-- ===== src/Examples/Session.antt =====
-- Runs of src/session/, after the tests of src/session/reorder.rs.
use rust_xhttp.Common.{◌≡◌, refl, List, [], ◌∷◌, none, some, arith}
use rust_xhttp.Session.Reorder.{
  too_many_pending_bytes, push, push_ahead, push_next, drain, after_send, send_in_order, send,
  take_pending, reserve_payload, channel_with_budget, poll_read, poll_cur, receive, read_cur,
  drop_chunk,
}
use rust_xhttp.Session.Reorder.{Uplink, close, ready}
use rust_xhttp.Session.Reorder.Closing.{read_all, close-read_all}
use rust_xhttp.Session.Reorder.Stream.{in_flight}
use rust_xhttp.Common.{length, ◌+◌}
use rust_xhttp.Session.Reorder.Counters.{Counted, push-Counted}
use rust_xhttp.Session.Reorder.Refusals.{push_refused}
use rust_xhttp.Session.Reorder.Runs.{
  Event, pushes, reads, Run, run, step, fresh, Promise, run-Promise,
}

-- "C" as packet 2, "A" as packet 0, a read of one byte, "B" as packet 1, a duplicate, and a read.
abbrev history : List Event
history =
    pushes 2 (b'C' ∷ [])
    ∷ pushes 0 (b'A' ∷ [])
    ∷ reads 1
    ∷ pushes 1 (b'B' ∷ [])
    ∷ pushes 1 (b'Z' ∷ [])
    ∷ reads 8
    ∷ reads 8
    ∷ []

run-history : (run (fresh 30 1000 none) history).out ≡ b'A' ∷ b'B' ∷ b'C' ∷ []
unfolding run step push push_ahead push_next drain after_send send_in_order send take_pending
    reserve_payload channel_with_budget poll_read poll_cur receive read_cur drop_chunk
run-history = refl

run-Promise_example : Promise (run (fresh 30 1000 none) history)
run-Promise_example = run-Promise 30 1000 none history (omega arith)

-- An uplink with packet 1 in its buffer, whose receiver goes away after the next send.
abbrev losing : Run
losing =
    step
      (record (fresh 30 1000 none) {
        uplink = record (channel_with_budget 30 1000 none) { sends_left = some 1 };
      })
      (pushes 1 (b'B' ∷ []))

fresh_is_Counted : Counted (channel_with_budget 30 3 none)
unfolding channel_with_budget
fresh_is_Counted = ground arith

push-Counted_example : Counted (push (channel_with_budget 30 3 none) 2 (b'a' ∷ b'b' ∷ [])).0
push-Counted_example =
    push-Counted (channel_with_budget 30 3 none) 2 (b'a' ∷ b'b' ∷ []) fresh_is_Counted

-- A packet that is too large for the buffer.
too_heavy : (push (channel_with_budget 30 3 none) 2 (1 ∷ 2 ∷ 3 ∷ 4 ∷ [])).1 ≡ too_many_pending_bytes
unfolding push push_ahead channel_with_budget
too_heavy = refl

push_refused_example :
    (push (channel_with_budget 30 3 none) 2 (1 ∷ 2 ∷ 3 ∷ 4 ∷ [])).0 ≡ channel_with_budget 30 3 none
push_refused_example =
    push_refused (channel_with_budget 30 3 none) 2 (1 ∷ 2 ∷ 3 ∷ 4 ∷ []) (λ e. cc too_heavy)
      (λ e. cc too_heavy)

-- An uplink with one packet on the way.
abbrev one_on_the_way : Uplink
one_on_the_way = (push (channel_with_budget 30 1000 none) 0 (b'A' ∷ [])).0

one_byte_and_chunk : length (in_flight one_on_the_way) + length one_on_the_way.queue ≡ 2
unfolding push push_next drain after_send send_in_order send reserve_payload channel_with_budget
one_byte_and_chunk = refl

close-read_all_example :
    ((read_all 3 4 (close one_on_the_way)).1 ≡ in_flight one_on_the_way)
    × ((poll_read (read_all 3 4 (close one_on_the_way)).0 4).1 ≡ ready [])
close-read_all_example =
    close-read_all one_on_the_way 3 4 (omega arith) (omega (arith, one_byte_and_chunk))
