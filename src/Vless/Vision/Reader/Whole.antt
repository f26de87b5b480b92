-- ===== src/Vless/Vision/Reader/Whole.antt =====
-- src/vless/vision.rs: a wire is read to its end.
use rust_xhttp.Common.{
  ℕ, zero, suc, ◌+◌, ◌*◌, ◌≤◌, ◌<◌, ◌≡◌, refl, ap, sym, ◌∙◌, List, [], ◌∷◌, ◌++◌, Option, none,
  some, Bytes, length, All, arith, length-append, inl,
}
use rust_xhttp.Vless.Vision.Reader.{
  Arrival, VisionReader, new_reader, Round, returns, waits, continues, fails, round, after_round,
  poll_read,
}
use rust_xhttp.Vless.Vision.Reader.Wire.{Carries, left, waiting, IsSound}
use rust_xhttp.Vless.Vision.Reader.Expecting.{Expects, weight, Shorter, Keeps, rank-le}
use rust_xhttp.Vless.Vision.Reader.Loop.{round-Keeps, Keeps-before}

-- What a poll promises: it returns, or waits.
abbrev Ends : VisionReader → Bytes → VisionReader × Round → Type 0
Ends r out (r', returns bytes) = Keeps r out (r', returns bytes)
Ends r out (r', waits) = Keeps r out (r', waits)
Ends r out (r', continues) = ⊥
Ends r out (r', fails e) = ⊥

Ends-before :
    (r r' : VisionReader) (out : Bytes) (res : VisionReader × Round)
    → Shorter r r'
    → weight r' ≤ weight r
    → Ends r' out res
    → Ends r out res
Ends-before r r' out (t, returns bytes) sh le h = Keeps-before r r' out (t, returns bytes) sh le h
Ends-before r r' out (t, waits) sh le h = Keeps-before r r' out (t, waits) sh le h
Ends-before r r' out (t, continues) sh le h = absurd h
Ends-before r r' out (t, fails e) sh le h = absurd h

-- `read_to_end`: polls until one hands over nothing. `none` is an error, or that the polls or the
-- rounds of one have run out.
unfoldable pub next_read : VisionReader × Round → (VisionReader → Option Bytes) → Option Bytes
next_read (r, returns []) again = some []
next_read (r, returns (b ∷ bytes)) again = elim (again r) [
  | none ↦ none
  | some more ↦ some ((b ∷ bytes) ++ more)
]
next_read (r, waits) again = again r
next_read (r, continues) again = none
next_read (r, fails e) again = none

unfoldable pub read_to_end : ℕ → ℕ → ℕ → VisionReader → Option Bytes
read_to_end zero rounds room r = none
read_to_end (suc polls) rounds room r =
    next_read (poll_read rounds r room) (read_to_end polls rounds room)

below : (r : VisionReader) {rounds : ℕ} → 4 * length (left r.inner) + 2 < rounds → weight r < rounds
below r fuel = omega (arith, rank-le r.raw r.state)

module _ (room : ℕ) (pos : 0 < room) where
  poll_read-Ends :
      (rounds : ℕ) (r : VisionReader) (out : Bytes)
      → Expects r out
      → weight r < rounds
      → Ends r out (poll_read rounds r room)
  unfolding poll_read after_round
  poll_read-Ends zero r out e lt = absurd (omega arith)
  poll_read-Ends (suc rounds) r out e lt =
      step (round r room)
        (round-Keeps r.uuid e.sixteen r.inner r.prefix r.raw r.state r.output out room pos e)
        (λ r' e' lt'. poll_read-Ends rounds r' out e' (omega arith))
    where
      step :
          (res : VisionReader × Round)
          → Keeps r out res
          → ((r' : VisionReader)
              → Expects r' out
              → weight r' < weight r
              → Ends r' out (poll_read rounds r' room))
          → Ends r out (after_round (λ r'. poll_read rounds r' room) res)
      step (r', returns bytes) h again = h
      step (r', waits) h again = h
      step (r', continues) (e', sh, lt') again =
          Ends-before r r' out (poll_read rounds r' room) sh (omega arith) (again r' e' lt')
      step (r', fails x) h again = absurd h

  read_to_end-Expects :
      (polls rounds : ℕ) (r : VisionReader) (out : Bytes)
      → Expects r out
      → 4 * length (left r.inner) + 2 < rounds
      → length out + waiting r.inner < polls
      → read_to_end polls rounds room r ≡ some out
  unfolding read_to_end next_read
  read_to_end-Expects zero rounds r out e fuel lt = absurd (omega arith)
  read_to_end-Expects (suc polls) rounds r out e fuel lt =
      step (poll_read rounds r room) (poll_read-Ends rounds r out e (below r fuel))
        (λ r' out' e' fuel' lt'. read_to_end-Expects polls rounds r' out' e' fuel' lt')
    where
      step :
          (res : VisionReader × Round)
          → Ends r out res
          → ((r' : VisionReader) (out' : Bytes)
              → Expects r' out'
              → 4 * length (left r'.inner) + 2 < rounds
              → length out' + waiting r'.inner < polls
              → read_to_end polls rounds room r' ≡ some out')
          → next_read res (read_to_end polls rounds room) ≡ some out
      step (r', returns []) (rest, o, only, e', (sh, w)) again = ap some (sym (o ∙ only refl))
      step (r', returns (b ∷ bytes)) (rest, o, only, e', (sh, w)) again =
          ap (λ found. next_read (r', returns (b ∷ bytes)) (λ r. found))
            (again r' rest e' (omega arith)
              (omega (arith, ap length o, length-append (b ∷ bytes) rest)))
          ∙ ap some (sym o)
      step (r', waits) (e', (sh, w), lt') again = again r' out e' (omega arith) (omega arith)
      step (r', continues) h again = absurd h
      step (r', fails x) h again = absurd h

-- A wire of a UUID and frames, however it is cut into arrivals, and with polls that find none yet in
-- between, is read to its end as exactly the bytes that it carries, if the UUID is the reader's: four
-- rounds for a byte of the wire and three more are enough in each poll, and a poll for a byte that is
-- carried and for each that waits, and one more.
pub read_to_end-Carries :
    (uuid wire out : Bytes) (arrivals : List Arrival) (polls rounds room : ℕ)
    → length uuid ≡ 16
    → All IsSound arrivals
    → left arrivals ≡ uuid ++ wire
    → Carries wire out
    → 0 < room
    → 4 * length (left arrivals) + 2 < rounds
    → length out + waiting arrivals < polls
    → read_to_end polls rounds room (new_reader arrivals uuid) ≡ some out
unfolding new_reader
read_to_end-Carries uuid wire out arrivals polls rounds room sixteen sound e c pos fuel lt =
    read_to_end-Expects room pos polls rounds (new_reader arrivals uuid) out
      (record {
        sound = sound;
        sixteen = sixteen;
        rest = out;
        given = refl;
        later =
            inl (uuid, wire, refl, (λ n. absurd (omega (arith, ap length n, sixteen))), e, refl, c);
      })
      fuel lt
