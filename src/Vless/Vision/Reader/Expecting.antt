-- ===== src/Vless/Vision/Reader/Expecting.antt =====
-- src/vless/vision.rs: what a reader has still to give, and what a round of its loop promises.
use rust_xhttp.Common.{
  ℕ, ◌+◌, ◌*◌, ◌≤◌, ◌<◌, ◌≡◌, ◌≢◌, ◌⊎◌, ap, Bool, true, false, List, [], ◌∷◌, ◌++◌, Bytes, length,
  All, arith, length-append,
}
use rust_xhttp.Vless.Vision.Reader.{
  Arrival, ReadState, header, content, padding, VisionReader, Round, returns, waits, continues,
  fails,
}
use rust_xhttp.Vless.Vision.Reader.Wire.{Carries, After, left, waiting, IsSound}

-- What is still to come for a reader in some state, from the bytes that are still to arrive.
abbrev pub InState : ReadState → Bytes → Bytes → Type 0
InState (header bytes) wire out = (length bytes < 5) × Carries (bytes ++ wire) out
InState (content n padded command) wire out =
    (body : Bytes) × (pad : Bytes) × (wire' : Bytes) × (out' : Bytes) × (wire
      ≡ body ++ (pad ++ wire'))
    × (length body ≡ n)
    × (length pad ≡ padded)
    × (out ≡ body ++ out')
    × After command wire' out'
InState (padding n command) wire out =
    (pad : Bytes) × (wire' : Bytes) × (wire ≡ pad ++ wire')
    × (length pad ≡ n)
    × After command wire' out

-- Before the whole UUID is read, and behind it.
abbrev pub InPrefix : Bytes → Bytes → ReadState → Bytes → Bytes → Type 0
InPrefix prefix uuid state wire out =
    (p : Bytes) × (wire' : Bytes) × (uuid ≡ prefix ++ p)
    × (p ≢ [])
    × (wire ≡ p ++ wire')
    × (state ≡ header [])
    × Carries wire' out

abbrev pub Later : Bool → Bytes → Bytes → ReadState → Bytes → Bytes → Type 0
Later true prefix uuid state wire out = wire ≡ out
Later false prefix uuid state wire out =
    InPrefix prefix uuid state wire out ⊎ ((prefix ≡ uuid) × InState state wire out)

pub record Expects (r : VisionReader) (out : Bytes) : Type 0 where
  pub sound : All IsSound r.inner
  pub sixteen : length r.uuid ≡ 16
  pub rest : Bytes
  pub given : out ≡ r.output ++ rest
  pub later : Later r.raw r.prefix r.uuid r.state (left r.inner) rest

-- How far the loop is from its next result.
abbrev pub rank : Bool → ReadState → ℕ
rank true state = 0
rank false (header bytes) = 0
rank false (content n padded command) = 2
rank false (padding n command) = 1

pub rank-le : (raw : Bool) (state : ReadState) → rank raw state ≤ 2
rank-le true state = omega arith
rank-le false (header bytes) = omega arith
rank-le false (content n padded command) = omega arith
rank-le false (padding n command) = omega arith

abbrev pub weight : VisionReader → ℕ
weight r = 4 * length (left r.inner) + rank r.raw r.state

abbrev pub Shorter : VisionReader → VisionReader → Type 0
Shorter r r' =
    (length (left r'.inner) ≤ length (left r.inner)) × (waiting r'.inner ≤ waiting r.inner)

-- What a round of a reader promises that expects `out`: it hands over the next bytes, and none only at
-- the end; or it waits, or goes on, for fewer arrivals; and it does not fail.
abbrev pub Keeps : VisionReader → Bytes → VisionReader × Round → Type 0
Keeps r out (r', returns bytes) =
    (rest : Bytes) × (out ≡ bytes ++ rest)
    × (bytes ≡ [] → rest ≡ [])
    × Expects r' rest
    × Shorter r r'
Keeps r out (r', waits) = Expects r' out × Shorter r r' × (waiting r'.inner < waiting r.inner)
Keeps r out (r', continues) = Expects r' out × Shorter r r' × (weight r' < weight r)
Keeps r out (r', fails e) = ⊥

abbrev pub reader : List Arrival → Bytes → Bytes → Bool → ReadState → Bytes → VisionReader
reader inner uuid prefix raw state output = record {
  inner = inner;
  uuid = uuid;
  prefix = prefix;
  raw = raw;
  state = state;
  output = output;
}

pub shorter :
    (inner rest : List Arrival) (b : ℕ) (bs : Bytes)
    → left inner ≡ (b ∷ bs) ++ left rest
    → length (left rest) + length (b ∷ bs) ≡ length (left inner)
shorter inner rest b bs h = omega (arith, ap length h, length-append (b ∷ bs) (left rest))
