-- ===== src/Xhttp/Request/Paths.antt =====
-- src/xhttp/mod.rs: the paths of the two kinds of requests.
use rust_xhttp.Common.{
  ℕ, ◌+◌, ◌-◌, ◌*◌, ◌≡◌, ◌≢◌, refl, List, [], ◌∷◌, ◌++◌, some, Bytes, ◌==◌, arith, All, ==_self,
  ne→==_false, Bool-cases, inl, inr,
}
use rust_xhttp.Xhttp.Padding.{split}
use rust_xhttp.Xhttp.Request.{
  Method, get, options, another, packet_upload, stream_download, stream_up, strip_prefix,
  extract_meta_from_path, parse_digits, parse_u64, classify, classify_meta,
}

-- A piece of a path.
abbrev pub IsSegment : Bytes → Type 0
IsSegment s = (s ≢ []) × All (λ b. b ≢ b'/') s

strip_prefix-append : (base rest : Bytes) → strip_prefix base (base ++ rest) ≡ some rest
unfolding strip_prefix
strip_prefix-append [] rest = refl
strip_prefix-append (b ∷ base) rest = ground (arith, strip_prefix-append base rest)

split-cons :
    (sep : ℕ) (bytes : Bytes)
    → (piece : Bytes) × (pieces : List Bytes) × (split sep bytes ≡ piece ∷ pieces)
unfolding split
split-cons sep [] = ([], [], refl)
split-cons sep (b ∷ bytes) =
    let (piece, pieces, e) = split-cons sep bytes in
    elim (Bool-cases (b == sep)) [
      | inl h ↦ ([], piece ∷ pieces, rw (e, h))
      | inr h ↦ (b ∷ piece, pieces, rw (e, h))
    ]

split_piece :
    (sep : ℕ) (piece rest : Bytes)
    → All (λ b. b ≢ sep) piece
    → split sep (piece ++ sep ∷ rest) ≡ piece ∷ split sep rest
unfolding split
split_piece sep [] rest h = let (piece, pieces, e) = split-cons sep rest in rw (e, ==_self sep)
split_piece sep (b ∷ piece) rest h = rw (split_piece sep piece rest h.1, ne→==_false b sep h.0)

split_last : (sep : ℕ) (piece : Bytes) → All (λ b. b ≢ sep) piece → split sep piece ≡ piece ∷ []
unfolding split
split_last sep [] h = refl
split_last sep (b ∷ piece) h = rw (split_last sep piece h.1, ne→==_false b sep h.0)

parse_digits-Segment :
    (digits : Bytes) (n seq : ℕ) → parse_digits digits n ≡ some seq → All (λ b. b ≢ b'/') digits
unfolding parse_digits
parse_digits-Segment [] n seq e = tt
parse_digits-Segment (d ∷ digits) n seq e =
    (ground arith, parse_digits-Segment digits (n * 10 + (d - b'0')) seq (ground arith))

parse_u64-Segment : (s : Bytes) (seq : ℕ) → parse_u64 s ≡ some seq → IsSegment s
unfolding parse_u64
parse_u64-Segment [] seq e = cc
parse_u64-Segment (b ∷ []) seq e = (cc, parse_digits-Segment (b ∷ []) 0 seq (ground arith))
parse_u64-Segment (b ∷ c ∷ digits) seq e = elim (Bool-cases (b == b'+')) [
  | inl h ↦ (cc, (ground arith, parse_digits-Segment (c ∷ digits) 0 seq (ground arith)))
  | inr h ↦ (cc, parse_digits-Segment (b ∷ c ∷ digits) 0 seq (ground arith))
]

meta-upload :
    (base session s : Bytes)
    → IsSegment session
    → IsSegment s
    → extract_meta_from_path base (base ++ (session ++ b'/' ∷ s))
      ≡ record { session_id = session; seq_str = s }
unfolding extract_meta_from_path
meta-upload base session s hs hq = rw (
  strip_prefix-append base (session ++ b'/' ∷ s),
  split_piece b'/' session s hs.1,
  split_last b'/' s hq.1,
)

meta-download :
    (base session : Bytes)
    → IsSegment session
    → extract_meta_from_path base (base ++ session) ≡ record { session_id = session; seq_str = [] }
unfolding extract_meta_from_path
meta-download base session hs = rw (strip_prefix-append base session, split_last b'/' session hs.1)

-- A request whose path is the base, a segment and a second one that parses as a 64-bit number is an
-- upload of the packet of that number to the session of that name, whatever its method is but
-- OPTIONS.
pub classify-upload :
    (method : Method) (base session s : Bytes) (seq : ℕ)
    → method ≢ options
    → IsSegment session
    → parse_u64 s ≡ some seq
    → classify method (extract_meta_from_path base (base ++ (session ++ b'/' ∷ s)))
      ≡ packet_upload session seq
unfolding classify classify_meta
classify-upload method base [] s seq m hs e = absurd (hs.0 refl)
classify-upload method base (x ∷ session) [] seq m hs e =
    absurd ((parse_u64-Segment [] seq e).0 refl)
classify-upload options base (x ∷ session) (b ∷ s) seq m hs e = absurd (m refl)
classify-upload get base (x ∷ session) (b ∷ s) seq m hs e =
    rw (meta-upload base (x ∷ session) (b ∷ s) hs (parse_u64-Segment (b ∷ s) seq e), e)
classify-upload another base (x ∷ session) (b ∷ s) seq m hs e =
    rw (meta-upload base (x ∷ session) (b ∷ s) hs (parse_u64-Segment (b ∷ s) seq e), e)

-- A request whose path is the base and one segment opens the download of that session if its method is
-- GET, and is the upload stream of that session if its method is neither GET nor OPTIONS.
pub classify-session :
    (base session : Bytes)
    → IsSegment session
    → (classify get (extract_meta_from_path base (base ++ session)) ≡ stream_download session)
      × (classify another (extract_meta_from_path base (base ++ session)) ≡ stream_up session)
unfolding classify classify_meta
classify-session base [] hs = absurd (hs.0 refl)
classify-session base (x ∷ session) hs = rw (meta-download base (x ∷ session) hs) (refl, refl)
