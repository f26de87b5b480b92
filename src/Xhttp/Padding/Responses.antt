-- ===== src/Xhttp/Padding/Responses.antt =====
-- src/xhttp/padding.rs: the padding of responses. `gen_range from to` is the random number, and a
-- cell of the cache is empty or holds a value; what is in a cell stays there.
use rust_xhttp.Common.{
  ℕ, ◌+◌, ◌-◌, ◌≤◌, ◌≡◌, List, [], ◌∷◌, Option, none, some, Bytes, if◌then◌else◌, leb, replicate,
  get_or, set, arith, refl, zero, suc, subst, sym, ap,
}

abbrev pub max_cached_lengths : ℕ
max_cached_lengths = 2048

pub record ResponsePadding : Type 0 where
  pub from : ℕ
  pub to : ℕ
  pub cache : Option (List (Option Bytes))

unfoldable pub new_padding : ℕ → ℕ → ResponsePadding
new_padding from to =
    let width = to - from + 1 in
    record {
      from = from;
      to = to;
      cache = if leb width max_cached_lengths then some (replicate width none) else none;
    }

unfoldable pub random_length : (ℕ → ℕ → ℕ) → ℕ → ℕ → ℕ
random_length gen_range from to = if leb to from then from else gen_range from to

unfoldable pub padding_header_value : ℕ → Bytes
padding_header_value len = replicate len b'X'

unfoldable pub generate_response_padding : (ℕ → ℕ → ℕ) → ℕ → ℕ → Bytes
generate_response_padding gen_range from to = replicate (random_length gen_range from to) b'X'

-- `get_or_init` of a cell, and its value.
abbrev pub get_or_init : Option Bytes → ℕ → Bytes
get_or_init none len = padding_header_value len
get_or_init (some v) len = v

-- The cache afterwards, and the value.
unfoldable pub from_cache :
    Option (List (Option Bytes)) → ℕ → ℕ → Option (List (Option Bytes)) × Bytes
from_cache none from len = (none, padding_header_value len)
from_cache (some cells) from len =
    let v = get_or_init (get_or cells (len - from) none) len in
    (some (set cells (len - from) (some v)), v)

unfoldable pub header_value : (ℕ → ℕ → ℕ) → ResponsePadding → ResponsePadding × Bytes
header_value gen_range p =
    let (cache, v) = from_cache p.cache p.from (random_length gen_range p.from p.to) in
    (record p { cache = cache }, v)

-- Every cell that is filled holds the padding of its own length.
abbrev pub Cells : ℕ → List (Option Bytes) → Type 0
Cells len [] = Unit {0}
Cells len (none ∷ cells) = Cells (suc len) cells
Cells len (some v ∷ cells) = (v ≡ padding_header_value len) × Cells (suc len) cells

Cells-get :
    (from i len : ℕ) (cells : List (Option Bytes))
    → len ≡ from + i
    → Cells from cells
    → get_or_init (get_or cells i none) len ≡ padding_header_value len
Cells-get from i len [] e h = refl
Cells-get from zero len (none ∷ cells) e h = refl
Cells-get from zero len (some v ∷ cells) e h =
    let same : from ≡ len = omega (arith, e) in subst (λ k. v ≡ padding_header_value k) same h.0
Cells-get from (suc i) len (none ∷ cells) e h =
    Cells-get (suc from) i len cells (omega (arith, e)) h
Cells-get from (suc i) len (some v ∷ cells) e h =
    Cells-get (suc from) i len cells (omega (arith, e)) h.1

Cells-set :
    (from i len : ℕ) (cells : List (Option Bytes))
    → len ≡ from + i
    → Cells from cells
    → Cells from (set cells i (some (padding_header_value len)))
Cells-set from i len [] e h = tt
Cells-set from zero len (none ∷ cells) e h =
    let same : len ≡ from = omega (arith, e) in (ap padding_header_value same, h)
Cells-set from zero len (some v ∷ cells) e h =
    let same : len ≡ from = omega (arith, e) in (ap padding_header_value same, h.1)
Cells-set from (suc i) len (none ∷ cells) e h =
    Cells-set (suc from) i len cells (omega (arith, e)) h
Cells-set from (suc i) len (some v ∷ cells) e h =
    (h.0, Cells-set (suc from) i len cells (omega (arith, e)) h.1)

abbrev pub CellsOf : ℕ → Option (List (Option Bytes)) → Type 0
CellsOf from none = Unit {0}
CellsOf from (some cells) = Cells from cells

from_cache-Cells :
    (cache : Option (List (Option Bytes))) (from len : ℕ)
    → from ≤ len
    → CellsOf from cache
    → ((from_cache cache from len).1 ≡ padding_header_value len)
      × CellsOf from (from_cache cache from len).0
unfolding from_cache
from_cache-Cells none from len le h = (refl, tt)
from_cache-Cells (some cells) from len le h =
    let at : len ≡ from + (len - from) = omega (arith, le) in
    let value = Cells-get from (len - from) len cells at h in
    (
      value,
      subst (λ v. Cells from (set cells (len - from) (some v))) (sym value)
          (Cells-set from (len - from) len cells at h),
    )

-- With a cache whose filled cells hold the paddings of their lengths, or none, and a random number
-- that is not below the range, the padding of a response is that of the random length, as it is
-- without a cache, and the cache stays so.
pub header_value-Cells :
    (gen_range : ℕ → ℕ → ℕ) (p : ResponsePadding)
    → p.from ≤ gen_range p.from p.to
    → CellsOf p.from p.cache
    → ((header_value gen_range p).1 ≡ generate_response_padding gen_range p.from p.to)
      × CellsOf p.from (header_value gen_range p).0.cache
unfolding header_value generate_response_padding random_length padding_header_value
header_value-Cells gen_range p le h =
    from_cache-Cells p.cache p.from (random_length gen_range p.from p.to) (ground (arith, le)) h
