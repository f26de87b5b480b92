-- ===== src/Config/Text.antt =====
-- Rust's standard library on the strings of src/config.rs: tests, cases, trimming and numbers.
use rust_xhttp.Common.{
  ℕ, ◌+◌, ◌^◌, Bool, true, false, ◌&&◌, ◌||◌, if◌then◌else◌, ◌==◌, leb, ltb, [], ◌∷◌, ◌++◌, Option,
  none, some, Bytes,
}
use rust_xhttp.Xhttp.Request.{parse_u64, strip_prefix}

abbrev pub is_empty : Bytes → Bool
is_empty [] = true
is_empty (b ∷ bytes) = false

-- `contains` of a character
abbrev pub contains : Bytes → ℕ → Bool
contains [] c = false
contains (b ∷ bytes) c = b == c || contains bytes c

abbrev is_some : Option Bytes → Bool
is_some none = false
is_some (some b) = true

abbrev pub starts_with : Bytes → Bytes → Bool
starts_with s prefix = is_some (strip_prefix prefix s)

-- `ends_with` of a character
abbrev pub ends_with : Bytes → ℕ → Bool
ends_with [] c = false
ends_with (b ∷ []) c = b == c
ends_with (a ∷ b ∷ bytes) c = ends_with (b ∷ bytes) c

abbrev pub is_ascii : Bytes → Bool
is_ascii [] = true
is_ascii (b ∷ bytes) = ltb b 128 && is_ascii bytes

abbrev pub to_ascii_lowercase : Bytes → Bytes
to_ascii_lowercase [] = []
to_ascii_lowercase (b ∷ bytes) =
    (if leb b'A' b && leb b b'Z' then b + 32 else b) ∷ to_ascii_lowercase bytes

abbrev reverse_onto : Bytes → Bytes → Bytes
reverse_onto [] acc = acc
reverse_onto (b ∷ bytes) acc = reverse_onto bytes (b ∷ acc)

-- White space in UTF-8: characters of one, two and three bytes.
abbrev space1 : ℕ → Bool
space1 a = a == 32 || (leb 9 a && leb a 13)

abbrev space2 : ℕ → ℕ → Bool
space2 a b = a == 0xc2 && (b == 0x85 || b == 0xa0)

abbrev space3 : ℕ → ℕ → ℕ → Bool
space3 a b c =
    (a == 0xe1 && b == 0x9a && c == 0x80)
    || (a == 0xe2
        && b == 0x80
        && ((leb 0x80 c && leb c 0x8a) || c == 0xa8 || c == 0xa9 || c == 0xaf))
    || (a == 0xe2 && b == 0x81 && c == 0x9f)
    || (a == 0xe3 && b == 0x80 && c == 0x80)

unfoldable pub trim_front : (ℕ → ℕ → Bool) → (ℕ → ℕ → ℕ → Bool) → Bytes → Bytes
trim_front two three [] = []
trim_front two three (a ∷ []) = if space1 a then [] else a ∷ []
trim_front two three (a ∷ b ∷ []) =
    let one = trim_front two three (b ∷ []) in
    if space1 a then one else if two a b then [] else a ∷ b ∷ []
trim_front two three (a ∷ b ∷ c ∷ rest) = elim (space1 a) [
  | true ↦ trim_front two three (b ∷ c ∷ rest)
  | false ↦ elim (two a b) [
    | true ↦ trim_front two three (c ∷ rest)
    | false ↦ elim (three a b c) [ true ↦ trim_front two three rest | false ↦ a ∷ b ∷ c ∷ rest ]
  ]
]

-- `str::trim`: the end is the front of the bytes in reverse.
unfoldable pub trim : Bytes → Bytes
trim s =
    let from_start = trim_front space2 space3 s in
    reverse_onto
      (trim_front (λ a b. space2 b a) (λ a b c. space3 c b a) (reverse_onto from_start [])) []

-- `str::parse::<u32>`
unfoldable pub parse_u32 : Bytes → Option ℕ
parse_u32 s = elim (parse_u64 s) [ none ↦ none | some n ↦ if ltb n (2 ^ 32) then some n else none ]

-- `Path::join` with a relative path
abbrev pub join : Bytes → Bytes → Bytes
join [] rel = rel
join (b ∷ dir) rel = if ends_with (b ∷ dir) b'/' then (b ∷ dir) ++ rel else (b ∷ dir) ++ b'/' ∷ rel
