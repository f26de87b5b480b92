-- ===== src/Site.antt =====
-- src/site.rs: the answer of the fallback site, from what it keeps in memory. The map of its files is an
-- association list; header values are bytes.
use rust_xhttp.Common.{
  ℕ, ◌||◌, not, if◌then◌else◌, List, [], ◌∷◌, Option, none, some, Bytes, bytes_eq,
}

pub record Asset : Type 0 where
  pub content_type : Bytes
  pub body : Bytes
  pub cache_control : Bytes
  pub etag : Bytes
  pub last_modified : Bytes

pub record StaticReply : Type 0 where
  pub status : ℕ
  pub asset : Asset
  pub allow : Option Bytes

pub record StaticSite : Type 0 where
  pub assets : List (Bytes × Asset)
  pub not_found : Asset
  pub method_not_allowed : Asset

-- `Asset::reply`
abbrev pub reply : Asset → ℕ → StaticReply
reply asset status = record { status = status; asset = asset; allow = none }

abbrev pub get_name : Bytes
get_name = b'G' ∷ b'E' ∷ b'T' ∷ []

abbrev pub head_name : Bytes
head_name = b'H' ∷ b'E' ∷ b'A' ∷ b'D' ∷ []

abbrev pub allowed : Bytes
allowed = b'G' ∷ b'E' ∷ b'T' ∷ b',' ∷ 32 ∷ b'H' ∷ b'E' ∷ b'A' ∷ b'D' ∷ []

abbrev pub find_asset : List (Bytes × Asset) → Bytes → Option Asset
find_asset [] path = none
find_asset ((name, asset) ∷ assets) path =
    let later = find_asset assets path in if bytes_eq name path then some asset else later

abbrev pub reply_or : Option Asset → Asset → StaticReply
reply_or none not_found = reply not_found 404
reply_or (some asset) not_found = reply asset 200

unfoldable pub resolve : StaticSite → Bytes → Bytes → StaticReply
resolve site method path =
    if not (bytes_eq method get_name || bytes_eq method head_name)
    then record (reply site.method_not_allowed 405) { allow = some allowed }
    else reply_or (find_asset site.assets path) site.not_found
