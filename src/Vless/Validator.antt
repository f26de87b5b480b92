-- ===== src/Vless/Validator.antt =====
-- src/vless/validator.rs: the user table. A UUID is a list of sixteen bytes, and the `HashMap` an
-- association list in which a key stands once.
pub mod Lookup
use rust_xhttp.Common.{
  ℕ, ◌≡◌, Bool, true, List, [], ◌∷◌, Option, none, some, Bytes, bytes_eq, if◌then◌else◌, set,
  length, ◌==◌,
}

pub record User : Type 0 where
  pub id : Bytes
  pub email : Bytes
  pub flow : Bytes

pub record Validator : Type 0 where
  pub by_id : List (Bytes × User)

unfoldable pub process_uuid : Bytes → Bytes
process_uuid id = set (set id 6 0) 7 0

-- `HashMap::insert`: a later value replaces an earlier one of the same key.
unfoldable pub insert : Bytes → User → List (Bytes × User) → List (Bytes × User)
insert k v [] = (k, v) ∷ []
insert k v ((j, w) ∷ m) = if bytes_eq j k then (j, v) ∷ m else (j, w) ∷ insert k v m

unfoldable pub lookup : Bytes → List (Bytes × User) → Option User
lookup k [] = none
lookup k ((j, v) ∷ m) = if bytes_eq j k then some v else lookup k m

-- The loop over the users, from the map built so far.
pub add_users : List (Bytes × User) → List User → List (Bytes × User)
unfolding process_uuid insert
add_users by_id [] = by_id
add_users by_id (u ∷ users) =
    let u' = record u { id = process_uuid u.id } in add_users (insert u'.id u' by_id) users

unfoldable pub new : List User → Validator
unfolding add_users
new users = record { by_id = add_users [] users }

-- The swap forgets the old table.
unfoldable pub replace : Validator → List User → Validator
unfolding add_users
replace v users = record { by_id = add_users [] users }

confirm : Bytes → User → Option User
confirm key candidate = if bytes_eq candidate.id key then some candidate else none

unfoldable pub get_shared : Validator → Bytes → Option User
unfolding process_uuid lookup confirm
get_shared v raw_id =
    let key = process_uuid raw_id in
    elim (lookup key v.by_id) [ none ↦ none | some candidate ↦ confirm key candidate ]

unfoldable pub len : Validator → ℕ
len v = length v.by_id

unfoldable pub is_empty : Validator → Bool
unfolding len
is_empty v = len v == 0
