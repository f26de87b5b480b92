-- ===== src/Vless/Validator/Lookup.antt =====
-- src/vless/validator.rs: what a lookup finds in a table built from a list of users.
use rust_xhttp.Common.{
  ℕ, ◌≡◌, refl, true, List, [], ◌∷◌, Option, none, some, Bytes, bytes_eq, bytes_eq-eq,
  bytes_eq_comm, if◌then◌else◌, set, arith,
}
use rust_xhttp.Vless.Validator.{
  User, Validator, process_uuid, insert, lookup, add_users, new, get_shared, confirm,
}

-- The user as the table stores it.
abbrev pub processed : User → User
processed u = record u { id = process_uuid u.id }

-- The last user of the list whose processed id is the key.
unfoldable pub last_match : Bytes → List User → Option User
last_match key [] = none
last_match key (u ∷ users) = elim (last_match key users) [
  | some w ↦ some w
  | none ↦ if bytes_eq (process_uuid u.id) key then some (processed u) else none
]

abbrev or_else : Option User → Option User → Option User
or_else (some u) o = some u
or_else none o = o

lookup-insert :
    (k j : Bytes) (v : User) (m : List (Bytes × User))
    → lookup k (insert j v m) ≡ (if bytes_eq j k then some v else lookup k m)
unfolding lookup insert
lookup-insert k j v [] = refl
lookup-insert k j v ((i, w) ∷ m) =
    ground (arith, bytes_eq-eq i j, bytes_eq-eq i k, bytes_eq_comm j k, lookup-insert k j v m)

lookup-add_users :
    (key : Bytes) (m : List (Bytes × User)) (users : List User)
    → lookup key (add_users m users) ≡ or_else (last_match key users) (lookup key m)
unfolding add_users last_match
lookup-add_users key m [] = refl
lookup-add_users key m (u ∷ users) = ground (
  arith,
  lookup-add_users key (insert (process_uuid u.id) (processed u) m) users,
  lookup-insert key (process_uuid u.id) (processed u) m,
)

last_match-id :
    (key : Bytes) (users : List User) {u : User}
    → last_match key users ≡ some u
    → bytes_eq u.id key ≡ true
unfolding last_match
last_match-id key [] h = cc
last_match-id key (w ∷ users) {u} h =
    ground (arith, λ (e : last_match key users ≡ some u). last_match-id key users e)

-- A lookup by a raw UUID in a table built from a list of users finds the last user of the list
-- whose id, with bytes 6 and 7 cleared, is the raw UUID so cleared, and finds none if there is no
-- such user: the final confirmation of the id never refuses a candidate.
pub get_shared-new :
    (users : List User) (raw : Bytes)
    → get_shared (new users) raw ≡ last_match (process_uuid raw) users
unfolding get_shared new
get_shared-new users raw = ground (
  arith,
  lookup-add_users (process_uuid raw) [] users,
  confirmed (last_match (process_uuid raw) users) refl,
)
  where
    confirmed :
        (o : Option User)
        → last_match (process_uuid raw) users ≡ o
        → elim o as (λ _. Option User) [ none ↦ none | some u ↦ confirm (process_uuid raw) u ] ≡ o
    confirmed none h = refl
    confirmed (some u) h = rw (last_match-id (process_uuid raw) users h)

-- Bytes 6 and 7 of the request's UUID play no part in a lookup: any others in their place find
-- the same user.
pub get_shared-set_hint :
    (v : Validator) (raw : Bytes) (a b : ℕ)
    → get_shared v (set (set raw 6 a) 7 b) ≡ get_shared v raw
unfolding get_shared
get_shared-set_hint v (u0 ∷ u1 ∷ u2 ∷ u3 ∷ u4 ∷ u5 ∷ u6 ∷ u7 ∷ r) a b = refl
get_shared-set_hint v _ a b = refl
