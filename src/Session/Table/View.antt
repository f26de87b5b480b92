-- ===== src/Session/Table/View.antt =====
-- src/session/mod.rs: which session an id stands for, over all shards, and the list of shards.
use rust_xhttp.Common.{
  ℕ, zero, suc, ◌+◌, ◌<◌, ◌≡◌, refl, ap, List, [], ◌∷◌, ◌++◌, Option, some, Bytes, length, get_or,
  get_elem?, set, arith,
}
use rust_xhttp.Session.Table.{Session, SessionTable, fnv1a, shard_of, modify}
use rust_xhttp.Session.Table.Keys.{Map, find}

abbrev pub view : SessionTable → Bytes → Option ℕ
view t id = find id (shard_of t (fnv1a id))

-- The number of entries.
abbrev pub total : List Map → ℕ
total [] = 0
total (m ∷ ms) = length m + total ms

pub total-set :
    (ms : List Map) (i : ℕ) (m : Map)
    → i < length ms
    → total (set ms i m) + length (get_or ms i []) ≡ total ms + length m
total-set [] i m h = absurd (omega arith)
total-set (x ∷ ms) zero m h = omega arith
total-set (x ∷ ms) (suc i) m h = omega (arith, total-set ms i m (omega arith))

-- What never changes of a session.
abbrev pub name_of : Session → Bytes × ℕ
name_of s = (s.id, s.id_hash)

abbrev pub names : List Session → List (Bytes × ℕ)
names [] = []
names (s ∷ rest) = name_of s ∷ names rest

pub names-modify :
    (f : Session → Session) (serial : ℕ) (sessions : List Session)
    → ((s : Session) → name_of (f s) ≡ name_of s)
    → names (modify f serial sessions) ≡ names sessions
names-modify f serial [] h = refl
names-modify f zero (s ∷ rest) h = ap (λ n. n ∷ names rest) (h s)
names-modify f (suc serial) (s ∷ rest) h = ap (◌∷◌ (name_of s)) (names-modify f serial rest h)

pub names-append : (xs ys : List Session) → names (xs ++ ys) ≡ names xs ++ names ys
names-append [] ys = refl
names-append (x ∷ xs) ys = ap (◌∷◌ (name_of x)) (names-append xs ys)

pub length-names : (xs : List Session) → length (names xs) ≡ length xs
length-names [] = refl
length-names (x ∷ xs) = ap suc (length-names xs)

pub get_elem?-names :
    (xs : List Session) (i : ℕ) (s : Session)
    → get_elem? xs i ≡ some s
    → get_elem? (names xs) i ≡ some (name_of s)
get_elem?-names [] i s h = cc
get_elem?-names (x ∷ xs) zero s h = cc
get_elem?-names (x ∷ xs) (suc i) s h = get_elem?-names xs i s h
