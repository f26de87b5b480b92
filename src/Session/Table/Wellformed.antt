-- ===== src/Session/Table/Wellformed.antt =====
-- src/session/mod.rs: the invariant of the table, on the parts that it speaks of.
use rust_xhttp.Common.{
  ℕ, zero, suc, ◌%◌, ◌<◌, ◌≤◌, ◌^◌, ◌≡◌, refl, ap₂, sym, subst, List, [], ◌∷◌, ◌++◌, none, some,
  Bytes, length, get_or, get_elem?, set, arith, bytes_eq, All, replicate, length-set,
  get_or-set_self, get_or-set_other, get_elem?-append, get_elem?-last, All-append, Bool-cases, inl,
  inr, ==_iff, ◌==◌, bytes_eq-eq,
}
use rust_xhttp.Buffer.{fetch_add, fetch_sub}
use rust_xhttp.Session.Table.{SessionTable, fnv1a}
use rust_xhttp.Session.Table.Keys.{
  Map, find, erase, Distinct, erase-Distinct, length-erase, find-erase-some,
}
use rust_xhttp.Session.Table.View.{total, total-set, names}

abbrev pub IsHashed : Bytes × ℕ → Type 0
IsHashed (id, id_hash) = id_hash ≡ fnv1a id

-- Every entry stands in the shard of its id and is a session of that id, no id has two entries, and
-- `active` is the number of entries, which does not pass the limit.
pub record Wellformed (shards : List Map) (max_sessions active : ℕ) (ns : List (Bytes × ℕ))
    : Type 0 where
  pub some_shards : 0 < length shards
  pub fits : max_sessions < 2 ^ 64
  pub counted : active ≡ total shards
  pub bounded : active ≤ max_sessions
  pub distinct : (i : ℕ) → Distinct (get_or shards i [])
  pub filed :
      (i : ℕ) (id : Bytes) (serial : ℕ)
      → find id (get_or shards i []) ≡ some serial
      → (i ≡ fnv1a id % length shards) × (get_elem? ns serial ≡ some (id, fnv1a id))
  pub hashed : All IsHashed ns

abbrev pub IsTable : SessionTable → Type 0
IsTable t = Wellformed t.shards t.cfg.max_sessions t.active (names t.sessions)

pub get_or-replicate : (n i : ℕ) → get_or {A = Map} (replicate n []) i [] ≡ []
get_or-replicate zero i = refl
get_or-replicate (suc n) zero = refl
get_or-replicate (suc n) (suc i) = get_or-replicate n i

pub total-replicate : (n : ℕ) → total (replicate n []) ≡ 0
total-replicate zero = refl
total-replicate (suc n) = omega (arith, total-replicate n)

-- What holds of every shard, after one of them is replaced.
every_after-set :
    (P : ℕ → Map → Type 0) (ms : List Map) (j : ℕ) (m : Map)
    → j < length ms
    → ((i : ℕ) → P i (get_or ms i []))
    → P j m
    → (i : ℕ) → P i (get_or (set ms j m) i [])
every_after-set P ms j m h every new i = elim (Bool-cases (j == i)) [
  | inl same ↦
      let e = (==_iff j i).0 same in
      subst (λ k. P k (get_or (set ms j m) k [])) e
        (subst (P j) (sym (get_or-set_self ms j m [] h)) new)
  | inr other ↦
      subst (P i) (sym (get_or-set_other ms j i m [] (λ e. absurd (ground (arith, e))))) (every i)
]

module _ (shards : List Map) (max_sessions active : ℕ) (ns : List (Bytes × ℕ)) where
  abbrev Filed : List (Bytes × ℕ) → ℕ → Map → Type 0
  Filed ns' i m =
      (id : Bytes) (serial : ℕ)
      → find id m ≡ some serial
      → (i ≡ fnv1a id % length shards) × (get_elem? ns' serial ≡ some (id, fnv1a id))

  module _ (w : Wellformed shards max_sessions active ns) (id : Bytes) where
    abbrev place : ℕ
    place = fnv1a id % length shards

    pub in_range : place < length shards
    in_range = omega (arith, w.some_shards)

    abbrev here : Map
    here = get_or shards place []

    entry-Filed :
        find id here ≡ none → Filed (ns ++ (id, fnv1a id) ∷ []) place ((id, length ns) ∷ here)
    entry-Filed absent key serial found = elim (Bool-cases (bytes_eq id key)) [
      | inl same ↦
          let e : length ns ≡ serial = ground (arith, same, found) in
          subst
            (λ (p : Bytes × ℕ).
              (place ≡ fnv1a p.0 % length shards)
              × (get_elem? (ns ++ (id, fnv1a id) ∷ []) p.1 ≡ some (p.0, fnv1a p.0)))
            (ap₂ (λ a b. (a, b)) (bytes_eq-eq id key same) e)
            (refl, get_elem?-last ns (id, fnv1a id))
      | inr other ↦
          let old = w.filed place key serial (ground (arith, other, found)) in
          (old.0, get_elem?-append ns ((id, fnv1a id) ∷ []) serial (key, fnv1a key) old.1)
    ]

    pub insert-Wellformed :
        find id here ≡ none
        → active < max_sessions
        → Wellformed
            (set shards place ((id, length ns) ∷ here))
            max_sessions
            (fetch_add active 1)
            (ns ++ (id, fnv1a id) ∷ [])
    insert-Wellformed absent room =
        let entry = (id, length ns) ∷ here in
        let ns' = ns ++ (id, fnv1a id) ∷ [] in
        record {
          some_shards = omega (arith, length-set shards place entry, w.some_shards);
          fits = w.fits;
          counted = omega (arith, total-set shards place entry in_range, w.counted, w.fits);
          bounded = omega (arith, w.fits);
          distinct =
              every_after-set (λ i. Distinct) shards place entry in_range w.distinct
                (absent, w.distinct place);
          filed = rw (length-set shards place entry) (
              every_after-set (Filed ns') shards place entry in_range
                (λ i key serial found.
                  let old = w.filed i key serial found in
                  (old.0, get_elem?-append ns ((id, fnv1a id) ∷ []) serial (key, fnv1a key) old.1))
                (entry-Filed absent));
          hashed = All-append IsHashed ns ((id, fnv1a id) ∷ []) w.hashed (refl, tt);
        }

    pub erase-Wellformed :
        (serial : ℕ)
        → find id here ≡ some serial
        → Wellformed (set shards place (erase id here)) max_sessions (fetch_sub active 1) ns
    erase-Wellformed serial found =
        let fewer = length-erase id serial here found in
        let counts = total-set shards place (erase id here) in_range in
        record {
          some_shards = omega (arith, length-set shards place (erase id here), w.some_shards);
          fits = w.fits;
          counted = omega (arith, counts, fewer, w.counted, w.bounded, w.fits);
          bounded = omega (arith, counts, fewer, w.counted, w.bounded, w.fits);
          distinct =
              every_after-set (λ i. Distinct) shards place (erase id here) in_range w.distinct
                (erase-Distinct id here (w.distinct place));
          filed = rw (length-set shards place (erase id here)) (
              every_after-set (Filed ns) shards place (erase id here) in_range w.filed
                (λ key s found.
                  w.filed place key s (find-erase-some id key s here (w.distinct place) found)));
          hashed = w.hashed;
        }
