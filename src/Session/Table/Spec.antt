-- ===== src/Session/Table/Spec.antt =====
-- src/session/mod.rs: the map from ids to sessions that the table stands for, and a change of a shard.
use rust_xhttp.Common.{
  ℕ, ◌%◌, ◌<◌, ◌≡◌, refl, ap, sym, subst, ◌∙◌, Bool, true, not, ◌&&◌, if◌then◌else◌, List, [], ◌∷◌,
  Option, none, some, Bytes, length, get_or, get_elem?, set, arith, leb, ◌==◌, ==_iff, bytes_eq,
  bytes_eq-eq, length-set, get_or-set_self, get_or-set_other, Bool-cases, inl, inr,
}
use rust_xhttp.Session.Table.{
  Session, SessionTable, fnv1a, shard_of, shard_index, insert_session, is_current,
}
use rust_xhttp.Session.Table.Keys.{Map, find, erase, find-erase_other, find-erase_self}
use rust_xhttp.Session.Table.Operations.{Action, pushes, opens, removes, ends_download, wakes}
use rust_xhttp.Session.Table.View.{view, names}
use rust_xhttp.Session.Table.Wellformed.{IsTable, in_range}
use rust_xhttp.Session.Table.Same.{Same}

-- The map after an operation.
abbrev pub after_upsert : SessionTable → Bytes → Bytes → Option ℕ
after_upsert t id key =
    if bytes_eq id key
    then elim (view t id) [
      | some serial ↦ some serial
      | none ↦ if leb t.cfg.max_sessions t.active then none else some (length t.sessions)
    ]
    else view t key

abbrev pub after_remove : SessionTable → Bool → Bytes → Bytes → Option ℕ
after_remove t goes id key = if goes && bytes_eq id key then none else view t key

abbrev pub after_end : SessionTable → Option Session → Bytes → Option ℕ
after_end t none key = view t key
after_end t (some s) key = after_remove t true s.id key

abbrev pub after_wake : SessionTable → ℕ → Bool → Option Session → Bytes → Option ℕ
after_wake t serial upgraded none key = view t key
after_wake t serial upgraded (some s) key =
    after_remove t ((upgraded && not s.fully_connected) && is_current (view t s.id) serial) s.id key

abbrev pub spec : SessionTable → Action → Bytes → Option ℕ
spec t (pushes id seq payload) key = after_upsert t id key
spec t (opens id) key = after_upsert t id key
spec t (removes id) key = after_remove t true id key
spec t (ends_download serial) key = after_end t (get_elem? t.sessions serial) key
spec t (wakes serial upgraded) key = after_wake t serial upgraded (get_elem? t.sessions serial) key

pub Same-view : (t t' : SessionTable) (key : Bytes) → Same t t' → view t' key ≡ view t key
Same-view t t' key (p, q, r, s) = ap (λ ms. find key (get_or ms (fnv1a key % length ms) [])) p

-- A shard is replaced by one that differs at one id.
pub replaced-view :
    (ms : List Map) (id key : Bytes) (m : Map) (v : Option ℕ)
    → fnv1a id % length ms < length ms
    → find key m ≡ (if bytes_eq id key then v else find key (get_or ms (fnv1a id % length ms) []))
    → (let ms' = set ms (fnv1a id % length ms) m in
        find key (get_or ms' (fnv1a key % length ms') []))
      ≡ (if bytes_eq id key then v else find key (get_or ms (fnv1a key % length ms) []))
replaced-view ms id key m v range e =
    let i = fnv1a id % length ms in
    let k = fnv1a key % length ms in
    ap (λ n. find key (get_or (set ms i m) (fnv1a key % n) [])) (length-set ms i m)
    ∙ elim (Bool-cases (i == k)) [
      | inl same ↦
          let at = (==_iff i k).0 same in
          ap (λ j. find key (get_or (set ms i m) j [])) (sym at)
          ∙ ap (find key) (get_or-set_self ms i m [] range)
          ∙ e
          ∙ ap (λ j. if bytes_eq id key then v else find key (get_or ms j [])) at
      | inr other ↦
          ap (find key) (get_or-set_other ms i k m [] (λ at. absurd (ground (arith, at, other))))
          ∙ elim (Bool-cases (bytes_eq id key)) [
            | inr apart ↦ rw apart refl
            | inl is_key ↦
                absurd
                  (ground (arith, other, ap (λ b. fnv1a b % length ms) (bytes_eq-eq id key is_key)))
          ]
    ]

pub removed-view :
    (t : SessionTable) (id key : Bytes)
    → IsTable t
    → view
        (record t {
          shards = set t.shards (shard_index t (fnv1a id)) (erase id (shard_of t (fnv1a id)));
        })
        key
      ≡ after_remove t true id key
removed-view t id key w =
    let here = shard_of t (fnv1a id) in
    replaced-view t.shards id key (erase id here) none
      (in_range t.shards t.cfg.max_sessions t.active (names t.sessions) w id)
      (elim (Bool-cases (bytes_eq id key)) [
        | inl same ↦ rw same (
            subst (λ k. find k (erase id here) ≡ none) (bytes_eq-eq id key same)
              (find-erase_self id here (w.distinct (shard_index t (fnv1a id)))))
        | inr other ↦ rw other (find-erase_other key id here other)
      ])

pub insert_session-view :
    (t : SessionTable) (id key : Bytes) (fully_connected : Bool)
    → IsTable t
    → view (insert_session t id fully_connected) key
      ≡ (if bytes_eq id key then some (length t.sessions) else view t key)
unfolding insert_session
insert_session-view t id key fully_connected w =
    replaced-view t.shards id key ((id, length t.sessions) ∷ shard_of t (fnv1a id))
      (some (length t.sessions))
      (in_range t.shards t.cfg.max_sessions t.active (names t.sessions) w id) refl
