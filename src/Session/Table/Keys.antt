-- ===== src/Session/Table/Keys.antt =====
-- A map from session ids to session numbers as an association list: Rust's
-- `HashMap<Arc<str>, Arc<Session>>`.
use rust_xhttp.Common.{
  ℕ, suc, ◌≡◌, refl, sym, ap, subst, ◌∙◌, false, List, [], ◌∷◌, Option, none, some, Bytes, length,
  bytes_eq, bytes_eq-eq, if◌then◌else◌, arith, Bool-cases, inl, inr,
}

abbrev pub Map : Type 0
Map = List (Bytes × ℕ)

abbrev pub find : Bytes → Map → Option ℕ
find id [] = none
find id ((key, serial) ∷ m) = if bytes_eq key id then some serial else find id m

abbrev pub erase : Bytes → Map → Map
erase id [] = []
erase id ((key, serial) ∷ m) = if bytes_eq key id then m else (key, serial) ∷ erase id m

-- The keys are different.
abbrev pub Distinct : Map → Type 0
Distinct [] = Unit {0}
Distinct ((key, serial) ∷ m) = (find key m ≡ none) × Distinct m

pub find-erase_other :
    (id other : Bytes) (m : Map) → bytes_eq other id ≡ false → find id (erase other m) ≡ find id m
find-erase_other id other [] h = refl
find-erase_other id other ((key, serial) ∷ m) h = elim (Bool-cases (bytes_eq key other)) [
  | inl same ↦
      let no : bytes_eq key id ≡ false = ap (λ k. bytes_eq k id) (bytes_eq-eq key other same) ∙ h in
      rw (same, no) refl
  | inr differs ↦ rw differs (ground (arith, find-erase_other id other m h))
]

pub find-erase_self : (id : Bytes) (m : Map) → Distinct m → find id (erase id m) ≡ none
find-erase_self id [] d = refl
find-erase_self id ((key, serial) ∷ m) d = elim (Bool-cases (bytes_eq key id)) [
  | inl same ↦ rw same (subst (λ k. find k m ≡ none) (bytes_eq-eq key id same) d.0)
  | inr differs ↦ rw (differs, differs) (find-erase_self id m d.1)
]

pub find-erase-none :
    (id other : Bytes) (m : Map) → find id m ≡ none → find id (erase other m) ≡ none
find-erase-none id other [] h = refl
find-erase-none id other ((key, serial) ∷ m) h = ground (arith, find-erase-none id other m)

pub erase-Distinct : (id : Bytes) (m : Map) → Distinct m → Distinct (erase id m)
erase-Distinct id [] d = d
erase-Distinct id ((key, serial) ∷ m) d =
    ground (arith, find-erase-none key id m d.0, erase-Distinct id m d.1)

pub length-erase :
    (id : Bytes) (serial : ℕ) (m : Map)
    → find id m ≡ some serial
    → length m ≡ suc (length (erase id m))
length-erase id serial [] h = cc
length-erase id serial ((key, found) ∷ m) h = ground (arith, length-erase id serial m)

pub erase-absent : (id : Bytes) (m : Map) → find id m ≡ none → erase id m ≡ m
erase-absent id [] h = refl
erase-absent id ((key, serial) ∷ m) h = ground (arith, erase-absent id m)

pub find-erase-some :
    (id key : Bytes) (serial : ℕ) (m : Map)
    → Distinct m
    → find key (erase id m) ≡ some serial
    → find key m ≡ some serial
find-erase-some id key serial m d h = elim (Bool-cases (bytes_eq id key)) [
  | inl same ↦
      let gone : find key (erase id m) ≡ none =
        subst (λ k. find k (erase id m) ≡ none) (bytes_eq-eq id key same)
          (find-erase_self id m d) in
      cc
  | inr other ↦ sym (find-erase_other key id m other) ∙ h
]
