-- ===== src/Common/Maps.antt =====
-- A map with number keys as an association list: Rust's `BTreeMap<u64, V>`.
use rust_xhttp.Common.Tests.{◌==◌, if◌then◌else◌}
use rust_xhttp.Common.Lists.{length}
use Prim.Native.Nat.{ℕ, suc}
use mathlib.Core.Path.{◌≡◌, refl}
use mathlib.Core.Logic.{◌≢◌}
use mathlib.Core.Option.{Option, none, some}
use mathlib.Core.List.{List, [], ◌∷◌}
use native.Mathlib.Omega.{arith}

module _ {ℓ} {V : Type ℓ} where
  abbrev pub lookup : ℕ → List (ℕ × V) → Option V
  lookup k [] = none
  lookup k ((j, v) ∷ m) = if j == k then some v else lookup k m

  -- removes the first entry of the key
  abbrev pub remove : ℕ → List (ℕ × V) → List (ℕ × V)
  remove k [] = []
  remove k ((j, v) ∷ m) = if j == k then m else (j, v) ∷ remove k m

  -- The keys are different.
  abbrev pub Distinct : List (ℕ × V) → Type ℓ
  Distinct [] = Unit {ℓ}
  Distinct ((k, v) ∷ m) = (lookup k m ≡ none) × Distinct m

module _ {ℓ} {V : Type ℓ} where
  pub lookup-remove_ne : (j k : ℕ) (m : List (ℕ × V)) → j ≢ k → lookup j (remove k m) ≡ lookup j m
  lookup-remove_ne j k [] h = refl
  lookup-remove_ne j k ((i, v) ∷ m) h = ground (arith, lookup-remove_ne j k m h)

  pub lookup-remove-none :
      (j k : ℕ) (m : List (ℕ × V)) → lookup j m ≡ none → lookup j (remove k m) ≡ none
  lookup-remove-none j k [] h = refl
  lookup-remove-none j k ((i, v) ∷ m) h = ground (arith, lookup-remove-none j k m)

  pub lookup-remove_self : (k : ℕ) (m : List (ℕ × V)) → Distinct m → lookup k (remove k m) ≡ none
  lookup-remove_self k [] d = refl
  lookup-remove_self k ((i, v) ∷ m) d = ground (arith, lookup-remove_self k m d.1)

  pub remove-Distinct : (k : ℕ) (m : List (ℕ × V)) → Distinct m → Distinct (remove k m)
  remove-Distinct k [] d = d
  remove-Distinct k ((i, v) ∷ m) d =
      ground (arith, lookup-remove-none i k m d.0, remove-Distinct k m d.1)

  pub length-remove :
      (k : ℕ) (v : V) (m : List (ℕ × V))
      → lookup k m ≡ some v
      → length m ≡ suc (length (remove k m))
  length-remove k v [] h = cc
  length-remove k v ((i, w) ∷ m) h = ground (arith, length-remove k v m)
