-- ===== src/Common/Outcome.antt =====
-- Results of fallible code: Rust's `Result<A, E>` and the `?` operator as a `do` block.
use mathlib.Core.Bool.{Bool, true, false}
use mathlib.Core.Option.{Option, none, some}
use mathlib.Core.Path.{◌≡◌, refl}

pub data Result (E A : Type 0) : Type 0 where
  ok : A → Result E A
  err : E → Result E A

-- `if !b { return Err(e) }`
abbrev pub guard : {E : Type 0} → Bool → E → Result E (Unit {0})
guard true e = ok tt
guard false e = err e

-- `Option::ok_or`
abbrev pub ok_or : {E A : Type 0} → Option A → E → Result E A
ok_or none e = err e
ok_or (some a) e = ok a

-- `Result::map_err`, and the `From` conversion that `?` makes
abbrev pub map_err : {E F A : Type 0} → (E → F) → Result E A → Result F A
map_err f (ok a) = ok a
map_err f (err e) = err (f e)

infixl 5 ◌>>=◌ ◌>>◌
abbrev pub ◌>>=◌ : {E A B : Type 0} → Result E A → (A → Result E B) → Result E B
err e >>= next = err e
ok a >>= next = next a

abbrev pub ◌>>◌ : {E B : Type 0} → Result E (Unit {0}) → Result E B → Result E B
m >> next = m >>= λ _. next

-- What a success says of its parts.
pub bind_inv :
    {E A B : Type 0} (m : Result E A) (next : A → Result E B) (b : B)
    → (m >>= next) ≡ ok b
    → (a : A) × (m ≡ ok a) × (next a ≡ ok b)
bind_inv (ok a) next b e = (a, refl, e)
bind_inv (err x) next b e = absurd cc

pub guard_inv :
    {E B : Type 0} (g : Bool) (x : E) (m : Result E B) (b : B)
    → (guard g x >> m) ≡ ok b
    → (g ≡ true) × (m ≡ ok b)
guard_inv true x m b e = (refl, e)
guard_inv false x m b e = absurd cc
