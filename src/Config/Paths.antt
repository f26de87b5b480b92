-- ===== src/Config/Paths.antt =====
-- src/config.rs: the path of the inbound, between slashes.
use rust_xhttp.Common.{
  ℕ, ◌≡◌, inl, inr, refl, ◌∙◌, true, not, ◌==◌, [], ◌∷◌, ◌++◌, Bytes, if◌then◌else◌, Bool-cases,
}
use rust_xhttp.Config.Text.{starts_with, ends_with}
use rust_xhttp.Config.Stream.{normal_path}
use rust_xhttp.Xhttp.Request.{strip_prefix}

abbrev slash : Bytes
slash = b'/' ∷ []

-- A path that starts and ends with a slash.
abbrev pub IsNormal : Bytes → Type 0
IsNormal path = (starts_with path slash ≡ true) × (ends_with path b'/' ≡ true)

ends_with-append : (bytes : Bytes) → ends_with (bytes ++ slash) b'/' ≡ true
ends_with-append [] = refl
ends_with-append (b ∷ []) = refl
ends_with-append (a ∷ b ∷ bytes) = ends_with-append (b ∷ bytes)

starts_with-append :
    (b : ℕ) (bytes more : Bytes)
    → starts_with ((b ∷ bytes) ++ more) slash ≡ starts_with (b ∷ bytes) slash
unfolding strip_prefix
starts_with-append b bytes more = elim (Bool-cases (b'/' == b)) [
  | inl here ↦ rw here refl
  | inr other ↦ rw other refl
]

-- The second step, on a path that has its first slash.
closed-IsNormal :
    (b : ℕ) (bytes : Bytes)
    → starts_with (b ∷ bytes) slash ≡ true
    → IsNormal (if not (ends_with (b ∷ bytes) b'/') then (b ∷ bytes) ++ slash else b ∷ bytes)
closed-IsNormal b bytes start = elim (Bool-cases (ends_with (b ∷ bytes) b'/')) [
  | inl ends ↦ rw ends (start, ends)
  | inr open_end ↦
      rw open_end (starts_with-append b bytes slash ∙ start, ends_with-append (b ∷ bytes))
]

rooted : (bytes : Bytes) → starts_with (b'/' ∷ bytes) slash ≡ true
unfolding strip_prefix
rooted bytes = refl

pub normal_path-IsNormal : (path : Bytes) → IsNormal (normal_path path)
normal_path-IsNormal [] = closed-IsNormal b'/' [] (rooted [])
normal_path-IsNormal (b ∷ bytes) = elim (Bool-cases (starts_with (b ∷ bytes) slash)) [
  | inl start ↦ rw start (closed-IsNormal b bytes start)
  | inr other ↦ rw other (closed-IsNormal b'/' (b ∷ bytes) (rooted (b ∷ bytes)))
]

pub normal_path_of_IsNormal : (path : Bytes) → IsNormal path → normal_path path ≡ path
normal_path_of_IsNormal [] (start, ends) = absurd cc
normal_path_of_IsNormal (b ∷ bytes) (start, ends) = rw (start, ends) refl
