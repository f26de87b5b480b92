-- ===== src/Tls/Messages/Layout.antt =====
-- src/tls/tls13/messages.rs: the bytes of a ServerHello, and what is read at a place in them.
use rust_xhttp.Common.{
  ℕ, suc, ◌+◌, ◌≡◌, refl, ap, ap₂, sym, ◌∙◌, false, ◌==◌, List, [], ◌∷◌, ◌++◌, some, Bytes, length,
  get_elem?, take, drop, arith, IsU16, u16_be, u16_of-be, length-append, append_assoc, take-append,
  drop-append,
}
use rust_xhttp.Tls.Messages.{u16_at}
use rust_xhttp.Tls.Messages.KeyShare.{ext_key_share, word_at}

-- The extensions in front of the key share.
abbrev pub others : List (ℕ × Bytes) → Bytes → Bytes
others [] rest = rest
others ((t, body) ∷ es) rest = u16_be t (u16_be (length body) (body ++ others es rest))

abbrev pub others_len : List (ℕ × Bytes) → ℕ
others_len [] = 0
others_len ((t, body) ∷ es) = 4 + length body + others_len es

abbrev pub IsOther : ℕ × Bytes → Type 0
IsOther (t, body) = IsU16 t × IsU16 (length body) × ((t == ext_key_share) ≡ false)

abbrev pub share : ℕ → ℕ → Bytes → Bytes → Bytes
share len group key rest =
    u16_be ext_key_share (u16_be len (u16_be group (u16_be (length key) (key ++ rest))))

pub get_elem?-behind :
    (xs ys : Bytes) (k : ℕ) → get_elem? (xs ++ ys) (length xs + k) ≡ get_elem? ys k
get_elem?-behind [] ys k = let e : 0 + k ≡ k = omega arith in ap (get_elem? ys) e
get_elem?-behind (x ∷ xs) ys k =
    let e : suc (length xs) + k ≡ suc (length xs + k) = omega arith in
    ap (get_elem? (x ∷ (xs ++ ys))) e ∙ get_elem?-behind xs ys k

pub word_at-behind :
    (pre : Bytes) (n : ℕ) (rest : Bytes) (pos : ℕ)
    → IsU16 n
    → pos ≡ length pre
    → word_at (pre ++ u16_be n rest) pos ≡ some n
word_at-behind pre n rest pos u e =
    let at : pos ≡ length pre + 0 = omega arith in
    let next : pos + 1 ≡ length pre + 1 = omega arith in
    ap₂ u16_at (ap (get_elem? (pre ++ u16_be n rest)) at ∙ get_elem?-behind pre (u16_be n rest) 0)
      (ap (get_elem? (pre ++ u16_be n rest)) next ∙ get_elem?-behind pre (u16_be n rest) 1)
    ∙ ap some (u16_of-be n u)

-- The word behind two more bytes.
pub word_at-next :
    (pre : Bytes) (m n : ℕ) (rest : Bytes) (pos : ℕ)
    → IsU16 n
    → pos ≡ length pre + 2
    → word_at (pre ++ u16_be m (u16_be n rest)) pos ≡ some n
word_at-next pre m n rest pos u e =
    ap (λ b. word_at b pos) (sym (append_assoc pre (u16_be m []) (u16_be n rest)))
    ∙ word_at-behind (pre ++ u16_be m []) n rest pos u
        (omega (arith, length-append pre (u16_be m [])))

pub others-append :
    (es : List (ℕ × Bytes)) (rest : Bytes)
    → (others es rest ≡ others es [] ++ rest) × (length (others es []) ≡ others_len es)
others-append [] rest = (refl, refl)
others-append ((t, body) ∷ es) rest =
    let (e, len) = others-append es rest in
    (
      ap (λ b. u16_be t (u16_be (length body) (body ++ b))) e
          ∙ ap (λ b. u16_be t (u16_be (length body) b))
              (sym (append_assoc body (others es []) rest)),
      omega (arith, len, length-append body (others es [])),
    )

pub slice_at :
    (hello pre key rest : Bytes) (offset : ℕ)
    → hello ≡ pre ++ (key ++ rest)
    → offset ≡ length pre
    → take (length key) (drop offset hello) ≡ key
slice_at hello pre key rest offset e at =
    ap₂ (λ (n : ℕ) h. take (length key) (drop n h)) at e
    ∙ ap (take (length key)) (drop-append pre (key ++ rest))
    ∙ take-append key rest

-- A ServerHello: its first 38 bytes, a session id, a cipher suite, a compression method and the
-- extensions, up to and with the key share, and what follows.
abbrev pub server_hello :
    Bytes → Bytes → ℕ → ℕ → ℕ → List (ℕ × Bytes) → ℕ → ℕ → Bytes → Bytes → Bytes
server_hello head sid suite compression ext_total front len group key rest =
    head
    ++ (length sid
        ∷ (sid
            ++ u16_be suite
                (compression ∷ u16_be ext_total (others front (share len group key rest)))))
