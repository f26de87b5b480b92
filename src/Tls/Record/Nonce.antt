-- ===== src/Tls/Record/Nonce.antt =====
-- src/tls/tls13/record.rs: the nonce of a record from its number.
use rust_xhttp.Common.{
  ℕ, ◌^◌, ◌<◌, ◌≡◌, ◌≢◌, refl, ap, sym, ◌∙◌, [], ◌∷◌, ◌++◌, Bytes, length, drop, take, arith,
  drop-append, length-drop,
}
use rust_xhttp.Common.Bits.{bit_xor_cancel}
use rust_xhttp.Tls.Record.{RecordKeys, u64_be, xor_bytes, nonce_of}

append_left_cancel : (xs ys zs : Bytes) → xs ++ ys ≡ xs ++ zs → ys ≡ zs
append_left_cancel xs ys zs e =
    sym (drop-append xs ys) ∙ ap (drop (length xs)) e ∙ drop-append xs zs

head_eq : {x y : ℕ} {xs ys : Bytes} → x ∷ xs ≡ y ∷ ys → x ≡ y
head_eq e = cc

tail_eq : {x y : ℕ} {xs ys : Bytes} → x ∷ xs ≡ y ∷ ys → xs ≡ ys
tail_eq e = cc

xor_bytes_cancel :
    (xs ys zs : Bytes)
    → length ys ≡ length xs
    → length zs ≡ length xs
    → xor_bytes xs ys ≡ xor_bytes xs zs
    → ys ≡ zs
unfolding xor_bytes
xor_bytes_cancel [] [] [] hy hz e = refl
xor_bytes_cancel [] [] (z ∷ zs) hy hz e = absurd (omega arith)
xor_bytes_cancel [] (y ∷ ys) zs hy hz e = absurd (omega arith)
xor_bytes_cancel (x ∷ xs) [] zs hy hz e = absurd (omega arith)
xor_bytes_cancel (x ∷ xs) (y ∷ ys) [] hy hz e = absurd (omega arith)
xor_bytes_cancel (x ∷ xs) (y ∷ ys) (z ∷ zs) hy hz e =
    let first = bit_xor_cancel x y z (head_eq e) in
    let others = xor_bytes_cancel xs ys zs (omega arith) (omega arith) (tail_eq e) in cc

u64_be_inj : (m n : ℕ) → m < 2 ^ 64 → n < 2 ^ 64 → u64_be m ≡ u64_be n → m ≡ n
unfolding u64_be
u64_be_inj m n hm hn e =
    let e0 = head_eq e in
    let t1 = tail_eq e in
    let e1 = head_eq t1 in
    let t2 = tail_eq t1 in
    let e2 = head_eq t2 in
    let t3 = tail_eq t2 in
    let e3 = head_eq t3 in
    let t4 = tail_eq t3 in
    let e4 = head_eq t4 in
    let t5 = tail_eq t4 in
    let e5 = head_eq t5 in
    let t6 = tail_eq t5 in let e6 = head_eq t6 in let e7 = head_eq (tail_eq t6) in omega arith

-- Different numbers give different nonces, for one initialisation vector of 12 bytes and over the
-- whole range of the 64-bit counter.
pub nonce_of_distinct :
    (k : RecordKeys) (m n : ℕ)
    → length k.iv ≡ 12
    → m < 2 ^ 64
    → n < 2 ^ 64
    → m ≢ n
    → nonce_of (record k { seq = m }) ≢ nonce_of (record k { seq = n })
unfolding nonce_of u64_be
nonce_of_distinct k m n twelve hm hn ne e =
    let eight : length (drop 4 k.iv) ≡ 8 = omega (arith, length-drop 4 k.iv) in
    ne (
      u64_be_inj m n hm hn (
        xor_bytes_cancel (drop 4 k.iv) (u64_be m) (u64_be n) (sym eight) (sym eight) (
          append_left_cancel (take 4 k.iv) (xor_bytes (drop 4 k.iv) (u64_be m))
            (xor_bytes (drop 4 k.iv) (u64_be n)) e)))
