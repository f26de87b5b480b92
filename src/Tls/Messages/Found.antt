-- ===== src/Tls/Messages/Found.antt =====
-- src/tls/tls13/messages.rs: the key share of a ServerHello is found.
use rust_xhttp.Common.{
  ℕ, zero, suc, ◌+◌, ◌≤◌, ◌<◌, ◌≡◌, refl, ap, sym, ◌∙◌, true, leb, List, [], ◌∷◌, ◌++◌, none, some,
  Bytes, length, get_elem?, take, drop, All, arith, IsU16, u16_be, length-append, append_assoc,
}
use rust_xhttp.Tls.Messages.{server_hello_cipher_suite, u16_at, after_session_id}
use rust_xhttp.Tls.Messages.KeyShare.{
  found, ext_key_share, word_at, find_from, find_extensions, find_behind, find_server_keyshare,
}
use rust_xhttp.Tls.Messages.Layout.{
  others, others_len, IsOther, share, server_hello, get_elem?-behind, word_at-behind, word_at-next,
  others-append, slice_at,
}

find_from-share :
    (fuel : ℕ) (hello pre : Bytes) (front : List (ℕ × Bytes)) (len group : ℕ) (key rest : Bytes)
    (ext_end pos : ℕ)
    → hello ≡ pre ++ others front (share len group key rest)
    → pos ≡ length pre
    → All IsOther front
    → IsU16 len
    → IsU16 group
    → IsU16 (length key)
    → pos + others_len front + 4 ≤ ext_end
    → others_len front < fuel
    → find_from fuel hello ext_end pos ≡ found group (pos + others_len front + 8) (length key)
unfolding find_from
find_from-share zero hello pre front len group key rest ext_end pos e at os l g k fits lt =
    absurd (omega arith)
find_from-share (suc fuel) hello pre [] len group key rest ext_end pos e at os l g k fits lt =
    let tail = u16_be group (u16_be (length key) (key ++ rest)) in
    let pre' = pre ++ u16_be ext_key_share (u16_be len []) in
    let four = length-append pre (u16_be ext_key_share (u16_be len [])) in
    let e' : hello ≡ pre' ++ tail =
      e ∙ sym (append_assoc pre (u16_be ext_key_share (u16_be len [])) tail) in
    let w1 : word_at hello pos ≡ some ext_key_share =
      ap (λ h. word_at h pos) e
      ∙ word_at-behind pre ext_key_share (u16_be len tail) pos (omega arith) at in
    let w2 : word_at hello (pos + 2) ≡ some len =
      ap (λ h. word_at h (pos + 2)) e
      ∙ word_at-next pre ext_key_share len tail (pos + 2) l (omega arith) in
    let w3 : word_at hello (pos + 4) ≡ some group =
      ap (λ h. word_at h (pos + 4)) e'
      ∙ word_at-behind pre' group (u16_be (length key) (key ++ rest)) (pos + 4) g
          (omega (arith, four)) in
    let w4 : word_at hello (pos + 4 + 2) ≡ some (length key) =
      ap (λ h. word_at h (pos + 4 + 2)) e'
      ∙ word_at-next pre' group (length key) (key ++ rest) (pos + 4 + 2) k (omega (arith, four)) in
    let inside : leb (pos + 4) ext_end ≡ true = ground arith in
    let within : leb (pos + 4 + 4 + length key) (length hello) ≡ true =
      ground (arith, ap length e', length-append pre' tail, four, length-append key rest) in
    let eight : pos + 4 + 4 ≡ pos + 0 + 8 = omega arith in
    rw (inside, w1, w2, w3, w4, within) (ap (λ (n : ℕ). found group n (length key)) eight)
find_from-share (suc fuel) hello pre ((t, body) ∷ front) len group key rest ext_end pos e at os l g
      k fits lt =
    let later = others front (share len group key rest) in
    let head = u16_be t (u16_be (length body) body) in
    let w1 : word_at hello pos ≡ some t =
      ap (λ h. word_at h pos) e
      ∙ word_at-behind pre t (u16_be (length body) (body ++ later)) pos os.0.0 at in
    let w2 : word_at hello (pos + 2) ≡ some (length body) =
      ap (λ h. word_at h (pos + 2)) e
      ∙ word_at-next pre t (length body) (body ++ later) (pos + 2) os.0.1 (omega arith) in
    let inside : leb (pos + 4) ext_end ≡ true = ground arith in
    let again =
      find_from-share fuel hello (pre ++ head) front len group key rest ext_end
        (pos + 4 + length body) (e ∙ sym (append_assoc pre head later))
        (omega (arith, length-append pre head)) os.1 l g k (omega arith) (omega arith) in
    let moved : pos + 4 + length body + others_len front + 8
        ≡ pos + (4 + length body + others_len front) + 8 =
      omega arith in
    rw (inside, w1, w2, os.0.2) (again ∙ ap (λ (n : ℕ). found group n (length key)) moved)

-- What stands in front of the key: the place of the key does not depend on its bytes.
abbrev pub up_to_key : Bytes → Bytes → ℕ → ℕ → ℕ → List (ℕ × Bytes) → ℕ → ℕ → ℕ → Bytes
up_to_key head sid suite compression ext_total front len group key_len =
    ((((head ++ length sid ∷ sid) ++ u16_be suite (compression ∷ [])) ++ u16_be ext_total [])
      ++ (others front [] ++ u16_be ext_key_share (u16_be len (u16_be group (u16_be key_len [])))))

-- Where a ServerHello as below is read.
pub find_server_keyshare-at :
    (head sid : Bytes) (suite compression ext_total : ℕ) (front : List (ℕ × Bytes)) (len group : ℕ)
    (key rest : Bytes)
    → length head ≡ 38
    → IsU16 suite
    → IsU16 ext_total
    → All IsOther front
    → IsU16 len
    → IsU16 group
    → IsU16 (length key)
    → others_len front + 8 + length key ≤ ext_total
    → let hello = server_hello head sid suite compression ext_total front len group key rest in
      ((server_hello_cipher_suite hello ≡ some suite)
        × (find_server_keyshare hello
            ≡ found group
                (length
                  (up_to_key head sid suite compression ext_total front len group (length key)))
                (length key))
        × (hello
            ≡ up_to_key head sid suite compression ext_total front len group (length key)
              ++ (key ++ rest)))
unfolding server_hello_cipher_suite find_server_keyshare
find_server_keyshare-at head sid suite compression ext_total front len group key rest start s x os l
      g k fits =
    let hello = server_hello head sid suite compression ext_total front len group key rest in
    let exts = others front (share len group key rest) in
    let p1 = head ++ length sid ∷ sid in
    let p2 = p1 ++ u16_be suite (compression ∷ []) in
    let p3 = p2 ++ u16_be ext_total [] in
    let n1 = length-append head (length sid ∷ sid) in
    let n2 = length-append p1 (u16_be suite (compression ∷ [])) in
    let n3 = length-append p2 (u16_be ext_total []) in
    let pos : ℕ = 38 + (1 + length sid) in
    let e1 : hello ≡ p1 ++ u16_be suite (compression ∷ u16_be ext_total exts) =
      sym (
        append_assoc head (length sid ∷ sid)
          (u16_be suite (compression ∷ u16_be ext_total exts))) in
    let e2 : hello ≡ p2 ++ u16_be ext_total exts =
      e1 ∙ sym (append_assoc p1 (u16_be suite (compression ∷ [])) (u16_be ext_total exts)) in
    let e3 : hello ≡ p3 ++ exts = e2 ∙ sym (append_assoc p2 (u16_be ext_total []) exts) in
    let at38 : 38 ≡ length head + 0 = omega arith in
    let w0 : get_elem? hello 38 ≡ some (length sid) =
      ap (get_elem? hello) at38
      ∙ get_elem?-behind head
          (length sid ∷ (sid ++ u16_be suite (compression ∷ u16_be ext_total exts))) 0 in
    let w1 : word_at hello pos ≡ some suite =
      ap (λ h. word_at h pos) e1
      ∙ word_at-behind p1 suite (compression ∷ u16_be ext_total exts) pos s (omega (arith, n1)) in
    let w2 : word_at hello (pos + 2 + 1) ≡ some ext_total =
      ap (λ h. word_at h (pos + 2 + 1)) e2
      ∙ word_at-behind p2 ext_total exts (pos + 2 + 1) x (omega (arith, n1, n2)) in
    let start_at : ℕ = pos + 2 + 1 + 2 in
    let there =
      find_from-share (start_at + ext_total) hello p3 front len group key rest
        (start_at + ext_total) start_at e3 (omega (arith, n1, n2, n3)) os l g k (omega arith)
        (omega arith) in
    let offset : ℕ = start_at + others_len front + 8 in
    let shape = others-append front (share len group key rest) in
    let fields = u16_be ext_key_share (u16_be len (u16_be group (u16_be (length key) []))) in
    let before = others front [] ++ fields in
    let n4 = length-append p3 before in
    let n5 = length-append (others front []) fields in
    let e4 : hello ≡ (p3 ++ before) ++ (key ++ rest) =
      e3
      ∙ ap (◌++◌ p3) (shape.0 ∙ sym (append_assoc (others front []) fields (key ++ rest)))
      ∙ sym (append_assoc p3 before (key ++ rest)) in
    let at_key : offset
        ≡ length (up_to_key head sid suite compression ext_total front len group (length key)) =
      omega (arith, n1, n2, n3, n4, n5, shape.1) in
    (
      ap
            (λ o. elim (after_session_id 38 o) [
              | none ↦ none
              | some p ↦ u16_at (get_elem? hello p) (get_elem? hello (p + 1))
            ])
            w0
          ∙ w1,
      ap (λ o. find_behind hello (after_session_id 38 o)) w0
          ∙ ap (find_extensions hello (pos + 2 + 1)) w2
          ∙ there
          ∙ ap (λ (n : ℕ). found group n (length key)) at_key,
      e4,
    )

-- A ServerHello with 38 bytes in front of its session id, whose fields fit their lengths, with a key
-- share behind any other extensions, within the length of the extensions: its cipher suite is
-- read, and the search gives the group of the share and an offset and a length, at which the key
-- stands.
pub find_server_keyshare-share :
    (head sid : Bytes) (suite compression ext_total : ℕ) (front : List (ℕ × Bytes)) (len group : ℕ)
    (key rest : Bytes)
    → length head ≡ 38
    → IsU16 suite
    → IsU16 ext_total
    → All IsOther front
    → IsU16 len
    → IsU16 group
    → IsU16 (length key)
    → others_len front + 8 + length key ≤ ext_total
    → let hello = server_hello head sid suite compression ext_total front len group key rest in
      (server_hello_cipher_suite hello ≡ some suite)
      × ((offset : ℕ) × (find_server_keyshare hello ≡ found group offset (length key))
          × (take (length key) (drop offset hello) ≡ key))
find_server_keyshare-share head sid suite compression ext_total front len group key rest start s x
      os l g k fits =
    let pre = up_to_key head sid suite compression ext_total front len group (length key) in
    let (suite_read, at, shape) =
      find_server_keyshare-at head sid suite compression ext_total front len group key rest start s
        x os l g k fits in
    (
      suite_read,
      (
        length pre,
        at,
        slice_at (server_hello head sid suite compression ext_total front len group key rest) pre
            key rest (length pre) shape refl,
      ),
    )
