-- ===== src/Tls/ClientHello/Lists.antt =====
-- src/tls/client_hello.rs: the lists inside the extensions.
use rust_xhttp.Common.{
  ℕ, zero, suc, ◌*◌, ◌≤◌, ◌<◌, ◌≡◌, refl, ap, ap₂, sym, ◌∙◌, true, ◌==◌, List, [], ◌∷◌, ◌++◌, some,
  Bytes, length, Result, ok, All, arith, IsU16, u16_be, u16_of-be, append_assoc, append-nil,
  length-append, ok_or, ◌>>=◌, ◌%◌,
}
use rust_xhttp.Common.Utf8.{is_utf8, read_exact-append}
use rust_xhttp.Tls.ClientHello.{
  KeyShare, ParseError, truncated, take_slice, take_u8_list, take_u16_list, u16_chunks, sni_names,
  sni_list, sni_name, parse_sni, versions_offer, versions_list, parse_supported_versions,
  alpn_names, alpn_name, alpn_list, parse_alpn, key_share_entries, key_share_entry,
  parse_key_shares, parse_signature_schemes,
}
use rust_xhttp.Tls.ClientHello.Offer.{
  counted, counted_u8, words, protocol_bytes, share_bytes, any_tls13,
}

pub take_slice-append : (xs rest : Bytes) → take_slice (length xs) (xs ++ rest) ≡ ok (xs, rest)
take_slice-append xs rest = ap (λ o. ok_or o truncated) (read_exact-append xs rest)

pub take_u8_list-counted : (xs rest : Bytes) → take_u8_list (counted_u8 xs ++ rest) ≡ ok (xs, rest)
take_u8_list-counted xs rest = take_slice-append xs rest

pub take_u16_list-counted :
    (xs rest : Bytes) → IsU16 (length xs) → take_u16_list (counted xs ++ rest) ≡ ok (xs, rest)
take_u16_list-counted xs rest h = rw (u16_of-be (length xs) h) (take_slice-append xs rest)

pub take_u16_list-all : (xs : Bytes) → IsU16 (length xs) → take_u16_list (counted xs) ≡ ok (xs, [])
take_u16_list-all xs h =
    ap take_u16_list (sym (append-nil (counted xs))) ∙ take_u16_list-counted xs [] h

pub take_slice-all : (xs : Bytes) → take_slice (length xs) xs ≡ ok (xs, [])
take_slice-all xs = ap (take_slice (length xs)) (sym (append-nil xs)) ∙ take_slice-append xs []

pub u16_chunks-words : (ws : List ℕ) → All IsU16 ws → u16_chunks (words ws) ≡ ws
u16_chunks-words [] h = refl
u16_chunks-words (w ∷ ws) h = ap₂ ◌∷◌ (u16_of-be w h.0) (u16_chunks-words ws h.1)

pub words-even : (ws : List ℕ) → length (words ws) ≡ 2 * length ws
words-even [] = refl
words-even (w ∷ ws) = omega (arith, words-even ws)

pub parse_signature_schemes-words :
    (ss : List ℕ)
    → All IsU16 ss
    → IsU16 (length (words ss))
    → parse_signature_schemes (counted (words ss)) ≡ ok ss
unfolding parse_signature_schemes
parse_signature_schemes-words ss h u =
    let even : (length (words ss) % 2 == 0) ≡ true = ground (arith, words-even ss) in
    rw (u16_of-be (length (words ss)) u, even, take_slice-all (words ss), u16_chunks-words ss h)
      refl

pub parse_sni-host :
    (name : Bytes)
    → is_utf8 name ≡ true
    → IsU16 (length (counted (0 ∷ counted name)))
    → parse_sni (counted (0 ∷ counted name)) ≡ some name
unfolding parse_sni sni_names
parse_sni-host name h u =
    ap sni_list (take_u16_list-all (0 ∷ counted name) (omega arith))
    ∙ ap
        (λ (r : Result ParseError (Bytes × Bytes)).
          sni_name (r >>= λ x. ok (0, x.0, x.1)) (sni_names (length (counted name))))
        (take_u16_list-all name (omega arith))
    ∙ rw h refl

versions_offer-words : (vs : List ℕ) → All IsU16 vs → versions_offer (words vs) ≡ any_tls13 vs
unfolding versions_offer
versions_offer-words [] h = refl
versions_offer-words (v ∷ vs) h = ground (arith, u16_of-be v h.0, versions_offer-words vs h.1)

pub parse_supported_versions-words :
    (vs : List ℕ) → All IsU16 vs → parse_supported_versions (counted_u8 (words vs)) ≡ any_tls13 vs
unfolding parse_supported_versions
parse_supported_versions-words vs h =
    ap versions_list (take_slice-all (words vs)) ∙ versions_offer-words vs h

alpn_names-protocols :
    (fuel : ℕ) (ps : List Bytes)
    → All (λ p. (length p < 256) × (is_utf8 p ≡ true)) ps
    → length (protocol_bytes ps) ≤ fuel
    → alpn_names fuel (protocol_bytes ps) ≡ ps
unfolding alpn_names
alpn_names-protocols zero [] h le = refl
alpn_names-protocols (suc fuel) [] h le = refl
alpn_names-protocols zero (p ∷ ps) h le = absurd (omega arith)
alpn_names-protocols (suc fuel) (p ∷ ps) h le =
    ap (λ r. alpn_name r (alpn_names fuel)) (take_u8_list-counted p (protocol_bytes ps))
    ∙ rw
        (
          h.0.1,
          alpn_names-protocols fuel ps h.1 (omega (arith, length-append p (protocol_bytes ps))),
        )
        refl

pub parse_alpn-protocols :
    (ps : List Bytes)
    → All (λ p. (length p < 256) × (is_utf8 p ≡ true)) ps
    → IsU16 (length (protocol_bytes ps))
    → parse_alpn (counted (protocol_bytes ps)) ≡ ps
unfolding parse_alpn
parse_alpn-protocols ps h u =
    ap alpn_list (take_u16_list-all (protocol_bytes ps) u)
    ∙ alpn_names-protocols (length (protocol_bytes ps)) ps h (omega arith)

key_share_entry-share :
    (s : KeyShare) (rest : Bytes)
    → IsU16 s.group
    → IsU16 (length s.key)
    → key_share_entry (u16_be s.group (counted s.key) ++ rest) ≡ ok (s, rest)
key_share_entry-share s rest g k =
    ap
      (λ (n : ℕ).
        take_u16_list (counted s.key ++ rest) >>= λ x. ok (record { group = n; key = x.0 }, x.1))
      (u16_of-be s.group g)
    ∙ ap
        (λ (r : Result ParseError (Bytes × Bytes)).
          r >>= λ x. ok (record { group = s.group; key = x.0 }, x.1))
        (take_u16_list-counted s.key rest k)

key_share_entries-shares :
    (fuel : ℕ) (ks before : List KeyShare)
    → All (λ s. IsU16 s.group × IsU16 (length s.key)) ks
    → length (share_bytes ks) ≤ fuel
    → key_share_entries fuel (share_bytes ks) before ≡ ok (before ++ ks)
unfolding key_share_entries
key_share_entries-shares zero [] before h le = ap ok (sym (append-nil before))
key_share_entries-shares (suc fuel) [] before h le = ap ok (sym (append-nil before))
key_share_entries-shares zero (s ∷ ks) before h le = absurd (omega arith)
key_share_entries-shares (suc fuel) (s ∷ ks) before h le =
    ap
      (λ (r : Result ParseError (KeyShare × Bytes)).
        r >>= λ x. key_share_entries fuel x.1 (before ++ x.0 ∷ []))
      (key_share_entry-share s (share_bytes ks) h.0.0 h.0.1)
    ∙ key_share_entries-shares fuel ks (before ++ s ∷ []) h.1
        (omega (arith, length-append s.key (share_bytes ks)))
    ∙ ap ok (append_assoc before (s ∷ []) ks)

pub parse_key_shares-shares :
    (ks before : List KeyShare)
    → All (λ s. IsU16 s.group × IsU16 (length s.key)) ks
    → IsU16 (length (share_bytes ks))
    → parse_key_shares (counted (share_bytes ks)) before ≡ ok (before ++ ks)
unfolding parse_key_shares
parse_key_shares-shares ks before h u =
    ap
      (λ (r : Result ParseError (Bytes × Bytes)).
        r >>= λ x. key_share_entries (length x.0) x.0 before)
      (take_u16_list-all (share_bytes ks) u)
    ∙ key_share_entries-shares (length (share_bytes ks)) ks before h (omega arith)
