-- ===== src/Tls/ClientHello/RoundTrip.antt =====
-- src/tls/client_hello.rs: a ClientHello is parsed.
use rust_xhttp.Common.{
  ℕ, zero, suc, ◌+◌, ◌*◌, ◌-◌, ◌/◌, ◌%◌, ◌^◌, ◌≤◌, ◌<◌, ◌≡◌, refl, ap, subst, ◌∙◌, true, ◌==◌,
  ◌>>=◌, List, [], ◌∷◌, ◌++◌, Bytes, length, Result, ok, All, arith, IsU16, as_u8, u16_of-be,
  length-append,
}
use rust_xhttp.Tls.ClientHello.{ParseError, take_slice, take_u16_list}
use rust_xhttp.Tls.ClientHello.Extensions.{
  Found, nothing_found, with_schemes, with_shares, match_ext_type, parse_extensions,
}
use rust_xhttp.Tls.ClientHello.Message.{extensions_block, parse_message}
use rust_xhttp.Tls.ClientHello.Offer.{
  Extension, host, versions, schemes, protocols, shares, other, counted, counted_u8, words, type_of,
  body_of, extension_bytes, IsValid, found, found_all, Offer, hello_body, message, IsOffer,
  hello_of,
}
use rust_xhttp.Tls.ClientHello.Lists.{
  take_slice-append, take_u8_list-counted, take_u16_list-counted, take_u16_list-all,
  u16_chunks-words, words-even, parse_signature_schemes-words, parse_sni-host,
  parse_supported_versions-words, parse_alpn-protocols, parse_key_shares-shares,
}

type_of-IsU16 : (e : Extension) → IsValid e → IsU16 (type_of e)
type_of-IsU16 (host name) v = omega arith
type_of-IsU16 (versions vs) v = omega arith
type_of-IsU16 (schemes ss) v = omega arith
type_of-IsU16 (protocols ps) v = omega arith
type_of-IsU16 (shares ks) v = omega arith
type_of-IsU16 (other t body) v = v.0.0

match_ext_type-found :
    (e : Extension) (x : Found)
    → IsValid e
    → match_ext_type (type_of e) (body_of e) x ≡ ok (found x e)
unfolding match_ext_type
match_ext_type-found (host name) x v =
    ap (λ n. ok (record x { server_name = n })) (parse_sni-host name v.0 v.1)
match_ext_type-found (versions vs) x v =
    ap (λ b. ok (record x { offers_tls13 = b })) (parse_supported_versions-words vs v.0.0)
match_ext_type-found (schemes ss) x v =
    ap (with_schemes x) (parse_signature_schemes-words ss v.0 (omega arith))
match_ext_type-found (protocols ps) x v =
    ap (λ ns. ok (record x { alpn = ns })) (parse_alpn-protocols ps v.0 (omega arith))
match_ext_type-found (shares ks) x v =
    ap (with_shares x) (parse_key_shares-shares ks x.key_shares v.0 (omega arith))
match_ext_type-found (other t body) x v = ground (arith, v.0.1)

parse_extensions-found :
    (fuel : ℕ) (es : List Extension) (x : Found)
    → All IsValid es
    → length (extension_bytes es) ≤ fuel
    → parse_extensions fuel (extension_bytes es) x ≡ ok (found_all x es)
unfolding parse_extensions
parse_extensions-found zero [] x v le = refl
parse_extensions-found (suc fuel) [] x v le = refl
parse_extensions-found zero (e ∷ es) x v le = absurd (omega arith)
parse_extensions-found (suc fuel) (e ∷ es) x v le =
    let rest = extension_bytes es in
    ap
      (λ (n : ℕ). take_u16_list (counted (body_of e) ++ rest) >>= λ b.
        match_ext_type n b.0 x >>= parse_extensions fuel b.1)
      (u16_of-be (type_of e) (type_of-IsU16 e v.0))
    ∙ ap
        (λ (r : Result ParseError (Bytes × Bytes)).
          r >>= λ b. match_ext_type (type_of e) b.0 x >>= parse_extensions fuel b.1)
        (take_u16_list-counted (body_of e) rest v.0.1)
    ∙ ap (λ (r : Result ParseError Found). r >>= parse_extensions fuel rest)
        (match_ext_type-found e x v.0)
    ∙ parse_extensions-found fuel es (found x e) v.1 (omega (arith, length-append (body_of e) rest))

extensions_block-found :
    (es : List Extension)
    → All IsValid es
    → IsU16 (length (extension_bytes es))
    → extensions_block (counted (extension_bytes es)) ≡ ok (found_all nothing_found es, [])
unfolding extensions_block
extensions_block-found es v u =
    ap
      (λ (r : Result ParseError (Bytes × Bytes)).
        r >>= λ b. parse_extensions (length b.0) b.0 nothing_found >>= λ x. ok (x, b.1))
      (take_u16_list-all (extension_bytes es) u)
    ∙ ap (λ (r : Result ParseError Found). r >>= λ x. ok (x, []))
        (parse_extensions-found (length (extension_bytes es)) es nothing_found v (omega arith))

-- The parts of the body behind the random bytes, from the last one on.
abbrev tail : Offer → Bytes
tail o = counted_u8 o.compression ++ counted (extension_bytes o.extensions)

abbrev behind_random : Offer → Bytes
behind_random o = counted_u8 o.session_id ++ (counted (words o.cipher_suites) ++ tail o)

hello_body-size : (o : Offer) → IsOffer o → length (hello_body o) < 2 ^ 24
hello_body-size o v = omega (
  arith,
  v.random_len,
  length-append o.random (behind_random o),
  length-append o.session_id (counted (words o.cipher_suites) ++ tail o),
  length-append (words o.cipher_suites) (tail o),
  length-append o.compression (counted (extension_bytes o.extensions)),
)

-- A ClientHello of any version, with 32 random bytes, fields that fit their length fields and
-- extensions in any order, of which the server names, the versions, the signature algorithms, the
-- protocols and the key shares are well-formed and the others have any content, is parsed into
-- exactly what it says: of an extension that occurs twice the last one counts, and the key shares
-- of all are put together.
pub parse_message-hello_of : (o : Offer) → IsOffer o → parse_message (message o) ≡ ok (hello_of o)
unfolding parse_message
parse_message-hello_of o v =
    let n = length (hello_body o) in
    let size : (as_u8 (n / 65536) * 65536 + as_u8 (n / 256) * 256 + as_u8 n
          == length (message o) - 4)
        ≡ true =
      ground (arith, hello_body-size o v) in
    let random : take_slice 32 (o.random ++ behind_random o) ≡ ok (o.random, behind_random o) =
      subst (λ k. take_slice k (o.random ++ behind_random o) ≡ ok (o.random, behind_random o))
        v.random_len (take_slice-append o.random (behind_random o)) in
    let even : (length (words o.cipher_suites) % 2 == 0) ≡ true =
      ground (arith, words-even o.cipher_suites) in
    rw
      (
        size,
        random,
        take_u8_list-counted o.session_id (counted (words o.cipher_suites) ++ tail o),
        u16_of-be (length (words o.cipher_suites)) v.cipher_suites_len,
        even,
        take_slice-append (words o.cipher_suites) (tail o),
        take_u8_list-counted o.compression (counted (extension_bytes o.extensions)),
        extensions_block-found o.extensions v.extensions_valid v.extensions_len,
        u16_chunks-words o.cipher_suites v.cipher_suites_fit,
      )
      refl
