-- ===== src/Tls/Flight/Hello.antt =====
-- src/tls/tls13/flight.rs: a ServerHello that is made from a template which is laid out as one.
use rust_xhttp.Common.{
  ℕ, ◌+◌, ◌-◌, ◌/◌, ◌%◌, ◌^◌, ◌≤◌, ◌<◌, ◌≡◌, refl, ap, ap₂, sym, ◌∙◌, true, leb, ◌==◌, ◌∷◌, ◌++◌,
  some, Bytes, length, get_elem?, take, drop, arith, length-append, append_assoc, take-append,
  drop-append, drop-add, as_u8, ok,
}
use rust_xhttp.Tls.Suite.{CipherSuite, from_u16}
use rust_xhttp.Tls.Messages.{handshake_message, server_hello_cipher_suite}
use rust_xhttp.Tls.Messages.KeyShare.{found, find_server_keyshare}
use rust_xhttp.Tls.Messages.Layout.{get_elem?-behind}
use rust_xhttp.Tls.Messages.Found.{up_to_key}
use rust_xhttp.Tls.ClientHello.{ClientHello}
use rust_xhttp.Tls.ClientHello.Message.{cipher_offered, keyshare_group_offered}
use rust_xhttp.Tls.Flight.Template.{
  Template, IsTemplate, body, behind_session_id, hello_bytes, filled, head_of, with_head, pre,
  hello_bytes-with_head, length-body, with_head-at, filled-IsTemplate,
}
use rust_xhttp.Tls.Flight.{
  hs_server_hello, server_hello_body_len, validate_server_hello_template, with_body_len,
  rewrite_random_and_session_id, write_at, synthesize_server_hello,
}

-- The bytes of the length, with and without the cut to 32 bits.
with_body_len-message :
    (a b c : ℕ) (bytes : Bytes)
    → with_body_len (hs_server_hello ∷ a ∷ b ∷ c ∷ bytes) ≡ handshake_message hs_server_hello bytes
unfolding handshake_message
with_body_len-message a b c bytes =
    let n = length bytes in
    let high : as_u8 (n / 2 ^ 16) ≡ as_u8 (n % 2 ^ 32 / 65536) = omega arith in
    let middle : as_u8 (n / 2 ^ 8) ≡ as_u8 (n % 2 ^ 32 / 256) = omega arith in
    let low : as_u8 n ≡ as_u8 (n % 2 ^ 32) = omega arith in rw (high, middle, low) refl

rewrite-parts :
    (hello session_id : Bytes) (random : ℕ → Bytes) (body_len old_sid_len : ℕ)
    → server_hello_body_len hello ≡ ok body_len
    → get_elem? hello 38 ≡ some old_sid_len
    → leb (38 + (1 + old_sid_len)) (length hello) ≡ true
    → rewrite_random_and_session_id hello session_id random
      ≡ ok (
          with_body_len (
            take 6 hello
            ++ random 32
            ++ as_u8 (length session_id) ∷ (session_id ++ drop (38 + (1 + old_sid_len)) hello)))
unfolding rewrite_random_and_session_id
rewrite-parts hello session_id random body_len old_sid_len e1 e2 e3 = rw (e1, e2, e3) refl

write_at-middle :
    (message front old rest new : Bytes)
    → message ≡ front ++ (old ++ rest)
    → length new ≡ length old
    → write_at message (length front) (length old) new ≡ ok (front ++ (new ++ rest))
write_at-middle message front old rest new shape same =
    let inside : leb (length front + length old) (length message) ≡ true =
      ground (arith, ap length shape, length-append front (old ++ rest), length-append old rest) in
    let fits : (length new == length old) ≡ true = ground arith in
    let start : take (length front) message ≡ front =
      ap (take (length front)) shape ∙ take-append front (old ++ rest) in
    let end : drop (length front + length old) message ≡ rest =
      drop-add (length front) (length old) message
      ∙ ap (λ bytes. drop (length old) (drop (length front) bytes)) shape
      ∙ ap (drop (length old)) (drop-append front (old ++ rest))
      ∙ drop-append old rest in
    rw (inside, fits, start, end) refl

module _ (t : Template) (h : IsTemplate t) where
  server_hello_body_len-hello :
      length (body t) < 2 ^ 24 → server_hello_body_len (hello_bytes t) ≡ ok (length (body t))
  unfolding server_hello_body_len handshake_message
  server_hello_body_len-hello small = ap ok (omega arith)

  validate-template :
      length (body t) < 2 ^ 24 → validate_server_hello_template (hello_bytes t) ≡ ok tt
  unfolding validate_server_hello_template
  validate-template small =
      let n = length (body t) % 2 ^ 32 in
      let (suite_read, at, _) = with_head-at t h n in
      let size : (length (body t) == length (with_head t n) - 4) ≡ true = ground arith in
      rw (server_hello_body_len-hello small, hello_bytes-with_head t, size, at, suite_read) refl

  rewrite-template :
      (session_id : Bytes) (random : ℕ → Bytes)
      → length (body t) < 2 ^ 24
      → length session_id ≤ 32
      → rewrite_random_and_session_id (hello_bytes t) session_id random
        ≡ ok (hello_bytes (filled t (random 32) session_id t.key))
  rewrite-template session_id random small short =
      let n = length (body t) % 2 ^ 32 in
      let hello = with_head t n in
      let behind = behind_session_id t in
      let up_to = head_of t n ++ length t.session_id ∷ t.session_id in
      let at38 : 38 ≡ length (head_of t n) + 0 = omega (arith, h.random_len) in
      let sid : get_elem? hello 38 ≡ some (length t.session_id) =
        ap (get_elem? hello) at38
        ∙ get_elem?-behind (head_of t n) (length t.session_id ∷ (t.session_id ++ behind)) 0 in
      let shape : hello ≡ up_to ++ behind =
        sym (append_assoc (head_of t n) (length t.session_id ∷ t.session_id) behind) in
      let far : 38 + (1 + length t.session_id) ≡ length up_to =
        omega
          (arith, h.random_len, length-append (head_of t n) (length t.session_id ∷ t.session_id)) in
      let inside : leb (38 + (1 + length t.session_id)) (length hello) ≡ true =
        ground (arith, ap length shape, length-append up_to behind) in
      let tail : drop (38 + (1 + length t.session_id)) hello ≡ behind =
        ap₂ drop far shape ∙ drop-append up_to behind in
      let sid_byte : as_u8 (length session_id) ≡ length session_id = omega arith in
      ap (λ bytes. rewrite_random_and_session_id bytes session_id random) (hello_bytes-with_head t)
      ∙ rewrite-parts hello session_id random (length (body t)) (length t.session_id)
          (ap server_hello_body_len (sym (hello_bytes-with_head t))
            ∙ server_hello_body_len-hello small)
          sid inside
      ∙ ap₂
          (λ (l : ℕ) (bytes : Bytes).
            ok (with_body_len (take 6 hello ++ random 32 ++ l ∷ (session_id ++ bytes))))
          sid_byte tail
      ∙ ap ok (
          with_body_len-message (as_u8 (n / 65536)) (as_u8 (n / 256)) (as_u8 n)
            (body (filled t (random 32) session_id t.key)))

-- The key is written over the one that stands there, which leaves the length of the message.
write_at-template :
    (t : Template) (key : Bytes)
    → IsTemplate t
    → length key ≡ length t.key
    → write_at (hello_bytes t) (length (pre t (length (body t) % 2 ^ 32))) (length t.key) key
      ≡ ok (hello_bytes (record t { key = key }))
write_at-template t key h same =
    let t' : Template = record t { key = key } in
    let h' = filled-IsTemplate t t.random t.session_id key h h.random_len same in
    let n = length (body t) % 2 ^ 32 in
    let (_, _, shape) = with_head-at t h n in
    let (_, _, shape') = with_head-at t' h' n in
    let len : length (body t) ≡ length (body t') = omega (arith, length-body t, length-body t') in
    let same_pre : pre t' n ≡ pre t n =
      ap
        (λ (k : ℕ).
          up_to_key (head_of t n) t.session_id t.suite t.compression t.ext_total t.front t.len
            t.group k)
        same in
    write_at-middle (hello_bytes t) (pre t n) t.key t.rest key (hello_bytes-with_head t ∙ shape)
      same
    ∙ ap ok (
        ap (λ bytes. bytes ++ (key ++ t.rest)) (sym same_pre)
        ∙ sym shape'
        ∙ ap (λ m. with_head t' (m % 2 ^ 32)) len
        ∙ sym (hello_bytes-with_head t'))

-- From a template that is laid out as a ServerHello with a key share, for a client that offers
-- TLS 1.3, the cipher suite of the template and its group, with a session id of 32 bytes at most
-- and a key as long as that of the template, exactly the template is made with the random bytes,
-- the session id of the client and the key of the server in their places and the length set right.
pub synthesize_server_hello-template :
    (t : Template) (client : ClientHello) (server_keyshare : Bytes) (random : ℕ → Bytes)
    (suite : CipherSuite)
    → IsTemplate t
    → length (body t) < 2 ^ 24
    → from_u16 t.suite ≡ some suite
    → client.offers_tls13 ≡ true
    → length client.session_id ≤ 32
    → cipher_offered client t.suite ≡ true
    → keyshare_group_offered client t.group ≡ true
    → length server_keyshare ≡ length t.key
    → length (random 32) ≡ 32
    → synthesize_server_hello (hello_bytes t) client server_keyshare random
      ≡ ok (record {
        message = hello_bytes (filled t (random 32) client.session_id server_keyshare);
        suite = suite;
        key_share_group = t.group;
      })
unfolding synthesize_server_hello cipher_offered handshake_message keyshare_group_offered
synthesize_server_hello-template t client server_keyshare random suite h small suite_known tls13
      short cipher group same thirty_two =
    let t' : Template = filled t (random 32) client.session_id t.key in
    let h' = filled-IsTemplate t (random 32) client.session_id t.key h thirty_two refl in
    let n = length (body t) % 2 ^ 32 in
    let n' = length (body t') % 2 ^ 32 in
    let suite_read : server_hello_cipher_suite (hello_bytes t) ≡ some t.suite =
      ap server_hello_cipher_suite (hello_bytes-with_head t) ∙ (with_head-at t h n).0 in
    let found_old : find_server_keyshare (hello_bytes t)
        ≡ found t.group (length (pre t n)) (length t.key) =
      ap find_server_keyshare (hello_bytes-with_head t) ∙ (with_head-at t h n).1 in
    let found_new : find_server_keyshare (hello_bytes t')
        ≡ found t.group (length (pre t' n')) (length t.key) =
      ap find_server_keyshare (hello_bytes-with_head t') ∙ (with_head-at t' h' n').1 in
    let short_id : leb (length client.session_id) 32 ≡ true = ground arith in
    let lengths : (length t.key == length server_keyshare) ≡ true = ground arith in
    rw
      (
        validate-template t h small,
        tls13,
        short_id,
        suite_read,
        suite_known,
        cipher,
        found_old,
        group,
        lengths,
        rewrite-template t h client.session_id random small short,
        found_new,
        write_at-template t' server_keyshare h' same,
      )
      refl
