-- ===== src/Tls/Flight/Template.antt =====
-- src/tls/tls13/flight.rs: what a template of a ServerHello is, and what the searches find in it.
use rust_xhttp.Common.{
  ℕ, ◌+◌, ◌/◌, ◌%◌, ◌^◌, ◌≤◌, ◌≡◌, refl, ap, ◌∙◌, List, [], ◌∷◌, ◌++◌, some, Bytes, length, take,
  drop, All, arith, IsU16, u16_be, length-append, as_u8,
}
use rust_xhttp.Tls.Messages.{handshake_message, server_hello_cipher_suite}
use rust_xhttp.Tls.Messages.KeyShare.{found, find_server_keyshare}
use rust_xhttp.Tls.Messages.Layout.{
  others, others_len, IsOther, share, server_hello, others-append, slice_at,
}
use rust_xhttp.Tls.Messages.Found.{up_to_key, find_server_keyshare-at}
use rust_xhttp.Tls.Flight.{hs_server_hello}

-- The parts of a ServerHello with a key share.
pub record Template : Type 0 where
  pub version_hi : ℕ
  pub version_lo : ℕ
  pub random : Bytes
  pub session_id : Bytes
  pub suite : ℕ
  pub compression : ℕ
  pub ext_total : ℕ
  -- the extensions in front of the key share
  pub front : List (ℕ × Bytes)
  -- the length field of the key share, its group and its key
  pub len : ℕ
  pub group : ℕ
  pub key : Bytes
  -- what follows
  pub rest : Bytes

abbrev pub behind_session_id : Template → Bytes
behind_session_id t =
    u16_be t.suite
      (t.compression ∷ u16_be t.ext_total (others t.front (share t.len t.group t.key t.rest)))

abbrev pub body : Template → Bytes
body t =
    t.version_hi
    ∷ t.version_lo
    ∷ (t.random ++ (length t.session_id ∷ (t.session_id ++ behind_session_id t)))

abbrev pub hello_bytes : Template → Bytes
hello_bytes t = handshake_message hs_server_hello (body t)

-- The fields fit into their lengths.
pub record IsTemplate (t : Template) : Type 0 where
  pub random_len : length t.random ≡ 32
  pub suite_fits : IsU16 t.suite
  pub ext_total_fits : IsU16 t.ext_total
  pub front_fits : All IsOther t.front
  pub len_fits : IsU16 t.len
  pub group_fits : IsU16 t.group
  pub key_fits : IsU16 (length t.key)
  pub extensions_hold : others_len t.front + 8 + length t.key ≤ t.ext_total

-- The template with the fields of one handshake.
abbrev pub filled : Template → Bytes → Bytes → Bytes → Template
filled t random session_id key = record t { random = random; session_id = session_id; key = key }

-- The first 38 bytes, with a length of the body.
abbrev pub head_of : Template → ℕ → Bytes
head_of t n =
    hs_server_hello
    ∷ as_u8 (n / 65536)
    ∷ as_u8 (n / 256)
    ∷ as_u8 n
    ∷ t.version_hi
    ∷ t.version_lo
    ∷ t.random

abbrev pub with_head : Template → ℕ → Bytes
with_head t n =
    server_hello (head_of t n) t.session_id t.suite t.compression t.ext_total t.front t.len t.group
      t.key t.rest

pub hello_bytes-with_head : (t : Template) → hello_bytes t ≡ with_head t (length (body t) % 2 ^ 32)
unfolding handshake_message
hello_bytes-with_head t = refl

pub length-body :
    (t : Template)
    → length (body t)
      ≡ 16
        + length t.random
        + length t.session_id
        + others_len t.front
        + length t.key
        + length t.rest
length-body t =
    let (shape, front_len) = others-append t.front (share t.len t.group t.key t.rest) in
    omega (
      arith,
      length-append t.random (length t.session_id ∷ (t.session_id ++ behind_session_id t)),
      length-append t.session_id (behind_session_id t),
      ap length shape,
      front_len,
      length-append (others t.front []) (share t.len t.group t.key t.rest),
      length-append t.key t.rest,
    )

-- What stands in front of the key.
abbrev pub pre : Template → ℕ → Bytes
pre t n =
    up_to_key (head_of t n) t.session_id t.suite t.compression t.ext_total t.front t.len t.group
      (length t.key)

module _ (t : Template) (h : IsTemplate t) where
  pub with_head-at :
      (n : ℕ)
      → (server_hello_cipher_suite (with_head t n) ≡ some t.suite)
        × (find_server_keyshare (with_head t n) ≡ found t.group (length (pre t n)) (length t.key))
        × (with_head t n ≡ pre t n ++ (t.key ++ t.rest))
  with_head-at n =
      find_server_keyshare-at (head_of t n) t.session_id t.suite t.compression t.ext_total t.front
        t.len t.group t.key t.rest (omega (arith, h.random_len)) h.suite_fits h.ext_total_fits
        h.front_fits h.len_fits h.group_fits h.key_fits h.extensions_hold

-- A template with the fields of a handshake, whose lengths are the same, is laid out as it was.
pub filled-IsTemplate :
    (t : Template) (random session_id key : Bytes)
    → IsTemplate t
    → length random ≡ 32
    → length key ≡ length t.key
    → IsTemplate (filled t random session_id key)
filled-IsTemplate t random session_id key h thirty_two same = record {
  random_len = thirty_two;
  suite_fits = h.suite_fits;
  ext_total_fits = h.ext_total_fits;
  front_fits = h.front_fits;
  len_fits = h.len_fits;
  group_fits = h.group_fits;
  key_fits = omega (arith, h.key_fits);
  extensions_hold = omega (arith, h.extensions_hold);
}

-- What a client finds in a message that is laid out like that.
pub hello_bytes-found :
    (t : Template)
    → IsTemplate t
    → (server_hello_cipher_suite (hello_bytes t) ≡ some t.suite)
      × ((offset : ℕ) × (find_server_keyshare (hello_bytes t) ≡ found t.group offset (length t.key))
          × (take (length t.key) (drop offset (hello_bytes t)) ≡ t.key))
hello_bytes-found t h =
    let n = length (body t) % 2 ^ 32 in
    let same = hello_bytes-with_head t in
    let (suite_read, at, shape) = with_head-at t h n in
    (
      ap server_hello_cipher_suite same ∙ suite_read,
      (
        length (pre t n),
        ap find_server_keyshare same ∙ at,
        slice_at (hello_bytes t) (pre t n) t.key t.rest (length (pre t n)) (same ∙ shape) refl,
      ),
    )
