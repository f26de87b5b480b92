-- ===== src/Examples/Tls.antt =====
-- Runs of src/tls/client_hello.rs and src/tls/tls13/messages.rs.
use rust_xhttp.Common.{
  ℕ, ◌≡◌, refl, true, false, List, [], ◌∷◌, ◌++◌, none, some, Bytes, ok, err, arith, replicate,
  take, drop,
}
use rust_xhttp.Common.Utf8.{is_utf8}
use rust_xhttp.Tls.Messages.{server_hello_cipher_suite}
use rust_xhttp.Tls.Messages.KeyShare.{found, panics, find_server_keyshare, find_from}
use rust_xhttp.Tls.Messages.Layout.{server_hello}
use rust_xhttp.Tls.Messages.Found.{find_server_keyshare-share}
use rust_xhttp.Tls.ClientHello.Message.{parse_message, is_grease, keyshare_group_offered}
use rust_xhttp.Tls.ClientHello.RecordBuffer.{
  new_buffer, append_record, append_body, try_message, not_handshake_record,
  trailing_handshake_bytes,
}
use rust_xhttp.Tls.ClientHello.Reassembly.{Part, append_all, append_all-message}
use rust_xhttp.Tls.ClientHello.Offer.{
  host, versions, schemes, protocols, shares, other, Offer, message, hello_of,
}
use rust_xhttp.Tls.ClientHello.RoundTrip.{parse_message-hello_of}

abbrev offer : Offer
offer = record {
  version = 0x0303;
  random = replicate 32 7;
  session_id = 9 ∷ 9 ∷ [];
  cipher_suites = 0x1301 ∷ 0x1302 ∷ [];
  compression = 0 ∷ [];
  extensions =
      host (b'x' ∷ b'.' ∷ b't' ∷ [])
      ∷ versions (0x0a0a ∷ 0x0304 ∷ [])
      ∷ protocols ((b'h' ∷ b'2' ∷ []) ∷ [])
      ∷ shares (record { group = 0x0a0a; key = 1 ∷ [] } ∷ [])
      ∷ other 0x0017 []
      ∷ schemes (0x0403 ∷ 0x0804 ∷ [])
      ∷ shares (record { group = 0x001d; key = 4 ∷ 2 ∷ [] } ∷ [])
      ∷ [];
}

parse_message-hello_of_example : parse_message (message offer) ≡ ok (hello_of offer)
parse_message-hello_of_example = parse_message-hello_of offer (record {
  random_len = refl;
  session_id_len = omega arith;
  cipher_suites_fit = (omega arith, (omega arith, tt));
  cipher_suites_len = omega arith;
  compression_len = omega arith;
  extensions_valid = (
    ((unfold is_utf8 in refl), omega arith),
    (
      (((omega arith, (omega arith, tt)), omega arith), omega arith),
      (
        (((omega arith, (unfold is_utf8 in refl)), tt), omega arith),
        (
          (((omega arith, omega arith), tt), omega arith),
          (
            ((omega arith, refl), omega arith),
            (
              ((omega arith, (omega arith, tt)), omega arith),
              ((((omega arith, omega arith), tt), omega arith), tt),
            ),
          ),
        ),
      ),
    ),
  );
  extensions_len = omega arith;
})

-- A share of a GREASE group is no offer.
grease_share : keyshare_group_offered (hello_of offer) 0x0a0a ≡ false
unfolding keyshare_group_offered is_grease
grease_share = refl

offered_share : keyshare_group_offered (hello_of offer) 0x001d ≡ true
unfolding keyshare_group_offered is_grease
offered_share = refl

abbrev part : Bytes → Part
part body = record { major = 3; minor = 1; body = body }

append_all-message_example :
    append_all
      (new_buffer 1000)
      (part (take 12 (message offer)) ∷ part [] ∷ part (drop 12 (message offer)) ∷ [])
    ≡ ok none ∷ ok none ∷ ok (some (message offer)) ∷ []
append_all-message_example =
    append_all-message 1000 (part (take 12 (message offer)) ∷ part [] ∷ [])
      (part (drop 12 (message offer)))
      (record {
        a = 0;
        b = 0;
        c = 114;
        body = drop 4 (message offer);
        shape = refl;
        len = omega arith;
      })
      (omega arith) (omega arith) (omega arith, (omega arith, tt)) (omega arith)

-- Bytes behind the message, and a record of another kind.
trailing_bytes :
    (append_record (new_buffer 1000) (22 ∷ 3 ∷ 1 ∷ 0 ∷ 5 ∷ 1 ∷ 0 ∷ 0 ∷ 0 ∷ 9 ∷ [])).1
    ≡ err trailing_handshake_bytes
unfolding append_record append_body try_message new_buffer
trailing_bytes = refl

other_record :
    (append_record (new_buffer 1000) (0x15 ∷ 3 ∷ 1 ∷ 0 ∷ 1 ∷ 1 ∷ [])).1 ≡ err not_handshake_record
unfolding append_record append_body try_message new_buffer
other_record = refl

abbrev other_extensions : List (ℕ × Bytes)
other_extensions = (0x002b, 3 ∷ 4 ∷ []) ∷ []

find_server_keyshare-share_example :
    let hello =
      server_hello
        (replicate 38 2)
        (1 ∷ 2 ∷ [])
        0x1301
        0
        16
        other_extensions
        6
        0x001d
        (9 ∷ 8 ∷ [])
        [] in
    (server_hello_cipher_suite hello ≡ some 0x1301)
    × ((offset : ℕ) × (find_server_keyshare hello ≡ found 0x001d offset 2)
        × (take 2 (drop offset hello) ≡ 9 ∷ 8 ∷ []))
find_server_keyshare-share_example =
    find_server_keyshare-share (replicate 38 2) (1 ∷ 2 ∷ []) 0x1301 0 16 other_extensions 6 0x001d
      (9 ∷ 8 ∷ []) [] refl (omega arith) (omega arith) ((omega arith, omega arith, refl), tt)
      (omega arith) (omega arith) (omega arith) (omega arith)

-- A ServerHello that ends before its extensions do.
cut_hello : find_server_keyshare (replicate 38 2 ++ 0 ∷ 0x13 ∷ 1 ∷ 0 ∷ 0 ∷ 100 ∷ 0 ∷ []) ≡ panics
unfolding find_server_keyshare find_from
cut_hello = refl
