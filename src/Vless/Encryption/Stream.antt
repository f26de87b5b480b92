-- ===== src/Vless/Encryption/Stream.antt =====
-- src/vless/encryption/stream.rs: the reader over records, over what the polls of the inner reader
-- give. The ciphers and the keystream are parameters.
use rust_xhttp.Common.{
  ℕ, zero, suc, ◌+◌, min, Bool, true, false, not, ◌&&◌, if◌then◌else◌, ◌==◌, leb, List, [], ◌∷◌,
  ◌++◌, Option, none, some, Bytes, length, take, drop, Result, ok, err,
}
use rust_xhttp.Vless.Vision.Reader.{Arrival, Filled, filled, pending, failed, poll_inner}
use rust_xhttp.Vless.Encryption.Record.{Aead, AeadState, RecordError, decode_header, open_record}
use rust_xhttp.Vless.Encryption.Xor.{HeaderXor, Applied, apply}

pub record EncryptedReader : Type 0 where
  pub inner : List Arrival
  pub cipher : AeadState
  pub xor : Option HeaderXor
  pub encrypted : Bytes
  pub plaintext : Bytes
  pub expected : Option ℕ

unfoldable pub new_reader : List Arrival → AeadState → Option HeaderXor → EncryptedReader
new_reader inner cipher xor = record {
  inner = inner;
  cipher = cipher;
  xor = xor;
  encrypted = [];
  plaintext = [];
  expected = none;
}

pub data StreamError : Type 0 where
  invalid_data : RecordError → StreamError
  inner_failed record_truncated : StreamError

pub data Round : Type 0 where
  returns : Bytes → Round
  waits continues : Round
  fails : StreamError → Round

module _ (mask : ℕ → ℕ → ℕ) (a : Aead) where
  abbrev pub unmasked : EncryptedReader → Applied → EncryptedReader × Round
  unmasked r (x, bytes, ok u) =
      (record r { xor = some x; encrypted = r.encrypted ++ bytes }, continues)
  unmasked r (x, bytes, err e) = (record r { xor = some x }, fails (invalid_data e))

  abbrev pub append_bytes : EncryptedReader → Option HeaderXor → Bytes → EncryptedReader × Round
  append_bytes r none bytes = (record r { encrypted = r.encrypted ++ bytes }, continues)
  append_bytes r (some x) bytes = unmasked r (apply mask x bytes)

  -- What the poll of the inner reader found.
  unfoldable pub fill : EncryptedReader → Filled → EncryptedReader × Round
  fill r pending = (r, waits)
  fill r failed = (r, fails inner_failed)
  fill r (filled []) =
      if length r.encrypted == 0 then (r, returns []) else (r, fails record_truncated)
  fill r (filled (b ∷ bytes)) = append_bytes r r.xor (b ∷ bytes)

  -- A record that has been taken out of the buffer.
  abbrev pub with_plaintext :
      EncryptedReader → AeadState × Result RecordError Bytes → EncryptedReader × Round
  with_plaintext r (cipher, ok plaintext) =
      (record r { cipher = cipher; plaintext = plaintext; expected = none }, continues)
  with_plaintext r (cipher, err e) = (record r { cipher = cipher }, fails (invalid_data e))

  unfoldable pub poll_more : EncryptedReader → EncryptedReader × Round
  unfolding fill
  poll_more r = let (f, inner) = poll_inner 8192 r.inner in fill (record r { inner = inner }) f

  unfoldable pub on_expected : EncryptedReader → Option ℕ → EncryptedReader × Round
  unfolding poll_more
  on_expected r none = poll_more r
  on_expected r (some len) =
      let bytes = take (5 + len) r.encrypted in
      if leb (5 + len) (length r.encrypted)
      then with_plaintext (record r { encrypted = drop (5 + len) r.encrypted })
          (open_record a r.cipher (take 5 bytes) (drop 5 bytes))
      else poll_more r

  abbrev pub on_header : EncryptedReader → Result RecordError ℕ → EncryptedReader × Round
  on_header r (err e) = (r, fails (invalid_data e))
  on_header r (ok len) = on_expected (record r { expected = some len }) (some len)

  abbrev pub is_none : Option ℕ → Bool
  is_none none = true
  is_none (some n) = false

  -- One round of the loop, with room for `remaining` bytes in the output.
  unfoldable pub round : EncryptedReader → ℕ → EncryptedReader × Round
  unfolding on_expected
  round r remaining =
      let n = min (length r.plaintext) remaining in
      if not (length r.plaintext == 0)
      then (record r { plaintext = drop n r.plaintext }, returns (take n r.plaintext))
      else if is_none r.expected && leb 5 (length r.encrypted)
      then on_header r (decode_header (take 5 r.encrypted))
      else on_expected r r.expected

  abbrev pub after_round :
      EncryptedReader × Round
      → (EncryptedReader → EncryptedReader × Round)
      → EncryptedReader × Round
  after_round (r, returns bytes) again = (r, returns bytes)
  after_round (r, waits) again = (r, waits)
  after_round (r, fails e) again = (r, fails e)
  after_round (r, continues) again = again r

  -- The loop; `continues` says that the rounds have run out.
  unfoldable pub poll_read : ℕ → EncryptedReader → ℕ → EncryptedReader × Round
  unfolding round
  poll_read zero r remaining = (r, continues)
  poll_read (suc rounds) r remaining =
      after_round (round r remaining) (λ r'. poll_read rounds r' remaining)
