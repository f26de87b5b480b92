-- ===== src/Vless/Encryption/Xor.antt =====
-- src/vless/encryption/xor.rs: the masking of record headers. The AES-CTR cipher, which is
-- third-party, is a parameter: `mask i b` is the byte `b` under byte `i` of the keystream. A state has
-- the number of keystream bytes used in place of the cipher. The loop has as many rounds as there
-- are bytes, and each round takes one at least.
pub mod Bytewise
pub mod Fragments
pub mod RoundTrip
use rust_xhttp.Common.{
  ℕ, zero, suc, ◌+◌, ◌-◌, min, Bool, true, false, if◌then◌else◌, ◌==◌, List, [], ◌∷◌, ◌++◌, Bytes,
  length, take, drop, Result, ok, err,
}
use rust_xhttp.Vless.Encryption.Record.{RecordError, decode_header}

pub record HeaderXor : Type 0 where
  pub used : ℕ
  pub skip : ℕ
  pub header : Bytes
  pub decrypt : Bool

unfoldable pub new_xor : ℕ → Bool → HeaderXor
new_xor skip decrypt = record { used = 0; skip = skip; header = []; decrypt = decrypt }

unfoldable pub outbound : ℕ → HeaderXor
unfolding new_xor
outbound skip = new_xor skip false

unfoldable pub inbound : ℕ → HeaderXor
unfolding new_xor
inbound skip = new_xor skip true

-- The state, the bytes in place of those given, and the result.
abbrev pub Applied : Type 0
Applied = HeaderXor × Bytes × Result RecordError (Unit {0})

abbrev pub behind : Bytes → Applied → Applied
behind front (x, bytes, r) = (x, front ++ bytes, r)

module _ (mask : ℕ → ℕ → ℕ) where
  -- `apply_keystream`
  abbrev pub apply_keystream : ℕ → Bytes → Bytes
  apply_keystream i [] = []
  apply_keystream i (b ∷ bytes) = mask i b ∷ apply_keystream (i + 1) bytes

  -- The end of a round: a header that is complete is decoded.
  unfoldable pub on_header :
      HeaderXor → Result RecordError ℕ → Bytes → (HeaderXor → Applied) → Applied
  on_header x (err e) rest next = (x, rest, err e)
  on_header x (ok len) rest next = next (record x { skip = len; header = [] })

  unfoldable pub check_header : HeaderXor → Bytes → (HeaderXor → Applied) → Applied
  check_header x rest next =
      if length x.header == 5 then on_header x (decode_header x.header) rest next else next x

  -- The rest of a round, behind the bytes that are skipped.
  unfoldable pub apply_header : HeaderXor → Bytes → (HeaderXor → Bytes → Applied) → Applied
  apply_header x [] next = (x, [], ok tt)
  apply_header x (b ∷ bytes) next =
      let rest = b ∷ bytes in
      let n = min (5 - length x.header) (length rest) in
      let out = apply_keystream x.used (take n rest) in
      let x' = record x {
        used = x.used + n;
        header = x.header ++ (if x.decrypt then out else take n rest);
      } in
      behind out (check_header x' (drop n rest) (λ y. next y (drop n rest)))

  unfoldable pub apply_rounds : ℕ → HeaderXor → Bytes → Applied
  apply_rounds zero x bytes = (x, bytes, ok tt)
  apply_rounds (suc fuel) x [] = (x, [], ok tt)
  apply_rounds (suc fuel) x (b ∷ bytes) =
      let rest = b ∷ bytes in
      let skipped = min x.skip (length rest) in
      behind (take skipped rest) (
        apply_header (record x { skip = x.skip - skipped }) (drop skipped rest) (apply_rounds fuel))

  -- `HeaderXor::apply`
  unfoldable pub apply : HeaderXor → Bytes → Applied
  apply x bytes = apply_rounds (length bytes) x bytes
