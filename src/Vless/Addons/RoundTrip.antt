-- ===== src/Vless/Addons/RoundTrip.antt =====
-- src/vless/addons.rs: the decoder on what the encoder wrote.
use rust_xhttp.Common.{
  ℕ, suc, ◌+◌, ◌^◌, ◌<◌, ◌≡◌, refl, ap, subst, ◌∙◌, true, [], ◌∷◌, ◌++◌, Option, some, Bytes,
  length, arith, length-append, drop, take-append, drop-append, drop-add, get_or-append, ok,
  bytes_eq, append-nil, append_assoc,
}
use rust_xhttp.Common.Utf8.{is_utf8}
use rust_xhttp.Vless.Addons.{
  Addons, read_varint, write_varint, next, returns, take_field, store_field, decode_round, dispatch,
  decode_loop, decode_addons_body, default, message, seed_field, encode_addons, xrv,
}
use rust_xhttp.Vless.Addons.Loop.{loop-next, loop-end}
use rust_xhttp.Vless.Addons.Varint.{read_varint-write_varint}

-- A length-delimited field `s` under the tag `tag`, behind `front` and before `rest`.
module _ (front : Bytes) (tag : ℕ) (s rest : Bytes) where
  abbrev framed : Bytes
  framed = front ++ tag ∷ (write_varint (length s) ++ (s ++ rest))

  -- The index behind the field.
  abbrev past : ℕ
  past = length front + 1 + length (write_varint (length s)) + length s

  -- What `read_varint` gives behind the tag.
  abbrev length_read : Option (ℕ × ℕ)
  length_read = some (length s, length (write_varint (length s)))

  drop_tag : drop (length front + 1) framed ≡ write_varint (length s) ++ (s ++ rest)
  drop_tag = rw (drop-add, drop-append front)

  drop_varint : drop (length front + 1 + length (write_varint (length s))) framed ≡ s ++ rest
  drop_varint = rw drop-add (rw drop_tag (drop-append (write_varint (length s)) (s ++ rest)))

  length-framed : length framed ≡ past + length rest
  length-framed = omega (
    arith,
    length-append front (tag ∷ (write_varint (length s) ++ (s ++ rest))),
    length-append (write_varint (length s)) (s ++ rest),
    length-append s rest,
  )

  read-framed : length framed < 2 ^ 64 → read_varint (drop (length front + 1) framed) ≡ length_read
  read-framed h =
      rw drop_tag (read_varint-write_varint (length s) (s ++ rest) (omega (arith, length-framed)))

  take_field-framed :
      (field : ℕ) (addons : Addons)
      → length framed < 2 ^ 64
      → take_field length_read field framed (length front + 1) addons
        ≡ store_field field s past addons
  unfolding take_field
  take_field-framed field addons h = ground (arith, length-framed, drop_varint, take-append s rest)

  -- The round at a Flow field stores it, and so does the one at a Seed field.
  round-flow :
      (addons : Addons)
      → tag ≡ 0x0a
      → is_utf8 s ≡ true
      → length framed < 2 ^ 64
      → decode_round framed (length front) addons ≡ next past (record addons { flow = s })
  unfolding decode_round
  round-flow addons e u h =
      rw (read-framed h, get_or-append front tag)
        (ap (λ t. dispatch t length_read framed (length front + 1) addons) e
          ∙ unfold dispatch in take_field-framed 1 addons h ∙ unfold store_field in rw u)

  round-seed :
      (addons : Addons)
      → tag ≡ 0x12
      → length framed < 2 ^ 64
      → decode_round framed (length front) addons ≡ next past (record addons { seed = s })
  unfolding decode_round
  round-seed addons e h =
      rw (read-framed h, get_or-append front tag)
        (ap (λ t. dispatch t length_read framed (length front + 1) addons) e
          ∙ unfold dispatch in take_field-framed 2 addons h ∙ unfold store_field in refl)

-- The message seen from its second field.
second_field :
    (flow seed : Bytes) (s : ℕ)
    → framed [] 0x0a flow (0x12 ∷ (write_varint (length (s ∷ seed)) ++ (s ∷ seed)))
      ≡ framed (0x0a ∷ (write_varint (length flow) ++ flow)) 0x12 (s ∷ seed) []
second_field flow seed s = rw (append-nil, append_assoc)

decode_seed :
    (fuel : ℕ) (flow seed : Bytes) (front : Bytes) (s : ℕ)
    → length (framed front 0x12 (s ∷ seed) []) < 2 ^ 64
    → decode_loop
        (suc (suc fuel))
        (framed front 0x12 (s ∷ seed) [])
        (length front)
        (record { flow = flow; seed = [] })
      ≡ returns (ok (record { flow = flow; seed = s ∷ seed }))
decode_seed fuel flow seed front s h =
    loop-next (suc fuel) (framed front 0x12 (s ∷ seed) []) (length front)
      (record { flow = flow; seed = [] }) (past front 0x12 (s ∷ seed) [])
      (record { flow = flow; seed = s ∷ seed })
      (omega (arith, length-framed front 0x12 (s ∷ seed) []))
      (round-seed front 0x12 (s ∷ seed) [] (record { flow = flow; seed = [] }) refl h)
    ∙ loop-end fuel _ _ _ (omega (arith, length-framed front 0x12 (s ∷ seed) []))

decode-message :
    (fuel : ℕ) (flow seed : Bytes)
    → is_utf8 flow ≡ true
    → length (message (record { flow = flow; seed = seed })) < 2 ^ 64
    → decode_addons_body (suc (suc (suc fuel))) (message (record { flow = flow; seed = seed }))
      ≡ returns (ok (record { flow = flow; seed = seed }))
unfolding message seed_field decode_addons_body
decode-message fuel flow [] u h =
    loop-next (suc (suc fuel)) (framed [] 0x0a flow []) 0 default (past [] 0x0a flow [])
      (record { flow = flow; seed = [] }) (omega (arith, length-framed [] 0x0a flow []))
      (round-flow [] 0x0a flow [] default refl u h)
    ∙ loop-end (suc fuel) _ _ _ (omega (arith, length-framed [] 0x0a flow []))
decode-message fuel flow (s ∷ seed) u h =
    let front : Bytes = 0x0a ∷ (write_varint (length flow) ++ flow) in
    let behind : past [] 0x0a flow second ≡ length front =
      omega (arith, length-append (write_varint (length flow)) flow) in
    loop-next (suc (suc fuel)) (framed [] 0x0a flow second) 0 default (past [] 0x0a flow second)
      half (omega (arith, length-framed [] 0x0a flow second))
      (round-flow [] 0x0a flow second default refl u h)
    ∙ ap (λ i. decode_loop (suc (suc fuel)) (framed [] 0x0a flow second) i half) behind
    ∙ ap (λ b. decode_loop (suc (suc fuel)) b (length front) half) (second_field flow seed s)
    ∙ decode_seed fuel flow seed front s
        (subst (λ b. length b < 2 ^ 64) (second_field flow seed s) h)
  where
    second : Bytes
    second = 0x12 ∷ (write_varint (length (s ∷ seed)) ++ (s ∷ seed))

    half : Addons
    half = record { flow = flow; seed = [] }

encode-eq-ok :
    (addons : Addons) (out : Bytes)
    → bytes_eq addons.flow xrv ≡ true
    → encode_addons addons ≡ ok out
    → (out ≡ length (message addons) ∷ message addons) × (length (message addons) < 256)
unfolding encode_addons
encode-eq-ok addons out v e = ground arith

xrv-is_utf8 : is_utf8 xrv ≡ true
unfolding is_utf8
xrv-is_utf8 = refl

-- The decoder, given at least three rounds, returns the addons that the encoder was given, if their
-- flow is the Vision flow and the encoder did not refuse the message as too long; the body stands
-- behind one length byte, which holds its length.
pub decode-encode :
    (fuel : ℕ) (seed out : Bytes)
    → encode_addons (record { flow = xrv; seed = seed }) ≡ ok out
    → (body : Bytes) × (out ≡ length body ∷ body)
      × (length body < 256)
      × (decode_addons_body (fuel + 3) body ≡ returns (ok (record { flow = xrv; seed = seed })))
decode-encode fuel seed out e =
    let addons : Addons = record { flow = xrv; seed = seed } in
    let (shape, fits) = encode-eq-ok addons out refl e in
    let three : fuel + 3 ≡ suc (suc (suc fuel)) = omega arith in
    (message addons, shape, fits, rw three (decode-message fuel xrv seed xrv-is_utf8 (omega arith)))
