-- ===== src/Consensus/FastPath.antt =====
-- The reading of attester and slot at fixed offsets (pkg/utils/topics.go) against the decoding of
-- the whole attestation (pkg/protocol/consensus/codec.go).
use optimum_gateway.Base.{
  ℕ, ◌≤◌, ◌≡◌, refl, ap, false, ◌∙◌, arith, Result, ok, err, length, le→leb, slice, slice-slice,
  Bool-cases, inl, inr, length-slice, ◌==◌, ==_iff,
}
use optimum_gateway.Base.Wire.{Bytes, le_value}
use optimum_gateway.Utils.Snappy.{
  Snappy, SnappyError, decode_snappy, decode_snappy_sound, decode_snappy_complete,
  max_gossip_payload_size,
}
use optimum_gateway.Utils.AttestationFields.{parse_attestation}
use optimum_gateway.Consensus.Types.{bad_length}
use optimum_gateway.Consensus.Attestation.{
  SingleAttestation, data_fields, unmarshal_data, unmarshal_single,
}
use optimum_gateway.Consensus.Codec.{max_compressed_len, decode_gossip}
use optimum_gateway.Consensus.Codec.Instances.{single_ssz}

abbrev whole : Bytes → SingleAttestation
whole raw = record {
  committee_index = le_value (slice 0 8 raw);
  attester_index = le_value (slice 8 16 raw);
  content = data_fields (slice 16 144 raw);
  signature = slice 144 240 raw;
}

unmarshal_single-whole : (raw : Bytes) → length raw ≡ 240 → unmarshal_single raw ≡ ok (whole raw)
unfolding unmarshal_single unmarshal_data
unmarshal_single-whole raw l =
    let inner : length (slice 16 144 raw) ≡ 128 = omega (arith, length-slice 16 144 raw) in
    rw (l, inner)

unmarshal_single-short :
    (raw : Bytes)
    → (length raw == 240) ≡ false
    → unmarshal_single raw ≡ err (bad_length 240 (length raw))
unfolding unmarshal_single
unmarshal_single-short raw e = rw e

whole-slot : (raw : Bytes) → (whole raw).content.slot ≡ le_value (slice 16 24 raw)
unfolding data_fields
whole-slot raw = ap le_value (slice-slice 8 16 144 raw (omega arith))

-- What the decoder makes of its 240 bytes.
unmarshal_single-inv :
    (raw : Bytes) (s : SingleAttestation)
    → unmarshal_single raw ≡ ok s
    → (length raw ≡ 240) × (s ≡ whole raw)
unmarshal_single-inv raw s h = elim (Bool-cases (length raw == 240)) [
  | inl e ↦ let l : length raw ≡ 240 = (==_iff _ _).0 e in (l, cc (unmarshal_single-whole raw l))
  | inr e ↦ absurd (cc (unmarshal_single-short raw e))
]

module _ (z : Snappy) (b : Bytes) where
  decode_gossip-inv :
      (s : SingleAttestation)
      → decode_gossip z single_ssz b ≡ ok s
      → (raw : Bytes) × (decode_snappy z b max_gossip_payload_size ≡ ok raw)
        × (unmarshal_single raw ≡ ok s)
  unfolding decode_gossip
  decode_gossip-inv s h = parts (decode_snappy z b max_gossip_payload_size) refl
    where
      parts :
          (r : Result SnappyError Bytes)
          → decode_snappy z b max_gossip_payload_size ≡ r
          → (raw : Bytes) × (decode_snappy z b max_gossip_payload_size ≡ ok raw)
            × (unmarshal_single raw ≡ ok s)
      parts (ok raw) e = (raw, e, ground arith)
      parts (err x) e = absurd (ground arith)

  parse_attestation-inv :
      (a t : ℕ)
      → parse_attestation z b ≡ ok (a, t)
      → (raw : Bytes) × (decode_snappy z b 300 ≡ ok raw)
        × (length raw ≡ 240)
        × (le_value (slice 8 16 raw) ≡ a)
        × (le_value (slice 16 24 raw) ≡ t)
  unfolding parse_attestation
  parse_attestation-inv a t h = parts (decode_snappy z b 300) refl
    where
      parts :
          (r : Result SnappyError Bytes)
          → decode_snappy z b 300 ≡ r
          → (raw : Bytes) × (decode_snappy z b 300 ≡ ok raw)
            × (length raw ≡ 240)
            × (le_value (slice 8 16 raw) ≡ a)
            × (le_value (slice 16 24 raw) ≡ t)
      parts (ok raw) e = (raw, e, ground arith, ground arith, ground arith)
      parts (err x) e = absurd (ground arith)

  decode_gossip-whole :
      (raw : Bytes)
      → decode_snappy z b max_gossip_payload_size ≡ ok raw
      → length raw ≡ 240
      → length b ≤ max_compressed_len max_gossip_payload_size
      → decode_gossip z single_ssz b ≡ ok (whole raw)
  unfolding decode_gossip
  decode_gossip-whole raw d l short = rw (
    le→leb (length b) (max_compressed_len max_gossip_payload_size) short,
    d,
    unmarshal_single-whole raw l,
  )

  -- Whatever the full decoder accepts, the fast reader accepts too, with that attestation's
  -- attester index and slot.
  pub parse_attestation-decode_gossip :
      (s : SingleAttestation)
      → decode_gossip z single_ssz b ≡ ok s
      → parse_attestation z b ≡ ok (s.attester_index, s.content.slot)
  unfolding parse_attestation
  parse_attestation-decode_gossip s h =
      let (raw, d, u) = decode_gossip-inv s h in
      let (l, e) = unmarshal_single-inv raw s u in
      let (found, _) = decode_snappy_sound z b raw max_gossip_payload_size d in
      rw (e, whole-slot raw) (rw (decode_snappy_complete z b raw 300 found (omega arith)) (rw l))

  -- Conversely, what the fast reader accepts within the compressed limit is a whole attestation,
  -- and the reader's answer is its attester index and slot.
  pub decode_gossip-parse_attestation :
      (a t : ℕ)
      → length b ≤ max_compressed_len max_gossip_payload_size
      → parse_attestation z b ≡ ok (a, t)
      → (s : SingleAttestation) × (decode_gossip z single_ssz b ≡ ok s)
        × (s.attester_index ≡ a)
        × (s.content.slot ≡ t)
  decode_gossip-parse_attestation a t short h =
      let (raw, d, l, ea, et) = parse_attestation-inv a t h in
      let (found, _) = decode_snappy_sound z b raw 300 d in
      (
        whole raw,
        decode_gossip-whole raw
            (decode_snappy_complete z b raw max_gossip_payload_size found (omega arith)) l short,
        ea,
        whole-slot raw ∙ et,
      )
