-- ===== src/Consensus/Codec/Bounds.antt =====
-- What the gossip decoder accepts, and that its raw form agrees with it.
use optimum_gateway.Base.{◌≤◌, ◌≡◌, ◌↔◌, arith, ok, ◌>>=◌, length, some}
use optimum_gateway.Base.Wire.{Bytes}
use optimum_gateway.Utils.Snappy.{
  Snappy, decode_snappy, decode_snappy_sound, decode_snappy_complete, max_gossip_payload_size,
}
use optimum_gateway.Consensus.Codec.{
  Ssz, from_ssz, max_compressed_len, decode_gossip_raw, decode_gossip,
}

module _ (z : Snappy) where
  -- The raw decoder accepts a payload exactly when it is within the compressed limit, the snappy
  -- library decodes it, and the result is within the gossip limit; it then returns that result.
  decode_gossip_raw_iff :
      (b raw : Bytes)
      → (decode_gossip_raw z b ≡ ok raw) ↔ (
          (length b ≤ max_compressed_len max_gossip_payload_size)
          × (z.decode b ≡ some raw)
          × (length raw ≤ max_gossip_payload_size))
  unfolding decode_gossip_raw
  decode_gossip_raw_iff b raw = (
    λ h.
        let d : decode_snappy z b max_gossip_payload_size ≡ ok raw = ground arith in
        let (found, short) = decode_snappy_sound z b raw max_gossip_payload_size d in
        (ground arith, found, short),
    λ h. ground (arith, decode_snappy_complete z b raw max_gossip_payload_size h.1 h.2),
  )

  -- Decoding is raw decoding followed by unmarshaling, errors included.
  pub decode_gossip-raw :
      {A : Type 0} (s : Ssz A) (b : Bytes)
      → decode_gossip z s b ≡ (decode_gossip_raw z b >>= λ raw. from_ssz (s.unmarshal raw))
  unfolding decode_gossip_raw decode_gossip
  decode_gossip-raw s b = ground arith
