-- ===== src/Consensus/Codec.antt =====
-- pkg/protocol/consensus/codec.go, the gossip half: SSZ inside a snappy block. The writer is
-- always a bytes.Buffer, whose Write does not fail, so an encoder returns the bytes written.
pub mod Instances
pub mod Bounds
pub mod Stream
use optimum_gateway.Base.{
  ℕ, zero, suc, ◌+◌, ◌/◌, ◌≤◌, ◌<◌, ◌≡◌, refl, ap, arith, Result, ok, err, guard, ◌>>=◌, ◌>>◌,
  length, leb, some,
}
use optimum_gateway.Base.Wire.{Bytes, IsBytes}
use optimum_gateway.Consensus.Types.{SszError}
use optimum_gateway.Utils.Snappy.{
  Snappy, SnappyError, decode_snappy, decode_snappy_sound, decode_snappy_complete,
  max_gossip_payload_size,
}

-- The interfaces `Marshaler` and `Unmarshaler`, with what the containers of the package satisfy.
pub record Ssz (A : Type 0) : Type 1 where
  pub marshal : A → Result SszError Bytes
  pub unmarshal : Bytes → Result SszError A
  pub IsValid : A → Type 0
  pub size : ℕ
  pub marshal_lem :
      (x : A)
      → IsValid x
      → (b : Bytes) × (marshal x ≡ ok b) × (length b ≡ size) × (unmarshal b ≡ ok x)

pub data CodecError : Type 0 where
  ssz_failed : SszError → CodecError
  snappy_failed : SnappyError → CodecError
  exceeds_max : ℕ → CodecError
  exceeds_max_compressed : CodecError

abbrev pub from_ssz {ℓ} : {A : Type ℓ} → Result SszError A → Result CodecError A
from_ssz (ok a) = ok a
from_ssz (err e) = err (ssz_failed e)

abbrev pub from_snappy {ℓ} : {A : Type ℓ} → Result SnappyError A → Result CodecError A
from_snappy (ok a) = ok a
from_snappy (err e) = err (snappy_failed e)

abbrev pub max_compressed_len : ℕ → ℕ
max_compressed_len n = 32 + n + n / 6

module _ (z : Snappy) where
  -- `DecodeGossipRaw`
  unfoldable pub decode_gossip_raw : Bytes → Result CodecError Bytes
  decode_gossip_raw b = do
    guard (leb (length b) (max_compressed_len max_gossip_payload_size)) exceeds_max_compressed
    from_snappy (decode_snappy z b max_gossip_payload_size)

  module _ {A : Type 0} (s : Ssz A) where
    unfoldable pub encode_gossip : A → Result CodecError Bytes
    encode_gossip msg = do
      b ← from_ssz (s.marshal msg)
      guard (leb (length b) max_gossip_payload_size) (exceeds_max (length b))
      ok (z.encode b)

    unfoldable pub decode_gossip : Bytes → Result CodecError A
    decode_gossip b = do
      guard (leb (length b) (max_compressed_len max_gossip_payload_size)) exceeds_max_compressed
      raw ← from_snappy (decode_snappy z b max_gossip_payload_size)
      from_ssz (s.unmarshal raw)

    -- A valid message of a container within the limit is encoded, within the compressed limit,
    -- and the receiver decodes the same message.
    pub decode_gossip-encode_gossip :
        (msg : A)
        → s.IsValid msg
        → s.size ≤ max_gossip_payload_size
        → (b : Bytes) × (encode_gossip msg ≡ ok b)
          × (length b ≤ max_compressed_len max_gossip_payload_size)
          × (decode_gossip b ≡ ok msg)
    unfolding encode_gossip decode_gossip
    decode_gossip-encode_gossip msg v fits =
        let (b, m, l, u) = s.marshal_lem msg v in
        let short : length b < 4294967296 = omega arith in
        let within : length (z.encode b) ≤ max_compressed_len max_gossip_payload_size =
          omega (arith, z.length-encode b short) in
        let raw : decode_snappy z (z.encode b) max_gossip_payload_size ≡ ok b =
          decode_snappy_complete z (z.encode b) b max_gossip_payload_size (z.decode-encode b short)
            (omega arith) in
        (z.encode b, ground arith, within, ground arith)
