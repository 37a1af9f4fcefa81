-- ===== src/Utils/Snappy.antt =====
-- pkg/utils/snappy.go. The snappy library is a parameter: a record of its three functions on
-- blocks with what its documentation says of them.
use optimum_gateway.Base.{
  ℕ, ◌+◌, ◌/◌, ◌≤◌, ◌<◌, ◌≡◌, refl, arith, Option, some, Result, ok, guard, or_fail, ◌>>=◌, ◌>>◌,
  length, leb,
}
use optimum_gateway.Base.Wire.{Bytes}

-- github.com/golang/snappy on blocks. `encode` is documented for lengths below 2^32.
pub record Snappy : Type 0 where
  pub encode : Bytes → Bytes
  pub decode : Bytes → Option Bytes
  pub decoded_len : Bytes → Option ℕ
  pub decode-encode : (b : Bytes) → length b < 4294967296 → decode (encode b) ≡ some b
  pub length-encode :
      (b : Bytes) → length b < 4294967296 → length (encode b) ≤ 32 + length b + length b / 6
  -- The header of a block that decodes states the length of what it decodes to.
  pub decoded_len-decode : (b r : Bytes) → decode b ≡ some r → decoded_len b ≡ some (length r)

-- The length or the block was corrupt, or the stated length is over the limit.
pub data SnappyError : Type 0 where
  corrupt_length corrupt_block : SnappyError
  over_max_size : ℕ → ℕ → SnappyError

abbrev pub max_gossip_payload_size : ℕ
max_gossip_payload_size = 10485760

module _ (z : Snappy) where
  -- `DecodeSnappy`: the stated length is tested before the block is decoded.
  unfoldable pub decode_snappy : Bytes → ℕ → Result SnappyError Bytes
  decode_snappy msg max_size = do
    size ← or_fail (z.decoded_len msg) corrupt_length
    guard (leb size max_size) (over_max_size size max_size)
    or_fail (z.decode msg) corrupt_block

  -- Whatever is decoded is what the library decodes, and no longer than the limit.
  pub decode_snappy_sound :
      (msg raw : Bytes) (max_size : ℕ)
      → decode_snappy msg max_size ≡ ok raw
      → (z.decode msg ≡ some raw) × (length raw ≤ max_size)
  unfolding decode_snappy
  decode_snappy_sound msg raw max_size h =
      let d : z.decode msg ≡ some raw = ground arith in
      (d, ground (arith, z.decoded_len-decode msg raw d))

  -- A block that decodes to something within the limit is decoded.
  pub decode_snappy_complete :
      (msg raw : Bytes) (max_size : ℕ)
      → z.decode msg ≡ some raw
      → length raw ≤ max_size
      → decode_snappy msg max_size ≡ ok raw
  unfolding decode_snappy
  decode_snappy_complete msg raw max_size h l = ground (arith, z.decoded_len-decode msg raw h)

pub some-length : (b r : Bytes) → some b ≡ some r → some (length b) ≡ some (length r)
some-length b r h = cc

-- A library that meets the conditions: it stores blocks as they are.
abbrev pub stored_snappy : Snappy
stored_snappy = record {
  encode = λ b. b;
  decode = λ b. some b;
  decoded_len = λ b. some (length b);
  decode-encode = λ b h. refl;
  length-encode = λ b h. omega arith;
  decoded_len-decode = some-length;
}
