-- ===== src/Consensus/Block.antt =====
-- pkg/protocol/consensus/block.go. The generated `UnmarshalSSZTail` of BeaconBlockHeader
-- (pkg/protocol/fastssz_codegen) calls two functions of the fastssz library; they are a parameter.
pub mod Fields
use optimum_gateway.Base.{
  ℕ, ◌+◌, ◌≤◌, ◌≡◌, refl, ap, ◌∙◌, [], ◌∷◌, ◌++◌, arith, Option, none, some, Result, ok, err, guard,
  ◌>>=◌, ◌>>◌, length, slice, drop, take, leb, ◌==◌, ltb, if◌then◌else◌,
}
use optimum_gateway.Base.Wire.{Bytes, le_value}
use optimum_gateway.Utils.Snappy.{Snappy, SnappyError, decode_snappy, max_gossip_payload_size}

-- github.com/ferranbt/fastssz: a read takes its bytes off the front of the buffer.
pub record FastSsz : Type 0 where
  pub unmarshal_value : Bytes → ℕ × Bytes
  pub unmarshal_bytes : Bytes → ℕ → Bytes × Bytes
  pub unmarshal_value_lem :
      (b : Bytes) → 8 ≤ length b → unmarshal_value b ≡ (le_value (take 8 b), drop 8 b)
  pub unmarshal_bytes_lem :
      (b : Bytes) (n : ℕ) → n ≤ length b → unmarshal_bytes b n ≡ (take n b, drop n b)

abbrev pub gossip_prefix_len : ℕ
gossip_prefix_len = 4

abbrev pub bls_signature_len : ℕ
bls_signature_len = 96

abbrev pub signed_block_header_offset : ℕ
signed_block_header_offset = 100

abbrev pub block_header_fixed_len : ℕ
block_header_fixed_len = 112

-- `body_root` is nil where the payload holds an offset in its place.
pub record BeaconBlockHeader : Type 0 where
  pub slot : ℕ
  pub proposer_index : ℕ
  pub parent_root : Bytes
  pub state_root : Bytes
  pub body_root : Option Bytes

pub record SignedBeaconBlockHeader : Type 0 where
  pub header : BeaconBlockHeader
  pub signature : Bytes

pub data BlockError : Type 0 where
  snappy_failed : SnappyError → BlockError
  too_short : BlockError
  bad_offset : ℕ → BlockError
  bad_size : BlockError

abbrev pub from_snappy {ℓ} : {A : Type ℓ} → Result SnappyError A → Result BlockError A
from_snappy (ok a) = ok a
from_snappy (err e) = err (snappy_failed e)

module _ (z : Snappy) (f : FastSsz) where
  -- `BeaconBlockHeader.UnmarshalSSZTail`; `fixedSize` is 112.
  unfoldable pub unmarshal_tail : Bytes → Result BlockError (BeaconBlockHeader × Bytes)
  unmarshal_tail buf =
      if ltb (length buf) 112
      then err bad_size
      else (let (slot, b1) = f.unmarshal_value buf in
          let (proposer, b2) = f.unmarshal_value b1 in
          let (parent, b3) = f.unmarshal_bytes b2 32 in
          let (state, b4) = f.unmarshal_bytes b3 32 in
          let (body, b5) = f.unmarshal_bytes b4 32 in
          ok (
            record {
              slot = slot;
              proposer_index = proposer;
              parent_root = parent;
              state_root = state;
              body_root = some body;
            },
            b5,
          ))

  -- `DecodeBeaconBlockHeader`
  unfoldable pub decode_block_header : Bytes → Result BlockError SignedBeaconBlockHeader
  decode_block_header encoded = do
    ssz_bytes ← from_snappy (decode_snappy z encoded max_gossip_payload_size)
    guard (leb (signed_block_header_offset + block_header_fixed_len) (length ssz_bytes)) too_short
    guard (le_value (slice 0 gossip_prefix_len ssz_bytes) == signed_block_header_offset)
        (bad_offset (le_value (slice 0 gossip_prefix_len ssz_bytes)))
    r ← unmarshal_tail (drop signed_block_header_offset ssz_bytes)
    let block = r.0
    ok (record {
      header = record block { body_root = none };
      signature = slice gossip_prefix_len signed_block_header_offset ssz_bytes;
    })
