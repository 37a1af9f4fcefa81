-- ===== src/Consensus/Block/Fields.antt =====
-- What `DecodeBeaconBlockHeader` returns for the payload of a signed block.
use optimum_gateway.Base.{
  ℕ, ◌+◌, ◌≤◌, ◌≡◌, ap, ◌∙◌, List, [], ◌∷◌, arith, none, some, ok, length, slice, drop, drop-drop,
  length-drop, le→leb, le→ltb_false, slice-drop,
}
use optimum_gateway.Base.Wire.{
  Bytes, le_bytes, le_value, capacity, length-le_bytes, le_value-le_bytes,
}
use optimum_gateway.Base.Parts.{concat, slice-concat, le_value-slice-concat, length-concat}
use optimum_gateway.Consensus.Types.{IsUint64}
use optimum_gateway.Utils.Snappy.{
  Snappy, decode_snappy, decode_snappy_complete, max_gossip_payload_size,
}
use optimum_gateway.Consensus.Block.{
  FastSsz, SignedBeaconBlockHeader, unmarshal_tail, decode_block_header,
}

-- The reads of the generated decoder fall on consecutive fields.
unmarshal_tail-fields :
    (z : Snappy) (f : FastSsz) (b : Bytes)
    → 112 ≤ length b
    → unmarshal_tail z f b
      ≡ ok (
        record {
          slot = le_value (slice 0 8 b);
          proposer_index = le_value (slice 8 16 b);
          parent_root = slice 16 48 b;
          state_root = slice 48 80 b;
          body_root = some (slice 80 112 b);
        },
        drop 112 b,
      )
unfolding unmarshal_tail
unmarshal_tail-fields z f b h = rw (le→ltb_false (length b) 112 h) (
    rw (f.unmarshal_value_lem b (omega arith)) (
      rw (f.unmarshal_value_lem (drop 8 b) (omega (arith, length-drop 8 b))) (
        rw (drop-drop 8 8 b) (
          rw (f.unmarshal_bytes_lem (drop 16 b) 32 (omega (arith, length-drop 16 b))) (
            rw (drop-drop 32 16 b) (
              rw (f.unmarshal_bytes_lem (drop 48 b) 32 (omega (arith, length-drop 48 b))) (
                rw (drop-drop 32 48 b) (
                  rw (f.unmarshal_bytes_lem (drop 80 b) 32 (omega (arith, length-drop 80 b)))
                    (rw (drop-drop 32 80 b))))))))))

-- The header that stands in the payload of a signed block, less the body root.
abbrev pub header_at : Bytes → SignedBeaconBlockHeader
header_at raw = record {
  header = record {
    slot = le_value (slice 100 108 raw);
    proposer_index = le_value (slice 108 116 raw);
    parent_root = slice 116 148 raw;
    state_root = slice 148 180 raw;
    body_root = none;
  };
  signature = slice 4 100 raw;
}

module _ (z : Snappy) (f : FastSsz) (encoded raw : Bytes) where
  decode_block_header-header_at :
      decode_snappy z encoded max_gossip_payload_size ≡ ok raw
      → 212 ≤ length raw
      → le_value (slice 0 4 raw) ≡ 100
      → decode_block_header z f encoded ≡ ok (header_at raw)
  unfolding decode_block_header
  decode_block_header-header_at d l o =
      let at : (lo hi : ℕ) → slice lo hi (drop 100 raw) ≡ slice (100 + lo) (100 + hi) raw =
        λ lo hi. slice-drop 100 lo hi raw in
      rw (d, le→leb 212 (length raw) l)
        (rw o (
          rw (unmarshal_tail-fields z f (drop 100 raw) (omega (arith, length-drop 100 raw)))
            (rw (at 0 8, at 8 16, at 16 48, at 48 80))))

-- The SSZ bytes of a signed block: the offset of the message, the signature, and the message,
-- whose fixed part begins with slot, proposer, parent root and state root.
abbrev pub block_parts : ℕ → ℕ → Bytes → Bytes → Bytes → Bytes → List Bytes
block_parts slot proposer signature parent state rest =
    le_bytes 4 100 ∷ signature ∷ le_bytes 8 slot ∷ le_bytes 8 proposer ∷ parent ∷ state ∷ rest ∷ []

module _ (slot proposer : ℕ) (signature parent state rest : Bytes) (slot_fits : IsUint64 slot)
    (proposer_fits : IsUint64 proposer) (signature_size : length signature ≡ 96)
    (parent_size : length parent ≡ 32) (state_size : length state ≡ 32) where
  header_at-block :
      header_at (concat (block_parts slot proposer signature parent state rest)) ≡ record {
        header = record {
          slot = slot;
          proposer_index = proposer;
          parent_root = parent;
          state_root = state;
          body_root = none;
        };
        signature = signature;
      }
  header_at-block = λ i. record {
    header = record {
      slot = at_slot i;
      proposer_index = at_proposer i;
      parent_root = at_parent i;
      state_root = at_state i;
      body_root = none;
    };
    signature = at_signature i;
  }
    where
      raw : Bytes
      raw = concat (block_parts slot proposer signature parent state rest)

      o4 : Bytes
      o4 = le_bytes 4 100

      s8 : Bytes
      s8 = le_bytes 8 slot

      p8 : Bytes
      p8 = le_bytes 8 proposer

      at_signature : slice 4 100 raw ≡ signature
      at_signature =
          slice-concat (o4 ∷ []) signature (s8 ∷ p8 ∷ parent ∷ state ∷ rest ∷ []) 4 100
            (omega (arith, length-le_bytes)) (omega (arith, length-le_bytes))

      at_slot : le_value (slice 100 108 raw) ≡ slot
      at_slot =
          le_value-slice-concat (o4 ∷ signature ∷ []) slot (p8 ∷ parent ∷ state ∷ rest ∷ []) 100 108
            slot_fits (omega (arith, length-le_bytes)) (omega arith)

      at_proposer : le_value (slice 108 116 raw) ≡ proposer
      at_proposer =
          le_value-slice-concat (o4 ∷ signature ∷ s8 ∷ []) proposer (parent ∷ state ∷ rest ∷ []) 108
            116 proposer_fits (omega (arith, length-le_bytes)) (omega arith)

      at_parent : slice 116 148 raw ≡ parent
      at_parent =
          slice-concat (o4 ∷ signature ∷ s8 ∷ p8 ∷ []) parent (state ∷ rest ∷ []) 116 148
            (omega (arith, length-le_bytes)) (omega (arith, length-le_bytes))

      at_state : slice 148 180 raw ≡ state
      at_state =
          slice-concat (o4 ∷ signature ∷ s8 ∷ p8 ∷ parent ∷ []) state (rest ∷ []) 148 180
            (omega (arith, length-le_bytes)) (omega (arith, length-le_bytes))

  offset-block :
      le_value (slice 0 4 (concat (block_parts slot proposer signature parent state rest))) ≡ 100
  offset-block =
      ap le_value (
        slice-concat [] (le_bytes 4 100)
          (signature ∷ le_bytes 8 slot ∷ le_bytes 8 proposer ∷ parent ∷ state ∷ rest ∷ []) 0 4
          (omega arith) (omega (arith, length-le_bytes)))
      ∙ le_value-le_bytes 4 100 (unfold capacity in omega arith)

  -- From the snappy block of a signed block whose message offset is 100, whose fields have their
  -- sizes and which is within the gossip limit, `DecodeBeaconBlockHeader` reads exactly slot,
  -- proposer, parent root, state root and signature, and leaves the body root unset.
  pub decode_block_header-block :
      (z : Snappy) (f : FastSsz)
      → 32 ≤ length rest
      → length (concat (block_parts slot proposer signature parent state rest))
        ≤ max_gossip_payload_size
      → decode_block_header z f
          (z.encode (concat (block_parts slot proposer signature parent state rest)))
        ≡ ok (record {
          header = record {
            slot = slot;
            proposer_index = proposer;
            parent_root = parent;
            state_root = state;
            body_root = none;
          };
          signature = signature;
        })
  decode_block_header-block z f tail fits =
      let parts = block_parts slot proposer signature parent state rest in
      let raw = concat parts in
      decode_block_header-header_at z f (z.encode raw) raw
        (decode_snappy_complete z (z.encode raw) raw max_gossip_payload_size
          (z.decode-encode raw (omega arith)) fits)
        (omega (arith, length-concat parts, length-le_bytes)) offset-block
      ∙ ap ok header_at-block
