-- ===== src/Consensus/Tests.antt =====
-- The theorems on the consensus messages at concrete messages.
use optimum_gateway.Base.{
  ℕ, zero, suc, ◌≤◌, ◌≡◌, ◌≢◌, ◌⊎◌, refl, [], ◌∷◌, arith, ok, err, none, length, take, drop,
}
use optimum_gateway.Base.Wire.{Bytes, le_bytes, le_value, capacity}
use optimum_gateway.Base.Parts.{concat}
use optimum_gateway.Utils.Snappy.{stored_snappy, decode_snappy}
use optimum_gateway.Utils.AttestationFields.{parse_attestation}
use optimum_gateway.Consensus.Types.{bad_length}
use optimum_gateway.Consensus.Attestation.{
  SingleAttestation, IsSingleAttestation, append_checkpoint, unmarshal_checkpoint, marshal_data,
  unmarshal_data, marshal_single, unmarshal_single,
}
use optimum_gateway.Consensus.Attestation.RoundTrip.{unmarshal_single-marshal_single}
use optimum_gateway.Consensus.Attestation.Canonical.{unmarshal_single_exact}
use optimum_gateway.Consensus.Codec.{
  decode_gossip, encode_gossip, decode_gossip-encode_gossip, max_compressed_len,
}
use optimum_gateway.Consensus.Codec.Instances.{single_ssz, uint64_ssz}
use optimum_gateway.Consensus.FastPath.{
  parse_attestation-decode_gossip, decode_gossip-parse_attestation,
}
use optimum_gateway.Consensus.Rpc.MetaDataV2.{
  MetaDataV2, IsMetaDataV2, marshal_meta_v2, unmarshal_meta_v2, unmarshal_meta_v2_exact,
}
use optimum_gateway.Consensus.MessageId.{valid_snappy, hash_input_injective}
use optimum_gateway.Consensus.Block.{FastSsz, decode_block_header}
use optimum_gateway.Consensus.Block.Fields.{block_parts, decode_block_header-block}

abbrev fill : ℕ → ℕ → Bytes
fill zero c = []
fill (suc n) c = c ∷ fill n c

abbrev sample : SingleAttestation
sample = record {
  committee_index = 3;
  attester_index = 1234567;
  content = record {
    slot = 900;
    committee_index = 0;
    beacon_block_root = fill 32 17;
    source = record { epoch = 27; root = fill 32 1 };
    target = record { epoch = 28; root = fill 32 2 };
  };
  signature = fill 96 200;
}

sample-valid : IsSingleAttestation sample
unfolding capacity
sample-valid = omega arith

abbrev sample_bytes : Bytes
sample_bytes = marshal_single sample

unmarshal_single-marshal_single_example : unmarshal_single sample_bytes ≡ ok sample
unmarshal_single-marshal_single_example = unmarshal_single-marshal_single sample sample-valid

unmarshal_single_exact_example :
    ((length (fill 3 9) ≢ 240) × (unmarshal_single (fill 3 9) ≡ err (bad_length 240 3)))
    ⊎ ((s : SingleAttestation) × (unmarshal_single (fill 3 9) ≡ ok s)
        × (marshal_single s ≡ fill 3 9)
        × IsSingleAttestation s)
unmarshal_single_exact_example = unmarshal_single_exact (fill 3 9) (omega arith)

decode_gossip-encode_gossip_example :
    (b : Bytes) × (encode_gossip stored_snappy single_ssz sample ≡ ok b)
    × (length b ≤ max_compressed_len 10485760)
    × (decode_gossip stored_snappy single_ssz b ≡ ok sample)
decode_gossip-encode_gossip_example =
    decode_gossip-encode_gossip stored_snappy single_ssz sample sample-valid (omega arith)

decoded : decode_gossip stored_snappy single_ssz sample_bytes ≡ ok sample
unfolding decode_gossip decode_snappy marshal_single marshal_data append_checkpoint unmarshal_single
    unmarshal_data unmarshal_checkpoint le_bytes le_value
decoded = refl

parse_attestation-decode_gossip_example :
    parse_attestation stored_snappy sample_bytes ≡ ok (1234567, 900)
parse_attestation-decode_gossip_example =
    parse_attestation-decode_gossip stored_snappy sample_bytes sample decoded

decode_gossip-parse_attestation_example :
    (s : SingleAttestation) × (decode_gossip stored_snappy single_ssz sample_bytes ≡ ok s)
    × (s.attester_index ≡ 1234567)
    × (s.content.slot ≡ 900)
unfolding marshal_single marshal_data append_checkpoint le_bytes
decode_gossip-parse_attestation_example =
    decode_gossip-parse_attestation stored_snappy sample_bytes 1234567 900 (omega arith)
      parse_attestation-decode_gossip_example

hash_input_injective_example :
    (valid_snappy ≡ valid_snappy) × (fill 2 65 ≡ fill 2 65) × (fill 3 1 ≡ fill 3 1)
unfolding capacity
hash_input_injective_example =
    hash_input_injective valid_snappy (fill 2 65) (fill 3 1) valid_snappy (fill 2 65) (fill 3 1)
      refl refl (omega arith) (omega arith) refl

abbrev plain_ssz : FastSsz
plain_ssz = record {
  unmarshal_value = λ b. (le_value (take 8 b), drop 8 b);
  unmarshal_bytes = λ b n. (take n b, drop n b);
  unmarshal_value_lem = λ b h. refl;
  unmarshal_bytes_lem = λ b n h. refl;
}

decode_block_header-block_example :
    decode_block_header stored_snappy plain_ssz
      (concat (block_parts 901 77 (fill 96 5) (fill 32 6) (fill 32 7) (fill 40 8)))
    ≡ ok (record {
      header = record {
        slot = 901;
        proposer_index = 77;
        parent_root = fill 32 6;
        state_root = fill 32 7;
        body_root = none;
      };
      signature = fill 96 5;
    })
unfolding capacity le_bytes
decode_block_header-block_example =
    decode_block_header-block 901 77 (fill 96 5) (fill 32 6) (fill 32 7) (fill 40 8) (omega arith)
      (omega arith) refl refl refl stored_snappy plain_ssz (omega arith) (omega arith)

unmarshal_meta_v2_exact_example :
    ((length (fill 25 9) ≢ 25)
      × (unmarshal_meta_v2 (fill 25 9) ≡ err (bad_length 25 (length (fill 25 9)))))
    ⊎ ((s : MetaDataV2) × (unmarshal_meta_v2 (fill 25 9) ≡ ok s)
        × (marshal_meta_v2 s ≡ fill 25 9)
        × IsMetaDataV2 s)
unmarshal_meta_v2_exact_example = unmarshal_meta_v2_exact (fill 25 9) (omega arith)
