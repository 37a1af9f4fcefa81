-- ===== src/Gateway/Tests.antt =====
-- The theorems on the gateway's publishing at concrete sets.
use optimum_gateway.Base.{ℕ, zero, suc, ◌≡◌, refl, true, List, [], ◌∷◌, length, Each}
use optimum_gateway.Base.Wire.{Bytes, le_bytes, le_value}
use optimum_gateway.Base.Maps.{RwMap, TtlSet, nat_key, assoc_map, timed_set}
use optimum_gateway.Utils.Snappy.{stored_snappy, decode_snappy}
use optimum_gateway.Utils.Text.{codes, text_eq, contains, has_prefix, last_index_byte, parse_uint}
use optimum_gateway.Utils.Topics.{
  is_attestation_topic, is_beacon_block_topic, extract_attestation_topic_index,
}
use optimum_gateway.Topics.TopicMeta.{parse_topic_meta}
use optimum_gateway.Consensus.Attestation.{
  marshal_single, marshal_data, append_checkpoint, unmarshal_single, unmarshal_data,
  unmarshal_checkpoint,
}
use optimum_gateway.Consensus.Codec.{decode_gossip}
use optimum_gateway.AuthToken.{new_disabled}
use optimum_gateway.MessageRouter.{Router, GatewayTypes, forward_to_clp2p, own_type}
use optimum_gateway.Gateway.{expand_topic, expand_topics, is_duplicate_message}
use optimum_gateway.Gateway.Publish.{IsPublishable, expand_topics-Each}

abbrev known : RwMap ℕ (ℕ × ℕ) nat_key
known = assoc_map ℕ (ℕ × ℕ) nat_key

abbrev hashes : TtlSet ℕ nat_key
hashes = timed_set 120 ℕ nat_key

abbrev types : GatewayTypes
types = record { partner = codes "partner"; hermes = codes "hermes"; relay = codes "relay" }

abbrev router : Router known hashes
router = record { known_validators = []; accelerate_slots = []; accelerate_to_slot = 0 }

abbrev fill : ℕ → ℕ → Bytes
fill zero b = []
fill (suc n) b = b ∷ fill n b

abbrev payload : Bytes
payload = marshal_single (record {
  committee_index = 3;
  attester_index = 9;
  content = record {
    slot = 900;
    committee_index = 0;
    beacon_block_root = fill 32 17;
    source = record { epoch = 27; root = fill 32 1 };
    target = record { epoch = 28; root = fill 32 2 };
  };
  signature = fill 96 200;
})

abbrev topic : Bytes
topic = codes "/eth2/aaaaaaaa/beacon_attestation_3/ssz_snappy"

-- A payload that does not decode, an attestation, and its duplicate.
abbrev decoded : List (Bytes × List Bytes)
decoded = (topic, codes "m" ∷ payload ∷ payload ∷ []) ∷ []

abbrev published : List (Bytes × Bytes)
published =
    (expand_topics stored_snappy length hashes known hashes types (λ t. true) router new_disabled 5
      decoded []).0

published-payload : published ≡ (topic, payload) ∷ []
unfolding expand_topics expand_topic is_duplicate_message forward_to_clp2p own_type new_disabled
    parse_topic_meta is_attestation_topic is_beacon_block_topic contains has_prefix text_eq
    decode_gossip decode_snappy marshal_single marshal_data append_checkpoint unmarshal_single
    unmarshal_data unmarshal_checkpoint le_bytes le_value extract_attestation_topic_index
    last_index_byte parse_uint
published-payload = refl

expand_topics-Each_example : Each (IsPublishable stored_snappy (λ t. true)) published
expand_topics-Each_example =
    expand_topics-Each stored_snappy length hashes known hashes types (λ t. true) router
      new_disabled 5 decoded []
