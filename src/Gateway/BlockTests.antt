-- ===== src/Gateway/BlockTests.antt =====
-- The theorems on blocks and on handshakes at a gateway with concrete sets.
use optimum_gateway.Base.{
  ℕ, zero, suc, ◌≡◌, ◌<◌, refl, arith, true, false, none, some, ok, err, [], ◌∷◌, ◌++◌, length,
  take, drop, ◌⊎◌, ◌↔◌,
}
use optimum_gateway.Base.Wire.{Bytes, le_value, le_bytes, capacity}
use optimum_gateway.Base.Parts.{concat}
use optimum_gateway.Base.Maps.{RwMap, TtlSet, nat_key, assoc_map, timed_set}
use optimum_gateway.Utils.Snappy.{stored_snappy}
use optimum_gateway.Utils.Text.{codes, text_eq, contains, has_prefix}
use optimum_gateway.Utils.Topics.{is_beacon_block_topic}
use optimum_gateway.ChainState.{diff_uint64}
use optimum_gateway.Topics.TopicMeta.{text_key, parse_topic_meta, beacon_block}
use optimum_gateway.Consensus.Block.{FastSsz, decode_block_header, SignedBeaconBlockHeader}
use optimum_gateway.Consensus.Block.Fields.{block_parts, decode_block_header-block}
use optimum_gateway.AuthToken.{Claims, Manager, new_disabled, verify_token, is_enabled, own_chain}
use optimum_gateway.Forks.{is_empty, or_empty}
use optimum_gateway.MessageRouter.{GatewayTypes}
use optimum_gateway.StreamHub.{mum_p2p, BlockEvent}
use optimum_gateway.Gateway.Blocks.{
  P2pMessage, ClMessage, Gate, Env, process_mum_p2p_message, process_cl_beacon_block,
  process_beacon_block_arrival,
}
use optimum_gateway.Gateway.Handshake.{
  Handshake, handshake_handler, handshake_handler_iff, IsAdmitted, check_claims,
}
use optimum_gateway.Gateway.Forwarding.{
  process_mum_p2p_message_lem, blocks-cross, arrival-streamed, IsForwardable,
}

abbrev fill : ℕ → ℕ → Bytes
fill zero b = []
fill (suc n) b = b ∷ fill n b

abbrev plain_ssz : FastSsz
plain_ssz = record {
  unmarshal_value = λ b. (le_value (take 8 b), drop 8 b);
  unmarshal_bytes = λ b n. (take n b, drop n b);
  unmarshal_value_lem = λ b h. refl;
  unmarshal_bytes_lem = λ b n h. refl;
}

abbrev hashes : TtlSet ℕ nat_key
hashes = timed_set 120 ℕ nat_key

abbrev keys : TtlSet Bytes text_key
keys = timed_set 30 Bytes text_key

abbrev known : RwMap ℕ (ℕ × ℕ) nat_key
known = assoc_map ℕ (ℕ × ℕ) nat_key

abbrev types : GatewayTypes
types = record { partner = codes "partner"; hermes = codes "hermes"; relay = codes "relay" }

abbrev block_bytes : Bytes
block_bytes = concat (block_parts 901 77 (fill 96 5) (fill 32 6) (fill 32 7) (fill 40 8))

abbrev header : SignedBeaconBlockHeader
header = record {
  header = record {
    slot = 901;
    proposer_index = 77;
    parent_root = fill 32 6;
    state_root = fill 32 7;
    body_root = none;
  };
  signature = fill 96 5;
}

block_decodes : decode_block_header stored_snappy plain_ssz block_bytes ≡ ok header
unfolding capacity le_bytes
block_decodes =
    decode_block_header-block 901 77 (fill 96 5) (fill 32 6) (fill 32 7) (fill 40 8) (omega arith)
      (omega arith) refl refl refl stored_snappy plain_ssz (omega arith) (omega arith)

abbrev topic : Bytes
topic = codes "/eth2/aabbccdd/beacon_block/ssz_snappy"

is_block : (parse_topic_meta topic).kind ≡ beacon_block
unfolding parse_topic_meta is_beacon_block_topic contains has_prefix
is_block = refl

abbrev gate : Gate stored_snappy plain_ssz length hashes keys known hashes types
gate = record {
  messages_map = [];
  stream_dedup = [];
  last_block_received_at = 0;
  block_events = [];
  emitted = [];
  to_mum = [];
  to_cl = [];
  to_aggregate = [];
}

abbrev env_at : ℕ → Env stored_snappy plain_ssz length hashes keys known hashes types
env_at now = record {
  now = now;
  current_slot = 902;
  active_digest = codes "aabbccdd";
  gateway_id = codes "g";
  identity = record {
    gateway_id = codes "g";
    peer_id = codes "p";
    chain_id = 1;
    telemetry_enable = true;
  };
  streaming = true;
  propagation_enabled = true;
  skip_messages_from_self = true;
  node_id = codes "me";
  has_node = true;
  mum_publishes = true;
  published_at = 8;
  subscribed = λ t. true;
  router = record { known_validators = []; accelerate_slots = []; accelerate_to_slot = 0 };
  manager = new_disabled;
  decode_aggregated = λ b. err tt;
}

abbrev from_mesh : P2pMessage
from_mesh = record {
  topic = topic;
  message = block_bytes;
  source_node_id = codes "peer";
  upstream_peer_id = codes "up";
}

abbrev from_client : ClMessage
from_client = record { topic = topic; message = block_bytes; received_from = codes "cl" }

process_mum_p2p_message_lem_example :
    (IsForwardable stored_snappy plain_ssz length hashes keys known hashes types
        (env_at 5)
        from_mesh
        gate
      × ((process_mum_p2p_message stored_snappy plain_ssz length hashes keys known hashes types
            (env_at 5)
            from_mesh
            gate).to_cl
          ≡ [] ++ ((topic, block_bytes) ∷ [])))
    ⊎ ((IsForwardable stored_snappy plain_ssz length hashes keys known hashes types
            (env_at 5)
            from_mesh
            gate
          → ⊥)
        × ((process_mum_p2p_message stored_snappy plain_ssz length hashes keys known hashes types
              (env_at 5)
              from_mesh
              gate).to_cl
            ≡ []))
process_mum_p2p_message_lem_example =
    process_mum_p2p_message_lem stored_snappy plain_ssz length hashes keys known hashes types
      (env_at 5) from_mesh gate is_block

blocks-cross_example :
    (let first =
        process_mum_p2p_message stored_snappy plain_ssz length hashes keys known hashes types
          (env_at 5)
          from_mesh
          gate in
      (process_cl_beacon_block stored_snappy plain_ssz length hashes keys known hashes types
        (env_at 100)
        from_client
        first).to_mum
      ≡ first.to_mum)
    × (let first =
          process_cl_beacon_block stored_snappy plain_ssz length hashes keys known hashes types
            (env_at 5)
            from_client
            gate in
        (process_mum_p2p_message stored_snappy plain_ssz length hashes keys known hashes types
          (env_at 100)
          from_mesh
          first).to_cl
        ≡ first.to_cl)
unfolding text_eq diff_uint64
blocks-cross_example =
    blocks-cross stored_snappy plain_ssz length hashes keys known hashes types (env_at 5)
      (env_at 100) from_mesh from_client gate header refl is_block block_decodes (omega arith) refl
      refl (omega arith) (omega arith)

abbrev first_arrival : Gate stored_snappy plain_ssz length hashes keys known hashes types
first_arrival =
    (process_beacon_block_arrival stored_snappy plain_ssz length hashes keys known hashes types
      (env_at 5) topic block_bytes 5 mum_p2p [] [] gate).0

arrival-streamed_example :
    (ev : BlockEvent) × (first_arrival.emitted ≡ [] ++ (ev ∷ []))
    × (ev.slot ≡ 901)
    × (ev.raw ≡ some block_bytes)
    × ((ev.stale ≡ true) ↔ (3 < diff_uint64 901 902))
    × ((process_beacon_block_arrival stored_snappy plain_ssz length hashes keys known hashes types
          (env_at 20)
          topic
          block_bytes
          6
          mum_p2p
          []
          []
          first_arrival).0.emitted
        ≡ first_arrival.emitted)
arrival-streamed_example =
    arrival-streamed stored_snappy plain_ssz length hashes keys known hashes types (env_at 5)
      (env_at 20) topic block_bytes topic block_bytes 5 6 mum_p2p [] [] [] [] gate header header
      block_decodes block_decodes refl refl refl refl refl (omega arith) (omega arith)

abbrev peer_claims : Claims
peer_claims = record {
  subject = codes "gw";
  gateway_type = codes "partner";
  chain_id = codes "1";
  issued_at = none;
  expires_at = none;
  cnf_peer_id = some (codes "peer");
  cluster_ids = codes "a" ∷ codes "b" ∷ [];
  can_publish = false;
}

abbrev manager : Manager
manager = record new_disabled { api_key = codes "k"; claims = some peer_claims }

abbrev hello : Handshake
hello = record { cluster_id = codes "b"; jwt_token = codes "t"; commit_hash = [] }

handshake_handler_iff_example :
    (handshake_handler
        (λ raw aud. some peer_claims)
        (λ c. some c)
        manager
        (codes "b")
        true
        (codes "peer")
        (some hello)
      ≡ ok false)
    ↔ ((h : Handshake) × (some hello ≡ some h)
        × (h.cluster_id ≡ codes "b")
        × IsAdmitted
            (λ raw aud. some peer_claims)
            (λ c. some c)
            manager
            (codes "b")
            true
            (codes "peer")
            h
            false)
handshake_handler_iff_example =
    handshake_handler_iff (λ raw aud. some peer_claims) (λ c. some c) manager (codes "b") true
      (codes "peer") (some hello) false

handshake_run :
    handshake_handler
      (λ raw aud. some peer_claims)
      (λ c. some c)
      manager
      (codes "b")
      true
      (codes "peer")
      (some hello)
    ≡ ok false
unfolding handshake_handler check_claims verify_token is_enabled new_disabled text_eq is_empty
    own_chain or_empty
handshake_run = refl
