-- ===== src/Gateway/Blocks.antt =====
-- Beacon blocks in pkg/service/gossipsub-gateway: `processBeaconBlockArrival`
-- (beacon_block_measures.go), and `processCLBeaconBlock`, `processMumP2PMessage` and
-- `processMumP2PBeaconBlock` (messages_proxy.go). What the handlers read of the other services at one
-- time is an `Env`; what they do to the outside is appended to lists. The hub is StreamHub's, the
-- queue of latency events Bootstrapper's.
use optimum_gateway.Base.{
  ℕ, ◌+◌, ◌/◌, ◌%◌, Bool, false, not, ◌||◌, ◌&&◌, none, some, Result, ok, err, List, [], ◌∷◌, ◌++◌,
  if◌then◌else◌, ltb, length,
}
use optimum_gateway.Base.Wire.{Bytes}
use optimum_gateway.Base.Maps.{RwMap, TtlSet, nat_key}
use optimum_gateway.Utils.Snappy.{Snappy}
use optimum_gateway.Utils.Text.{codes, text_eq, show_decimal}
use optimum_gateway.Topics.TopicMeta.{
  TopicKind, text_key, parse_topic_meta, beacon_block, attestation, unknown,
}
use optimum_gateway.Consensus.Block.{FastSsz, decode_block_header, BeaconBlockHeader}
use optimum_gateway.ChainState.{diff_uint64}
use optimum_gateway.AuthToken.{Manager}
use optimum_gateway.MessageRouter.{Router, GatewayTypes, forward_to_clp2p}
use optimum_gateway.StreamHub.{Source, lib_p2p, mum_p2p, BlockEvent}
use optimum_gateway.Bootstrapper.{
  BlockArrival, Identity, handle_beacon_block, record_mum_published_at,
}
use optimum_gateway.Gateway.{
  is_duplicate_message, process_cl_attestation, handle_aggregated_messages,
}
use optimum_gateway.Aggregator.{AggregateItem}

abbrev pub stale_slot_threshold : ℕ
stale_slot_threshold = 3

abbrev source_text : Source → Bytes
source_text lib_p2p = codes "libp2p"
source_text mum_p2p = codes "mump2p"

abbrev hex_digit : ℕ → ℕ
hex_digit d = if ltb d 10 then 48 + d else 87 + d

abbrev hex_text : Bytes → Bytes
hex_text [] = []
hex_text (b ∷ bs) = hex_digit (b / 16) ∷ hex_digit (b % 16) ∷ hex_text bs

-- The `dedupKey` of a block.
unfoldable pub dedup_key : Source → BeaconBlockHeader → Bytes
dedup_key source h =
    source_text source
    ++ (124
        ∷ (show_decimal h.slot
            ++ (124 ∷ (show_decimal h.proposer_index ++ (124 ∷ hex_text h.state_root)))))

-- A message of the mesh (`P2PMessage`), and one of the consensus client (`CLMessage`).
pub record P2pMessage : Type 0 where
  pub topic : Bytes
  pub message : Bytes
  pub source_node_id : Bytes
  pub upstream_peer_id : Bytes

pub record ClMessage : Type 0 where
  pub topic : Bytes
  pub message : Bytes
  pub received_from : Bytes

module _ (z : Snappy) (fs : FastSsz) (xx_hash : Bytes → ℕ) (seen : TtlSet ℕ nat_key)
    (dedup : TtlSet Bytes text_key) (known : RwMap ℕ (ℕ × ℕ) nat_key)
    (accelerated : TtlSet ℕ nat_key) (types : GatewayTypes) where
  -- The part of `Service` that the handlers change, with what they did: latency events, events of the
  -- block stream, publishes to the mesh and to the consensus client, and attestations to aggregate.
  pub record Gate : Type 0 where
    pub messages_map : seen.Set
    pub stream_dedup : dedup.Set
    pub last_block_received_at : ℕ
    pub block_events : List BlockArrival
    pub emitted : List BlockEvent
    pub to_mum : List (Bytes × Bytes)
    pub to_cl : List (Bytes × Bytes)
    pub to_aggregate : List AggregateItem

  -- What they read, at one time: `now` is in Unix nanoseconds.
  pub record Env : Type 0 where
    pub now : ℕ
    pub current_slot : ℕ
    pub active_digest : Bytes
    pub gateway_id : Bytes
    pub identity : Identity
    pub streaming : Bool  -- a stream hub is set
    pub propagation_enabled : Bool
    pub skip_messages_from_self : Bool
    pub node_id : Bytes
    pub has_node : Bool  -- the mumP2P node is set
    pub mum_publishes : Bool  -- `PublishMessage` succeeds
    pub published_at : ℕ
    pub subscribed : Bytes → Bool
    pub router : Router known accelerated
    pub manager : Manager
    -- What `DecodeAggregatedMessage` gives.
    pub decode_aggregated : Bytes → Result (Unit {0}) (List (Bytes × List Bytes))

  abbrev pub is_stale : Env → ℕ → Bool
  is_stale e slot = ltb stale_slot_threshold (diff_uint64 slot e.current_slot)

  -- The event of the stream for a block.
  unfoldable pub event_of :
      Env → (topic msg : Bytes) → (recv_at : ℕ) → Source → BeaconBlockHeader → BlockEvent
  event_of e topic msg recv_at source h = record {
    slot = h.slot;
    proposer_index = h.proposer_index;
    parent_root = h.parent_root;
    state_root = h.state_root;
    block_size_bytes = length msg;
    topic = topic;
    source = source;
    received_at_ms = recv_at;
    gateway_id = e.gateway_id;
    fork_digest = e.active_digest;
    stale = is_stale e h.slot;
    raw = some msg;
  }

  -- Its part that streams the observation.
  unfoldable pub stream_block :
      Env → (topic msg : Bytes) → (recv_at : ℕ) → Source → BeaconBlockHeader → Gate → Gate
  unfolding dedup_key event_of
  stream_block e topic msg recv_at source h g =
      if not e.streaming || dedup.get g.stream_dedup e.now (dedup_key source h)
      then g
      else record g {
        stream_dedup = dedup.put g.stream_dedup e.now (dedup_key source h);
        emitted = g.emitted ++ (event_of e topic msg recv_at source h ∷ []);
      }

  -- `processBeaconBlockArrival`: the state afterwards, the slot, and whether to forward.
  unfoldable pub process_beacon_block_arrival :
      Env
      → (topic msg : Bytes) → (recv_at : ℕ) → Source
      → (origin upstream : Bytes) → Gate
      → Gate × ℕ × Bool
  unfolding stream_block
  process_beacon_block_arrival e topic msg recv_at source origin upstream g =
      let g1 = record g { last_block_received_at = recv_at } in
      elim (decode_block_header z fs msg) [
        | err x ↦ (g1, 0, false)
        | ok b ↦
            let g2 = record g1 {
              block_events =
                  handle_beacon_block e.identity g.block_events source b.header.slot
                    b.header.proposer_index (length msg) recv_at origin upstream;
            } in
            (
              stream_block e topic msg recv_at source b.header g2,
              b.header.slot,
              not (is_stale e b.header.slot),
            )
      ]

  -- `processCLBeaconBlock`
  unfoldable pub process_cl_beacon_block : Env → ClMessage → Gate → Gate
  unfolding process_beacon_block_arrival
  process_cl_beacon_block e msg g =
      let (g1, slot, forward) =
        process_beacon_block_arrival e msg.topic msg.message (e.now / 1000000) lib_p2p []
          msg.received_from g in
      let (duplicate, s) =
        is_duplicate_message z xx_hash seen known accelerated types g1.messages_map e.now
          msg.message in
      let g2 = record g1 { messages_map = s } in
      if not forward
      then g1
      else (if duplicate || not e.has_node || not e.mum_publishes then g2 else record g2 {
        to_mum = g2.to_mum ++ ((msg.topic, msg.message) ∷ []);
        block_events =
            (if ltb 0 slot
              then record_mum_published_at e.identity g2.block_events slot e.published_at
              else g2.block_events);
      })

  -- `publishToCLTopic`
  unfoldable pub publish_to_cl_topic : Env → (message topic : Bytes) → Gate → Gate
  publish_to_cl_topic e message topic g =
      if e.subscribed topic then record g { to_cl = g.to_cl ++ ((topic, message) ∷ []) } else g

  -- `processMumP2PBeaconBlock`
  unfoldable pub process_mum_beacon_block : Env → P2pMessage → ℕ → Gate → Gate
  unfolding publish_to_cl_topic
  process_mum_beacon_block e msg slot g =
      if not e.propagation_enabled
        || not (forward_to_clp2p known accelerated types e.router e.manager e.now beacon_block slot)
      then g
      else publish_to_cl_topic e msg.message msg.topic g

  -- `processMumP2PMessage` after the measures.
  unfoldable pub handle_mum_message : Env → P2pMessage → ℕ → TopicKind → Gate → Gate
  unfolding process_mum_beacon_block
  handle_mum_message e msg slot kind g =
      let (duplicate, s) =
        is_duplicate_message z xx_hash seen known accelerated types g.messages_map e.now
          msg.message in
      let g1 = record g { messages_map = s } in
      let (published, s') =
        handle_aggregated_messages z xx_hash seen known accelerated types e.subscribed
          e.propagation_enabled e.router e.manager e.now (e.decode_aggregated msg.message) s in
      let other =
        if text_eq msg.topic (codes "mump2p_aggregated_messages")
        then record g { messages_map = s'; to_cl = g.to_cl ++ published }
        else g1 in
      if text_eq msg.source_node_id e.node_id
      then g
      else (if duplicate then g1 else elim kind [
        | beacon_block ↦ process_mum_beacon_block e msg slot g1
        | attestation ↦ other
        | unknown ↦ other
      ])

  -- `processMumP2PMessage`
  unfoldable pub process_mum_p2p_message : Env → P2pMessage → Gate → Gate
  unfolding handle_mum_message process_beacon_block_arrival
  process_mum_p2p_message e msg g =
      let kind = (parse_topic_meta msg.topic).kind in
      let (g1, slot, forward) =
        process_beacon_block_arrival e msg.topic msg.message (e.now / 1000000) mum_p2p
          msg.source_node_id msg.upstream_peer_id g in
      if text_eq msg.source_node_id e.node_id && e.skip_messages_from_self then g else elim kind [
        | beacon_block ↦ if forward then handle_mum_message e msg slot beacon_block g1 else g1
        | attestation ↦ handle_mum_message e msg 0 attestation g
        | unknown ↦ handle_mum_message e msg 0 unknown g
      ]

  -- `handleMessagesFromCL` on one message of a supported topic.
  unfoldable pub handle_message_from_cl : Env → ClMessage → Gate → Gate
  unfolding process_cl_beacon_block
  handle_message_from_cl e msg g =
      let meta = parse_topic_meta msg.topic in
      let (item, s) =
        process_cl_attestation z xx_hash seen known accelerated types g.messages_map e.router
          e.manager e.now e.current_slot msg.topic meta msg.message in
      elim meta.kind [
        | beacon_block ↦ process_cl_beacon_block e msg g
        | attestation ↦ record g {
          messages_map = s;
          to_aggregate = g.to_aggregate ++ (elim item [ none ↦ [] | some i ↦ i ∷ [] ]);
        }
        | unknown ↦ g
      ]
