-- ===== src/Gateway/Forwarding/Steps.antt =====
-- What one handler of Blocks does to the lists of publishes and of streamed events
-- (pkg/service/gossipsub-gateway).
use optimum_gateway.Base.{
  ℕ, ◌/◌, ◌≡◌, arith, inl, inr, Bool-cases, Bool, true, false, not, ◌&&◌, ok, err, [], ◌∷◌, ◌++◌,
  if◌then◌else◌,
}
use optimum_gateway.Base.Wire.{Bytes}
use optimum_gateway.Base.Maps.{RwMap, TtlSet, nat_key}
use optimum_gateway.Utils.Snappy.{Snappy}
use optimum_gateway.Utils.Text.{text_eq}
use optimum_gateway.Topics.TopicMeta.{TopicKind, text_key, parse_topic_meta, beacon_block}
use optimum_gateway.Consensus.Block.{FastSsz, decode_block_header, SignedBeaconBlockHeader}
use optimum_gateway.MessageRouter.{GatewayTypes, forward_to_clp2p}
use optimum_gateway.StreamHub.{Source, lib_p2p, mum_p2p}
use optimum_gateway.Gateway.{is_duplicate_message}
use optimum_gateway.Consensus.Block.{BlockError}
use optimum_gateway.Gateway.Blocks.{
  P2pMessage, ClMessage, Gate, Env, is_stale, event_of, dedup_key, stream_block,
  process_beacon_block_arrival, process_cl_beacon_block, publish_to_cl_topic,
  process_mum_beacon_block, handle_mum_message, process_mum_p2p_message,
}

module _ (z : Snappy) (fs : FastSsz) (xx_hash : Bytes → ℕ) (seen : TtlSet ℕ nat_key)
    (dedup : TtlSet Bytes text_key) (known : RwMap ℕ (ℕ × ℕ) nat_key)
    (accelerated : TtlSet ℕ nat_key) (types : GatewayTypes) where
  abbrev pub G : Type 0
  G = Gate z fs xx_hash seen dedup known accelerated types

  abbrev pub E : Type 0
  E = Env z fs xx_hash seen dedup known accelerated types

  abbrev pub stale : E → ℕ → Bool
  stale e slot = is_stale z fs xx_hash seen dedup known accelerated types e slot

  abbrev pub arrive :
      E → (topic msg : Bytes) → ℕ → Source → (origin upstream : Bytes) → G → G × ℕ × Bool
  arrive e topic msg recv_at source origin upstream g =
      process_beacon_block_arrival z fs xx_hash seen dedup known accelerated types e topic msg
        recv_at source origin upstream g

  abbrev pub handle_mum : E → P2pMessage → ℕ → TopicKind → G → G
  handle_mum e msg slot kind g =
      handle_mum_message z fs xx_hash seen dedup known accelerated types e msg slot kind g

  abbrev pub from_mum : E → P2pMessage → G → G
  from_mum e msg g = process_mum_p2p_message z fs xx_hash seen dedup known accelerated types e msg g

  abbrev pub from_cl : E → ClMessage → G → G
  from_cl e msg g = process_cl_beacon_block z fs xx_hash seen dedup known accelerated types e msg g

  abbrev pub routed : E → ℕ → Bool
  routed e slot =
      forward_to_clp2p known accelerated types e.router e.manager e.now beacon_block slot

  arrival-err :
      (e : E) (topic msg : Bytes) (recv_at : ℕ) (source : Source) (origin upstream : Bytes) (g : G)
      (x : BlockError)
      → decode_block_header z fs msg ≡ err x
      → arrive e topic msg recv_at source origin upstream g
        ≡ (record g { last_block_received_at = recv_at }, 0, false)
  unfolding process_beacon_block_arrival
  arrival-err e topic msg recv_at source origin upstream g x h = ground (arith, h)

  -- What an arrival changes, but for the stream and the measures.
  abbrev pub Arrives : E → G → SignedBeaconBlockHeader → G × ℕ × Bool → Type 0
  Arrives e g b out =
      (out.1 ≡ b.header.slot)
      × (out.2 ≡ not (stale e b.header.slot))
      × (out.0.to_cl ≡ g.to_cl)
      × (out.0.to_mum ≡ g.to_mum)
      × (out.0.messages_map ≡ g.messages_map)

  arrival-ok :
      (e : E) (topic msg : Bytes) (recv_at : ℕ) (source : Source) (origin upstream : Bytes) (g : G)
      (b : SignedBeaconBlockHeader)
      → decode_block_header z fs msg ≡ ok b
      → Arrives e g b (arrive e topic msg recv_at source origin upstream g)
  unfolding process_beacon_block_arrival stream_block
  arrival-ok e topic msg recv_at source origin upstream g b h = (
    ground (arith, h),
    ground (arith, h),
    ground (arith, h),
    ground (arith, h),
    ground (arith, h),
  )

  -- What a block from the mesh does once it arrived fresh and from another node.
  handle_mum-block :
      (e : E) (msg : P2pMessage) (slot : ℕ) (g : G)
      → text_eq msg.source_node_id e.node_id ≡ false
      → let out = handle_mum e msg slot beacon_block g in
        let free = not (seen.get g.messages_map e.now (xx_hash msg.message)) in
        (out.to_cl ≡ (
          if free && e.propagation_enabled && routed e slot && e.subscribed msg.topic
          then g.to_cl ++ ((msg.topic, msg.message) ∷ [])
          else g.to_cl))
        × (out.to_mum ≡ g.to_mum)
        × (out.messages_map ≡ (
            if free then seen.put g.messages_map e.now (xx_hash msg.message) else g.messages_map))
  unfolding handle_mum_message process_mum_beacon_block publish_to_cl_topic is_duplicate_message
  handle_mum-block e msg slot g other =
      (ground (arith, other), ground (arith, other), ground (arith, other))

  -- Its decision, for a block of a slot.
  abbrev pub passes : E → P2pMessage → G → ℕ → Bool
  passes e msg g slot =
      not (text_eq msg.source_node_id e.node_id)
      && (not (stale e slot)
          && (not (seen.get g.messages_map e.now (xx_hash msg.message))
              && (e.propagation_enabled && (routed e slot && e.subscribed msg.topic))))

  handle_mum_self :
      (e : E) (msg : P2pMessage) (slot : ℕ) (kind : TopicKind) (g : G)
      → text_eq msg.source_node_id e.node_id ≡ true
      → handle_mum e msg slot kind g ≡ g
  unfolding handle_mum_message
  handle_mum_self e msg slot kind g self = ground (arith, self)

  from_mum-block :
      (e : E) (msg : P2pMessage) (g : G)
      → (parse_topic_meta msg.topic).kind ≡ beacon_block
      → from_mum e msg g ≡ (
          let out =
            arrive e msg.topic msg.message
              (e.now / 1000000)
              mum_p2p
              msg.source_node_id
              msg.upstream_peer_id
              g in
          if text_eq msg.source_node_id e.node_id && e.skip_messages_from_self
          then g
          else (if out.2 then handle_mum e msg out.1 beacon_block out.0 else out.0))
  unfolding process_mum_p2p_message
  from_mum-block e msg g k = ground (arith, k)

  pub from_mum-err :
      (e : E) (msg : P2pMessage) (g : G) (x : BlockError)
      → (parse_topic_meta msg.topic).kind ≡ beacon_block
      → decode_block_header z fs msg.message ≡ err x
      → ((from_mum e msg g).to_cl ≡ g.to_cl) × ((from_mum e msg g).messages_map ≡ g.messages_map)
  unfolding process_mum_p2p_message
  from_mum-err e msg g x k h =
      let a =
        arrival-err e msg.topic msg.message (e.now / 1000000) mum_p2p msg.source_node_id
          msg.upstream_peer_id g x h in
      (ground (arith, k, a), ground (arith, k, a))

  pub from_mum-ok :
      (e : E) (msg : P2pMessage) (g : G) (b : SignedBeaconBlockHeader)
      → (parse_topic_meta msg.topic).kind ≡ beacon_block
      → decode_block_header z fs msg.message ≡ ok b
      → ((from_mum e msg g).to_cl ≡ (
          if passes e msg g b.header.slot
          then g.to_cl ++ ((msg.topic, msg.message) ∷ [])
          else g.to_cl))
        × ((from_mum e msg g).messages_map ≡ (
            if not (text_eq msg.source_node_id e.node_id)
              && (not (stale e b.header.slot)
                  && not (seen.get g.messages_map e.now (xx_hash msg.message)))
            then seen.put g.messages_map e.now (xx_hash msg.message)
            else g.messages_map))
  from_mum-ok e msg g b k h =
      let out =
        arrive e msg.topic msg.message (e.now / 1000000) mum_p2p msg.source_node_id
          msg.upstream_peer_id g in
      let a =
        arrival-ok e msg.topic msg.message (e.now / 1000000) mum_p2p msg.source_node_id
          msg.upstream_peer_id g b h in
      let steps = from_mum-block e msg g k in
      elim (Bool-cases (text_eq msg.source_node_id e.node_id)) [
        | inl self ↦
            let own = handle_mum_self e msg out.1 beacon_block out.0 self in
            (ground (arith, steps, self, own, a), ground (arith, steps, self, own, a))
        | inr other ↦
            let sent = handle_mum-block e msg out.1 out.0 other in
            (ground (arith, steps, other, sent, a), ground (arith, steps, other, sent, a))
      ]

  pub from_cl-ok :
      (e : E) (msg : ClMessage) (g : G) (b : SignedBeaconBlockHeader)
      → decode_block_header z fs msg.message ≡ ok b
      → ((from_cl e msg g).to_mum ≡ (
          if not (stale e b.header.slot)
            && (not (seen.get g.messages_map e.now (xx_hash msg.message))
                && (e.has_node && e.mum_publishes))
          then g.to_mum ++ ((msg.topic, msg.message) ∷ [])
          else g.to_mum))
        × ((from_cl e msg g).to_cl ≡ g.to_cl)
        × ((from_cl e msg g).messages_map ≡ (
            if not (stale e b.header.slot)
              && not (seen.get g.messages_map e.now (xx_hash msg.message))
            then seen.put g.messages_map e.now (xx_hash msg.message)
            else g.messages_map))
  unfolding process_cl_beacon_block is_duplicate_message
  from_cl-ok e msg g b h =
      let a =
        arrival-ok e msg.topic msg.message (e.now / 1000000) lib_p2p [] msg.received_from g b h in
      (ground (arith, a), ground (arith, a), ground (arith, a))

  pub arrival-emitted :
      (e : E) (topic msg : Bytes) (at : ℕ) (source : Source) (origin upstream : Bytes) (g : G)
      (b : SignedBeaconBlockHeader)
      → decode_block_header z fs msg ≡ ok b
      → (let out = (arrive e topic msg at source origin upstream g).0 in
          let fresh =
            e.streaming && not (dedup.get g.stream_dedup e.now (dedup_key source b.header)) in
          (out.emitted ≡ (
            if fresh
            then g.emitted
              ++ (event_of z fs xx_hash seen dedup known accelerated types e topic msg at source
                    b.header
                  ∷ [])
            else g.emitted))
          × (out.stream_dedup ≡ (
              if fresh
              then dedup.put g.stream_dedup e.now (dedup_key source b.header)
              else g.stream_dedup)))
  unfolding process_beacon_block_arrival stream_block
  arrival-emitted e topic msg at source origin upstream g b h =
      (ground (arith, h), ground (arith, h))
