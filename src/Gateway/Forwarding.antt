-- ===== src/Gateway/Forwarding.antt =====
-- When a beacon block is forwarded and streamed (pkg/service/gossipsub-gateway): the handlers of
-- Blocks against conditions on the message and the state.
pub mod Steps
use optimum_gateway.Base.{
  ℕ, ◌+◌, ◌/◌, ◌%◌, ◌≡◌, ◌≤◌, ◌<◌, refl, sym, ap, ◌∙◌, subst, arith, inl, inr, ◌⊎◌, ◌↔◌, Bool-cases,
  Bool, true, false, not, ◌||◌, ◌&&◌, Option, none, some, Result, ok, err, List, [], ◌∷◌, ◌++◌,
  if◌then◌else◌, ltb, ◌==◌, length,
}
use optimum_gateway.Base.Wire.{Bytes}
use optimum_gateway.Base.Maps.{RwMap, TtlSet, nat_key}
use optimum_gateway.Utils.Snappy.{Snappy}
use optimum_gateway.Utils.Text.{codes, text_eq, show_decimal}
use optimum_gateway.Topics.TopicMeta.{
  TopicKind, TopicMeta, text_key, parse_topic_meta, beacon_block, attestation, unknown,
}
use optimum_gateway.Consensus.Block.{
  FastSsz, decode_block_header, BeaconBlockHeader, SignedBeaconBlockHeader,
}
use optimum_gateway.ChainState.{diff_uint64}
use optimum_gateway.AuthToken.{Manager}
use optimum_gateway.MessageRouter.{Router, GatewayTypes, forward_to_clp2p}
use optimum_gateway.StreamHub.{Source, lib_p2p, mum_p2p, BlockEvent}
use optimum_gateway.Bootstrapper.{
  BlockArrival, Identity, handle_beacon_block, record_mum_published_at,
}
use optimum_gateway.Gateway.{
  is_duplicate_message, process_cl_attestation, handle_aggregated_messages,
}
use optimum_gateway.Aggregator.{AggregateItem}
use optimum_gateway.Consensus.Block.{BlockError}
use optimum_gateway.Gateway.Blocks.{
  P2pMessage, ClMessage, Gate, Env, is_stale, event_of, dedup_key, stream_block,
  process_beacon_block_arrival, process_cl_beacon_block, publish_to_cl_topic,
  process_mum_beacon_block, handle_mum_message, process_mum_p2p_message,
}
use optimum_gateway.Gateway.Forwarding.Steps.{
  arrive, from_mum, from_cl, passes, from_mum-err, from_mum-ok, from_cl-ok, arrival-emitted,
}

module _ (z : Snappy) (fs : FastSsz) (xx_hash : Bytes → ℕ) (seen : TtlSet ℕ nat_key)
    (dedup : TtlSet Bytes text_key) (known : RwMap ℕ (ℕ × ℕ) nat_key)
    (accelerated : TtlSet ℕ nat_key) (types : GatewayTypes) where
  -- A block from the mesh that may go to the consensus client.
  abbrev pub IsForwardable :
      Env z fs xx_hash seen dedup known accelerated types
      → P2pMessage
      → Gate z fs xx_hash seen dedup known accelerated types
      → Type 0
  IsForwardable e msg g =
      (b : SignedBeaconBlockHeader) × (decode_block_header z fs msg.message ≡ ok b)
      × (text_eq msg.source_node_id e.node_id ≡ false)
      × (diff_uint64 b.header.slot e.current_slot ≤ 3)
      × (seen.get g.messages_map e.now (xx_hash msg.message) ≡ false)
      × (e.propagation_enabled ≡ true)
      × (forward_to_clp2p known accelerated types e.router e.manager e.now beacon_block
            b.header.slot
          ≡ true)
      × (e.subscribed msg.topic ≡ true)

  -- A beacon block from the mesh is published to the consensus client, once and under its topic, when
  -- it decodes, comes from another node, is at most three slots from the current one, was not handled
  -- before, propagation is on, the router lets its slot through, and the topic is subscribed; else
  -- nothing is published.
  pub process_mum_p2p_message_lem :
      (e : Env z fs xx_hash seen dedup known accelerated types) (msg : P2pMessage)
      (g : Gate z fs xx_hash seen dedup known accelerated types)
      → (parse_topic_meta msg.topic).kind ≡ beacon_block
      → (IsForwardable e msg g
          × ((process_mum_p2p_message z fs xx_hash seen dedup known accelerated types e msg g).to_cl
              ≡ g.to_cl ++ ((msg.topic, msg.message) ∷ [])))
        ⊎ ((IsForwardable e msg g → ⊥)
            × ((process_mum_p2p_message z fs xx_hash seen dedup known accelerated types e msg
                  g).to_cl
                ≡ g.to_cl))
  process_mum_p2p_message_lem e msg g k = by_header (decode_block_header z fs msg.message) refl
    where
      by_header :
          (o : Result BlockError SignedBeaconBlockHeader)
          → decode_block_header z fs msg.message ≡ o
          → (IsForwardable e msg g
              × ((from_mum z fs xx_hash seen dedup known accelerated types e msg g).to_cl
                  ≡ g.to_cl ++ ((msg.topic, msg.message) ∷ [])))
            ⊎ ((IsForwardable e msg g → ⊥)
                × ((from_mum z fs xx_hash seen dedup known accelerated types e msg g).to_cl
                    ≡ g.to_cl))
      by_header (err x) h = inr (
        λ w. absurd (cc (h, w.1)),
        (from_mum-err z fs xx_hash seen dedup known accelerated types e msg g x k h).0,
      )
      by_header (ok b) h =
          elim (Bool-cases
            (passes z fs xx_hash seen dedup known accelerated types e msg g b.header.slot)) [
              | inl y ↦ inl (
                (
                  b,
                  h,
                  ground (arith, y),
                  ground (arith, y),
                  ground (arith, y),
                  ground (arith, y),
                  ground (arith, y),
                  ground (arith, y),
                ),
                (from_mum-ok z fs xx_hash seen dedup known accelerated types e msg g b k h).0
                    ∙ rw y refl,
              )
              | inr n ↦ inr (
                λ w. let same : w.0 ≡ b = cc (w.1, h) in absurd (ground (arith, n, w, same)),
                (from_mum-ok z fs xx_hash seen dedup known accelerated types e msg g b k h).0
                    ∙ rw n refl,
              )
            ]

  -- A fresh block that a new message brought from one side is not sent back to that side when the
  -- same bytes come from the other one before the entry of the first message expires: first from the
  -- mesh, then from the consensus client, it is not published to the mesh; first from the consensus
  -- client, then from the mesh, it is not published to the consensus client.
  pub blocks-cross :
      (e e' : Env z fs xx_hash seen dedup known accelerated types) (mum : P2pMessage)
      (cl : ClMessage) (g : Gate z fs xx_hash seen dedup known accelerated types)
      (b : SignedBeaconBlockHeader)
      → mum.message ≡ cl.message
      → (parse_topic_meta mum.topic).kind ≡ beacon_block
      → decode_block_header z fs cl.message ≡ ok b
      → diff_uint64 b.header.slot e.current_slot ≤ 3
      → text_eq mum.source_node_id e.node_id ≡ false
      → seen.get g.messages_map e.now (xx_hash cl.message) ≡ false
      → e.now ≤ e'.now
      → e'.now < e.now + seen.ttl
      → (let first =
            process_mum_p2p_message z fs xx_hash seen dedup known accelerated types e mum g in
          (process_cl_beacon_block z fs xx_hash seen dedup known accelerated types e' cl
            first).to_mum
          ≡ first.to_mum)
        × (let first =
              process_cl_beacon_block z fs xx_hash seen dedup known accelerated types e cl g in
            (process_mum_p2p_message z fs xx_hash seen dedup known accelerated types e' mum
              first).to_cl
            ≡ first.to_cl)
  blocks-cross e e' mum cl g b same k h fresh other unseen l u =
      let decoded : decode_block_header z fs mum.message ≡ ok b =
        ap (decode_block_header z fs) same ∙ h in
      let hashes : xx_hash mum.message ≡ xx_hash cl.message = ap xx_hash same in
      let unseen' : seen.get g.messages_map e.now (xx_hash mum.message) ≡ false =
        ap (seen.get g.messages_map e.now) hashes ∙ unseen in
      let kept = seen.get-put_self g.messages_map e.now (xx_hash cl.message) e'.now l u in
      let after_mum : (from_mum z fs xx_hash seen dedup known accelerated types e mum
            g).messages_map
          ≡ seen.put g.messages_map e.now (xx_hash cl.message) =
        (from_mum-ok z fs xx_hash seen dedup known accelerated types e mum g b k decoded).1
        ∙ ground (arith, other, fresh, unseen', hashes) in
      let after_cl : (from_cl z fs xx_hash seen dedup known accelerated types e cl g).messages_map
          ≡ seen.put g.messages_map e.now (xx_hash cl.message) =
        (from_cl-ok z fs xx_hash seen dedup known accelerated types e cl g b h).2
        ∙ ground (arith, fresh, unseen) in
      let known_cl : seen.get
            (from_mum z fs xx_hash seen dedup known accelerated types e mum g).messages_map e'.now
            (xx_hash cl.message)
          ≡ true =
        ap (λ s. seen.get s e'.now (xx_hash cl.message)) after_mum ∙ kept in
      let known_mum : seen.get
            (from_cl z fs xx_hash seen dedup known accelerated types e cl g).messages_map e'.now
            (xx_hash mum.message)
          ≡ true =
        ap (λ s. seen.get s e'.now (xx_hash mum.message)) after_cl
        ∙ ap (seen.get (seen.put g.messages_map e.now (xx_hash cl.message)) e'.now) hashes
        ∙ kept in
      (
        (from_cl-ok z fs xx_hash seen dedup known accelerated types e' cl
              (from_mum z fs xx_hash seen dedup known accelerated types e mum g) b h).0
            ∙ ground (arith, known_cl),
        (from_mum-ok z fs xx_hash seen dedup known accelerated types e' mum
              (from_cl z fs xx_hash seen dedup known accelerated types e cl g) b k decoded).0
            ∙ ground (arith, known_mum),
      )

  -- The key of a block tells its source, slot, proposer and state root.
  dedup_key-same :
      (source : Source) (h h' : BeaconBlockHeader)
      → h'.slot ≡ h.slot
      → h'.proposer_index ≡ h.proposer_index
      → h'.state_root ≡ h.state_root
      → dedup_key source h' ≡ dedup_key source h
  unfolding dedup_key
  dedup_key-same source h h' s p r = rw (s, p, r) refl

  -- With a stream, a block that arrives when its source, slot, proposer and state root are not
  -- remembered is streamed as one event, flagged as stale exactly when its slot is more than three
  -- from the current one; another arrival from the same source with the same slot, proposer and
  -- state root is not streamed until the entry expires.
  pub arrival-streamed :
      (e e' : Env z fs xx_hash seen dedup known accelerated types) (topic msg topic' msg' : Bytes)
      (at at' : ℕ) (source : Source) (origin upstream origin' upstream' : Bytes)
      (g : Gate z fs xx_hash seen dedup known accelerated types) (b b' : SignedBeaconBlockHeader)
      → decode_block_header z fs msg ≡ ok b
      → decode_block_header z fs msg' ≡ ok b'
      → b'.header.slot ≡ b.header.slot
      → b'.header.proposer_index ≡ b.header.proposer_index
      → b'.header.state_root ≡ b.header.state_root
      → e.streaming ≡ true
      → dedup.get g.stream_dedup e.now (dedup_key source b.header) ≡ false
      → e.now ≤ e'.now
      → e'.now < e.now + dedup.ttl
      → (let first =
            (process_beacon_block_arrival z fs xx_hash seen dedup known accelerated types e topic
              msg at source origin upstream g).0 in
          let second =
            (process_beacon_block_arrival z fs xx_hash seen dedup known accelerated types e' topic'
              msg' at' source origin' upstream' first).0 in
          (ev : BlockEvent) × (first.emitted ≡ g.emitted ++ (ev ∷ []))
          × (ev.slot ≡ b.header.slot)
          × (ev.raw ≡ some msg)
          × ((ev.stale ≡ true) ↔ (3 < diff_uint64 b.header.slot e.current_slot))
          × (second.emitted ≡ first.emitted))
  unfolding event_of
  arrival-streamed e e' topic msg topic' msg' at at' source origin upstream origin' upstream' g b b'
        h h' slot proposer root on new l u =
      let kept = dedup.get-put_self g.stream_dedup e.now (dedup_key source b.header) e'.now l u in
      let key = dedup_key-same source b.header b'.header slot proposer root in
      let was =
        arrival-emitted z fs xx_hash seen dedup known accelerated types e topic msg at source origin
          upstream g b h in
      let put : (arrive z fs xx_hash seen dedup known accelerated types e topic msg at source origin
            upstream g).0.stream_dedup
          ≡ dedup.put g.stream_dedup e.now (dedup_key source b.header) =
        was.1 ∙ ground (arith, on, new) in
      let remembered : dedup.get
            (arrive z fs xx_hash seen dedup known accelerated types e topic msg at source origin
              upstream g).0.stream_dedup
            e'.now (dedup_key source b'.header)
          ≡ true =
        ap (λ s. dedup.get s e'.now (dedup_key source b'.header)) put
        ∙ ap (dedup.get (dedup.put g.stream_dedup e.now (dedup_key source b.header)) e'.now) key
        ∙ kept in
      (
        event_of z fs xx_hash seen dedup known accelerated types e topic msg at source b.header,
        was.0 ∙ ground (arith, on, new),
        refl,
        refl,
        (λ y. ground (arith, y), λ far. ground (arith, far)),
        (arrival-emitted z fs xx_hash seen dedup known accelerated types e' topic' msg' at' source
              origin' upstream' _ b' h').0
            ∙ ground (arith, remembered),
      )
