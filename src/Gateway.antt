-- ===== src/Gateway.antt =====
-- pkg/service/gossipsub-gateway: duplicates, attestations from the consensus client
-- (messages_proxy.go), and what comes out of an aggregated message
-- (messages_proxy_aggregated.go). A publish is its topic and payload; whether it succeeds is not
-- looked at afterwards. Parameters: XXHash, the set of seen hashes, the subscribed topics.
pub mod Publish
pub mod Handshake
pub mod Blocks
pub mod Forwarding
mod Tests
mod BlockTests
use optimum_gateway.Base.{
  ℕ, Bool, true, false, not, Option, none, some, Result, ok, err, List, [], ◌∷◌, ◌++◌,
  if◌then◌else◌, ◌≡◌, ◌≤◌, ◌<◌, ◌+◌, refl,
}
use optimum_gateway.Base.Wire.{Bytes}
use optimum_gateway.Base.Maps.{RwMap, TtlSet, nat_key}
use optimum_gateway.Utils.Snappy.{Snappy}
use optimum_gateway.Topics.TopicMeta.{TopicMeta, attestation, parse_topic_meta}
use optimum_gateway.Consensus.Codec.{decode_gossip}
use optimum_gateway.Consensus.Codec.Instances.{single_ssz}
use optimum_gateway.AuthToken.{Manager}
use optimum_gateway.MessageRouter.{Router, GatewayTypes, forward_to_mump2p, forward_to_clp2p}
use optimum_gateway.Aggregator.{AggregateItem}
use optimum_gateway.Aggregator.Packing.{is_attestation}

module _ (z : Snappy) (xx_hash : Bytes → ℕ) (seen : TtlSet ℕ nat_key)
    (known : RwMap ℕ (ℕ × ℕ) nat_key) (accelerated : TtlSet ℕ nat_key) (types : GatewayTypes) where
  -- `isDuplicateMessage` at a time: the answer and the set afterwards.
  unfoldable pub is_duplicate_message : seen.Set → ℕ → Bytes → Bool × seen.Set
  is_duplicate_message s now message =
      if seen.get s now (xx_hash message)
      then (true, s)
      else (false, seen.put s now (xx_hash message))

  -- `processCLAttestation`: the item that is enqueued, if any, and the set afterwards.
  unfoldable pub process_cl_attestation :
      seen.Set
      → Router known accelerated
      → Manager
      → ℕ
      → ℕ
      → Bytes
      → TopicMeta
      → Bytes
      → Option AggregateItem × seen.Set
  unfolding is_duplicate_message
  process_cl_attestation s r m now slot_now topic meta message =
      let (duplicate, s') = is_duplicate_message s now message in
      if duplicate
      then (none, s')
      else (if not (forward_to_mump2p known accelerated types z r m now slot_now meta.kind message)
          then (none, s')
          else (some (record { topic = topic; meta = some meta; payload = message }), s'))

  -- The inner loop of `handleAggregatedMessages`: what is published under one topic.
  unfoldable pub expand_topic :
      Router known accelerated
      → Manager
      → ℕ
      → Bytes
      → List Bytes
      → seen.Set
      → List (Bytes × Bytes) × seen.Set
  unfolding is_duplicate_message
  expand_topic r m now topic [] s = ([], s)
  expand_topic r m now topic (message ∷ messages) s =
      let (duplicate, s') = is_duplicate_message s now message in
      let (published, s'') = expand_topic r m now topic messages s' in
      if duplicate
      then (published, s'')
      else (if not (forward_to_clp2p known accelerated types r m now attestation 0)
          then (published, s'')
          else elim (decode_gossip z single_ssz message) [
            | err e ↦ (published, s'')
            | ok a ↦ ((topic, message) ∷ published, s'')
          ])

  -- The outer loop, over the topics in the order in which `range` visits them.
  unfoldable pub expand_topics :
      (Bytes → Bool)
      → Router known accelerated
      → Manager
      → ℕ
      → List (Bytes × List Bytes)
      → seen.Set
      → List (Bytes × Bytes) × seen.Set
  unfolding expand_topic
  expand_topics subscribed r m now [] s = ([], s)
  expand_topics subscribed r m now ((topic, messages) ∷ rest) s =
      let (published, s') = expand_topic r m now topic messages s in
      let (later, s'') = expand_topics subscribed r m now rest s' in
      let (skipped, s0) = expand_topics subscribed r m now rest s in
      if not (subscribed topic)
      then (skipped, s0)
      else (if not (is_attestation (some (parse_topic_meta topic)))
          then (skipped, s0)
          else (published ++ later, s''))

  -- `handleAggregatedMessages` of what the message was decoded to, with the switch of the
  -- configuration that lets messages through.
  unfoldable pub handle_aggregated_messages :
      {E : Type 0}
      → (Bytes → Bool)
      → Bool
      → Router known accelerated
      → Manager
      → ℕ
      → Result E (List (Bytes × List Bytes))
      → seen.Set
      → List (Bytes × Bytes) × seen.Set
  unfolding expand_topics
  handle_aggregated_messages subscribed enabled r m now (err e) s = ([], s)
  handle_aggregated_messages subscribed enabled r m now (ok decoded) s =
      if not enabled then ([], s) else expand_topics subscribed r m now decoded s
