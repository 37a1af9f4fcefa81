-- ===== src/Gateway/Publish.antt =====
-- What the gateway publishes to the consensus client of an aggregated message, and duplicates.
use optimum_gateway.Base.{
  ℕ, ◌+◌, ◌≤◌, ◌<◌, ◌≡◌, refl, Bool, true, false, not, some, Result, ok, err, List, [], ◌∷◌, ◌++◌,
  Each, Bool-cases, inl, inr,
}
use optimum_gateway.Base.Wire.{Bytes}
use optimum_gateway.Base.Maps.{RwMap, TtlSet, nat_key}
use optimum_gateway.Utils.Snappy.{Snappy}
use optimum_gateway.Topics.TopicMeta.{attestation, parse_topic_meta}
use optimum_gateway.Consensus.Attestation.{SingleAttestation}
use optimum_gateway.Consensus.Codec.{decode_gossip, CodecError}
use optimum_gateway.Consensus.Codec.Instances.{single_ssz}
use optimum_gateway.AuthToken.{Manager}
use optimum_gateway.MessageRouter.{Router, GatewayTypes, forward_to_clp2p}
use optimum_gateway.Aggregator.Packing.{is_attestation}
use optimum_gateway.Gateway.{is_duplicate_message, expand_topic, expand_topics}

-- A publish under a subscribed attestation topic, of a payload that decodes to an attestation.
abbrev pub IsPublishable : Snappy → (Bytes → Bool) → Bytes × Bytes → Type 0
IsPublishable z subscribed p =
    (subscribed p.0 ≡ true)
    × (is_attestation (some (parse_topic_meta p.0)) ≡ true)
    × (a : SingleAttestation) × (decode_gossip z single_ssz p.1 ≡ ok a)

Each-append :
    {A : Type 0} (P : A → Type 0) (xs ys : List A) → Each P xs → Each P ys → Each P (xs ++ ys)
Each-append P [] ys p q = q
Each-append P (x ∷ xs) ys p q = (p.0, Each-append P xs ys p.1 q)

module _ (z : Snappy) (xx_hash : Bytes → ℕ) (seen : TtlSet ℕ nat_key)
    (known : RwMap ℕ (ℕ × ℕ) nat_key) (accelerated : TtlSet ℕ nat_key) (types : GatewayTypes) where
  -- A message that was just handled is a duplicate until its entry expires.
  is_duplicate_message-again :
      (s : seen.Set) (at now : ℕ) (message : Bytes)
      → seen.get s at (xx_hash message) ≡ false
      → at ≤ now
      → now < at + seen.ttl
      → ((is_duplicate_message z xx_hash seen known accelerated types s at message).0 ≡ false)
        × ((is_duplicate_message z xx_hash seen known accelerated types
              (is_duplicate_message z xx_hash seen known accelerated types s at message).1
              now
              message).0
            ≡ true)
  unfolding is_duplicate_message
  is_duplicate_message-again s at now message h l u =
      (rw h refl, rw (h, seen.get-put_self s at (xx_hash message) now l u) refl)

  expand_topic-Each :
      (subscribed : Bytes → Bool) (r : Router known accelerated) (m : Manager) (now : ℕ)
      (topic : Bytes) (messages : List Bytes) (s : seen.Set)
      → subscribed topic ≡ true
      → is_attestation (some (parse_topic_meta topic)) ≡ true
      → Each
          (IsPublishable z subscribed)
          (expand_topic z xx_hash seen known accelerated types r m now topic messages s).0
  unfolding expand_topic
  expand_topic-Each subscribed r m now topic [] s y k = tt
  expand_topic-Each subscribed r m now topic (message ∷ messages) s y k =
      let answer = is_duplicate_message z xx_hash seen known accelerated types s now message in
      let rest = expand_topic-Each subscribed r m now topic messages answer.1 y k in
      elim (Bool-cases answer.0) [
        | inl d ↦ rw d rest
        | inr d ↦
            elim (Bool-cases
              (not (forward_to_clp2p known accelerated types r m now attestation 0))) [
                | inl f ↦ rw (d, f) rest
                | inr f ↦ by_decode d f rest (decode_gossip z single_ssz message) refl
              ]
      ]
    where
      by_decode :
          (is_duplicate_message z xx_hash seen known accelerated types s now message).0 ≡ false
          → not (forward_to_clp2p known accelerated types r m now attestation 0) ≡ false
          → Each
              (IsPublishable z subscribed)
              (expand_topic z xx_hash seen known accelerated types r m now topic messages
                (is_duplicate_message z xx_hash seen known accelerated types s now message).1).0
          → (o : Result CodecError SingleAttestation) → decode_gossip z single_ssz message ≡ o
          → Each
              (IsPublishable z subscribed)
              (expand_topic z xx_hash seen known accelerated types r m now topic
                (message ∷ messages)
                s).0
      by_decode d f rest (err e) q = rw (d, f, q) rest
      by_decode d f rest (ok a) q = rw (d, f, q) ((y, k, a, q), rest)

  -- Whatever an aggregated message was decoded to, only payloads that decode to an attestation are
  -- published, under subscribed attestation topics.
  pub expand_topics-Each :
      (subscribed : Bytes → Bool) (r : Router known accelerated) (m : Manager) (now : ℕ)
      (decoded : List (Bytes × List Bytes)) (s : seen.Set)
      → Each
          (IsPublishable z subscribed)
          (expand_topics z xx_hash seen known accelerated types subscribed r m now decoded s).0
  unfolding expand_topics
  expand_topics-Each subscribed r m now [] s = tt
  expand_topics-Each subscribed r m now ((topic, messages) ∷ rest) s =
      let after =
        (expand_topic z xx_hash seen known accelerated types r m now topic messages s).1 in
      let skipped = expand_topics-Each subscribed r m now rest s in
      let later = expand_topics-Each subscribed r m now rest after in
      elim (Bool-cases (subscribed topic)) [
        | inr n ↦ rw n skipped
        | inl y ↦ elim (Bool-cases (is_attestation (some (parse_topic_meta topic)))) [
          | inr n ↦ rw (y, n) skipped
          | inl k ↦
              rw (y, k)
                (Each-append (IsPublishable z subscribed) _ _
                  (expand_topic-Each subscribed r m now topic messages s y k) later)
        ]
      ]
