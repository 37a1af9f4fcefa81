-- ===== src/Topics/TopicMeta.antt =====
-- pkg/protocol/topics/topic_meta.go.
use optimum_gateway.Base.{
  ℕ, ◌≡◌, refl, arith, if◌then◌else◌, none, some, ok, err, inl, inr, Option-cases, Bool-cases,
}
use optimum_gateway.Base.Wire.{Bytes}
use optimum_gateway.Base.Maps.{Key, RwMap}
use optimum_gateway.Utils.Text.{text_eq}
use optimum_gateway.Utils.Text.Laws.{text_eq_iff}
use optimum_gateway.Utils.Topics.{
  is_beacon_block_topic, is_attestation_topic, extract_attestation_topic_index,
}

pub data TopicKind : Type 0 where
  unknown beacon_block attestation : TopicKind

pub record TopicMeta : Type 0 where
  pub kind : TopicKind
  pub attestation_subnet : ℕ

instance abbrev pub text_key : Key Bytes
text_key = record { same = text_eq; same_iff = text_eq_iff }

-- `ParseTopicMeta`
unfoldable pub parse_topic_meta : Bytes → TopicMeta
parse_topic_meta full_topic =
    if is_beacon_block_topic full_topic
    then record { kind = beacon_block; attestation_subnet = 0 }
    else (if is_attestation_topic full_topic
        then elim (extract_attestation_topic_index full_topic) [
          | ok idx ↦ record { kind = attestation; attestation_subnet = idx }
          | err _ ↦ record { kind = unknown; attestation_subnet = 0 }
        ]
        else record { kind = unknown; attestation_subnet = 0 })

-- `TopicMetaFor`, over the cache of the package: the answer and the cache afterwards.
module _ (api : RwMap Bytes TopicMeta text_key) where
  unfoldable pub topic_meta_for : api.Map → Bytes → TopicMeta × api.Map
  topic_meta_for cache full_topic = elim (api.load cache full_topic) [
    | some meta ↦ (meta, cache)
    | none ↦ let parsed = parse_topic_meta full_topic in (parsed, api.store cache full_topic parsed)
  ]

  -- Every entry is what parsing its topic gives.
  abbrev pub IsFaithful : api.Map → Type 0
  IsFaithful cache =
      (t : Bytes) (m : TopicMeta) → api.load cache t ≡ some m → m ≡ parse_topic_meta t

  -- With a cache that holds only parsed entries, the cached lookup answers as parsing does, and
  -- leaves a cache that holds only parsed entries.
  topic_meta_for-parse :
      (cache : api.Map) (t : Bytes)
      → IsFaithful cache
      → ((topic_meta_for cache t).0 ≡ parse_topic_meta t) × IsFaithful (topic_meta_for cache t).1
  unfolding topic_meta_for
  topic_meta_for-parse cache t f = elim (Option-cases (api.load cache t)) [
    | inl e ↦ rw (e, topic_meta_for) (refl, kept)
    | inr (m, e) ↦ rw (e, topic_meta_for) (f t m e, f)
  ]
    where
      kept : IsFaithful (api.store cache t (parse_topic_meta t))
      kept j m h = elim (Bool-cases (text_eq t j)) [
        | inl p ↦
            let same : t ≡ j = (text_eq_iff t j).0 p in
            ground (arith, api.load-store cache t (parse_topic_meta t) j)
        | inr p ↦ f j m (ground (arith, api.load-store cache t (parse_topic_meta t) j))
      ]
