-- ===== src/Aggregator/Packing.antt =====
-- pkg/service/aggregator/attestation_packer.go. Parameters: snappy, the hash function XXHash, and
-- the protobuf codec (`Proto`); the order in which `range` visits a map is an argument.
use optimum_gateway.Base.{
  ℕ, ◌≡◌, Bool, true, false, Option, none, some, Result, ok, err, guard, ◌>>=◌, ◌>>◌, or_fail, List,
  [], ◌∷◌, ◌++◌, if◌then◌else◌, ltb, ◌==◌, length,
}
use optimum_gateway.Base.Wire.{Bytes}
use optimum_gateway.Base.Maps.{nat_key, assoc_load}
use optimum_gateway.Base.Groups.{append_at, or_nil, count}
use optimum_gateway.Forks.{is_some, or_empty}
use optimum_gateway.Utils.Snappy.{Snappy}
use optimum_gateway.Utils.Text.{show_decimal, codes}
use optimum_gateway.Utils.Topics.{attestation_subnet_count}
use optimum_gateway.Topics.EthTopics.{build_full_topic}
use optimum_gateway.Topics.TopicMeta.{TopicMeta, attestation, unknown, beacon_block, text_key}
use optimum_gateway.Consensus.Attestation.{AttestationData, SingleAttestation, signature_size}
use optimum_gateway.Consensus.Codec.{encode_gossip, decode_gossip, CodecError}
use optimum_gateway.Consensus.Codec.Instances.{single_ssz, data_ssz}

pub record AttestationItem : Type 0 where
  pub committee_id : ℕ
  pub attester_index : ℕ
  pub topic_index : ℕ
  pub signature : Bytes

pub record AttestationPack : Type 0 where
  pub attestation_ssz_data : Bytes
  pub items : List AttestationItem
  pub send_ts_ms : ℕ

-- The protobuf codec of a message type: what was marshaled is unmarshaled.
pub record Proto (A : Type 0) : Type 0 where
  pub marshal : A → Option Bytes
  pub unmarshal : Bytes → Option A
  pub unmarshal-marshal : (m : A) (b : Bytes) → marshal m ≡ some b → unmarshal b ≡ some m

pub record Packer : Type 0 where
  pub encoded_data : List (ℕ × Bytes)
  pub encoded_attestations : List (ℕ × List AttestationItem)

pub data PackError : Type 0 where
  not_attestation : PackError
  codec_failed : CodecError → PackError
  proto_failed : PackError
  bad_topic_index bad_signature_length : ℕ → PackError

abbrev pub from_codec : {A : Type 0} → Result CodecError A → Result PackError A
from_codec (ok a) = ok a
from_codec (err e) = err (codec_failed e)

abbrev pub is_attestation : Option TopicMeta → Bool
is_attestation none = false
is_attestation (some m) = elim m.kind [
  | unknown ↦ false
  | beacon_block ↦ false
  | attestation ↦ true
]

abbrev pub subnet_of : Option TopicMeta → ℕ
subnet_of none = 0
subnet_of (some m) = m.attestation_subnet

abbrev pub prefix_packer : Bytes
prefix_packer = 0 ∷ 8 ∷ []

-- `NewAttestationPacker`, and what `Clean` leaves.
unfoldable pub clean : Packer
clean = record { encoded_data = []; encoded_attestations = [] }

-- `TotalItems`
unfoldable pub total_items : Packer → ℕ
total_items p = count nat_key p.encoded_attestations

-- `UniqueDataKeys`
unfoldable pub unique_data_keys : Packer → ℕ
unique_data_keys p = length p.encoded_data

unfoldable pub item_of : SingleAttestation → ℕ → AttestationItem
item_of a subnet = record {
  committee_id = a.committee_index;
  attester_index = a.attester_index;
  topic_index = subnet;
  signature = a.signature;
}

-- The attestation of an item of a pack.
unfoldable pub attestation_of : AttestationData → AttestationItem → SingleAttestation
attestation_of content item = record {
  committee_index = item.committee_id;
  attester_index = item.attester_index;
  content = content;
  signature = item.signature;
}

-- The topic that an item is delivered under.
unfoldable pub topic_of : Bytes → AttestationItem → Bytes
topic_of digest item =
    build_full_topic digest (codes "beacon_attestation_" ++ show_decimal item.topic_index)

module _ (z : Snappy) where
  -- `Add`; on an error nothing was stored.
  unfoldable pub add : (Bytes → ℕ) → Packer → Option TopicMeta → Bytes → Result PackError Packer
  unfolding item_of
  add xx_hash p meta message = do
    guard (is_attestation meta) not_attestation
    a ← from_codec (decode_gossip z single_ssz message)
    encoded ← from_codec (encode_gossip z data_ssz a.content)
    ok (record {
      encoded_data =
          (if is_some (assoc_load nat_key p.encoded_data (xx_hash encoded))
            then p.encoded_data
            else p.encoded_data ++ ((xx_hash encoded, encoded) ∷ []));
      encoded_attestations =
          append_at nat_key (xx_hash encoded) (item_of a (subnet_of meta)) p.encoded_attestations;
    })

  -- The checks and the encoding that `Decode` does for one item.
  unfoldable pub decode_item : AttestationData → AttestationItem → Result PackError Bytes
  unfolding attestation_of
  decode_item content item = do
    guard (ltb item.topic_index attestation_subnet_count) (bad_topic_index item.topic_index)
    guard (length item.signature == signature_size) (bad_signature_length (length item.signature))
    from_codec (encode_gossip z single_ssz (attestation_of content item))

  -- The loop of `Decode`: the messages by topic.
  unfoldable pub decode_items :
      Bytes
      → AttestationData
      → List AttestationItem
      → List (Bytes × List Bytes)
      → Result PackError (List (Bytes × List Bytes))
  unfolding decode_item topic_of
  decode_items digest content [] result = ok result
  decode_items digest content (item ∷ items) result = do
    res ← decode_item content item
    decode_items digest content items (append_at text_key (topic_of digest item) res result)

  module _ (proto : Proto AttestationPack) where
    -- `Decode`
    unfoldable pub decode : Bytes → Bytes → Result PackError (List (Bytes × List Bytes))
    unfolding decode_items
    decode digest payload = do
      pack ← or_fail (proto.unmarshal payload) proto_failed
      content ← from_codec (decode_gossip z data_ssz pack.attestation_ssz_data)
      decode_items digest content pack.items []

module _ (proto : Proto AttestationPack) where
  -- `EncodeCurrent` at a time, where `range` visits the keys in the order given.
  unfoldable pub encode_current : Packer → ℕ → List ℕ → Option (List Bytes)
  encode_current p now_ms [] = some []
  encode_current p now_ms (id ∷ ids) =
      let rest = encode_current p now_ms ids in
      elim (proto.marshal (record {
        attestation_ssz_data = or_empty (assoc_load nat_key p.encoded_data id);
        items = or_nil (assoc_load nat_key p.encoded_attestations id);
        send_ts_ms = now_ms;
      })) [
        | none ↦ none
        | some blob ↦ elim rest [
          | none ↦ none
          | some result ↦ some ((prefix_packer ++ blob) ∷ result)
        ]
      ]
