-- ===== src/Utils/Topics.antt =====
-- pkg/utils/topics.go, less `ParseAttestationSSZTopic`. A topic is the list of its bytes.
pub mod Index
use optimum_gateway.Base.{
  ℕ, zero, suc, ◌+◌, List, [], ◌∷◌, ◌++◌, arith, Bool, true, false, ◌||◌, ltb, if◌then◌else◌,
  Option, none, some, Result, ok, err, guard, or_fail, ◌>>=◌, ◌>>◌, take, drop, slice,
}
use optimum_gateway.Base.Wire.{Bytes}
use optimum_gateway.Utils.Text.{
  NumError, codes, contains, last_index_byte, parse_uint, show_decimal,
}

abbrev pub beacon_block_base : Bytes
beacon_block_base = codes "beacon_block"

abbrev pub beacon_attestation_base : Bytes
beacon_attestation_base = codes "beacon_attestation"

abbrev pub attestation_subnet_count : ℕ
attestation_subnet_count = 64

unfoldable pub is_beacon_block_topic : Bytes → Bool
is_beacon_block_topic topic = contains beacon_block_base topic

unfoldable pub is_attestation_topic : Bytes → Bool
is_attestation_topic topic = contains (codes "beacon_attestation_") topic

-- The names of the subnets from `i` on, `n` of them.
unfoldable pub subnet_topics : ℕ → ℕ → List Bytes
subnet_topics zero i = []
subnet_topics (suc n) i = (codes "beacon_attestation_" ++ show_decimal i) ∷ subnet_topics n (suc i)

-- The loop of `UnpackTopics`.
unfoldable pub unpack_each : List Bytes → List Bytes
unfolding is_beacon_block_topic is_attestation_topic subnet_topics
unpack_each [] = []
unpack_each (topic ∷ rest) =
    (if is_beacon_block_topic topic || is_attestation_topic topic
      then topic ∷ []
      else (if contains beacon_attestation_base topic
          then subnet_topics attestation_subnet_count 0
          else topic ∷ []))
    ++ unpack_each rest

-- `UnpackTopics`; `UniqueComparable` of optimum-common is a parameter.
unfoldable pub unpack_topics : (List Bytes → List Bytes) → List Bytes → List Bytes
unpack_topics unique topics = unique (unpack_each topics)

unfoldable pub simplify_topic : Bytes → Bytes
simplify_topic topic =
    if is_beacon_block_topic topic
    then beacon_block_base
    else (if is_attestation_topic topic then beacon_attestation_base else topic)

pub data TopicError : Type 0 where
  invalid_format : TopicError
  bad_number : NumError → TopicError
  index_out_of_range : ℕ → TopicError

abbrev pub from_num {ℓ} : {A : Type ℓ} → Result NumError A → Result TopicError A
from_num (ok a) = ok a
from_num (err e) = err (bad_number e)

-- `ExtractAttestationTopicIndex`
unfoldable pub extract_attestation_topic_index : Bytes → Result TopicError ℕ
extract_attestation_topic_index s = do
  end ← or_fail (last_index_byte s b'/') invalid_format
  start ← or_fail (last_index_byte (slice 0 end s) b'_') invalid_format
  n ← from_num (parse_uint (slice (start + 1) end s))
  guard (ltb n attestation_subnet_count) (index_out_of_range n)
  ok n
