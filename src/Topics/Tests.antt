-- ===== src/Topics/Tests.antt =====
-- The theorems on topics at concrete topics.
use optimum_gateway.Base.{◌≡◌, refl}
use optimum_gateway.Base.Maps.{RwMap, assoc_map}
use optimum_gateway.Base.Wire.{Bytes}
use optimum_gateway.Utils.Text.{codes, lower_byte}
use optimum_gateway.Utils.Topics.{beacon_block_base}
use optimum_gateway.Topics.EthTopics.{build_full_topic, get_fork_digest_from_topic, all_bytes}
use optimum_gateway.Topics.TopicMeta.{TopicMeta, text_key}
use optimum_gateway.Topics.Digest.{get_fork_digest-build_full_topic}

abbrev digest : Bytes
digest = codes "C6ecb76c"

get_fork_digest-build_full_topic_example :
    get_fork_digest_from_topic (build_full_topic digest beacon_block_base) ≡ codes "c6ecb76c"
unfolding all_bytes lower_byte
get_fork_digest-build_full_topic_example = (get_fork_digest-build_full_topic digest refl refl).1

abbrev metas : RwMap Bytes TopicMeta text_key
metas = assoc_map Bytes TopicMeta text_key
