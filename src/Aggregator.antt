-- ===== src/Aggregator.antt =====
-- pkg/service/aggregator/aggregator.go. The channel and the tickers are a sequence of events;
-- what `EmitAggregatedMessage` is called with is a list of payloads. Times are as in ChainState.
pub mod Packing
pub mod Delivery
pub mod Gate
pub mod Loop
mod Tests
use optimum_gateway.Base.{
  ℕ, suc, ◌+◌, ◌-◌, ◌*◌, ◌/◌, ◌≡◌, Bool, true, false, not, ◌&&◌, ◌||◌, Option, none, some, Result,
  ok, err, guard, ◌>>=◌, ◌>>◌, or_fail, List, [], ◌∷◌, ◌++◌, if◌then◌else◌, ltb, leb, ◌==◌, length,
  drop,
}
use optimum_gateway.Base.Wire.{Bytes}
use optimum_gateway.Base.Maps.{assoc_load}
use optimum_gateway.Base.Groups.{append_at, append_all, or_nil, count}
use optimum_gateway.Utils.Snappy.{Snappy}
use optimum_gateway.Utils.Text.{has_prefix}
use optimum_gateway.Topics.TopicMeta.{TopicMeta, text_key}
use optimum_gateway.ChainState.{slot_at, slot_start_time, unix}
use optimum_gateway.Aggregator.Packing.{
  Packer, PackError, AttestationPack, Proto, add, decode, encode_current, clean, is_attestation,
  prefix_packer,
}

abbrev pub prefix_naive : Bytes
prefix_naive = 0 ∷ 7 ∷ []

-- The protobuf message `Msg`; a container is a topic with its messages.
pub record Msg : Type 0 where
  pub tms : ℕ
  pub container : List (Bytes × List Bytes)

pub record AggregateItem : Type 0 where
  pub topic : Bytes
  pub meta : Option TopicMeta
  pub payload : Bytes  -- `Data`

-- The local variables of `loop`, and the packer.
pub record Aggregator : Type 0 where
  pub packer : Packer
  pub by_topic : List (Bytes × List Bytes)
  pub failed_attempts : ℕ

-- `currentInterval` in milliseconds: of no configuration, or of one with an interval.
unfoldable pub current_interval : Option ℕ → ℕ
current_interval none = 25
current_interval (some d) = if ltb 0 d then d else 25

-- `Time.UnixMilli`, of a time since 1970.
unfoldable pub unix_milli : ℕ → ℕ
unfolding unix
unix_milli t = (t - unix 0) / 1000000

abbrev pub block_seen_publish_delay : ℕ
block_seen_publish_delay = 2000

-- `GetAttestationPublishGate` and `GetAttestationPublishCap`, in nanoseconds.
abbrev pub attestation_publish_gate : ℕ
attestation_publish_gate = 4000000000

abbrev pub attestation_publish_cap : ℕ
attestation_publish_cap = 8000000000

-- `shouldHoldForSlotGate`: whether there is a configuration, the genesis time, the time, and the
-- time in milliseconds at which the last block was received, 0 for none.
unfoldable pub should_hold_for_slot_gate : Bool → ℕ → ℕ → ℕ → Bool
unfolding unix_milli
should_hold_for_slot_gate configured genesis now last_block_ms =
    let slot_start = slot_start_time genesis (slot_at genesis now) in
    let should_emit =
      if ltb 0 last_block_ms && ltb (unix_milli slot_start) last_block_ms
      then leb (last_block_ms + block_seen_publish_delay) (unix_milli now)
      else leb (unix_milli (slot_start + attestation_publish_gate)) (unix_milli now) in
    if not configured
    then false
    else (if not should_emit then true else leb attestation_publish_cap (now - slot_start))

-- The loop of `DecodeAggregatedMessage` over the containers of a naive message.
unfoldable pub unpack_containers :
    List (Bytes × List Bytes) → List (Bytes × List Bytes) → List (Bytes × List Bytes)
unpack_containers [] result = result
unpack_containers ((topic, batch) ∷ rest) result =
    unpack_containers rest (append_all text_key topic batch result)

-- The containers of a message: the batches of the topics in the order in which `range` visits
-- them, less the empty ones.
unfoldable pub containers_of : List (Bytes × List Bytes) → List Bytes → List (Bytes × List Bytes)
containers_of by_topic [] = []
containers_of by_topic (t ∷ ts) =
    let rest = containers_of by_topic ts in
    let batch = or_nil (assoc_load text_key by_topic t) in
    if length batch == 0 then rest else (t, batch) ∷ rest

-- What is left of the topics after their batches were taken: those with empty ones.
unfoldable pub left_over : List (Bytes × List Bytes) → List (Bytes × List Bytes)
left_over [] = []
left_over ((t, batch) ∷ m) =
    let rest = left_over m in if length batch == 0 then (t, batch) ∷ rest else rest

module _ (z : Snappy) (packs : Proto AttestationPack) (msgs : Proto Msg) where
  -- `DecodeAggregatedMessage`
  pub data DecodeError : Type 0 where
    pack_failed : PackError → DecodeError
    naive_failed no_prefix : DecodeError

  unfoldable pub decode_aggregated_message :
      Bytes → Bytes → Result DecodeError (List (Bytes × List Bytes))
  unfolding unpack_containers
  decode_aggregated_message digest payload =
      if has_prefix prefix_packer payload
      then elim (decode z packs digest (drop 2 payload)) [
        | ok r ↦ ok r
        | err e ↦ err (pack_failed e)
      ]
      else (if has_prefix prefix_naive payload
          then elim (msgs.unmarshal (drop 2 payload)) [
            | none ↦ err naive_failed
            | some m ↦ ok (unpack_containers m.container [])
          ]
          else err no_prefix)

  -- The start of `loop`.
  unfoldable pub new_aggregator : Aggregator
  unfolding clean
  new_aggregator = record { packer = clean; by_topic = []; failed_attempts = 0 }

  -- `buildAndEmit` at a time, with the orders in which `range` visits the two maps: the state
  -- afterwards and the payloads emitted.
  unfoldable pub build_and_emit : Aggregator → ℕ → List ℕ → List Bytes → Aggregator × List Bytes
  unfolding clean containers_of left_over
  build_and_emit s now_ms ids topics =
      let sent : List Bytes = or_nil (encode_current packs s.packer now_ms ids) in
      if length s.by_topic == 0 then (record s { packer = clean }, sent) else (
        record s { packer = clean; by_topic = left_over s.by_topic },
        sent
            ++ (elim (msgs.marshal
                (record { tms = now_ms; container = containers_of s.by_topic topics })) [
                  | none ↦ []
                  | some blob ↦ (prefix_naive ++ blob) ∷ []
                ]),
      )

  -- The fallback of `loop` for one item.
  unfoldable pub batch_up : Aggregator → AggregateItem → Aggregator
  batch_up s it = record s { by_topic = append_at text_key it.topic it.payload s.by_topic }

  -- `loop` on an item of the channel.
  unfoldable pub take_item : (Bytes → ℕ) → Aggregator → AggregateItem → Aggregator
  unfolding batch_up
  take_item xx_hash s it =
      if is_attestation it.meta
      then elim (add z xx_hash s.packer it.meta it.payload) [
        | ok packed ↦ record s { packer = packed }
        | err e ↦ batch_up (record s { failed_attempts = suc s.failed_attempts }) it
      ]
      else batch_up s it

  pub data Event : Type 0 where
    enqueued : AggregateItem → Event
    failures_reported : Event
    -- A tick: the time, the last block's time, and the orders of the two maps.
    ticked : ℕ → ℕ → List ℕ → List Bytes → Event

  -- One round of `loop`: the state afterwards and the payloads emitted.
  unfoldable pub step : (Bytes → ℕ) → Bool → ℕ → Aggregator → Event → Aggregator × List Bytes
  unfolding take_item build_and_emit
  step xx_hash configured genesis s (enqueued it) = (take_item xx_hash s it, [])
  step xx_hash configured genesis s failures_reported = (record s { failed_attempts = 0 }, [])
  step xx_hash configured genesis s (ticked now last_block_ms ids topics) =
      if should_hold_for_slot_gate configured genesis now last_block_ms
      then (s, [])
      else build_and_emit s (unix_milli now) ids topics
