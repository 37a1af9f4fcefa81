-- ===== src/Bootstrapper.antt =====
-- pkg/service/bootstrapper/beacon_block_measures.go: the latencies of beacon blocks, one record for
-- each slot, composed by a background worker from a queue. The TTL map and the start time of a slot
-- are parameters; the upload of a record is left out. Times are Unix milliseconds.
pub mod FirstSeen
mod Tests
use optimum_gateway.Base.{
  ℕ, ◌≡◌, ◌<◌, Bool, true, false, not, ◌||◌, Option, none, some, List, [], ◌∷◌, ◌++◌, if◌then◌else◌,
  ◌==◌, ltb, length,
}
use optimum_gateway.Base.Wire.{Bytes}
use optimum_gateway.Base.Maps.{TtlMap, nat_key}
use optimum_gateway.Forks.{is_empty, is_some}
use optimum_gateway.StreamHub.{Source, lib_p2p, mum_p2p}

pub record BlockArrival : Type 0 where
  pub source : Source
  pub slot : ℕ
  pub proposer_index : ℕ
  pub block_size : ℕ
  pub recv_at : ℕ
  pub origin_gateway_id : Bytes
  pub upstream_peer_id : Bytes
  pub published_at : ℕ

-- `LatencyComparator` of pkg/entities; a time that is not known is 0.
pub record LatencyComparator : Type 0 where
  pub gateway_id : Bytes
  pub gateway_peer_id : Bytes
  pub chain_id : ℕ
  pub block_slot : ℕ
  pub slot_time : ℕ
  pub validator_index : ℕ
  pub block_size : ℕ
  pub eth_seen_at_ms : ℕ
  pub mum_seen_at_ms : ℕ
  pub mum_published_at_ms : ℕ
  pub origin_gateway_id : Bytes
  pub upstream_peer_id : Bytes
  pub eth_upstream_peer_id : Bytes

-- What the service knows of itself: its configuration, its mumP2P peer id and its chain.
pub record Identity : Type 0 where
  pub gateway_id : Bytes
  pub peer_id : Bytes
  pub chain_id : ℕ
  pub telemetry_enable : Bool

-- `enqueueBlockEvent`: the queue holds 1024 events and takes no more.
unfoldable pub enqueue_block_event : List BlockArrival → BlockArrival → List BlockArrival
enqueue_block_event queue ev = if ltb (length queue) 1024 then queue ++ (ev ∷ []) else queue

-- `HandleBeaconBlock`
unfoldable pub handle_beacon_block :
    Identity
    → List BlockArrival
    → Source
    → (slot proposer_index block_size recv_at : ℕ) → (origin upstream : Bytes) → List BlockArrival
unfolding enqueue_block_event
handle_beacon_block me queue source slot proposer_index block_size recv_at origin upstream =
    if not me.telemetry_enable
    then queue
    else enqueue_block_event queue (record {
      source = source;
      slot = slot;
      proposer_index = proposer_index;
      block_size = block_size;
      recv_at = recv_at;
      origin_gateway_id = origin;
      upstream_peer_id = upstream;
      published_at = 0;
    })

-- `RecordMumPublishedAt`; the source of such an event is not read.
unfoldable pub record_mum_published_at :
    Identity → List BlockArrival → (slot published_at : ℕ) → List BlockArrival
unfolding enqueue_block_event
record_mum_published_at me queue slot published_at =
    if not me.telemetry_enable || (slot == 0)
    then queue
    else enqueue_block_event queue (record {
      source = lib_p2p;
      slot = slot;
      proposer_index = 0;
      block_size = 0;
      recv_at = 0;
      origin_gateway_id = [];
      upstream_peer_id = [];
      published_at = published_at;
    })

module _ (slot_start : ℕ → ℕ) (me : Identity) where
  -- The record that `composePublishTelemetry` makes.
  unfoldable pub created_by_publish : BlockArrival → LatencyComparator
  created_by_publish ev = record {
    gateway_id = me.gateway_id;
    gateway_peer_id = [];
    chain_id = me.chain_id;
    block_slot = ev.slot;
    slot_time = slot_start ev.slot;
    validator_index = 0;
    block_size = 0;
    eth_seen_at_ms = 0;
    mum_seen_at_ms = ev.published_at;
    mum_published_at_ms = ev.published_at;
    origin_gateway_id = [];
    upstream_peer_id = [];
    eth_upstream_peer_id = [];
  }

  -- Its update of one.
  unfoldable pub updated_by_publish : BlockArrival → LatencyComparator → LatencyComparator
  updated_by_publish ev v = record v {
    chain_id = me.chain_id;
    mum_published_at_ms = ev.published_at;
    mum_seen_at_ms = (if v.mum_seen_at_ms == 0 then ev.published_at else v.mum_seen_at_ms);
  }

  abbrev fresh : BlockArrival → LatencyComparator
  fresh ev = record {
    gateway_id = me.gateway_id;
    gateway_peer_id = me.peer_id;
    chain_id = me.chain_id;
    block_slot = ev.slot;
    slot_time = slot_start ev.slot;
    validator_index = ev.proposer_index;
    block_size = ev.block_size;
    eth_seen_at_ms = 0;
    mum_seen_at_ms = 0;
    mum_published_at_ms = 0;
    origin_gateway_id = [];
    upstream_peer_id = [];
    eth_upstream_peer_id = [];
  }

  -- The record that `composeBlockTelemetry` makes.
  unfoldable pub created_by_block : BlockArrival → LatencyComparator
  created_by_block ev = elim ev.source [
    | mum_p2p ↦ record (fresh ev) {
      mum_seen_at_ms = ev.recv_at;
      origin_gateway_id = ev.origin_gateway_id;
      upstream_peer_id = ev.upstream_peer_id;
    }
    | lib_p2p ↦ record (fresh ev) {
      eth_seen_at_ms = ev.recv_at;
      eth_upstream_peer_id = ev.upstream_peer_id;
    }
  ]

  -- Its update of one.
  unfoldable pub updated_by_block : BlockArrival → LatencyComparator → LatencyComparator
  updated_by_block ev v = elim ev.source [
    | lib_p2p ↦
        if v.eth_seen_at_ms == 0
        then record v {
          chain_id = me.chain_id;
          eth_seen_at_ms = ev.recv_at;
          eth_upstream_peer_id = ev.upstream_peer_id;
        }
        else record v { chain_id = me.chain_id }
    | mum_p2p ↦
        if is_empty v.upstream_peer_id
        then record v {
          chain_id = me.chain_id;
          mum_seen_at_ms = (if v.mum_seen_at_ms == 0 then ev.recv_at else v.mum_seen_at_ms);
          origin_gateway_id = ev.origin_gateway_id;
          upstream_peer_id = ev.upstream_peer_id;
        }
        else record v { chain_id = me.chain_id }
  ]

  module _ (tracked : TtlMap ℕ LatencyComparator nat_key) where
    -- `composePublishTelemetry` at a time, less the export of the slot.
    unfoldable pub compose_publish_telemetry : tracked.Map → ℕ → BlockArrival → tracked.Map
    compose_publish_telemetry m now ev =
        tracked.upsert m now ev.slot (updated_by_publish ev) (created_by_publish ev)

    -- `composeBlockTelemetry` at a time: the map afterwards, and whether it is the first for its slot.
    unfoldable pub compose_block_telemetry : tracked.Map → ℕ → BlockArrival → tracked.Map × Bool
    compose_block_telemetry m now ev = (
      tracked.upsert m now ev.slot (updated_by_block ev) (created_by_block ev),
      not (is_some (tracked.get m now ev.slot)),
    )

    -- One round of `bgHandleBlockEvents`.
    unfoldable pub handle_block_event : tracked.Map → ℕ → BlockArrival → tracked.Map
    unfolding compose_publish_telemetry compose_block_telemetry
    handle_block_event m now ev =
        if ltb 0 ev.published_at
        then compose_publish_telemetry m now ev
        else (compose_block_telemetry m now ev).0
