-- ===== src/MessageRouter.antt =====
-- pkg/service/message_router/service.go, accelerate.go and bg_sync.go: whether a message goes on.
-- Parameters: the two concurrent maps, `slices.Sort` and `commonslices.ChunkSlice` (`Chunker`),
-- the gateway types and the chain table of optimum-common, the verifier of tokens, snappy.
pub mod Validators
pub mod Accelerate
pub mod Forward
mod Tests
use optimum_gateway.Base.{
  ℕ, zero, suc, ◌≤◌, ◌<◌, ◌≡◌, Bool, true, false, ◌&&◌, ◌||◌, not, Option, none, some, Result, ok,
  err, List, [], ◌∷◌, if◌then◌else◌, leb, ltb, ◌==◌, length, Each,
}
use optimum_gateway.Base.Wire.{Bytes}
use optimum_gateway.Base.Parts.{concat}
use optimum_gateway.Base.Maps.{RwMap, TtlSet, nat_key}
use optimum_gateway.Forks.{is_empty, is_some, Reply, failed, answered}
use optimum_gateway.Utils.Snappy.{Snappy}
use optimum_gateway.Utils.AttestationFields.{parse_attestation}
use optimum_gateway.Utils.Text.{text_eq}
use optimum_gateway.Topics.TopicMeta.{TopicKind, unknown, beacon_block, attestation}
use optimum_gateway.AuthToken.{
  Claims, Manager, PostReply, is_enabled, has_valid_token, own_chain, services_token,
}
use optimum_gateway.ChainState.{diff_uint64}

-- An int64.
pub data ℤ : Type 0 where
  pos : ℕ → ℤ
  negsuc : ℕ → ℤ

-- `accelerateSlotsResponse`
pub record AccelerateSlotsResponse : Type 0 where
  pub to_slot : ℤ
  pub slots : List ℤ
  pub generated_at_ms : ℤ

-- The three gateway types that the router tells apart, as their texts.
pub record GatewayTypes : Type 0 where
  pub partner : Bytes
  pub hermes : Bytes
  pub relay : Bytes

abbrev pub attestation_max_slot_age : ℕ
attestation_max_slot_age = 0

abbrev pub attestation_sync_chunk_size : ℕ
attestation_sync_chunk_size = 64

abbrev pub contains : ℕ → List ℕ → Bool
contains v [] = false
contains v (w ∷ ws) = w == v || contains v ws

-- `slices.Sort` and `ChunkSlice`: sorting keeps the elements, and chunks of at most the given size
-- follow each other in the slice.
pub record Chunker : Type 0 where
  pub sort : List ℕ → List ℕ
  pub chunk_slice : List ℕ → ℕ → List (List ℕ)
  pub contains-sort : (v : ℕ) (ids : List ℕ) → contains v (sort ids) ≡ contains v ids
  pub concat-chunk_slice :
      (ids : List ℕ) (size : ℕ) → 1 ≤ size → concat (chunk_slice ids size) ≡ ids
  pub chunk_slice-short :
      (ids : List ℕ) (size : ℕ) → 1 ≤ size → Each (λ c. length c ≤ size) (chunk_slice ids size)

-- The verdicts of `decideAccelerate`.
pub data Verdict : Type 0 where
  on_list not_on_list fail_open : Verdict

unfoldable pub decide_accelerate : ℕ → Bool → ℕ → Verdict
decide_accelerate to_slot on_list? slot =
    if on_list?
    then on_list
    else (if to_slot == 0 || ltb to_slot slot then fail_open else not_on_list)

abbrev pub accelerates : Verdict → Bool
accelerates not_on_list = false
accelerates _ = true

-- The writes of `SetKnownValidators` to its Go map, the last one first.
unfoldable pub put_chunk : ℕ → ℕ → List ℕ → List (ℕ × (ℕ × ℕ)) → List (ℕ × (ℕ × ℕ))
put_chunk chunk_id size [] m = m
put_chunk chunk_id size (v ∷ vs) m = put_chunk chunk_id size vs ((v, (chunk_id, size)) ∷ m)

unfoldable pub put_chunks : ℕ → List (List ℕ) → List (ℕ × (ℕ × ℕ)) → List (ℕ × (ℕ × ℕ))
unfolding put_chunk
put_chunks chunk_id [] m = m
put_chunks chunk_id (c ∷ cs) m = put_chunks (suc chunk_id) cs (put_chunk chunk_id (length c) c m)

-- The gateway type in our claims, the empty text before the first mint.
unfoldable pub own_type : Manager → Bytes
own_type m = elim m.claims [ none ↦ [] | some c ↦ c.gateway_type ]

module _ (known : RwMap ℕ (ℕ × ℕ) nat_key) (accelerated : TtlSet ℕ nat_key) where
  -- The state of `Service`.
  pub record Router : Type 0 where
    pub known_validators : known.Map
    pub accelerate_slots : accelerated.Set
    pub accelerate_to_slot : ℕ

  unfoldable pub is_known_validator : Router → ℕ → Bool
  is_known_validator s attester = is_some (known.load s.known_validators attester)

  unfoldable pub resolve_validator_chunk : Router → ℕ → ℕ × (ℕ × Bool)
  resolve_validator_chunk s attester = elim (known.load s.known_validators attester) [
    | none ↦ (0, (0, false))
    | some chunk ↦ (chunk.0, (chunk.1, true))
  ]

  unfoldable pub set_known_validators : Chunker → Router → List ℕ → Router
  unfolding put_chunks
  set_known_validators c s ids = record s {
    known_validators =
        known.replace (put_chunks 0 (c.chunk_slice (c.sort ids) attestation_sync_chunk_size) []);
  }

  -- `NewService`, less the background task.
  unfoldable pub new_router : Chunker → List ℕ → Router
  unfolding set_known_validators
  new_router c ids =
      set_known_validators c
        (record {
          known_validators = known.empty;
          accelerate_slots = accelerated.empty;
          accelerate_to_slot = 0;
        })
        ids

  -- `ShouldAccelerateBlock` at a time.
  unfoldable pub should_accelerate_block : Router → ℕ → ℕ → Bool
  unfolding decide_accelerate
  should_accelerate_block s now slot =
      accelerates
        (decide_accelerate s.accelerate_to_slot (accelerated.get s.accelerate_slots now slot) slot)

  -- The loop of `RefreshAccelerateSlots` over the slots of the answer, at a time.
  unfoldable pub put_slots : ℕ → List ℤ → Router → Router
  put_slots at [] s = s
  put_slots at (pos n ∷ slots) s =
      put_slots at slots (record s { accelerate_slots = accelerated.put s.accelerate_slots at n })
  put_slots at (negsuc n ∷ slots) s = put_slots at slots s

  -- What `RefreshAccelerateSlots` does with the answer of the poll.
  unfoldable pub apply_poll : Router → ℕ → Reply AccelerateSlotsResponse → Router
  unfolding put_slots
  apply_poll s at failed = s
  apply_poll s at (answered code none) = s
  apply_poll s at (answered code (some res)) = if not (code == 200) then s else elim res.to_slot [
    | negsuc n ↦ s
    | pos n ↦ if n == 0 then s else record (put_slots at res.slots s) { accelerate_to_slot = n }
  ]

  module _ (verify : Bytes → Bytes → Option Claims) (chain_of : Bytes → Option Bytes) where
    -- `RefreshAccelerateSlots`: `poll` answers for the token in the header, which is the empty text
    -- where there is none. The manager changes where it mints.
    unfoldable pub refresh_accelerate_slots :
        Manager
        → Router
        → Bytes
        → Option Bytes
        → PostReply
        → ℕ
        → (Bytes → Reply AccelerateSlotsResponse)
        → Manager × Router
    unfolding apply_poll
    refresh_accelerate_slots m s url signed reply at poll =
        if is_empty (own_chain verify chain_of m) || is_empty url
        then (m, s)
        else (let (m', tok) = services_token verify m signed reply in
            (m', apply_poll s at (poll (elim tok [ ok t ↦ t | err e ↦ [] ]))))

    -- A tick of `bgSync`: the validators of the last mint are set, then the slots refreshed.
    unfoldable pub sync_tick :
        Chunker
        → Manager
        → Router
        → Bytes
        → Option Bytes
        → PostReply
        → ℕ
        → (Bytes → Reply AccelerateSlotsResponse)
        → Manager × Router
    unfolding refresh_accelerate_slots set_known_validators
    sync_tick c m s url signed reply at poll =
        refresh_accelerate_slots m (set_known_validators c s m.indexes) url signed reply at poll

  module _ (types : GatewayTypes) where
    -- `ShouldForwardMessageToMumP2P` at a time and the slot of that time.
    unfoldable pub forward_to_mump2p : Snappy → Router → Manager → ℕ → ℕ → TopicKind → Bytes → Bool
    unfolding own_type is_known_validator
    forward_to_mump2p z s m now slot_now beacon_block payload = true
    forward_to_mump2p z s m now slot_now _ payload =
        if is_enabled m && not (has_valid_token m now)
        then false
        else (if not (text_eq (own_type m) types.partner)
            then false
            else elim (parse_attestation z payload) [
              | err e ↦ false
              | ok fields ↦
                  if ltb attestation_max_slot_age (diff_uint64 fields.1 slot_now)
                  then false
                  else is_known_validator s fields.0
            ])

    -- `ShouldForwardMessageToCLP2P` at a time.
    unfoldable pub forward_to_clp2p : Router → Manager → ℕ → TopicKind → ℕ → Bool
    unfolding own_type should_accelerate_block
    forward_to_clp2p s m now attestation slot = not (text_eq (own_type m) types.relay)
    forward_to_clp2p s m now beacon_block slot =
        if not (is_enabled m && has_valid_token m now)
        then false
        else (if text_eq (own_type m) types.partner
            then true
            else (if text_eq (own_type m) types.hermes
                then should_accelerate_block s now slot
                else false))
    forward_to_clp2p s m now unknown slot = false
