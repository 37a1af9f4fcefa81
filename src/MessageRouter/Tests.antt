-- ===== src/MessageRouter/Tests.antt =====
-- The theorems on the router at concrete maps, with chunks of one validator each.
use optimum_gateway.Base.{
  ℕ, zero, suc, none, ok, ◌≤◌, ◌≡◌, ◌↔◌, ◌⊎◌, refl, ap, arith, true, false, ◌||◌, some, List, [],
  ◌∷◌, ltb, length, Each,
}
use optimum_gateway.Base.Parts.{concat}
use optimum_gateway.Base.Maps.{RwMap, TtlSet, nat_key, assoc_map, timed_set}
use optimum_gateway.Forks.{answered}
use optimum_gateway.Utils.Snappy.{stored_snappy, decode_snappy}
use optimum_gateway.Utils.Text.{codes, text_eq}
use optimum_gateway.Topics.TopicMeta.{beacon_block, attestation}
use optimum_gateway.Base.Wire.{Bytes, le_bytes, le_value}
use optimum_gateway.Consensus.Attestation.{marshal_single, marshal_data, append_checkpoint}
use optimum_gateway.Utils.AttestationFields.{parse_attestation}
use optimum_gateway.ChainState.{diff_uint64}
use optimum_gateway.AuthToken.{Manager, new_disabled, is_enabled, has_valid_token}
use optimum_gateway.MessageRouter.{
  Chunker, Router, GatewayTypes, new_router, set_known_validators, resolve_validator_chunk,
  should_accelerate_block, decide_accelerate, put_slots, is_known_validator, apply_poll, pos,
  negsuc, forward_to_mump2p, forward_to_clp2p, own_type,
}
use optimum_gateway.MessageRouter.Validators.{IsIn, resolve_validator_chunk-set}
use optimum_gateway.MessageRouter.Accelerate.{
  listed, should_accelerate_block_iff, apply_poll-accelerates,
}
use optimum_gateway.MessageRouter.Forward.{
  IsForwardable, forward_to_mump2p_iff, forward_to_clp2p-apply_poll,
}

abbrev known : RwMap ℕ (ℕ × ℕ) nat_key
known = assoc_map ℕ (ℕ × ℕ) nat_key

abbrev slots_set : TtlSet ℕ nat_key
slots_set = timed_set 1152 ℕ nat_key

abbrev singles : List ℕ → ℕ → List (List ℕ)
singles [] size = []
singles (v ∷ vs) size = (v ∷ []) ∷ singles vs size

concat-singles : (ids : List ℕ) (size : ℕ) → concat (singles ids size) ≡ ids
concat-singles [] size = refl
concat-singles (v ∷ []) size = refl
concat-singles (v ∷ w ∷ vs) size = ap (λ xs. v ∷ xs) (concat-singles (w ∷ vs) size)

singles-short :
    (ids : List ℕ) (size : ℕ) → 1 ≤ size → Each (λ c. length c ≤ size) (singles ids size)
singles-short [] size h = tt
singles-short (v ∷ vs) size h = (h, singles-short vs size h)

-- Chunks of one validator each, of a list that is taken as it comes.
abbrev one_by_one : Chunker
one_by_one = record {
  sort = λ ids. ids;
  chunk_slice = singles;
  contains-sort = λ v ids. refl;
  concat-chunk_slice = λ ids size h. concat-singles ids size;
  chunk_slice-short = singles-short;
}

abbrev ids : List ℕ
ids = 7 ∷ 9 ∷ []

abbrev start : Router known slots_set
start = new_router known slots_set one_by_one []

abbrev served : Router known slots_set
served = set_known_validators known slots_set one_by_one start ids

resolve_validator_chunk-set_example : IsIn (singles ids 64) 9 1 1 × (1 ≤ 64)
unfolding set_known_validators resolve_validator_chunk
resolve_validator_chunk-set_example =
    resolve_validator_chunk-set known slots_set one_by_one start ids 9 1 1 refl

should_accelerate_block_iff_example :
    (should_accelerate_block known slots_set (record start { accelerate_to_slot = 64 }) 5 60
      ≡ false)
    ↔ ((slots_set.get start.accelerate_slots 5 60 ≡ false) × (1 ≤ 64) × (60 ≤ 64))
should_accelerate_block_iff_example =
    should_accelerate_block_iff known slots_set (record start { accelerate_to_slot = 64 }) 5 60

apply_poll-accelerates_example :
    should_accelerate_block known slots_set
      (apply_poll known slots_set start 3 (
        answered 200 (
          some (record {
            to_slot = pos 96;
            slots = pos 70 ∷ negsuc 0 ∷ [];
            generated_at_ms = pos 1;
          }))))
      5
      70
    ≡ (ltb 96 70 || listed 70 (pos 70 ∷ negsuc 0 ∷ []) || slots_set.get start.accelerate_slots 5 70)
apply_poll-accelerates_example =
    apply_poll-accelerates known slots_set start 3 5 70 96 (pos 70 ∷ negsuc 0 ∷ []) (pos 1)
      (omega arith) (omega arith) (omega arith)

abbrev types : GatewayTypes
types = record { partner = codes "partner"; hermes = codes "hermes"; relay = codes "relay" }

-- The manager of a gateway of some type, with auth on and a token that lives until 10.
abbrev manager : Bytes → Manager
manager type = record new_disabled {
  api_key = codes "key";
  claims = some (record {
    subject = codes "gw";
    gateway_type = type;
    chain_id = codes "hoodi";
    issued_at = none;
    expires_at = some 10;
    cnf_peer_id = none;
    cluster_ids = [];
    can_publish = false;
  });
}

abbrev fill : ℕ → ℕ → Bytes
fill zero b = []
fill (suc n) b = b ∷ fill n b

-- An attestation of slot 900 by validator 9, which is known.
abbrev payload : Bytes
payload = marshal_single (record {
  committee_index = 3;
  attester_index = 9;
  content = record {
    slot = 900;
    committee_index = 0;
    beacon_block_root = fill 32 17;
    source = record { epoch = 27; root = fill 32 1 };
    target = record { epoch = 28; root = fill 32 2 };
  };
  signature = fill 96 200;
})

payload-parsed : parse_attestation stored_snappy payload ≡ ok (9, 900)
unfolding parse_attestation decode_snappy marshal_single marshal_data append_checkpoint le_bytes
    le_value
payload-parsed = refl

partner-forwards :
    forward_to_mump2p known slots_set types stored_snappy served
      (manager (codes "partner"))
      5
      900
      attestation
      payload
    ≡ true
unfolding forward_to_mump2p parse_attestation decode_snappy marshal_single marshal_data
    append_checkpoint le_bytes le_value is_enabled has_valid_token own_type diff_uint64
    is_known_validator set_known_validators text_eq
partner-forwards = refl

forward_to_mump2p_iff_example :
    (forward_to_mump2p known slots_set types stored_snappy served
        (manager (codes "partner"))
        5
        900
        attestation
        payload
      ≡ true)
    ↔ IsForwardable known slots_set types stored_snappy served
        (manager (codes "partner"))
        5
        900
        payload
forward_to_mump2p_iff_example =
    forward_to_mump2p_iff known slots_set types stored_snappy served (manager (codes "partner")) 5
      900 attestation payload (λ e. absurd (cc))

payload-IsForwardable :
    IsForwardable known slots_set types stored_snappy served
      (manager (codes "partner"))
      5
      900
      payload
payload-IsForwardable =
    (forward_to_mump2p_iff known slots_set types stored_snappy served (manager (codes "partner")) 5
        900 attestation payload (λ e. absurd (cc))).0
      partner-forwards

-- A hermes gateway after a poll that lists slot 70.
abbrev polled : Router known slots_set
polled = apply_poll known slots_set start 3 (
    answered 200
      (some (record { to_slot = pos 96; slots = pos 70 ∷ negsuc 0 ∷ []; generated_at_ms = pos 1 })))

hermes-forwards :
    forward_to_clp2p known slots_set types polled (manager (codes "hermes")) 5 beacon_block 70
    ≡ true
unfolding forward_to_clp2p apply_poll put_slots should_accelerate_block decide_accelerate is_enabled
    has_valid_token own_type text_eq
hermes-forwards = refl

forward_to_clp2p-apply_poll_example :
    (forward_to_clp2p known slots_set types polled (manager (codes "hermes")) 5 beacon_block 70
      ≡ true)
    ↔ ((is_enabled (manager (codes "hermes")) ≡ true)
        × (has_valid_token (manager (codes "hermes")) 5 ≡ true)
        × ((text_eq (own_type (manager (codes "hermes"))) types.partner ≡ true)
            ⊎ ((text_eq (own_type (manager (codes "hermes"))) types.hermes ≡ true)
                × ((ltb 96 70
                      || listed 70 (pos 70 ∷ negsuc 0 ∷ [])
                      || slots_set.get start.accelerate_slots 5 70)
                    ≡ true))))
forward_to_clp2p-apply_poll_example =
    forward_to_clp2p-apply_poll known slots_set types start (manager (codes "hermes")) 3 5 70 96
      (pos 70 ∷ negsuc 0 ∷ []) (pos 1) (omega arith) (omega arith) (omega arith)
