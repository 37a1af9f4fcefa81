-- ===== src/Aggregator/Tests.antt =====
-- The theorems on the aggregator at concrete messages. The stand-ins for the protobuf codecs
-- write numbers and lengths one after the other.
use optimum_gateway.Base.{
  ℕ, zero, suc, ◌+◌, ◌-◌, ◌≤◌, ◌<◌, ◌≡◌, ◌↔◌, ◌⊎◌, refl, sym, subst, arith, true, false, Option,
  none, some, ok, List, [], ◌∷◌, ◌++◌, length, take, drop, take-append, drop-append, Each,
}
use optimum_gateway.Base.Wire.{Bytes, le_bytes, capacity}
use optimum_gateway.Base.Maps.{nat_key}
use optimum_gateway.Utils.Snappy.{stored_snappy}
use optimum_gateway.Utils.Text.{codes}
use optimum_gateway.Topics.TopicMeta.{TopicMeta, attestation}
use optimum_gateway.ChainState.{unix}
use optimum_gateway.Consensus.Attestation.{
  AttestationData, SingleAttestation, IsAttestationData, marshal_data, append_checkpoint,
}
use optimum_gateway.Consensus.Codec.{encode_gossip}
use optimum_gateway.Consensus.Codec.Instances.{data_ssz, single_ssz}
use optimum_gateway.Aggregator.{
  Aggregator, AggregateItem, Msg, new_aggregator, should_hold_for_slot_gate,
}
use optimum_gateway.Aggregator.Packing.{
  AttestationItem, AttestationPack, Proto, Packer, item_of, decode,
}
use optimum_gateway.Aggregator.Delivery.{IsItem, Matches, delivered, decode-pack}
use optimum_gateway.Aggregator.Gate.{into_slot, start_ms, should_hold_for_slot_gate_iff}

abbrev write_items : List AttestationItem → Bytes → Bytes
write_items [] rest = rest
write_items (i ∷ items) rest =
    i.committee_id
    ∷ i.attester_index
    ∷ i.topic_index
    ∷ length i.signature
    ∷ (i.signature ++ write_items items rest)

abbrev read_items : ℕ → Bytes → Option (List AttestationItem × Bytes)
read_items zero b = some ([], b)
read_items (suc n) (c ∷ a ∷ t ∷ l ∷ b) = elim (read_items n (drop l b)) [
  | none ↦ none
  | some (items, rest) ↦ some (
    record { committee_id = c; attester_index = a; topic_index = t; signature = take l b } ∷ items,
    rest,
  )
]
read_items (suc n) _ = none

abbrev read_pack : Bytes → Option AttestationPack
read_pack (ts ∷ n ∷ b) = elim (read_items n b) [
  | none ↦ none
  | some (items, rest) ↦
      some (record { attestation_ssz_data = rest; items = items; send_ts_ms = ts })
]
read_pack _ = none

read-write_items :
    (items : List AttestationItem) (rest : Bytes)
    → read_items (length items) (write_items items rest) ≡ some (items, rest)
read-write_items [] rest = refl
read-write_items (i ∷ items) rest =
    rw
      (
        drop-append i.signature (write_items items rest) (length i.signature) (omega arith),
        same,
        read-write_items items rest,
        take-append i.signature (write_items items rest) (length i.signature) refl,
      )
      refl
  where
    same : length i.signature - length i.signature ≡ 0
    same = omega arith

read-write_pack :
    (p : AttestationPack) (b : Bytes)
    → some (p.send_ts_ms ∷ length p.items ∷ write_items p.items p.attestation_ssz_data) ≡ some b
    → read_pack b ≡ some p
read-write_pack p b e =
    let written : (p.send_ts_ms ∷ length p.items ∷ write_items p.items p.attestation_ssz_data) ≡ b =
      cc e in
    subst (λ x. read_pack x ≡ some p) written
      (rw (read_pack, read-write_items p.items p.attestation_ssz_data) refl)

abbrev packs : Proto AttestationPack
packs = record {
  marshal = λ p. some (p.send_ts_ms ∷ length p.items ∷ write_items p.items p.attestation_ssz_data);
  unmarshal = read_pack;
  unmarshal-marshal = read-write_pack;
}

-- Messages with one container of one message.
abbrev write_msg : Msg → Option Bytes
write_msg m = elim m.container [
  | [] ↦ none
  | (t, batch) ∷ cs ↦ elim cs [
    | [] ↦ elim batch [
      | [] ↦ none
      | b ∷ bs ↦ elim bs [ [] ↦ some (m.tms ∷ length t ∷ (t ++ b)) | b' ∷ bs' ↦ none ]
    ]
    | c ∷ cs' ↦ none
  ]
]

abbrev read_msg : Bytes → Option Msg
read_msg (tms ∷ n ∷ b) = some (record { tms = tms; container = (take n b, drop n b ∷ []) ∷ [] })
read_msg _ = none

read-write_msg : (m : Msg) (b : Bytes) → write_msg m ≡ some b → read_msg b ≡ some m
read-write_msg m b e = by_container m.container refl
  where
    by_container : (cs : List (Bytes × List Bytes)) → m.container ≡ cs → read_msg b ≡ some m
    by_container [] q = absurd (cc (rw (write_msg, q) at e))
    by_container ((t, []) ∷ []) q = absurd (cc (rw (write_msg, q) at e))
    by_container ((t, batch) ∷ c ∷ cs) q = absurd (cc (rw (write_msg, q) at e))
    by_container ((t, x ∷ y ∷ ys) ∷ []) q = absurd (cc (rw (write_msg, q) at e))
    by_container ((t, x ∷ []) ∷ []) q =
        let written : (m.tms ∷ length t ∷ (t ++ x)) ≡ b = cc (rw (write_msg, q) at e) in
        let same : length t - length t ≡ 0 = omega arith in
        subst (λ k. read_msg k ≡ some m) written
          (rw
            (take-append t x (length t) refl, drop-append t x (length t) (omega arith), same, sym q)
            refl)

abbrev msgs : Proto Msg
msgs = record { marshal = write_msg; unmarshal = read_msg; unmarshal-marshal = read-write_msg }

abbrev fill : ℕ → ℕ → Bytes
fill zero c = []
fill (suc n) c = c ∷ fill n c

abbrev content : AttestationData
content = record {
  slot = 900;
  committee_index = 0;
  beacon_block_root = fill 32 17;
  source = record { epoch = 27; root = fill 32 1 };
  target = record { epoch = 28; root = fill 32 2 };
}

abbrev items : List AttestationItem
items =
    record { committee_id = 1; attester_index = 11; topic_index = 3; signature = fill 96 200 }
    ∷ record { committee_id = 2; attester_index = 12; topic_index = 4; signature = fill 96 201 }
    ∷ []

content-valid : IsAttestationData content
unfolding capacity
content-valid = omega arith

items-valid : Each IsItem items
unfolding capacity
items-valid = omega arith

content-encoded : encode_gossip stored_snappy data_ssz content ≡ ok (marshal_data content)
unfolding encode_gossip marshal_data append_checkpoint le_bytes
content-encoded = refl

decode-pack_example :
    (result : List (Bytes × List Bytes)) × (decode stored_snappy packs
        (codes "aaaaaaaa")
        (5 ∷ 2 ∷ write_items items (marshal_data content))
      ≡ ok result)
    × ((topic : Bytes)
        → Matches stored_snappy (codes "aaaaaaaa") content topic items (delivered result topic))
decode-pack_example =
    decode-pack stored_snappy packs (codes "aaaaaaaa") content items 5
      (5 ∷ 2 ∷ write_items items (marshal_data content)) (marshal_data content) content-valid
      items-valid content-encoded refl

-- A chain that starts in 2020, 5 seconds into its third slot, with a block after 2 seconds.
should_hold_for_slot_gate_iff_example :
    (should_hold_for_slot_gate true (unix 1600000000) (into_slot 1600000000 2 5000) 1600000026000
      ≡ false)
    ↔ ((5000 < 8000)
        × (((start_ms 1600000000 2 < 1600000026000)
              × (1600000026000 + 2000 ≤ start_ms 1600000000 2 + 5000))
            ⊎ ((1600000026000 ≤ start_ms 1600000000 2) × (4000 ≤ 5000))))
should_hold_for_slot_gate_iff_example =
    should_hold_for_slot_gate_iff 1600000000 2 5000 1600000026000 (omega arith) (omega arith)

abbrev start : Aggregator
start = new_aggregator stored_snappy packs msgs

abbrev item : AggregateItem
item = record {
  topic = codes "t";
  meta = some (record { kind = attestation; attestation_subnet = 3 });
  payload = codes "no attestation";
}

abbrev message : Msg
message = record { tms = 4; container = (codes "t", codes "body" ∷ []) ∷ [] }

abbrev single : SingleAttestation
single = record {
  committee_index = 1;
  attester_index = 11;
  content = content;
  signature = fill 96 200;
}

abbrev on_subnet : Option TopicMeta
on_subnet = some (record { kind = attestation; attestation_subnet = 3 })

abbrev packed : Packer
packed = record {
  encoded_data = (128, marshal_data content) ∷ [];
  encoded_attestations = (128, item_of single 3 ∷ []) ∷ [];
}

-- A codec that marshals nothing.
abbrev no_packs : Proto AttestationPack
no_packs = record {
  marshal = λ p. none;
  unmarshal = λ b. none;
  unmarshal-marshal = λ p b e. absurd (cc);
}

abbrev loaded : Aggregator
loaded = record { packer = packed; by_topic = []; failed_attempts = 0 }
