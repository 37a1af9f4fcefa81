-- ===== src/Aggregator/Loop.antt =====
-- The items that wait in the loop of the aggregator, and the naive message.
use mathlib.Core.List.{append-nil, append_assoc}
use optimum_gateway.Base.{
  ℕ, suc, ◌+◌, ◌≡◌, refl, sym, arith, Bool, true, false, none, some, Result, ok, err, List, [], ◌∷◌,
  ◌++◌, if◌then◌else◌, ◌==◌, length, inl, inr, ◌⊎◌, Bool-cases,
}
use optimum_gateway.Base.Wire.{Bytes}
use optimum_gateway.Base.Groups.{append_all, count, count-append_at, assoc_load-append_all}
use optimum_gateway.Utils.Snappy.{Snappy}
use optimum_gateway.Utils.Text.{has_prefix, text_eq}
use optimum_gateway.Topics.TopicMeta.{text_key}
use optimum_gateway.Aggregator.Packing.{
  Packer, PackError, AttestationPack, Proto, add, clean, is_attestation, total_items,
  encode_current,
}
use optimum_gateway.Aggregator.Delivery.{add-total_items, delivered}
use optimum_gateway.Aggregator.{
  Aggregator, AggregateItem, Msg, ticked, step, take_item, batch_up, build_and_emit, left_over,
  should_hold_for_slot_gate, unix_milli, decode_aggregated_message, unpack_containers, prefix_naive,
}

-- The items that wait to be sent: packed, or batched by topic.
abbrev pub pending : Aggregator → ℕ
pending s = total_items s.packer + count text_key s.by_topic

-- The batches for a topic in a list of containers, one after the other.
abbrev pub batches_for : List (Bytes × List Bytes) → Bytes → List Bytes
batches_for [] topic = []
batches_for ((t, batch) ∷ rest) topic =
    (if text_eq t topic then batch else []) ++ batches_for rest topic

module _ (z : Snappy) (packs : Proto AttestationPack) (msgs : Proto Msg) where
  -- Every item of the channel, an attestation that cannot be packed included, is kept: one more
  -- item waits.
  take_item-pending :
      (xx_hash : Bytes → ℕ) (s : Aggregator) (it : AggregateItem)
      → pending (take_item z packs msgs xx_hash s it) ≡ suc (pending s)
  unfolding take_item batch_up
  take_item-pending xx_hash s it = elim (Bool-cases (is_attestation it.meta)) [
    | inr n ↦ rw n (omega (arith, count-append_at text_key it.topic it.payload s.by_topic))
    | inl y ↦ by_add y (add z xx_hash s.packer it.meta it.payload) refl
  ]
    where
      by_add :
          is_attestation it.meta ≡ true
          → (r : Result PackError Packer) → add z xx_hash s.packer it.meta it.payload ≡ r
          → pending (take_item z packs msgs xx_hash s it) ≡ suc (pending s)
      by_add y (err e) q =
          rw (y, q) (omega (arith, count-append_at text_key it.topic it.payload s.by_topic))
      by_add y (ok p) q =
          let (_, a, d, more, _) = add-total_items z xx_hash s.packer p it.meta it.payload q in
          rw (y, q) (omega (arith, more))

  count-left_over : (m : List (Bytes × List Bytes)) → count text_key (left_over m) ≡ 0
  unfolding left_over
  count-left_over [] = refl
  count-left_over ((t, batch) ∷ m) = ground (arith, count-left_over m)

  count-none : (m : List (Bytes × List Bytes)) → (length m == 0) ≡ true → count text_key m ≡ 0
  count-none [] h = refl
  count-none (x ∷ m) h = absurd (ground arith)

  -- Nothing waits after `buildAndEmit`, whether or not the encoding failed.
  build_and_emit-pending :
      (s : Aggregator) (now_ms : ℕ) (ids : List ℕ) (topics : List Bytes)
      → pending (build_and_emit z packs msgs s now_ms ids topics).0 ≡ 0
  unfolding build_and_emit clean total_items
  build_and_emit-pending s now_ms ids topics = elim (Bool-cases (length s.by_topic == 0)) [
    | inl y ↦ rw y (omega (arith, count-none s.by_topic y))
    | inr n ↦ rw n (omega (arith, count-left_over s.by_topic))
  ]

  -- Where the packed attestations cannot be marshaled, none of them is sent and none is kept.
  build_and_emit-failed :
      (s : Aggregator) (now_ms : ℕ) (ids : List ℕ) (topics : List Bytes)
      → encode_current packs s.packer now_ms ids ≡ none
      → s.by_topic ≡ []
      → (total_items (build_and_emit z packs msgs s now_ms ids topics).0.packer ≡ 0)
        × ((build_and_emit z packs msgs s now_ms ids topics).1 ≡ [])
  unfolding build_and_emit clean total_items
  build_and_emit-failed s now_ms ids topics e b = rw (b, e) (refl, refl)

  -- A round that is held changes nothing and sends nothing; after one that is not, nothing waits.
  step-ticked :
      (xx_hash : Bytes → ℕ) (configured : Bool) (genesis now last_block_ms : ℕ) (s : Aggregator)
      (ids : List ℕ) (topics : List Bytes)
      → ((should_hold_for_slot_gate configured genesis now last_block_ms ≡ true)
          × (step z packs msgs xx_hash configured genesis s (ticked now last_block_ms ids topics)
              ≡ (s, [])))
        ⊎ ((should_hold_for_slot_gate configured genesis now last_block_ms ≡ false)
            × (pending
                  (step z packs msgs xx_hash configured genesis s
                    (ticked now last_block_ms ids topics)).0
                ≡ 0))
  unfolding step build_and_emit clean total_items
  step-ticked xx_hash configured genesis now last s ids topics =
      elim (Bool-cases (should_hold_for_slot_gate configured genesis now last)) [
        | inl y ↦ inl (y, rw y refl)
        | inr n ↦ inr (n, rw n (build_and_emit-pending s (unix_milli now) ids topics))
      ]

  unpack_containers-delivered :
      (cs result : List (Bytes × List Bytes)) (topic : Bytes)
      → delivered (unpack_containers cs result) topic
        ≡ delivered result topic ++ batches_for cs topic
  unfolding unpack_containers
  unpack_containers-delivered [] result topic = sym (append-nil (delivered result topic))
  unpack_containers-delivered ((t, batch) ∷ cs) result topic =
      rw
        (
          unpack_containers-delivered cs (append_all text_key t batch result) topic,
          assoc_load-append_all text_key t batch result topic,
        )
        (elim (Bool-cases (text_eq t topic)) [
          | inl y ↦ rw y (append_assoc (delivered result topic) batch (batches_for cs topic))
          | inr n ↦ rw n refl
        ])

  -- A naive message that is sent is taken apart again into what its containers hold by topic.
  decode_aggregated_message-naive :
      (digest blob : Bytes) (m : Msg)
      → msgs.marshal m ≡ some blob
      → (result : List (Bytes × List Bytes)) × (decode_aggregated_message z packs msgs digest
            (prefix_naive ++ blob)
          ≡ ok result)
        × ((topic : Bytes) → delivered result topic ≡ batches_for m.container topic)
  unfolding decode_aggregated_message has_prefix
  decode_aggregated_message-naive digest blob m e = (
    unpack_containers m.container [],
    rw (msgs.unmarshal-marshal m blob e) refl,
    unpack_containers-delivered m.container [],
  )
