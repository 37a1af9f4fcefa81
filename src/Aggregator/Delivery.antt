-- ===== src/Aggregator/Delivery.antt =====
-- What the receiver of a pack gets, and what `Add` does to the packer.
use mathlib.Core.List.{append-nil, append_assoc}
use optimum_gateway.Base.{
  ℕ, suc, ◌<◌, ◌≡◌, refl, sym, ap, ◌∙◌, subst, arith, true, false, Option, some, Result, ok, err,
  guard, bind_ok, guard-true, List, [], ◌∷◌, ◌++◌, if◌then◌else◌, Each, inl, inr, ◌⊎◌, Bool-cases,
}
use optimum_gateway.Base.Wire.{Bytes}
use optimum_gateway.Base.Parts.{IsArray}
use optimum_gateway.Base.Maps.{same_refl, nat_key, assoc_load}
use optimum_gateway.Base.Groups.{append_at, or_nil, count-append_at, assoc_load-append_at}
use optimum_gateway.Utils.Snappy.{Snappy}
use optimum_gateway.Utils.Text.{text_eq}
use optimum_gateway.Utils.Topics.{attestation_subnet_count}
use optimum_gateway.Topics.TopicMeta.{TopicMeta, text_key}
use optimum_gateway.Consensus.Types.{IsUint64}
use optimum_gateway.Consensus.Attestation.{
  AttestationData, SingleAttestation, IsSingleAttestation, IsAttestationData, signature_size,
}
use optimum_gateway.Consensus.Codec.{
  encode_gossip, decode_gossip, decode_gossip-encode_gossip, CodecError,
}
use optimum_gateway.Consensus.Codec.Instances.{single_ssz, data_ssz}
use optimum_gateway.Aggregator.Packing.{
  AttestationItem, AttestationPack, Proto, Packer, not_attestation, add, total_items, decode_item,
  decode_items, decode, attestation_of, topic_of, item_of, from_codec, subnet_of, is_attestation,
}

-- What the receiver can make of an item: its subnet is one of the 64 and its parts fit.
pub record IsItem (item : AttestationItem) : Type 0 where
  pub committee_fits : IsUint64 item.committee_id
  pub attester_fits : IsUint64 item.attester_index
  pub subnet_known : item.topic_index < attestation_subnet_count
  pub signature_array : IsArray signature_size item.signature

-- The messages of a topic.
abbrev pub delivered : List (Bytes × List Bytes) → Bytes → List Bytes
delivered result topic = or_nil (assoc_load text_key result topic)

from_codec-ok : {A : Type 0} {r : Result CodecError A} {a : A} → from_codec r ≡ ok a → r ≡ ok a
from_codec-ok {r = ok b} h = cc
from_codec-ok {r = err e} h = absurd (cc)

module _ (z : Snappy) where
  attestation_of-IsValid :
      (content : AttestationData) (item : AttestationItem)
      → IsAttestationData content
      → IsItem item
      → IsSingleAttestation (attestation_of content item)
  unfolding attestation_of
  attestation_of-IsValid content item v i = record {
    committee_fits = i.committee_fits;
    attester_fits = i.attester_fits;
    content_valid = v;
    signature_array = i.signature_array;
  }

  -- The messages of the items for a topic, in their order, decode to their attestations.
  abbrev pub Matches : Bytes → AttestationData → Bytes → List AttestationItem → List Bytes → Type 0
  Matches digest content topic [] msgs = msgs ≡ []
  Matches digest content topic (item ∷ items) msgs =
      ((text_eq (topic_of digest item) topic ≡ true)
        × (msg : Bytes) × (rest : List Bytes) × (msgs ≡ msg ∷ rest)
        × (decode_gossip z single_ssz msg ≡ ok (attestation_of content item))
        × Matches digest content topic items rest)
      ⊎ ((text_eq (topic_of digest item) topic ≡ false) × Matches digest content topic items msgs)

  decode_item_exists :
      (content : AttestationData) (item : AttestationItem)
      → IsAttestationData content
      → IsItem item
      → (msg : Bytes) × (decode_item z content item ≡ ok msg)
        × (decode_gossip z single_ssz msg ≡ ok (attestation_of content item))
  unfolding decode_item
  decode_item_exists content item v i =
      let (msg, e, short, d) =
        decode_gossip-encode_gossip z single_ssz (attestation_of content item)
          (attestation_of-IsValid content item v i) (omega arith) in
      (msg, ground (arith, e, i.subnet_known, i.signature_array.0), d)

  decode_items_sound :
      (digest : Bytes) (content : AttestationData) (items : List AttestationItem)
      (acc : List (Bytes × List Bytes))
      → IsAttestationData content
      → Each IsItem items
      → (result : List (Bytes × List Bytes)) × (decode_items z digest content items acc ≡ ok result)
        × ((topic : Bytes)
            → (msgs : List Bytes) × (delivered result topic ≡ delivered acc topic ++ msgs)
              × Matches digest content topic items msgs)
  unfolding decode_items
  decode_items_sound digest content [] acc v i =
      (acc, refl, λ topic. ([], sym (append-nil (delivered acc topic)), refl))
  decode_items_sound digest content (item ∷ items) acc v i =
      let (msg, e, d) = decode_item_exists content item v i.0 in
      let (result, r, each) =
        decode_items_sound digest content items (append_at text_key (topic_of digest item) msg acc)
          v i.1 in
      (
        result,
        rw e r,
        λ topic.
            let (msgs, f, matches) = each topic in
            elim (Bool-cases (text_eq (topic_of digest item) topic)) [
              | inl y ↦ (
                msg ∷ msgs,
                f
                    ∙ ap (λ xs. xs ++ msgs) (put topic msg ∙ rw y refl)
                    ∙ append_assoc (delivered acc topic) (msg ∷ []) msgs,
                inl (y, msg, msgs, refl, d, matches),
              )
              | inr n ↦
                  (msgs, f ∙ ap (λ xs. xs ++ msgs) (put topic msg ∙ rw n refl), inr (n, matches))
            ],
      )
    where
      put :
          (topic msg : Bytes)
          → delivered (append_at text_key (topic_of digest item) msg acc) topic ≡ (
              if text_eq (topic_of digest item) topic
              then delivered acc topic ++ (msg ∷ [])
              else delivered acc topic)
      put topic msg = assoc_load-append_at text_key (topic_of digest item) msg acc topic

  -- `Add` of a message counts one item more, under the data of the attestation that the message
  -- decodes to; the message of another topic is refused.
  pub add-total_items :
      (xx_hash : Bytes → ℕ) (p p' : Packer) (meta : Option TopicMeta) (message : Bytes)
      → add z xx_hash p meta message ≡ ok p'
      → (is_attestation meta ≡ true)
        × (a : SingleAttestation) × (decode_gossip z single_ssz message ≡ ok a)
        × (total_items p' ≡ suc (total_items p))
        × ((encoded : Bytes) × (encode_gossip z data_ssz a.content ≡ ok encoded)
            × (or_nil (assoc_load nat_key p'.encoded_attestations (xx_hash encoded))
                ≡ or_nil (assoc_load nat_key p.encoded_attestations (xx_hash encoded))
                  ++ (item_of a (subnet_of meta) ∷ [])))
  unfolding add total_items
  add-total_items xx_hash p p' meta message h =
      let (_, on, h0) = bind_ok (guard (is_attestation meta) not_attestation) _ h in
      let (a, e1, h1) = bind_ok (from_codec (decode_gossip z single_ssz message)) _ h0 in
      let (encoded, e2, h2) = bind_ok (from_codec (encode_gossip z data_ssz a.content)) _ h1 in
      let groups : p'.encoded_attestations
          ≡ append_at nat_key (xx_hash encoded) (item_of a (subnet_of meta))
              p.encoded_attestations =
        cc h2 in
      (
        guard-true not_attestation on,
        a,
        from_codec-ok e1,
        rw groups (
            count-append_at nat_key (xx_hash encoded) (item_of a (subnet_of meta))
              p.encoded_attestations),
        (
          encoded,
          from_codec-ok e2,
          rw groups (
              assoc_load-append_at nat_key (xx_hash encoded) (item_of a (subnet_of meta))
                p.encoded_attestations (xx_hash encoded)
              ∙ rw (same_refl nat_key (xx_hash encoded)) refl),
        ),
      )

  module _ (proto : Proto AttestationPack) where
    -- What one gateway packs another one unpacks: a pack of attestations of the same valid data
    -- decodes, and under each topic there are, in their order, messages that decode to the
    -- attestations of the items of its subnet.
    pub decode-pack :
        (digest : Bytes) (content : AttestationData) (items : List AttestationItem) (now : ℕ)
        (payload encoded : Bytes)
        → IsAttestationData content
        → Each IsItem items
        → encode_gossip z data_ssz content ≡ ok encoded
        → proto.marshal (record { attestation_ssz_data = encoded; items = items; send_ts_ms = now })
          ≡ some payload
        → (result : List (Bytes × List Bytes)) × (decode z proto digest payload ≡ ok result)
          × ((topic : Bytes) → Matches digest content topic items (delivered result topic))
    unfolding decode
    decode-pack digest content items now payload encoded v i e m =
        let (b, e', short, d) = decode_gossip-encode_gossip z data_ssz content v (omega arith) in
        let (result, run, each) = decode_items_sound digest content items [] v i in
        let same : b ≡ encoded = cc (sym e' ∙ e) in
        (
          result,
          rw (proto.unmarshal-marshal _ payload m, sym same, d) run,
          λ topic.
              let (msgs, f, matches) = each topic in
              subst (Matches digest content topic items) (sym f) matches,
        )
