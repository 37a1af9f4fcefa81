-- ===== src/Consensus/Attestation/RoundTrip.antt =====
-- The encoders and decoders of attestation.go are inverse to one another.
use optimum_gateway.Base.{◌≡◌, ap, ◌∙◌, [], ◌∷◌, ◌++◌, arith, ok, length, length-append, slice}
use optimum_gateway.Base.Wire.{Bytes, le_bytes, le_value, length-le_bytes}
use optimum_gateway.Base.Parts.{slice-concat, le_value-slice-concat, length-concat}
use optimum_gateway.Consensus.Attestation.{
  Checkpoint, AttestationData, SingleAttestation, IsCheckpoint, IsAttestationData,
  IsSingleAttestation, append_checkpoint, unmarshal_checkpoint, marshal_data, data_fields,
  unmarshal_data, marshal_single, unmarshal_single,
}

pub length-append_checkpoint : (c : Checkpoint) → IsCheckpoint c → length (append_checkpoint c) ≡ 40
unfolding append_checkpoint
length-append_checkpoint c v =
    omega (arith, length-append (le_bytes 8 c.epoch) c.root, length-le_bytes)

pub unmarshal_checkpoint-append :
    (c : Checkpoint) → IsCheckpoint c → unmarshal_checkpoint (append_checkpoint c) ≡ c
unfolding append_checkpoint unmarshal_checkpoint
unmarshal_checkpoint-append c v = λ i. record { epoch = e i; root = r i }
  where
    e : le_value (slice 0 8 (le_bytes 8 c.epoch ++ c.root)) ≡ c.epoch
    e = le_value-slice-concat [] c.epoch (c.root ∷ []) 0 8 v.epoch_fits (omega arith) (omega arith)

    r : slice 8 40 (le_bytes 8 c.epoch ++ c.root) ≡ c.root
    r =
        slice-concat (le_bytes 8 c.epoch ∷ []) c.root [] 8 40 (omega (arith, length-le_bytes))
          (omega (arith, length-le_bytes))

module _ (d : AttestationData) (v : IsAttestationData d) where
  pub length-marshal_data : length (marshal_data d) ≡ 128
  unfolding marshal_data
  length-marshal_data = omega (
    arith,
    length-concat (
        le_bytes 8 d.slot
        ∷ le_bytes 8 d.committee_index
        ∷ d.beacon_block_root
        ∷ append_checkpoint d.source
        ∷ append_checkpoint d.target
        ∷ []),
    length-le_bytes,
    length-append_checkpoint d.source v.source_valid,
    length-append_checkpoint d.target v.target_valid,
  )

  data_fields-marshal_data : data_fields (marshal_data d) ≡ d
  unfolding marshal_data data_fields
  data_fields-marshal_data = λ i. record {
    slot = slot i;
    committee_index = index i;
    beacon_block_root = root i;
    source = source i;
    target = target i;
  }
    where
      b : Bytes
      b = marshal_data d

      s8 : Bytes
      s8 = le_bytes 8 d.slot

      c8 : Bytes
      c8 = le_bytes 8 d.committee_index

      src : Bytes
      src = append_checkpoint d.source

      tgt : Bytes
      tgt = append_checkpoint d.target

      slot : le_value (slice 0 8 b) ≡ d.slot
      slot =
          le_value-slice-concat [] d.slot (c8 ∷ d.beacon_block_root ∷ src ∷ tgt ∷ []) 0 8
            v.slot_fits (omega arith) (omega arith)

      index : le_value (slice 8 16 b) ≡ d.committee_index
      index =
          le_value-slice-concat (s8 ∷ []) d.committee_index (d.beacon_block_root ∷ src ∷ tgt ∷ []) 8
            16 v.committee_fits (omega (arith, length-le_bytes)) (omega arith)

      root : slice 16 48 b ≡ d.beacon_block_root
      root =
          slice-concat (s8 ∷ c8 ∷ []) d.beacon_block_root (src ∷ tgt ∷ []) 16 48
            (omega (arith, length-le_bytes)) (omega (arith, length-le_bytes))

      source : unmarshal_checkpoint (slice 48 88 b) ≡ d.source
      source =
          ap unmarshal_checkpoint (
            slice-concat (s8 ∷ c8 ∷ d.beacon_block_root ∷ []) src (tgt ∷ []) 48 88
              (omega (arith, length-le_bytes))
              (omega (arith, length-le_bytes, length-append_checkpoint d.source v.source_valid)))
          ∙ unmarshal_checkpoint-append d.source v.source_valid

      target : unmarshal_checkpoint (slice 88 128 b) ≡ d.target
      target =
          ap unmarshal_checkpoint (
            slice-concat (s8 ∷ c8 ∷ d.beacon_block_root ∷ src ∷ []) tgt [] 88 128
              (omega (arith, length-le_bytes, length-append_checkpoint d.source v.source_valid))
              (omega (
                arith,
                length-le_bytes,
                length-append_checkpoint d.source v.source_valid,
                length-append_checkpoint d.target v.target_valid,
              )))
          ∙ unmarshal_checkpoint-append d.target v.target_valid

  -- Decoding an encoded attestation data gives it back.
  pub unmarshal_data-marshal_data : unmarshal_data (marshal_data d) ≡ ok d
  unfolding unmarshal_data
  unmarshal_data-marshal_data = rw length-marshal_data (ap ok data_fields-marshal_data)

module _ (s : SingleAttestation) (v : IsSingleAttestation s) where
  pub length-marshal_single : length (marshal_single s) ≡ 240
  unfolding marshal_single
  length-marshal_single = omega (
    arith,
    length-concat (
        le_bytes 8 s.committee_index
        ∷ le_bytes 8 s.attester_index
        ∷ marshal_data s.content
        ∷ s.signature
        ∷ []),
    length-le_bytes,
    length-marshal_data s.content v.content_valid,
  )

  marshal_single-committee : le_value (slice 0 8 (marshal_single s)) ≡ s.committee_index
  unfolding marshal_single
  marshal_single-committee =
      le_value-slice-concat [] s.committee_index
        (le_bytes 8 s.attester_index ∷ marshal_data s.content ∷ s.signature ∷ []) 0 8
        v.committee_fits (omega arith) (omega arith)

  pub marshal_single-attester : le_value (slice 8 16 (marshal_single s)) ≡ s.attester_index
  unfolding marshal_single
  marshal_single-attester =
      le_value-slice-concat (le_bytes 8 s.committee_index ∷ []) s.attester_index
        (marshal_data s.content ∷ s.signature ∷ []) 8 16 v.attester_fits
        (omega (arith, length-le_bytes)) (omega arith)

  marshal_single-content : slice 16 144 (marshal_single s) ≡ marshal_data s.content
  unfolding marshal_single
  marshal_single-content =
      slice-concat (le_bytes 8 s.committee_index ∷ le_bytes 8 s.attester_index ∷ [])
        (marshal_data s.content) (s.signature ∷ []) 16 144 (omega (arith, length-le_bytes))
        (omega (arith, length-le_bytes, length-marshal_data s.content v.content_valid))

  marshal_single-signature : slice 144 240 (marshal_single s) ≡ s.signature
  unfolding marshal_single
  marshal_single-signature =
      slice-concat
        (le_bytes 8 s.committee_index ∷ le_bytes 8 s.attester_index ∷ marshal_data s.content ∷ [])
        s.signature [] 144 240
        (omega (arith, length-le_bytes, length-marshal_data s.content v.content_valid))
        (omega (arith, length-le_bytes, length-marshal_data s.content v.content_valid))

  -- For every attestation whose fields have the sizes of their Go types, decoding its encoding
  -- succeeds and gives the attestation back.
  pub unmarshal_single-marshal_single : unmarshal_single (marshal_single s) ≡ ok s
  unfolding unmarshal_single
  unmarshal_single-marshal_single = rw (
    length-marshal_single,
    marshal_single-committee,
    marshal_single-attester,
    marshal_single-content,
    marshal_single-signature,
    unmarshal_data-marshal_data s.content v.content_valid,
  )
