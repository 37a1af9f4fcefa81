-- ===== src/Consensus/Attestation/Canonical.antt =====
-- What the decoders of attestation.go accept: exactly the encodings, each of one value.
use optimum_gateway.Base.{
  ◌≡◌, ◌≢◌, ◌⊎◌, refl, ap, ◌∙◌, ◌++◌, arith, ok, length, slice, length-slice, ==_iff, Bool-cases,
  ◌==◌, inl, inr, err,
}
use optimum_gateway.Base.Wire.{Bytes, IsBytes, le_value}
use optimum_gateway.Base.Parts.{
  slice_cons, le_bytes-slice, IsBytes-slice, slice_whole, slice-IsArray, le_value-slice-lt,
}
use optimum_gateway.Consensus.Types.{bad_length}
use optimum_gateway.Consensus.Attestation.{
  SingleAttestation, IsCheckpoint, IsAttestationData, IsSingleAttestation, append_checkpoint,
  unmarshal_checkpoint, marshal_data, data_fields, unmarshal_data, marshal_single, unmarshal_single,
}

-- Forty bytes are a checkpoint's encoding.
append_checkpoint-unmarshal :
    (b : Bytes) → IsBytes b → length b ≡ 40 → append_checkpoint (unmarshal_checkpoint b) ≡ b
unfolding append_checkpoint unmarshal_checkpoint
append_checkpoint-unmarshal b h l =
    ap (λ x. x ++ slice 8 40 b) (le_bytes-slice 0 8 8 b h (omega arith) (omega arith) refl)
    ∙ slice_cons 0 8 40 b (slice 8 40 b) (omega arith) (omega arith) refl
    ∙ slice_whole 40 b l

unmarshal_checkpoint-IsCheckpoint :
    (b : Bytes) → IsBytes b → length b ≡ 40 → IsCheckpoint (unmarshal_checkpoint b)
unfolding unmarshal_checkpoint
unmarshal_checkpoint-IsCheckpoint b h l = record {
  epoch_fits = le_value-slice-lt 0 8 b h (omega arith) (omega arith);
  root_array = slice-IsArray 8 40 32 b h (omega arith) (omega arith);
}

module _ (b : Bytes) (h : IsBytes b) (l : length b ≡ 128) where
  source_lem : append_checkpoint (unmarshal_checkpoint (slice 48 88 b)) ≡ slice 48 88 b
  source_lem =
      append_checkpoint-unmarshal (slice 48 88 b) (IsBytes-slice 48 88 b h)
        (omega (arith, length-slice 48 88 b))

  target_lem : append_checkpoint (unmarshal_checkpoint (slice 88 128 b)) ≡ slice 88 128 b
  target_lem =
      append_checkpoint-unmarshal (slice 88 128 b) (IsBytes-slice 88 128 b h)
        (omega (arith, length-slice 88 128 b))

  marshal_data-data_fields : marshal_data (data_fields b) ≡ b
  unfolding marshal_data data_fields
  marshal_data-data_fields =
      rw
        (
          le_bytes-slice 0 8 8 b h (omega arith) (omega arith) refl,
          le_bytes-slice 8 16 8 b h (omega arith) (omega arith) refl,
          source_lem,
          target_lem,
        )
        (slice_cons 0 8 128 b _ (omega arith) (omega arith) (
            slice_cons 8 16 128 b _ (omega arith) (omega arith) (
              slice_cons 16 48 128 b _ (omega arith) (omega arith)
                (slice_cons 48 88 128 b _ (omega arith) (omega arith) refl)))
          ∙ slice_whole 128 b l)

  data_fields-IsAttestationData : IsAttestationData (data_fields b)
  unfolding data_fields
  data_fields-IsAttestationData = record {
    slot_fits = le_value-slice-lt 0 8 b h (omega arith) (omega arith);
    committee_fits = le_value-slice-lt 8 16 b h (omega arith) (omega arith);
    block_root_array = slice-IsArray 16 48 32 b h (omega arith) (omega arith);
    source_valid =
        unmarshal_checkpoint-IsCheckpoint (slice 48 88 b) (IsBytes-slice 48 88 b h)
          (omega (arith, length-slice 48 88 b));
    target_valid =
        unmarshal_checkpoint-IsCheckpoint (slice 88 128 b) (IsBytes-slice 88 128 b h)
          (omega (arith, length-slice 88 128 b));
  }

  pub unmarshal_data_complete :
      (unmarshal_data b ≡ ok (data_fields b))
      × (marshal_data (data_fields b) ≡ b)
      × IsAttestationData (data_fields b)
  unfolding unmarshal_data
  unmarshal_data_complete = (rw l, marshal_data-data_fields, data_fields-IsAttestationData)

-- What `unmarshal_single` answers on 240 bytes.
abbrev single_fields : Bytes → SingleAttestation
single_fields b = record {
  committee_index = le_value (slice 0 8 b);
  attester_index = le_value (slice 8 16 b);
  content = data_fields (slice 16 144 b);
  signature = slice 144 240 b;
}

module _ (b : Bytes) (h : IsBytes b) (l : length b ≡ 240) where
  content_complete :
      (unmarshal_data (slice 16 144 b) ≡ ok (data_fields (slice 16 144 b)))
      × (marshal_data (data_fields (slice 16 144 b)) ≡ slice 16 144 b)
      × IsAttestationData (data_fields (slice 16 144 b))
  content_complete =
      unmarshal_data_complete (slice 16 144 b) (IsBytes-slice 16 144 b h)
        (omega (arith, length-slice 16 144 b))

  unmarshal_single-fields : unmarshal_single b ≡ ok (single_fields b)
  unfolding unmarshal_single
  unmarshal_single-fields = rw (l, content_complete.0)

  marshal_single-fields : marshal_single (single_fields b) ≡ b
  unfolding marshal_single
  marshal_single-fields =
      rw
        (
          le_bytes-slice 0 8 8 b h (omega arith) (omega arith) refl,
          le_bytes-slice 8 16 8 b h (omega arith) (omega arith) refl,
          content_complete.1,
        )
        (slice_cons 0 8 240 b _ (omega arith) (omega arith) (
            slice_cons 8 16 240 b _ (omega arith) (omega arith)
              (slice_cons 16 144 240 b _ (omega arith) (omega arith) refl))
          ∙ slice_whole 240 b l)

  single_fields-IsSingleAttestation : IsSingleAttestation (single_fields b)
  single_fields-IsSingleAttestation = record {
    committee_fits = le_value-slice-lt 0 8 b h (omega arith) (omega arith);
    attester_fits = le_value-slice-lt 8 16 b h (omega arith) (omega arith);
    content_valid = content_complete.2;
    signature_array = slice-IsArray 144 240 96 b h (omega arith) (omega arith);
  }

-- A byte sequence is either of another length than 240, and refused with that length, or is
-- decoded to an attestation whose fields fit their types and whose encoding is that very sequence.
pub unmarshal_single_exact :
    (b : Bytes)
    → IsBytes b
    → ((length b ≢ 240) × (unmarshal_single b ≡ err (bad_length 240 (length b))))
      ⊎ ((s : SingleAttestation) × (unmarshal_single b ≡ ok s)
          × (marshal_single s ≡ b)
          × IsSingleAttestation s)
unfolding unmarshal_single
unmarshal_single_exact b h = elim (Bool-cases (length b == 240)) [
  | inl e ↦
      let l : length b ≡ 240 = (==_iff _ _).0 e in
      inr (
        single_fields b,
        unmarshal_single-fields b h l,
        marshal_single-fields b h l,
        single_fields-IsSingleAttestation b h l,
      )
  | inr e ↦ inl (ground arith, rw e)
]
