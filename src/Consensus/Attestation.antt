-- ===== src/Consensus/Attestation.antt =====
-- pkg/protocol/consensus/attestation.go: the SSZ containers of attestations. A fixed Go array
-- `[n]byte` is a list of `n` bytes; `IsCheckpoint`, `IsAttestationData` and
-- `IsSingleAttestation` state what Go's types guarantee. A decoder returns the struct that
-- it fills; on an error the caller drops it.
pub mod RoundTrip
pub mod Canonical
use optimum_gateway.Base.{ℕ, ◌≡◌, ◌++◌, Result, ok, err, guard, ◌>>=◌, ◌>>◌, length, slice, ◌==◌}
use optimum_gateway.Base.Wire.{Bytes, le_bytes, le_value}
use optimum_gateway.Base.Parts.{IsArray}
use optimum_gateway.Consensus.Types.{SszError, bad_length, IsUint64}

abbrev pub checkpoint_size : ℕ
checkpoint_size = 40

abbrev pub attestation_data_size : ℕ
attestation_data_size = 128

abbrev pub single_attestation_size : ℕ
single_attestation_size = 240

abbrev pub signature_size : ℕ
signature_size = 96

pub record Checkpoint : Type 0 where
  pub epoch : ℕ
  pub root : Bytes

pub record AttestationData : Type 0 where
  pub slot : ℕ
  pub committee_index : ℕ
  pub beacon_block_root : Bytes
  pub source : Checkpoint
  pub target : Checkpoint

pub record SingleAttestation : Type 0 where
  pub committee_index : ℕ
  pub attester_index : ℕ
  pub content : AttestationData  -- `Data`
  pub signature : Bytes

pub record IsCheckpoint (c : Checkpoint) : Type 0 where
  pub epoch_fits : IsUint64 c.epoch
  pub root_array : IsArray 32 c.root

pub record IsAttestationData (d : AttestationData) : Type 0 where
  pub slot_fits : IsUint64 d.slot
  pub committee_fits : IsUint64 d.committee_index
  pub block_root_array : IsArray 32 d.beacon_block_root
  pub source_valid : IsCheckpoint d.source
  pub target_valid : IsCheckpoint d.target

pub record IsSingleAttestation (s : SingleAttestation) : Type 0 where
  pub committee_fits : IsUint64 s.committee_index
  pub attester_fits : IsUint64 s.attester_index
  pub content_valid : IsAttestationData s.content
  pub signature_array : IsArray signature_size s.signature

-- `Checkpoint.appendTo`, less the bytes that it appends to.
unfoldable pub append_checkpoint : Checkpoint → Bytes
append_checkpoint c = le_bytes 8 c.epoch ++ c.root

-- `Checkpoint.unmarshal`
unfoldable pub unmarshal_checkpoint : Bytes → Checkpoint
unmarshal_checkpoint b = record { epoch = le_value (slice 0 8 b); root = slice 8 checkpoint_size b }

-- `AttestationData.MarshalSSZ`, which always succeeds.
unfoldable pub marshal_data : AttestationData → Bytes
marshal_data d =
    le_bytes 8 d.slot
    ++ (le_bytes 8 d.committee_index
        ++ (d.beacon_block_root ++ (append_checkpoint d.source ++ append_checkpoint d.target)))

-- The fields of `AttestationData.UnmarshalSSZ`, after its length check.
unfoldable pub data_fields : Bytes → AttestationData
data_fields b = record {
  slot = le_value (slice 0 8 b);
  committee_index = le_value (slice 8 16 b);
  beacon_block_root = slice 16 48 b;
  source = unmarshal_checkpoint (slice 48 88 b);
  target = unmarshal_checkpoint (slice 88 128 b);
}

unfoldable pub unmarshal_data : Bytes → Result SszError AttestationData
unfolding data_fields
unmarshal_data b = do
  guard (length b == attestation_data_size) (bad_length attestation_data_size (length b))
  ok (data_fields b)

-- `SingleAttestation.MarshalSSZ`
unfoldable pub marshal_single : SingleAttestation → Bytes
marshal_single s =
    le_bytes 8 s.committee_index
    ++ (le_bytes 8 s.attester_index ++ (marshal_data s.content ++ s.signature))

unfoldable pub unmarshal_single : Bytes → Result SszError SingleAttestation
unmarshal_single b = do
  guard (length b == single_attestation_size) (bad_length single_attestation_size (length b))
  content ← unmarshal_data (slice 16 144 b)
  ok (record {
    committee_index = le_value (slice 0 8 b);
    attester_index = le_value (slice 8 16 b);
    content = content;
    signature = slice 144 single_attestation_size b;
  })
