-- ===== src/Consensus/Codec/Instances.antt =====
-- The containers of the package as instances of the codec's interface.
use optimum_gateway.Base.{ℕ, ◌≡◌, refl, ok, length}
use optimum_gateway.Base.Wire.{length-le_bytes, le_value-le_bytes}
use optimum_gateway.Consensus.Types.{IsUint64, marshal_uint64, unmarshal_uint64}
use optimum_gateway.Consensus.Attestation.{
  AttestationData, SingleAttestation, IsAttestationData, IsSingleAttestation, marshal_data,
  unmarshal_data, marshal_single, unmarshal_single,
}
use optimum_gateway.Consensus.Attestation.RoundTrip.{
  length-marshal_data, unmarshal_data-marshal_data, length-marshal_single,
  unmarshal_single-marshal_single,
}
use optimum_gateway.Consensus.Codec.{Ssz}

pub unmarshal-marshal_uint64 : (v : ℕ) → IsUint64 v → unmarshal_uint64 (marshal_uint64 v) ≡ ok v
unfolding marshal_uint64 unmarshal_uint64
unmarshal-marshal_uint64 v h = rw (length-le_bytes 8 v, le_value-le_bytes 8 v h)

pub length-marshal_uint64 : (v : ℕ) → length (marshal_uint64 v) ≡ 8
unfolding marshal_uint64
length-marshal_uint64 v = length-le_bytes 8 v

instance abbrev pub uint64_ssz : Ssz ℕ
uint64_ssz = record {
  marshal = λ v. ok (marshal_uint64 v);
  unmarshal = unmarshal_uint64;
  IsValid = IsUint64;
  size = 8;
  marshal_lem =
      λ v h. (marshal_uint64 v, refl, length-marshal_uint64 v, unmarshal-marshal_uint64 v h);
}

instance abbrev pub data_ssz : Ssz AttestationData
data_ssz = record {
  marshal = λ d. ok (marshal_data d);
  unmarshal = unmarshal_data;
  IsValid = IsAttestationData;
  size = 128;
  marshal_lem =
      λ d v. (marshal_data d, refl, length-marshal_data d v, unmarshal_data-marshal_data d v);
}

instance abbrev pub single_ssz : Ssz SingleAttestation
single_ssz = record {
  marshal = λ s. ok (marshal_single s);
  unmarshal = unmarshal_single;
  IsValid = IsSingleAttestation;
  size = 240;
  marshal_lem = λ s v.
      (marshal_single s, refl, length-marshal_single s v, unmarshal_single-marshal_single s v);
}
