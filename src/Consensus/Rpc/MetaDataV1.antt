-- ===== src/Consensus/Rpc/MetaDataV1.antt =====
-- `MetaDataV1` of pkg/protocol/consensus/rpc.go (17 bytes), its codec, and that the two halves of
-- the codec are inverse to one another.
use optimum_gateway.Base.{
  ℕ, ◌≡◌, ◌≢◌, ◌⊎◌, refl, ap, ◌∙◌, [], ◌∷◌, ◌++◌, arith, Result, ok, err, length, slice, ==_iff,
  Bool-cases, ◌==◌, inl, inr, guard, ◌>>◌,
}
use optimum_gateway.Base.Wire.{Bytes, IsBytes, le_bytes, le_value, length-le_bytes}
use optimum_gateway.Base.Parts.{
  slice-concat, slice_cons, le_bytes-slice, IsArray, le_value-slice-concat, length-concat,
  slice_whole, slice-IsArray, le_value-slice-lt,
}
use optimum_gateway.Consensus.Types.{SszError, bad_length, IsUint64}

abbrev pub meta_v1_size : ℕ
meta_v1_size = 17

pub record MetaDataV1 : Type 0 where
  pub seq_number : ℕ
  pub attnets : Bytes
  pub syncnets : Bytes

-- What Go's types guarantee.
pub record IsMetaDataV1 (s : MetaDataV1) : Type 0 where
  pub seq_number_fits : IsUint64 s.seq_number
  pub attnets_fits : IsArray 8 s.attnets
  pub syncnets_fits : IsArray 1 s.syncnets

-- `MetaDataV1.MarshalSSZ`, which always succeeds.
unfoldable pub marshal_meta_v1 : MetaDataV1 → Bytes
marshal_meta_v1 s = le_bytes 8 s.seq_number ++ (s.attnets ++ s.syncnets)

-- The fields that `MetaDataV1.UnmarshalSSZ` reads after its length check.
unfoldable pub meta_v1_fields : Bytes → MetaDataV1
meta_v1_fields b = record {
  seq_number = le_value (slice 0 8 b);
  attnets = slice 8 16 b;
  syncnets = slice 16 17 b;
}

unfoldable pub unmarshal_meta_v1 : Bytes → Result SszError MetaDataV1
unfolding meta_v1_fields
unmarshal_meta_v1 b = do
  guard (length b == meta_v1_size) (bad_length meta_v1_size (length b))
  ok (meta_v1_fields b)

module _ (s : MetaDataV1) (v : IsMetaDataV1 s) where
  length-marshal_meta_v1 : length (marshal_meta_v1 s) ≡ 17
  unfolding marshal_meta_v1
  length-marshal_meta_v1 = omega (
    arith,
    length-concat (le_bytes 8 s.seq_number ∷ s.attnets ∷ s.syncnets ∷ []),
    length-le_bytes,
  )

  meta_v1_fields-marshal : meta_v1_fields (marshal_meta_v1 s) ≡ s
  unfolding marshal_meta_v1 meta_v1_fields
  meta_v1_fields-marshal =
      λ i. record { seq_number = seq_number i; attnets = attnets i; syncnets = syncnets i }
    where
      seq_number : le_value (slice 0 8 (marshal_meta_v1 s)) ≡ s.seq_number
      seq_number =
          le_value-slice-concat [] s.seq_number (s.attnets ∷ s.syncnets ∷ []) 0 8 v.seq_number_fits
            (omega (arith, length-le_bytes)) (omega arith)

      attnets : slice 8 16 (marshal_meta_v1 s) ≡ s.attnets
      attnets =
          slice-concat (le_bytes 8 s.seq_number ∷ []) s.attnets (s.syncnets ∷ []) 8 16
            (omega (arith, length-le_bytes)) (omega (arith, length-le_bytes))

      syncnets : slice 16 17 (marshal_meta_v1 s) ≡ s.syncnets
      syncnets =
          slice-concat (le_bytes 8 s.seq_number ∷ s.attnets ∷ []) s.syncnets [] 16 17
            (omega (arith, length-le_bytes)) (omega (arith, length-le_bytes))

  -- The decoder gives back every `MetaDataV1` that is encoded.
  pub unmarshal-marshal_meta_v1 : unmarshal_meta_v1 (marshal_meta_v1 s) ≡ ok s
  unfolding unmarshal_meta_v1
  unmarshal-marshal_meta_v1 = rw length-marshal_meta_v1 (ap ok meta_v1_fields-marshal)

module _ (b : Bytes) (h : IsBytes b) (l : length b ≡ 17) where
  marshal-meta_v1_fields : marshal_meta_v1 (meta_v1_fields b) ≡ b
  unfolding marshal_meta_v1 meta_v1_fields
  marshal-meta_v1_fields = rw (le_bytes-slice 0 8 8 b h (omega arith) (omega arith) refl) (
      slice_cons 0 8 17 b _ (omega arith) (omega arith)
        (slice_cons 8 16 17 b _ (omega arith) (omega arith) refl)
      ∙ slice_whole 17 b l)

  meta_v1_fields-IsMetaDataV1 : IsMetaDataV1 (meta_v1_fields b)
  unfolding meta_v1_fields
  meta_v1_fields-IsMetaDataV1 = record {
    seq_number_fits = le_value-slice-lt 0 8 b h (omega arith) (omega arith);
    attnets_fits = slice-IsArray 8 16 8 b h (omega arith) (omega arith);
    syncnets_fits = slice-IsArray 16 17 1 b h (omega arith) (omega arith);
  }

-- A byte sequence is either of another length than 17, and refused with that length, or is
-- decoded to a `MetaDataV1` whose fields fit their types and whose encoding is that very sequence.
pub unmarshal_meta_v1_exact :
    (b : Bytes)
    → IsBytes b
    → ((length b ≢ 17) × (unmarshal_meta_v1 b ≡ err (bad_length 17 (length b))))
      ⊎ ((s : MetaDataV1) × (unmarshal_meta_v1 b ≡ ok s) × (marshal_meta_v1 s ≡ b) × IsMetaDataV1 s)
unfolding unmarshal_meta_v1
unmarshal_meta_v1_exact b h = elim (Bool-cases (length b == 17)) [
  | inl e ↦
      let l : length b ≡ 17 = (==_iff _ _).0 e in
      inr (meta_v1_fields b, rw l, marshal-meta_v1_fields b h l, meta_v1_fields-IsMetaDataV1 b h l)
  | inr e ↦ inl (ground arith, rw e)
]
