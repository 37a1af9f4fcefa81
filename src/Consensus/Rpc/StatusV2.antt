-- ===== src/Consensus/Rpc/StatusV2.antt =====
-- `StatusV2` of pkg/protocol/consensus/rpc.go (92 bytes), its codec, and that the two halves of
-- the codec are inverse to one another.
use optimum_gateway.Base.{
  ℕ, ◌≡◌, ◌≢◌, ◌⊎◌, refl, ap, ◌∙◌, [], ◌∷◌, ◌++◌, arith, Result, ok, err, length, slice, ==_iff,
  Bool-cases, ◌==◌, inl, inr, guard, ◌>>◌,
}
use optimum_gateway.Base.Wire.{Bytes, IsBytes, le_bytes, le_value, length-le_bytes}
use optimum_gateway.Base.Parts.{
  slice-concat, slice_cons, le_bytes-slice, IsArray, le_value-slice-concat, length-concat,
  slice_whole, slice-IsArray, le_value-slice-lt,
}
use optimum_gateway.Consensus.Types.{SszError, bad_length, IsUint64}

abbrev pub status_v2_size : ℕ
status_v2_size = 92

pub record StatusV2 : Type 0 where
  pub fork_digest : Bytes
  pub finalized_root : Bytes
  pub finalized_epoch : ℕ
  pub head_root : Bytes
  pub head_slot : ℕ
  pub earliest_available_slot : ℕ

-- What Go's types guarantee.
pub record IsStatusV2 (s : StatusV2) : Type 0 where
  pub fork_digest_fits : IsArray 4 s.fork_digest
  pub finalized_root_fits : IsArray 32 s.finalized_root
  pub finalized_epoch_fits : IsUint64 s.finalized_epoch
  pub head_root_fits : IsArray 32 s.head_root
  pub head_slot_fits : IsUint64 s.head_slot
  pub earliest_available_slot_fits : IsUint64 s.earliest_available_slot

-- `StatusV2.MarshalSSZ`, which always succeeds.
unfoldable pub marshal_status_v2 : StatusV2 → Bytes
marshal_status_v2 s =
    s.fork_digest
    ++ (s.finalized_root
        ++ (le_bytes 8 s.finalized_epoch
            ++ (s.head_root ++ (le_bytes 8 s.head_slot ++ le_bytes 8 s.earliest_available_slot))))

-- The fields that `StatusV2.UnmarshalSSZ` reads after its length check.
unfoldable pub status_v2_fields : Bytes → StatusV2
status_v2_fields b = record {
  fork_digest = slice 0 4 b;
  finalized_root = slice 4 36 b;
  finalized_epoch = le_value (slice 36 44 b);
  head_root = slice 44 76 b;
  head_slot = le_value (slice 76 84 b);
  earliest_available_slot = le_value (slice 84 92 b);
}

unfoldable pub unmarshal_status_v2 : Bytes → Result SszError StatusV2
unfolding status_v2_fields
unmarshal_status_v2 b = do
  guard (length b == status_v2_size) (bad_length status_v2_size (length b))
  ok (status_v2_fields b)

module _ (s : StatusV2) (v : IsStatusV2 s) where
  length-marshal_status_v2 : length (marshal_status_v2 s) ≡ 92
  unfolding marshal_status_v2
  length-marshal_status_v2 = omega (
    arith,
    length-concat (
        s.fork_digest
        ∷ s.finalized_root
        ∷ le_bytes 8 s.finalized_epoch
        ∷ s.head_root
        ∷ le_bytes 8 s.head_slot
        ∷ le_bytes 8 s.earliest_available_slot
        ∷ []),
    length-le_bytes,
  )

  status_v2_fields-marshal : status_v2_fields (marshal_status_v2 s) ≡ s
  unfolding marshal_status_v2 status_v2_fields
  status_v2_fields-marshal = λ i. record {
    fork_digest = fork_digest i;
    finalized_root = finalized_root i;
    finalized_epoch = finalized_epoch i;
    head_root = head_root i;
    head_slot = head_slot i;
    earliest_available_slot = earliest_available_slot i;
  }
    where
      fork_digest : slice 0 4 (marshal_status_v2 s) ≡ s.fork_digest
      fork_digest =
          slice-concat [] s.fork_digest
            (s.finalized_root
              ∷ le_bytes 8 s.finalized_epoch
              ∷ s.head_root
              ∷ le_bytes 8 s.head_slot
              ∷ le_bytes 8 s.earliest_available_slot
              ∷ [])
            0 4 (omega (arith, length-le_bytes)) (omega (arith, length-le_bytes))

      finalized_root : slice 4 36 (marshal_status_v2 s) ≡ s.finalized_root
      finalized_root =
          slice-concat (s.fork_digest ∷ []) s.finalized_root
            (le_bytes 8 s.finalized_epoch
              ∷ s.head_root
              ∷ le_bytes 8 s.head_slot
              ∷ le_bytes 8 s.earliest_available_slot
              ∷ [])
            4 36 (omega (arith, length-le_bytes)) (omega (arith, length-le_bytes))

      finalized_epoch : le_value (slice 36 44 (marshal_status_v2 s)) ≡ s.finalized_epoch
      finalized_epoch =
          le_value-slice-concat (s.fork_digest ∷ s.finalized_root ∷ []) s.finalized_epoch
            (s.head_root ∷ le_bytes 8 s.head_slot ∷ le_bytes 8 s.earliest_available_slot ∷ []) 36 44
            v.finalized_epoch_fits (omega (arith, length-le_bytes)) (omega arith)

      head_root : slice 44 76 (marshal_status_v2 s) ≡ s.head_root
      head_root =
          slice-concat (s.fork_digest ∷ s.finalized_root ∷ le_bytes 8 s.finalized_epoch ∷ [])
            s.head_root (le_bytes 8 s.head_slot ∷ le_bytes 8 s.earliest_available_slot ∷ []) 44 76
            (omega (arith, length-le_bytes)) (omega (arith, length-le_bytes))

      head_slot : le_value (slice 76 84 (marshal_status_v2 s)) ≡ s.head_slot
      head_slot =
          le_value-slice-concat
            (s.fork_digest ∷ s.finalized_root ∷ le_bytes 8 s.finalized_epoch ∷ s.head_root ∷ [])
            s.head_slot (le_bytes 8 s.earliest_available_slot ∷ []) 76 84 v.head_slot_fits
            (omega (arith, length-le_bytes)) (omega arith)

      earliest_available_slot :
          le_value (slice 84 92 (marshal_status_v2 s)) ≡ s.earliest_available_slot
      earliest_available_slot =
          le_value-slice-concat
            (s.fork_digest
              ∷ s.finalized_root
              ∷ le_bytes 8 s.finalized_epoch
              ∷ s.head_root
              ∷ le_bytes 8 s.head_slot
              ∷ [])
            s.earliest_available_slot [] 84 92 v.earliest_available_slot_fits
            (omega (arith, length-le_bytes)) (omega arith)

  -- The decoder gives back every `StatusV2` that is encoded.
  pub unmarshal-marshal_status_v2 : unmarshal_status_v2 (marshal_status_v2 s) ≡ ok s
  unfolding unmarshal_status_v2
  unmarshal-marshal_status_v2 = rw length-marshal_status_v2 (ap ok status_v2_fields-marshal)

module _ (b : Bytes) (h : IsBytes b) (l : length b ≡ 92) where
  marshal-status_v2_fields : marshal_status_v2 (status_v2_fields b) ≡ b
  unfolding marshal_status_v2 status_v2_fields
  marshal-status_v2_fields =
      rw
        (
          le_bytes-slice 36 44 8 b h (omega arith) (omega arith) refl,
          le_bytes-slice 76 84 8 b h (omega arith) (omega arith) refl,
          le_bytes-slice 84 92 8 b h (omega arith) (omega arith) refl,
        )
        (slice_cons 0 4 92 b _ (omega arith) (omega arith) (
            slice_cons 4 36 92 b _ (omega arith) (omega arith) (
              slice_cons 36 44 92 b _ (omega arith) (omega arith) (
                slice_cons 44 76 92 b _ (omega arith) (omega arith)
                  (slice_cons 76 84 92 b _ (omega arith) (omega arith) refl))))
          ∙ slice_whole 92 b l)

  status_v2_fields-IsStatusV2 : IsStatusV2 (status_v2_fields b)
  unfolding status_v2_fields
  status_v2_fields-IsStatusV2 = record {
    fork_digest_fits = slice-IsArray 0 4 4 b h (omega arith) (omega arith);
    finalized_root_fits = slice-IsArray 4 36 32 b h (omega arith) (omega arith);
    finalized_epoch_fits = le_value-slice-lt 36 44 b h (omega arith) (omega arith);
    head_root_fits = slice-IsArray 44 76 32 b h (omega arith) (omega arith);
    head_slot_fits = le_value-slice-lt 76 84 b h (omega arith) (omega arith);
    earliest_available_slot_fits = le_value-slice-lt 84 92 b h (omega arith) (omega arith);
  }

-- A byte sequence is either of another length than 92, and refused with that length, or is
-- decoded to a `StatusV2` whose fields fit their types and whose encoding is that very sequence.
unmarshal_status_v2_exact :
    (b : Bytes)
    → IsBytes b
    → ((length b ≢ 92) × (unmarshal_status_v2 b ≡ err (bad_length 92 (length b))))
      ⊎ ((s : StatusV2) × (unmarshal_status_v2 b ≡ ok s) × (marshal_status_v2 s ≡ b) × IsStatusV2 s)
unfolding unmarshal_status_v2
unmarshal_status_v2_exact b h = elim (Bool-cases (length b == 92)) [
  | inl e ↦
      let l : length b ≡ 92 = (==_iff _ _).0 e in
      inr (
        status_v2_fields b,
        rw l,
        marshal-status_v2_fields b h l,
        status_v2_fields-IsStatusV2 b h l,
      )
  | inr e ↦ inl (ground arith, rw e)
]
