-- ===== src/Consensus/Rpc/Status.antt =====
-- `Status` of pkg/protocol/consensus/rpc.go (84 bytes), its codec, and that the two halves of
-- the codec are inverse to one another.
use optimum_gateway.Base.{
  ℕ, ◌≡◌, ◌≢◌, ◌⊎◌, refl, ap, ◌∙◌, [], ◌∷◌, ◌++◌, arith, Result, ok, err, length, slice, ==_iff,
  Bool-cases, ◌==◌, inl, inr, guard, ◌>>◌,
}
use optimum_gateway.Base.Wire.{Bytes, IsBytes, le_bytes, le_value, length-le_bytes}
use optimum_gateway.Base.Parts.{
  slice-concat, slice_cons, le_bytes-slice, IsArray, le_value-slice-concat, length-concat,
  slice_whole, slice-IsArray, le_value-slice-lt,
}
use optimum_gateway.Consensus.Types.{SszError, bad_length, IsUint64}

abbrev pub status_size : ℕ
status_size = 84

pub record Status : Type 0 where
  pub fork_digest : Bytes
  pub finalized_root : Bytes
  pub finalized_epoch : ℕ
  pub head_root : Bytes
  pub head_slot : ℕ

-- What Go's types guarantee.
pub record IsStatus (s : Status) : Type 0 where
  pub fork_digest_fits : IsArray 4 s.fork_digest
  pub finalized_root_fits : IsArray 32 s.finalized_root
  pub finalized_epoch_fits : IsUint64 s.finalized_epoch
  pub head_root_fits : IsArray 32 s.head_root
  pub head_slot_fits : IsUint64 s.head_slot

-- `Status.MarshalSSZ`, which always succeeds.
unfoldable pub marshal_status : Status → Bytes
marshal_status s =
    s.fork_digest
    ++ (s.finalized_root
        ++ (le_bytes 8 s.finalized_epoch ++ (s.head_root ++ le_bytes 8 s.head_slot)))

-- The fields that `Status.UnmarshalSSZ` reads after its length check.
unfoldable pub status_fields : Bytes → Status
status_fields b = record {
  fork_digest = slice 0 4 b;
  finalized_root = slice 4 36 b;
  finalized_epoch = le_value (slice 36 44 b);
  head_root = slice 44 76 b;
  head_slot = le_value (slice 76 84 b);
}

unfoldable pub unmarshal_status : Bytes → Result SszError Status
unfolding status_fields
unmarshal_status b = do
  guard (length b == status_size) (bad_length status_size (length b))
  ok (status_fields b)

module _ (s : Status) (v : IsStatus s) where
  length-marshal_status : length (marshal_status s) ≡ 84
  unfolding marshal_status
  length-marshal_status = omega (
    arith,
    length-concat (
        s.fork_digest
        ∷ s.finalized_root
        ∷ le_bytes 8 s.finalized_epoch
        ∷ s.head_root
        ∷ le_bytes 8 s.head_slot
        ∷ []),
    length-le_bytes,
  )

  status_fields-marshal : status_fields (marshal_status s) ≡ s
  unfolding marshal_status status_fields
  status_fields-marshal = λ i. record {
    fork_digest = fork_digest i;
    finalized_root = finalized_root i;
    finalized_epoch = finalized_epoch i;
    head_root = head_root i;
    head_slot = head_slot i;
  }
    where
      fork_digest : slice 0 4 (marshal_status s) ≡ s.fork_digest
      fork_digest =
          slice-concat [] s.fork_digest
            (s.finalized_root
              ∷ le_bytes 8 s.finalized_epoch
              ∷ s.head_root
              ∷ le_bytes 8 s.head_slot
              ∷ [])
            0 4 (omega (arith, length-le_bytes)) (omega (arith, length-le_bytes))

      finalized_root : slice 4 36 (marshal_status s) ≡ s.finalized_root
      finalized_root =
          slice-concat (s.fork_digest ∷ []) s.finalized_root
            (le_bytes 8 s.finalized_epoch ∷ s.head_root ∷ le_bytes 8 s.head_slot ∷ []) 4 36
            (omega (arith, length-le_bytes)) (omega (arith, length-le_bytes))

      finalized_epoch : le_value (slice 36 44 (marshal_status s)) ≡ s.finalized_epoch
      finalized_epoch =
          le_value-slice-concat (s.fork_digest ∷ s.finalized_root ∷ []) s.finalized_epoch
            (s.head_root ∷ le_bytes 8 s.head_slot ∷ []) 36 44 v.finalized_epoch_fits
            (omega (arith, length-le_bytes)) (omega arith)

      head_root : slice 44 76 (marshal_status s) ≡ s.head_root
      head_root =
          slice-concat (s.fork_digest ∷ s.finalized_root ∷ le_bytes 8 s.finalized_epoch ∷ [])
            s.head_root (le_bytes 8 s.head_slot ∷ []) 44 76 (omega (arith, length-le_bytes))
            (omega (arith, length-le_bytes))

      head_slot : le_value (slice 76 84 (marshal_status s)) ≡ s.head_slot
      head_slot =
          le_value-slice-concat
            (s.fork_digest ∷ s.finalized_root ∷ le_bytes 8 s.finalized_epoch ∷ s.head_root ∷ [])
            s.head_slot [] 76 84 v.head_slot_fits (omega (arith, length-le_bytes)) (omega arith)

  -- The decoder gives back every `Status` that is encoded.
  pub unmarshal-marshal_status : unmarshal_status (marshal_status s) ≡ ok s
  unfolding unmarshal_status
  unmarshal-marshal_status = rw length-marshal_status (ap ok status_fields-marshal)

module _ (b : Bytes) (h : IsBytes b) (l : length b ≡ 84) where
  marshal-status_fields : marshal_status (status_fields b) ≡ b
  unfolding marshal_status status_fields
  marshal-status_fields =
      rw
        (
          le_bytes-slice 36 44 8 b h (omega arith) (omega arith) refl,
          le_bytes-slice 76 84 8 b h (omega arith) (omega arith) refl,
        )
        (slice_cons 0 4 84 b _ (omega arith) (omega arith) (
            slice_cons 4 36 84 b _ (omega arith) (omega arith) (
              slice_cons 36 44 84 b _ (omega arith) (omega arith)
                (slice_cons 44 76 84 b _ (omega arith) (omega arith) refl)))
          ∙ slice_whole 84 b l)

  status_fields-IsStatus : IsStatus (status_fields b)
  unfolding status_fields
  status_fields-IsStatus = record {
    fork_digest_fits = slice-IsArray 0 4 4 b h (omega arith) (omega arith);
    finalized_root_fits = slice-IsArray 4 36 32 b h (omega arith) (omega arith);
    finalized_epoch_fits = le_value-slice-lt 36 44 b h (omega arith) (omega arith);
    head_root_fits = slice-IsArray 44 76 32 b h (omega arith) (omega arith);
    head_slot_fits = le_value-slice-lt 76 84 b h (omega arith) (omega arith);
  }

-- A byte sequence is either of another length than 84, and refused with that length, or is
-- decoded to a `Status` whose fields fit their types and whose encoding is that very sequence.
unmarshal_status_exact :
    (b : Bytes)
    → IsBytes b
    → ((length b ≢ 84) × (unmarshal_status b ≡ err (bad_length 84 (length b))))
      ⊎ ((s : Status) × (unmarshal_status b ≡ ok s) × (marshal_status s ≡ b) × IsStatus s)
unfolding unmarshal_status
unmarshal_status_exact b h = elim (Bool-cases (length b == 84)) [
  | inl e ↦
      let l : length b ≡ 84 = (==_iff _ _).0 e in
      inr (status_fields b, rw l, marshal-status_fields b h l, status_fields-IsStatus b h l)
  | inr e ↦ inl (ground arith, rw e)
]
