-- ===== src/MessageRouter/Validators.antt =====
-- Which validators are known, and in which chunk: `SetKnownValidators`, `IsKnownValidator` and
-- `ResolveValidatorChunk`.
use optimum_gateway.Base.{
  ℕ, zero, suc, ◌+◌, ◌≤◌, ◌≡◌, refl, sym, ap, ◌∙◌, subst, arith, true, ◌||◌, Option, none, some,
  List, [], ◌∷◌, ◌++◌, if◌then◌else◌, length, Each, inl, inr, ◌⊎◌, Bool-cases,
}
use optimum_gateway.Base.Parts.{concat}
use optimum_gateway.Base.Maps.{RwMap, TtlSet, nat_key, assoc_load}
use optimum_gateway.Forks.{is_some}
use optimum_gateway.MessageRouter.{
  Chunker, Router, contains, put_chunk, put_chunks, set_known_validators, is_known_validator,
  resolve_validator_chunk, attestation_sync_chunk_size,
}

contains-append :
    (v : ℕ) (xs ys : List ℕ) → contains v (xs ++ ys) ≡ (contains v xs || contains v ys)
contains-append v [] ys = refl
contains-append v (x ∷ xs) ys = ground (arith, contains-append v xs ys)

contains-concat :
    (v : ℕ) (c : List ℕ) (cs : List (List ℕ))
    → contains v (concat (c ∷ cs)) ≡ (contains v c || contains v (concat cs))
contains-concat v c [] = ground arith
contains-concat v c (d ∷ cs) = contains-append v c (concat (d ∷ cs))

put_chunk-load :
    (k n : ℕ) (vs : List ℕ) (m : List (ℕ × (ℕ × ℕ))) (v : ℕ)
    → assoc_load nat_key (put_chunk k n vs m) v
      ≡ (if contains v vs then some (k, n) else assoc_load nat_key m v)
unfolding put_chunk
put_chunk-load k n [] m v = refl
put_chunk-load k n (w ∷ vs) m v = ground (arith, put_chunk-load k n vs ((w, (k, n)) ∷ m) v)

put_chunks-some :
    (base : ℕ) (cs : List (List ℕ)) (m : List (ℕ × (ℕ × ℕ))) (v : ℕ)
    → is_some (assoc_load nat_key (put_chunks base cs m) v)
      ≡ (contains v (concat cs) || is_some (assoc_load nat_key m v))
unfolding put_chunks
put_chunks-some base [] m v = refl
put_chunks-some base (c ∷ cs) m v =
    rw
      (
        put_chunks-some (suc base) cs (put_chunk base (length c) c m) v,
        put_chunk-load base (length c) c m v,
        contains-concat v c cs,
      )
      (ground arith)

-- The chunk with a number.
abbrev pub chunk_at : List (List ℕ) → ℕ → Option (List ℕ)
chunk_at [] k = none
chunk_at (c ∷ cs) zero = some c
chunk_at (c ∷ cs) (suc k) = chunk_at cs k

-- The chunk with that number has that length and holds the validator.
abbrev pub IsIn : List (List ℕ) → ℕ → ℕ → ℕ → Type 0
IsIn cs v k n = (c : List ℕ) × (chunk_at cs k ≡ some c) × (length c ≡ n) × (contains v c ≡ true)

put_chunks_sound :
    (base : ℕ) (cs : List (List ℕ)) (m : List (ℕ × (ℕ × ℕ))) (v k n : ℕ)
    → assoc_load nat_key (put_chunks base cs m) v ≡ some (k, n)
    → ((d : ℕ) × (k ≡ base + d) × IsIn cs v d n) ⊎ (assoc_load nat_key m v ≡ some (k, n))
unfolding put_chunks
put_chunks_sound base [] m v k n h = inr h
put_chunks_sound base (c ∷ cs) m v k n h =
    elim (put_chunks_sound (suc base) cs (put_chunk base (length c) c m) v k n h) [
      | inl (d, e, i) ↦ inl (suc d, omega (arith, e), i)
      | inr e ↦ elim (Bool-cases (contains v c)) [
        | inl y ↦ inl (
          0,
          ground (arith, put_chunk-load base (length c) c m v),
          (c, refl, ground (arith, put_chunk-load base (length c) c m v), y),
        )
        | inr y ↦ inr (ground (arith, put_chunk-load base (length c) c m v))
      ]
    ]

Each-chunk_at :
    (P : List ℕ → Type 0) (cs : List (List ℕ)) (k : ℕ) {c : List ℕ}
    → Each P cs
    → chunk_at cs k ≡ some c
    → P c
Each-chunk_at P [] k a h = absurd (cc)
Each-chunk_at P (c ∷ cs) zero a h = subst P (cc) a.0
Each-chunk_at P (c ∷ cs) (suc k) a h = Each-chunk_at P cs k a.1 h

module _ (known : RwMap ℕ (ℕ × ℕ) nat_key) (accelerated : TtlSet ℕ nat_key) (ch : Chunker) where
  abbrev chunks_of : List ℕ → List (ℕ × (ℕ × ℕ))
  chunks_of ids = put_chunks 0 (ch.chunk_slice (ch.sort ids) attestation_sync_chunk_size) []

  -- After a set of validators was set, exactly those in it are known, whatever was known before.
  is_known_validator-set :
      (s : Router known accelerated) (ids : List ℕ) (v : ℕ)
      → is_known_validator known accelerated (set_known_validators known accelerated ch s ids) v
        ≡ contains v ids
  unfolding is_known_validator set_known_validators
  is_known_validator-set s ids v =
      rw
        (
          known.load-replace (chunks_of ids) v,
          put_chunks-some 0 (ch.chunk_slice (ch.sort ids) 64) [] v,
          ch.concat-chunk_slice (ch.sort ids) 64 (omega arith),
          ch.contains-sort v ids,
        )
        (ground arith)

  -- The chunk that a validator resolves to is one of the chunks of the sorted validators, has the
  -- length that is given, of at most 64, and holds the validator.
  pub resolve_validator_chunk-set :
      (s : Router known accelerated) (ids : List ℕ) (v k n : ℕ)
      → resolve_validator_chunk known accelerated
          (set_known_validators known accelerated ch s ids)
          v
        ≡ (k, (n, true))
      → IsIn (ch.chunk_slice (ch.sort ids) attestation_sync_chunk_size) v k n × (n ≤ 64)
  unfolding resolve_validator_chunk set_known_validators
  resolve_validator_chunk-set s ids v k n h =
      by_load (known.load (known.replace (chunks_of ids)) v) refl h
    where
      by_load :
          (o : Option (ℕ × ℕ))
          → known.load (known.replace (chunks_of ids)) v ≡ o
          → resolve_validator_chunk known accelerated
              (set_known_validators known accelerated ch s ids)
              v
            ≡ (k, (n, true))
          → IsIn (ch.chunk_slice (ch.sort ids) attestation_sync_chunk_size) v k n × (n ≤ 64)
      by_load none e q = absurd (cc (rw (resolve_validator_chunk, e) at q))
      by_load (some (i, l)) e q =
          let stored : assoc_load nat_key (chunks_of ids) v ≡ some (k, n) =
            sym (known.load-replace (chunks_of ids) v)
            ∙ e
            ∙ cc (rw (resolve_validator_chunk, e) at q) in
          elim (put_chunks_sound 0 (ch.chunk_slice (ch.sort ids) 64) [] v k n stored) [
            | inl (d, same, (c, at, len, holds)) ↦
                let at_d : k ≡ d = omega (arith, same) in
                (
                  (c, ap (chunk_at _) at_d ∙ at, len, holds),
                  omega (
                    arith,
                    len,
                    Each-chunk_at (λ x. length x ≤ 64) _ d
                        (ch.chunk_slice-short (ch.sort ids) 64 (omega arith)) at,
                  ),
                )
            | inr none_there ↦ absurd (cc)
          ]
