-- ===== src/Enrollment/Laws.antt =====
-- A credential that `Enroll` returns (pkg/service/enrollment) is the one that `Load` reads back.
use optimum_gateway.Base.{
  ◌≡◌, refl, sym, ap, ◌∙◌, arith, true, false, Option, none, some, [], ◌∷◌, Result, ok, inl, inr,
  Option-cases,
}
use optimum_gateway.Base.Wire.{Bytes}
use optimum_gateway.Forks.{is_empty}
use optimum_gateway.Utils.Text.Laws.{text_eq_iff}
use optimum_gateway.Enrollment.Actions.{File, missing, unreadable, holds}
use optimum_gateway.Enrollment.{
  PublicJwk, EnrollError, Crypto, World, ec, jwk_from_public, thumbprint_of, ensure_key, load,
  load_bytes, with_thumbprint, resumable, Cred,
}
use optimum_gateway.Enrollment.Enroll.{Folder, save, new_pending_key, pending_key}

module _ (crypto : Crypto) where
  -- The pair of a key and the bytes that hold it.
  abbrev pub IsPair : crypto.Key → Bytes → Type 0
  IsPair k pkcs8 = (crypto.parse_pkcs8 pkcs8 ≡ some (ec k)) × (crypto.is_p256 k ≡ true)

  -- What `Save` succeeds with.
  save-filled :
      (w : World) (c : Cred crypto) (p q : Folder) (c' : Cred crypto)
      → save crypto w c p ≡ (q, ok c')
      → with_thumbprint crypto c ≡ ok c'
  unfolding save
  save-filled w c p q c' h = ground (arith, h)

  save-writes :
      (w : World) (c : Cred crypto) (p q : Folder) (c' : Cred crypto)
      → save crypto w c p ≡ (q, ok c')
      → (raw : Bytes) × (crypto.marshal_credential c' ≡ some raw)
        × (q ≡ record p { credential = holds raw })
  unfolding save
  save-writes w c p q c' h = by_raw (crypto.marshal_credential c') refl
    where
      by_raw :
          (m : Option Bytes)
          → crypto.marshal_credential c' ≡ m
          → (raw : Bytes) × (m ≡ some raw) × (q ≡ record p { credential = holds raw })
      by_raw none e = absurd (ground (arith, e, h, save-filled w c p q c' h))
      by_raw (some raw) e = (raw, refl, ground (arith, e, h, save-filled w c p q c' h))

  pair-present : (k : crypto.Key) (pkcs8 : Bytes) → IsPair k pkcs8 → is_empty pkcs8 ≡ false
  pair-present k [] h = absurd (cc (h.0, crypto.parse_empty))
  pair-present k (b ∷ bs) h = refl

  -- A key with its canonical thumbprint.
  abbrev pub Prints : crypto.Key → Bytes → Type 0
  Prints k t = (j : PublicJwk) × (jwk_from_public crypto k ≡ ok j) × (thumbprint_of crypto j ≡ ok t)

  -- A credential that is complete: Save does not change it.
  pub record IsComplete (c : Cred crypto) : Type 0 where
    pub key : crypto.Key
    pub holds_key : c.key ≡ some key
    pub pair : IsPair key c.private_key
    pub prints : Prints key c.thumbprint
    pub has_client : is_empty c.client_id ≡ false

  filled-same : (c c' : Cred crypto) → IsComplete c → with_thumbprint crypto c ≡ ok c' → c' ≡ c
  unfolding with_thumbprint ensure_key
  filled-same c c' h e = let (j, jw, th) = h.prints in ground (arith, e, h.holds_key, jw, th)

  load-marshalled :
      (c : Cred crypto) (raw : Bytes)
      → IsComplete c
      → crypto.marshal_credential c ≡ some raw
      → load crypto (holds raw) ≡ ok c
  unfolding load load_bytes ensure_key
  load-marshalled c raw h e =
      let (j, jw, th) = h.prints in
      ground (
        arith,
        crypto.unmarshal-marshal c raw e,
        h.has_client,
        h.holds_key,
        h.pair.0,
        h.pair.1,
        jw,
        th,
        (text_eq_iff c.thumbprint c.thumbprint).1 refl,
        pair-present h.key c.private_key h.pair,
      )

  -- What `Save` writes of a complete credential `Load` reads.
  pub save-load :
      (w : World) (c : Cred crypto) (p q : Folder) (c' : Cred crypto)
      → IsComplete c
      → save crypto w c p ≡ (q, ok c')
      → (c' ≡ c)
        × (load crypto q.credential ≡ ok c)
        × (q.pending ≡ p.pending)
        × (q.posted ≡ p.posted)
  save-load w c p q c' complete h =
      let same = filled-same c c' complete (save-filled w c p q c' h) in
      let (raw, encoded, wrote) = save-writes w c p q c' h in
      let encoded' : crypto.marshal_credential c ≡ some raw =
        ap crypto.marshal_credential (sym same) ∙ encoded in
      (
        same,
        ap (λ (x : Folder). load crypto x.credential) wrote
            ∙ load-marshalled c raw complete encoded',
        ap (λ (x : Folder). x.pending) wrote,
        ap (λ (x : Folder). x.posted) wrote,
      )

  resumable-holds :
      (k : crypto.Key) (pkcs8 : Bytes)
      → IsPair k pkcs8
      → resumable crypto (holds pkcs8) ≡ some (k, pkcs8)
  unfolding resumable
  resumable-holds k pkcs8 h = ground (arith, h)

  resumable-IsPair :
      (f : File) (k : crypto.Key) (pkcs8 : Bytes)
      → resumable crypto f ≡ some (k, pkcs8)
      → IsPair k pkcs8
  unfolding resumable
  resumable-IsPair missing k pkcs8 h = absurd (cc)
  resumable-IsPair unreadable k pkcs8 h = absurd (cc)
  resumable-IsPair (holds b) k pkcs8 h = ground (arith, h)

  -- The keypair that `pendingKey` gives is a pair, and the one that a resumed attempt finds.
  pub pending_key-ok :
      (w : World) (p q : Folder) (k : crypto.Key) (pkcs8 : Bytes)
      → pending_key crypto w p ≡ (q, ok (k, pkcs8))
      → IsPair k pkcs8
        × (resumable crypto q.pending ≡ some (k, pkcs8))
        × (q.credential ≡ p.credential)
        × (q.posted ≡ p.posted)
  unfolding pending_key new_pending_key
  pending_key-ok w p q k pkcs8 h = elim (Option-cases (resumable crypto p.pending)) [
    | inl fresh ↦ made (rw (fresh, pending_key) at h)
    | inr (pair, old) ↦ resumed pair old (rw (old, pending_key) at h)
  ]
    where
      made :
          new_pending_key crypto w p ≡ (q, ok (k, pkcs8))
          → IsPair k pkcs8
            × (resumable crypto q.pending ≡ some (k, pkcs8))
            × (q.credential ≡ p.credential)
            × (q.posted ≡ p.posted)
      made h' = ground (
        arith,
        h',
        crypto.generate-is_p256 w.entropy k,
        crypto.parse-marshal k pkcs8,
        resumable-holds k pkcs8,
      )

      resumed :
          (pair : crypto.Key × Bytes)
          → resumable crypto p.pending ≡ some pair
          → ◌≡◌ {A = Folder × Result EnrollError (crypto.Key × Bytes)}
              (p, ok pair)
              (q, ok (k, pkcs8))
          → IsPair k pkcs8
            × (resumable crypto q.pending ≡ some (k, pkcs8))
            × (q.credential ≡ p.credential)
            × (q.posted ≡ p.posted)
      resumed pair old h' =
          let stays : q ≡ p = cc (h') in
          let same : resumable crypto p.pending ≡ some (k, pkcs8) = old ∙ cc (h') in
          (
            resumable-IsPair p.pending k pkcs8 same,
            ap (λ (x : Folder). resumable crypto x.pending) stays ∙ same,
            ap (λ (x : Folder). x.credential) stays,
            ap (λ (x : Folder). x.posted) stays,
          )

  pub pending_key-resumes :
      (w : World) (p : Folder) (k : crypto.Key) (pkcs8 : Bytes)
      → resumable crypto p.pending ≡ some (k, pkcs8)
      → pending_key crypto w p ≡ (p, ok (k, pkcs8))
  unfolding pending_key
  pending_key-resumes w p k pkcs8 h = rw (h, pending_key) refl

  pub pending_key-keeps :
      (w : World) (p : Folder)
      → ((pending_key crypto w p).0.credential ≡ p.credential)
        × ((pending_key crypto w p).0.posted ≡ p.posted)
  unfolding pending_key new_pending_key
  pending_key-keeps w p = ground arith
