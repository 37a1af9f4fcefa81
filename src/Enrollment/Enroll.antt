-- ===== src/Enrollment/Enroll.antt =====
-- The operations of pkg/service/enrollment/enrollment.go that change the directory or call the auth
-- service: `Save`, `clearPendingKey`, `pendingKey`, `Enroll` and `LoadOrEnroll`.
use optimum_gateway.Base.{
  Bool, true, false, not, ◌||◌, ◌&&◌, none, some, [], ◌∷◌, ◌++◌, if◌then◌else◌, ◌==◌, ok, err,
  guard, or_fail,
}
use optimum_gateway.Base.Wire.{Bytes}
use optimum_gateway.Forks.{is_empty}
use optimum_gateway.Utils.Text.{text_eq}
use optimum_gateway.Enrollment.Actions.{missing, holds, Place, Action, ◌>>=◌, ◌>>◌, lift, change}
use optimum_gateway.Enrollment.{
  EnrollError, Crypto, Options, EnrollRequest, EnrollReply, World, normalize_issuer, enroll_path,
  jwk_from_public, thumbprint_of, sign_assertion, load, with_thumbprint, classify, response_of,
  resumable, Cred, join_key_required, issuer_required, not_writable, generate_failed,
  marshal_failed, write_failed, encode_failed, post_failed, peer_mismatch, not_exist,
}

abbrev pub Folder : Type 0
Folder = Place EnrollRequest

abbrev pub Step : Type 0 → Type 0
Step A = Action EnrollRequest EnrollError A

-- `errors.Is(err, os.ErrNotExist)`
abbrev pub is_not_exist : EnrollError → Bool
is_not_exist not_exist = true
is_not_exist _ = false

module _ (crypto : Crypto) where
  -- `Save`; the credential is filled in place.
  unfoldable pub save : World → Cred crypto → Step (Cred crypto)
  save w c = do
    lift (guard w.dir_made write_failed)
    filled ← lift (with_thumbprint crypto c)
    raw ← lift (or_fail (crypto.marshal_credential filled) encode_failed)
    lift (guard w.tightened write_failed)
    lift (guard w.written write_failed)
    change (λ p. record p { credential = holds raw })
    lift (ok filled)

  -- `clearPendingKey`
  unfoldable pub clear_pending_key : World → Step (Unit {0})
  clear_pending_key w = change (λ p. if w.cleared then record p { pending = missing } else p)

  -- The second half of `pendingKey`.
  unfoldable pub new_pending_key : World → Step (crypto.Key × Bytes)
  new_pending_key w = do
    k ← lift (or_fail (crypto.generate w.entropy) generate_failed)
    pkcs8 ← lift (or_fail (crypto.marshal_pkcs8 k) marshal_failed)
    lift (guard w.pending_tightened write_failed)
    lift (guard w.pending_written write_failed)
    change (λ p. record p { pending = holds pkcs8 })
    lift (ok (k, pkcs8))

  -- `pendingKey`
  unfoldable pub pending_key : World → Step (crypto.Key × Bytes)
  unfolding new_pending_key
  pending_key w p = elim (resumable crypto p.pending) [
    | some pair ↦ (p, ok pair)
    | none ↦ new_pending_key w p
  ]

  -- `Enroll` from the answer of the auth service on.
  unfoldable pub finish_enroll :
      World → Options → (crypto.Key) → (pkcs8 thumbprint : Bytes) → EnrollReply → Step (Cred crypto)
  unfolding clear_pending_key save
  finish_enroll w opts k pkcs8 thumbprint r = do
    lift (guard (not (r.status == 0)) post_failed)
    (if r.status == 400 || (r.status == 409) then clear_pending_key w else lift (ok tt))
    lift (classify r)
    body ← lift (response_of r)
    saved ← save w (record {
      client_id = body.client_id;
      type_name = body.type_name;
      chain_id = body.chain_id;
      thumbprint = thumbprint;
      peer_id = opts.peer_id;
      private_key = pkcs8;
      enrolled_at = w.now;
      key = some k;
    })
    clear_pending_key w
    lift (ok saved)

  -- `Enroll`
  unfoldable pub enroll : World → Options → Step (Cred crypto)
  unfolding pending_key finish_enroll
  enroll w opts = do
    lift (guard (not (is_empty opts.join_key)) join_key_required)
    lift (guard (not (is_empty opts.issuer)) issuer_required)
    lift (guard w.writable not_writable)
    (k, pkcs8) ← pending_key w
    jwk ← lift (jwk_from_public crypto k)
    thumbprint ← lift (thumbprint_of crypto jwk)
    assertion ← lift (
        sign_assertion crypto k thumbprint (normalize_issuer opts.issuer ++ enroll_path) [] w.now
          w.jti)
    let request : EnrollRequest = record {
      join_token = opts.join_key;
      public_jwk = jwk;
      enroll_assertion = assertion;
      peer_id = opts.peer_id;
      label = opts.label;
    }
    change (λ p. record p { posted = request ∷ p.posted })
    finish_enroll w opts k pkcs8 thumbprint
        (w.post (normalize_issuer opts.issuer ++ enroll_path) request)

  -- What `LoadOrEnroll` does with a credential that loads: it is the one in use, and was reused.
  unfoldable pub reuse : World → Options → Cred crypto → Step (Cred crypto × Bool)
  unfolding clear_pending_key
  reuse w opts cred =
      if not (is_empty cred.peer_id)
        && not (is_empty opts.peer_id)
        && not (text_eq cred.peer_id opts.peer_id)
      then lift (err peer_mismatch)
      else (clear_pending_key w >> lift (ok (cred, true)))

  -- `LoadOrEnroll`
  unfoldable pub load_or_enroll : World → Options → Step (Cred crypto × Bool)
  unfolding reuse enroll
  load_or_enroll w opts p = elim (load crypto p.credential) [
    | ok cred ↦ reuse w opts cred p
    | err e ↦
        if is_not_exist e then (do cred ← enroll w opts; lift (ok (cred, false))) p else (p, err e)
  ]
