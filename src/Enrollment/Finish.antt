-- ===== src/Enrollment/Finish.antt =====
-- `Enroll` of pkg/service/enrollment from the answer of the auth service on.
use optimum_gateway.Base.{
  ◌≡◌, refl, sym, ap, ◌∙◌, arith, true, false, ◌||◌, Option, none, some, ◌==◌, ok, err,
}
use optimum_gateway.Base.Wire.{Bytes}
use optimum_gateway.Forks.{is_empty}
use optimum_gateway.Enrollment.{
  EnrollError, Crypto, Options, EnrollResponse, EnrollReply, World, load, classify, response_of,
  Cred,
}
use optimum_gateway.Enrollment.Enroll.{Folder, save, clear_pending_key, finish_enroll}
use optimum_gateway.Enrollment.Laws.{IsPair, Prints, IsComplete, save-load}

classify-ok : (r : EnrollReply) → classify r ≡ ok tt → (r.status == 200 || (r.status == 201)) ≡ true
unfolding classify
classify-ok r h = ground (arith, h)

module _ (crypto : Crypto) where
  -- Where the rest of `Enroll` fails the credential stays; the pending key too, unless the answer
  -- was a 400 or a 409.
  pub finish-err :
      (w : World) (opts : Options) (k : crypto.Key) (pkcs8 t : Bytes) (r : EnrollReply)
      (p q : Folder) (e : EnrollError)
      → finish_enroll crypto w opts k pkcs8 t r p ≡ (q, err e)
      → (q.credential ≡ p.credential)
        × (q.posted ≡ p.posted)
        × ((r.status == 400 || (r.status == 409)) ≡ false → q.pending ≡ p.pending)
  unfolding finish_enroll clear_pending_key save
  finish-err w opts k pkcs8 t r p q e h = ground (arith, h)

  pub finish-posted :
      (w : World) (opts : Options) (k : crypto.Key) (pkcs8 t : Bytes) (r : EnrollReply) (p : Folder)
      → (finish_enroll crypto w opts k pkcs8 t r p).0.posted ≡ p.posted
  unfolding finish_enroll clear_pending_key save
  finish-posted w opts k pkcs8 t r p = ground arith

  -- The credential that `Enroll` makes of an answer.
  abbrev made_of : World → Options → crypto.Key → (pkcs8 t : Bytes) → EnrollResponse → Cred crypto
  made_of w opts k pkcs8 t body = record {
    client_id = body.client_id;
    type_name = body.type_name;
    chain_id = body.chain_id;
    thumbprint = t;
    peer_id = opts.peer_id;
    private_key = pkcs8;
    enrolled_at = w.now;
    key = some k;
  }

  finish-classified :
      (w : World) (opts : Options) (k : crypto.Key) (pkcs8 t : Bytes) (r : EnrollReply)
      (p q : Folder) (c : Cred crypto)
      → finish_enroll crypto w opts k pkcs8 t r p ≡ (q, ok c)
      → classify r ≡ ok tt
  unfolding finish_enroll
  finish-classified w opts k pkcs8 t r p q c h = ground (arith, h)

  -- What an answer must be for `Enroll` to succeed, and that the save then did.
  finish-answer :
      (w : World) (opts : Options) (k : crypto.Key) (pkcs8 t : Bytes) (r : EnrollReply)
      (p q : Folder) (c : Cred crypto)
      → finish_enroll crypto w opts k pkcs8 t r p ≡ (q, ok c)
      → ((r.status == 200 || (r.status == 201)) ≡ true)
        × (body : EnrollResponse) × (r.parsed ≡ some body)
        × (is_empty body.client_id ≡ false)
        × (q' : Folder) × (save crypto w (made_of w opts k pkcs8 t body) p ≡ (q', ok c))
        × (q.credential ≡ q'.credential)
        × (q.posted ≡ q'.posted)
  unfolding finish_enroll clear_pending_key response_of
  finish-answer w opts k pkcs8 t r p q c h =
      let (body, parsed, client, q', saved, cred, posts) = by_body r.parsed refl in
      (
        classify-ok r (finish-classified w opts k pkcs8 t r p q c h),
        body,
        parsed,
        client,
        q',
        saved,
        cred,
        posts,
      )
    where
      by_body :
          (o : Option EnrollResponse)
          → r.parsed ≡ o
          → (body : EnrollResponse) × (o ≡ some body)
            × (is_empty body.client_id ≡ false)
            × (q' : Folder) × (save crypto w (made_of w opts k pkcs8 t body) p ≡ (q', ok c))
            × (q.credential ≡ q'.credential)
            × (q.posted ≡ q'.posted)
      by_body none e = absurd (ground (arith, e, h))
      by_body (some body) e = (
        body,
        refl,
        ground (arith, e, h),
        (save crypto w (made_of w opts k pkcs8 t body) p).0,
        ground (arith, e, h),
        ground (arith, e, h),
        ground (arith, e, h),
      )

  -- Where `Enroll` succeeds the credential is for this peer and as the auth service says, and it is
  -- what the next `Load` reads.
  pub finish-load :
      (w : World) (opts : Options) (k : crypto.Key) (pkcs8 t : Bytes) (r : EnrollReply)
      (p q : Folder) (c : Cred crypto)
      → IsPair crypto k pkcs8
      → Prints crypto k t
      → finish_enroll crypto w opts k pkcs8 t r p ≡ (q, ok c)
      → (load crypto q.credential ≡ ok c) × (c.peer_id ≡ opts.peer_id) × (q.posted ≡ p.posted)
  finish-load w opts k pkcs8 t r p q c pair prints h =
      let (status, body, parsed, client, q', saved, cred, posts) =
        finish-answer w opts k pkcs8 t r p q c h in
      let made = made_of w opts k pkcs8 t body in
      let complete : IsComplete crypto made = record {
        key = k;
        holds_key = refl;
        pair = pair;
        prints = prints;
        has_client = client;
      } in
      let (same, loads, pending, posted) = save-load crypto w made p q' c complete saved in
      (
        ap (load crypto) cred ∙ loads ∙ ap ok (sym same),
        ap (λ (x : Cred crypto). x.peer_id) same,
        posts ∙ posted,
      )
