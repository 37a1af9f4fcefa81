-- ===== src/Enrollment/Resume.antt =====
-- Whole runs of `Enroll` and `LoadOrEnroll` (pkg/service/enrollment), one after another.
use optimum_gateway.Base.{
  ◌≡◌, ◌≢◌, refl, sym, ap, ◌∙◌, subst, arith, Bool, true, false, not, ◌||◌, ◌&&◌, List, [], ◌∷◌,
  ◌++◌, ◌==◌, Result, ok, err, inl, inr, length, Bool-cases, ◌⊎◌,
}
use optimum_gateway.Base.Wire.{Bytes}
use optimum_gateway.Forks.{is_empty}
use optimum_gateway.Utils.Text.Laws.{text_eq_iff}
use optimum_gateway.Enrollment.Actions.{File, missing, unreadable, holds}
use optimum_gateway.Enrollment.{
  PublicJwk, EnrollError, Crypto, Options, EnrollRequest, World, jwk_from_public, thumbprint_of,
  ensure_key, load, load_bytes, resumable, Cred,
}
use optimum_gateway.Enrollment.Enroll.{
  Folder, clear_pending_key, pending_key, finish_enroll, enroll, reuse, load_or_enroll,
  is_not_exist,
}
use optimum_gateway.Enrollment.{normalize_issuer, enroll_path, sign_assertion}
use optimum_gateway.Enrollment.Laws.{pending_key-resumes, pending_key-ok, pending_key-keeps}
use optimum_gateway.Enrollment.Finish.{finish-err, finish-posted, finish-load}

abbrev succeeded : {E A : Type 0} → Result E A → Bool
succeeded (ok a) = true
succeeded (err e) = false

no_cons : {A : Type 0} (x : A) (xs : List A) → xs ≢ x ∷ xs
no_cons x xs h = absurd (omega (arith, ap length h))

module _ (crypto : Crypto) where
  -- An `Enroll` that fails before it posts.
  abbrev Early : Folder → Folder × Result EnrollError (Cred crypto) → Type 0
  Early p q = (q.0.credential ≡ p.credential) × (q.0.posted ≡ p.posted) × (succeeded q.1 ≡ false)

  -- The request that `Enroll` sends with a key.
  abbrev request_of : Options → PublicJwk → Bytes → EnrollRequest
  request_of opts j assertion = record {
    join_token = opts.join_key;
    public_jwk = j;
    enroll_assertion = assertion;
    peer_id = opts.peer_id;
    label = opts.label;
  }

  -- An `Enroll` that posts, with its keypair and its request.
  record Sends (w : World) (opts : Options) (p : Folder) : Type 0 where
    key : crypto.Key
    pkcs8 : Bytes
    before : Folder
    jwk : PublicJwk
    print : Bytes
    assertion : Bytes
    pending_is : pending_key crypto w p ≡ (before, ok (key, pkcs8))
    jwk_is : jwk_from_public crypto key ≡ ok jwk
    print_is : thumbprint_of crypto jwk ≡ ok print
    ends :
        enroll crypto w opts p
        ≡ finish_enroll crypto w opts key pkcs8 print
            (w.post (normalize_issuer opts.issuer ++ enroll_path) (request_of opts jwk assertion))
            (record before { posted = request_of opts jwk assertion ∷ before.posted })

  enroll-steps :
      (w : World) (opts : Options) (p : Folder) → Early p (enroll crypto w opts p) ⊎ Sends w opts p
  unfolding enroll
  enroll-steps w opts p =
      elim (Bool-cases (not (is_empty opts.join_key) && not (is_empty opts.issuer) && w.writable)) [
        | inr n ↦ inl (ground (arith, n))
        | inl y ↦ by_pending y (pending_key crypto w p) refl
      ]
    where
      by_sign :
          (not (is_empty opts.join_key) && not (is_empty opts.issuer) && w.writable) ≡ true
          → (before : Folder) (k : crypto.Key) (pkcs8 : Bytes)
          → pending_key crypto w p ≡ (before, ok (k, pkcs8))
          → (j : PublicJwk) → jwk_from_public crypto k ≡ ok j
          → (t : Bytes) → thumbprint_of crypto j ≡ ok t
          → (a : Result EnrollError Bytes)
          → sign_assertion crypto k t (normalize_issuer opts.issuer ++ enroll_path) [] w.now w.jti
            ≡ a
          → Early p (enroll crypto w opts p) ⊎ Sends w opts p
      by_sign y before k pkcs8 pe j je t te (err e) ae =
          inl (ground (arith, y, pe, je, te, ae, pending_key-keeps crypto w p))
      by_sign y before k pkcs8 pe j je t te (ok a) ae = inr (record {
        key = k;
        pkcs8 = pkcs8;
        before = before;
        jwk = j;
        print = t;
        assertion = a;
        pending_is = pe;
        jwk_is = je;
        print_is = te;
        ends = ground (arith, y, pe, je, te, ae);
      })

      by_print :
          (not (is_empty opts.join_key) && not (is_empty opts.issuer) && w.writable) ≡ true
          → (before : Folder) (k : crypto.Key) (pkcs8 : Bytes)
          → pending_key crypto w p ≡ (before, ok (k, pkcs8))
          → (j : PublicJwk) → jwk_from_public crypto k ≡ ok j
          → (t : Result EnrollError Bytes) → thumbprint_of crypto j ≡ t
          → Early p (enroll crypto w opts p) ⊎ Sends w opts p
      by_print y before k pkcs8 pe j je (err e) te =
          inl (ground (arith, y, pe, je, te, pending_key-keeps crypto w p))
      by_print y before k pkcs8 pe j je (ok t) te = by_sign y before k pkcs8 pe j je t te _ refl

      by_jwk :
          (not (is_empty opts.join_key) && not (is_empty opts.issuer) && w.writable) ≡ true
          → (before : Folder) (k : crypto.Key) (pkcs8 : Bytes)
          → pending_key crypto w p ≡ (before, ok (k, pkcs8))
          → (j : Result EnrollError PublicJwk) → jwk_from_public crypto k ≡ j
          → Early p (enroll crypto w opts p) ⊎ Sends w opts p
      by_jwk y before k pkcs8 pe (err e) je =
          inl (ground (arith, y, pe, je, pending_key-keeps crypto w p))
      by_jwk y before k pkcs8 pe (ok j) je = by_print y before k pkcs8 pe j je _ refl

      by_pending :
          (not (is_empty opts.join_key) && not (is_empty opts.issuer) && w.writable) ≡ true
          → (q : Folder × Result EnrollError (crypto.Key × Bytes)) → pending_key crypto w p ≡ q
          → Early p (enroll crypto w opts p) ⊎ Sends w opts p
      by_pending y (before, err e) pe = inl (ground (arith, y, pe, pending_key-keeps crypto w p))
      by_pending y (before, ok (k, pkcs8)) pe = by_jwk y before k pkcs8 pe _ refl

  -- Where `Enroll` succeeds, the credential that it returns is for this peer and is the one that the
  -- directory then holds: `Load` gives it back, its key included.
  pub enroll-load :
      (w : World) (opts : Options) (p q : Folder) (c : Cred crypto)
      → enroll crypto w opts p ≡ (q, ok c)
      → (load crypto q.credential ≡ ok c) × (c.peer_id ≡ opts.peer_id)
  enroll-load w opts p q c h = elim (enroll-steps w opts p) [
    | inl early ↦ absurd (ground (arith, early, h))
    | inr s ↦
        let (pair, again, cred, posts) =
          pending_key-ok crypto w p s.before s.key s.pkcs8 s.pending_is in
        let (loads, peer, posted) =
          finish-load crypto w opts s.key s.pkcs8 s.print _ _ q c pair (s.jwk, s.jwk_is, s.print_is)
            (sym s.ends ∙ h) in
        (loads, peer)
  ]

  -- After an `Enroll` that succeeded, `LoadOrEnroll` for the same peer reuses that credential,
  -- whatever else changed outside: it posts nothing and leaves the file of the credential.
  pub load_or_enroll-enroll :
      (w w' : World) (opts opts' : Options) (p q : Folder) (c : Cred crypto)
      → enroll crypto w opts p ≡ (q, ok c)
      → opts'.peer_id ≡ opts.peer_id
      → ((load_or_enroll crypto w' opts' q).1 ≡ ok (c, true))
        × ((load_or_enroll crypto w' opts' q).0.posted ≡ q.posted)
        × ((load_or_enroll crypto w' opts' q).0.credential ≡ q.credential)
  unfolding load_or_enroll reuse clear_pending_key
  load_or_enroll-enroll w w' opts opts' p q c h same =
      let (loads, peer) = enroll-load w opts p q c h in
      ground (arith, loads, (text_eq_iff c.peer_id opts'.peer_id).1 (peer ∙ sym same))

  Sends-posted :
      (w : World) (opts : Options) (p : Folder) (s : Sends w opts p)
      → (enroll crypto w opts p).0.posted ≡ request_of opts s.jwk s.assertion ∷ p.posted
  Sends-posted w opts p s =
      ap (λ q. q.0.posted) s.ends
      ∙ finish-posted crypto w opts s.key s.pkcs8 s.print _ _
      ∙ ap (λ xs. request_of opts s.jwk s.assertion ∷ xs)
          ((pending_key-ok crypto w p s.before s.key s.pkcs8 s.pending_is).3)

  Sends-key :
      (w w' : World) (opts opts' : Options) (p : Folder) (s : Sends w opts p) (e : EnrollError)
      → (enroll crypto w opts p).1 ≡ err e
      → (let n =
            (w.post
              (normalize_issuer opts.issuer ++ enroll_path)
              (request_of opts s.jwk s.assertion)).status in
          (n == 400 || (n == 409)) ≡ false)
      → (s' : Sends w' opts' (enroll crypto w opts p).0) → s'.key ≡ s.key
  Sends-key w w' opts opts' p s e failed kept s' =
      let (pair, again, cred, posts) =
        pending_key-ok crypto w p s.before s.key s.pkcs8 s.pending_is in
      let here = (enroll crypto w opts p).0 in
      let ends : finish_enroll crypto w opts s.key s.pkcs8 s.print
            (w.post (normalize_issuer opts.issuer ++ enroll_path)
              (request_of opts s.jwk s.assertion))
            (record s.before { posted = request_of opts s.jwk s.assertion ∷ s.before.posted })
          ≡ (here, err e) =
        sym s.ends ∙ ap (λ (x : Result EnrollError (Cred crypto)). (here, x)) failed in
      let (stays, posted, pending) =
        finish-err crypto w opts s.key s.pkcs8 s.print _ _ here e ends in
      let resumed =
        pending_key-resumes crypto w' here s.key s.pkcs8
          (ap (resumable crypto) (pending kept) ∙ again) in
      cc (resumed, s'.pending_is)

  -- An `Enroll` that fails after it posted, where the auth service gave neither a 400 nor a 409, leaves
  -- its keypair: the next one that posts sends the same public key, and so the same thumbprint.
  pub enroll-again :
      (w w' : World) (opts opts' : Options) (p : Folder) (r r' : EnrollRequest) (e : EnrollError)
      → (enroll crypto w opts p).1 ≡ err e
      → (enroll crypto w opts p).0.posted ≡ r ∷ p.posted
      → (let status = (w.post (normalize_issuer opts.issuer ++ enroll_path) r).status in
          (status == 400 || (status == 409)) ≡ false)
      → (enroll crypto w' opts' (enroll crypto w opts p).0).0.posted
        ≡ r' ∷ (enroll crypto w opts p).0.posted
      → r'.public_jwk ≡ r.public_jwk
  enroll-again w w' opts opts' p r r' e failed first kept second = elim (enroll-steps w opts p) [
    | inl early ↦ absurd (no_cons r p.posted (sym early.1 ∙ first))
    | inr s ↦ elim (enroll-steps w' opts' (enroll crypto w opts p).0) [
      | inl early ↦ absurd (no_cons r' (enroll crypto w opts p).0.posted (sym early.1 ∙ second))
      | inr s' ↦
          let was = Sends-posted w opts p s in
          let request : r ≡ request_of opts s.jwk s.assertion = cc (first, was) in
          let request' : r' ≡ request_of opts' s'.jwk s'.assertion =
            cc (second, Sends-posted w' opts' (enroll crypto w opts p).0 s') in
          let status : (let n =
                (w.post (normalize_issuer opts.issuer ++ enroll_path)
                  (request_of opts s.jwk s.assertion)).status in
              (n == 400 || (n == 409)) ≡ false) =
            subst
              (λ x.
                let n = (w.post (normalize_issuer opts.issuer ++ enroll_path) x).status in
                (n == 400 || (n == 409)) ≡ false)
              request kept in
          let key = Sends-key w w' opts opts' p s e failed status s' in
          let jwks : ok s'.jwk ≡ ok s.jwk =
            sym s'.jwk_is ∙ ap (jwk_from_public crypto) key ∙ s.jwk_is in
          cc (request, request', jwks)
    ]
  ]

  load_bytes-err :
      (raw : Bytes) (e : EnrollError) → load_bytes crypto raw ≡ err e → is_not_exist e ≡ false
  unfolding load_bytes ensure_key jwk_from_public thumbprint_of
  load_bytes-err raw e h = ground (arith, h)

  load-present :
      (f : File) (e : EnrollError) → f ≢ missing → load crypto f ≡ err e → is_not_exist e ≡ false
  unfolding load
  load-present missing e h l = absurd (h refl)
  load-present unreadable e h l = ground (arith, l)
  load-present (holds raw) e h l = load_bytes-err raw e l

  -- Where the file of the credential is there, `LoadOrEnroll` never posts and never changes that
  -- file, also where it cannot be read or used.
  pub load_or_enroll-holds :
      (w : World) (opts : Options) (p : Folder)
      → p.credential ≢ missing
      → ((load_or_enroll crypto w opts p).0.posted ≡ p.posted)
        × ((load_or_enroll crypto w opts p).0.credential ≡ p.credential)
  unfolding load_or_enroll reuse clear_pending_key
  load_or_enroll-holds w opts p h = by_load (load crypto p.credential) refl
    where
      by_load :
          (l : Result EnrollError (Cred crypto))
          → load crypto p.credential ≡ l
          → ((load_or_enroll crypto w opts p).0.posted ≡ p.posted)
            × ((load_or_enroll crypto w opts p).0.credential ≡ p.credential)
      by_load (ok c) e = ground (arith, e)
      by_load (err x) e = ground (arith, e, load-present p.credential x h e)
