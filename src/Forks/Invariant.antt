-- ===== src/Forks/Invariant.antt =====
-- What holds of the fork digests between two events, and what an event does to the active one.
use mathlib.Core.List.{get_last?}
use optimum_gateway.Base.{
  ◌≡◌, inl, inr, refl, ap, ◌∙◌, subst, [], ◌∷◌, ◌++◌, arith, true, false, ◌&&◌, ◌||◌, not,
  if◌then◌else◌, Option, none, some, Result, ok, err, length, ◌==◌, Bool-cases,
}
use optimum_gateway.Base.Wire.{Bytes}
use optimum_gateway.Base.Maps.{RwMap, same_refl}
use optimum_gateway.Utils.Text.{text_eq, to_lower, trim_space}
use optimum_gateway.Utils.Text.Trim.{lower-trim_idem}
use optimum_gateway.Topics.EthTopics.{get_fork_digest_from_topic}
use optimum_gateway.Topics.TopicMeta.{text_key}
use optimum_gateway.Forks.{
  Forks, is_empty, or_empty, sanitize_fork_digest, apply_fork_digest, check_fork_supported,
  active_digest, Reply, ForkDigestResponse, HubForksFile, observe_message_digest, LoadError,
  load_from_bootstrap, load_from_hub, apply_hub, refresh_fork_digest, failed, answered,
}

pub sanitize_idem :
    (d : Bytes) → sanitize_fork_digest (sanitize_fork_digest d) ≡ sanitize_fork_digest d
unfolding sanitize_fork_digest
sanitize_idem d = lower-trim_idem d

module _ (forks : RwMap Bytes (Unit {0}) text_key) (cache : RwMap Bytes Bytes text_key) where
  -- What is supported after a digest was applied: the two digests, where they are not empty.
  pub apply-check :
      (s : Forks forks cache) (current future d : Bytes)
      → check_fork_supported forks cache (apply_fork_digest forks cache s current future) d ≡ (
          (not (is_empty (sanitize_fork_digest current))
            && text_eq (sanitize_fork_digest current) (sanitize_fork_digest d))
          || (not (is_empty (sanitize_fork_digest future))
              && text_eq (sanitize_fork_digest future) (sanitize_fork_digest d)))
  unfolding check_fork_supported apply_fork_digest
  apply-check s current future d = ground (
    arith,
    forks.load-replace
        ((if is_empty (sanitize_fork_digest current)
            then []
            else (sanitize_fork_digest current, tt) ∷ [])
          ++ (if is_empty (sanitize_fork_digest future)
              then []
              else (sanitize_fork_digest future, tt) ∷ []))
        (sanitize_fork_digest d),
  )

  -- The configured digest is there, supported and in its sanitized form; so is the form of the
  -- observed one, if any; and the topic cache holds what the topics say.
  pub record IsValid (s : Forks forks cache) : Type 0 where
    pub cfg_present : is_empty (or_empty s.cfg_fork_digest) ≡ false
    pub cfg_supported : check_fork_supported forks cache s (or_empty s.cfg_fork_digest) ≡ true
    pub cached :
        (t v : Bytes) → cache.load s.topic_fork_cache t ≡ some v → v ≡ get_fork_digest_from_topic t

  abbrev pub IsCached : Forks forks cache → Type 0
  IsCached s =
      (t v : Bytes) → cache.load s.topic_fork_cache t ≡ some v → v ≡ get_fork_digest_from_topic t

  pub apply-cfg :
      (s : Forks forks cache) (current future : Bytes)
      → is_empty (sanitize_fork_digest current) ≡ false
      → or_empty (apply_fork_digest forks cache s current future).cfg_fork_digest
        ≡ sanitize_fork_digest current
  unfolding apply_fork_digest
  apply-cfg s current future h = rw h

  apply-IsCached :
      (s : Forks forks cache) (current future : Bytes)
      → IsCached s
      → IsCached (apply_fork_digest forks cache s current future)
  unfolding apply_fork_digest
  apply-IsCached s current future h = h

  pub apply-IsValid :
      (s : Forks forks cache) (current future : Bytes)
      → is_empty (sanitize_fork_digest current) ≡ false
      → IsCached s
      → IsValid (apply_fork_digest forks cache s current future)
  apply-IsValid s current future h c = record {
    cfg_present = rw (apply-cfg s current future h) h;
    cfg_supported = rw (apply-cfg s current future h) (
        apply-check s current future (sanitize_fork_digest current)
        ∙ rw (h, sanitize_idem current, same_refl text_key (sanitize_fork_digest current)));
    cached = apply-IsCached s current future c;
  }

  to_lower-empty : (s : Bytes) → is_empty (to_lower s) ≡ is_empty s
  to_lower-empty [] = refl
  to_lower-empty (c ∷ s) = refl

  -- Whatever bootstrap's answer, a state is loaded only with a current digest.
  load_from_bootstrap-IsValid :
      (s : Forks forks cache) (r : Reply ForkDigestResponse) {s' : Forks forks cache}
      → IsCached s
      → load_from_bootstrap forks cache s r ≡ ok s'
      → IsValid s'
  unfolding load_from_bootstrap sanitize_fork_digest
  load_from_bootstrap-IsValid s failed c h = absurd (cc)
  load_from_bootstrap-IsValid s (answered code none) c h = absurd (ground arith)
  load_from_bootstrap-IsValid s (answered code (some res)) c h = elim (Bool-cases (code == 200)) [
    | inr e ↦ absurd (ground arith)
    | inl e ↦ elim (Bool-cases (is_empty (trim_space res.fork_digest))) [
      | inl f ↦ absurd (ground arith)
      | inr f ↦ subst IsValid (ground arith) (
          apply-IsValid s res.fork_digest res.future_fork
            (to_lower-empty (trim_space res.fork_digest) ∙ f) c)
    ]
  ]

  digest_nonempty : (d : Bytes) → (length d == 8) ≡ true → is_empty d ≡ false
  digest_nonempty [] h = absurd (ground arith)
  digest_nonempty (c ∷ d) h = refl

  apply_hub-IsValid :
      (s : Forks forks cache) (res : HubForksFile) (newest : Option Bytes) {s' : Forks forks cache}
      → IsCached s
      → apply_hub forks cache s res newest ≡ ok s'
      → IsValid s'
  unfolding apply_hub
  apply_hub-IsValid s res none c h = absurd (cc)
  apply_hub-IsValid s res (some newest) c h =
      elim (Bool-cases (length (to_lower (trim_space newest)) == 8)) [
        | inr e ↦ absurd (ground arith)
        | inl e ↦
            subst IsValid (ground arith)
              (apply-IsValid s (to_lower (trim_space newest)) res.future_fork (present e) c)
      ]
    where
      present :
          (length (to_lower (trim_space newest)) == 8) ≡ true
          → is_empty (sanitize_fork_digest (to_lower (trim_space newest))) ≡ false
      present e =
          unfold sanitize_fork_digest in
          (ap is_empty (lower-trim_idem newest) ∙ digest_nonempty _ e)

  -- Nor does the hub's file, whatever it holds.
  load_from_hub-IsValid :
      (s : Forks forks cache) (r : Reply HubForksFile) {s' : Forks forks cache}
      → IsCached s
      → load_from_hub forks cache s r ≡ ok s'
      → IsValid s'
  unfolding load_from_hub
  load_from_hub-IsValid s failed c h = absurd (cc)
  load_from_hub-IsValid s (answered code none) c h = absurd (cc)
  load_from_hub-IsValid s (answered code (some res)) c h = elim (Bool-cases (code == 200)) [
    | inr e ↦ absurd (cc (rw e at h))
    | inl e ↦ apply_hub-IsValid s res (get_last? res.forks) c (rw e at h)
  ]

  -- A tick of the refresh loop keeps the state valid, whatever the two replies are.
  pub refresh-IsValid :
      (s : Forks forks cache) (b : Reply ForkDigestResponse) (g : Reply HubForksFile)
      → IsValid s
      → IsValid (refresh_fork_digest forks cache s b g)
  unfolding refresh_fork_digest
  refresh-IsValid s b g v = from_first (load_from_bootstrap forks cache s b) refl
    where
      from_second :
          (r : Result LoadError (Forks forks cache))
          → load_from_hub forks cache s g ≡ r
          → IsValid (elim r [ ok s' ↦ s' | err x ↦ s ])
      from_second (ok s') e = load_from_hub-IsValid s g v.cached e
      from_second (err x) e = v

      from_first :
          (r : Result LoadError (Forks forks cache))
          → load_from_bootstrap forks cache s b ≡ r
          → IsValid (refresh_fork_digest forks cache s b g)
      from_first (ok s') e =
          rw (e, refresh_fork_digest) (load_from_bootstrap-IsValid s b v.cached e)
      from_first (err x) e =
          rw (e, refresh_fork_digest) (from_second (load_from_hub forks cache s g) refl)

  pub observe-IsValid :
      (s : Forks forks cache) (d : Bytes)
      → IsValid s
      → IsValid (observe_message_digest forks cache s d).0
  unfolding observe_message_digest check_fork_supported
  observe-IsValid s d v = record {
    cfg_present = ground (arith, v.cfg_present);
    cfg_supported = ground (arith, v.cfg_supported);
    cached = λ t w h. v.cached t w (ground arith);
  }

  -- A valid state has an active digest, and it is supported.
  pub active_digest-supported :
      (s : Forks forks cache)
      → IsValid s
      → (is_empty (active_digest forks cache s) ≡ false)
        × (check_fork_supported forks cache s (active_digest forks cache s) ≡ true)
  unfolding active_digest
  active_digest-supported s v = (ground (arith, v.cfg_present), ground (arith, v.cfg_supported))
