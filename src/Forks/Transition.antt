-- ===== src/Forks/Transition.antt =====
-- Runs of the fork service, and how the active digest moves from one fork to the next.
use optimum_gateway.Base.{
  ◌≡◌, ◌≢◌, refl, sym, ap, ◌∙◌, List, [], ◌∷◌, arith, true, false, ◌&&◌, ◌||◌, not, some,
  Bool-cases, Option-cases, inl, inr,
}
use optimum_gateway.Base.Wire.{Bytes}
use optimum_gateway.Base.Maps.{RwMap}
use optimum_gateway.Utils.Text.{codes, text_eq}
use optimum_gateway.Utils.Text.Laws.{text_eq_iff}
use optimum_gateway.Topics.EthTopics.{get_fork_digest_from_topic}
use optimum_gateway.Topics.TopicMeta.{text_key}
use optimum_gateway.Forks.{
  Forks, is_empty, or_empty, sanitize_fork_digest, apply_fork_digest, check_fork_supported,
  active_digest, Reply, ForkDigestResponse, HubForksFile, observe_message_digest, topic_supported,
  refresh_fork_digest,
}
use optimum_gateway.Forks.Invariant.{
  IsValid, sanitize_idem, apply-check, apply-cfg, refresh-IsValid, observe-IsValid,
  active_digest-supported,
}

module _ (forks : RwMap Bytes (Unit {0}) text_key) (cache : RwMap Bytes Bytes text_key) where
  abbrev State : Type 0
  State = Forks forks cache

  pub topic_supported-digest :
      (s : State) (t : Bytes)
      → IsValid forks cache s
      → ((topic_supported forks cache s t).0 ≡ (
          text_eq t (codes "mump2p_aggregated_messages")
          || check_fork_supported forks cache s (get_fork_digest_from_topic t)))
        × IsValid forks cache (topic_supported forks cache s t).1
  unfolding topic_supported
  topic_supported-digest s t v =
      elim (Bool-cases (text_eq t (codes "mump2p_aggregated_messages"))) [
        | inl own ↦ rw own (refl, v)
        | inr other ↦ elim (Option-cases (cache.load s.topic_fork_cache t)) [
          | inl e ↦ rw other (rw e (refl, fresh))
          | inr (w, e) ↦
              rw other (rw e (ap (check_fork_supported forks cache s) (v.cached t w e), v))
        ]
      ]
    where
      fork : Bytes
      fork = get_fork_digest_from_topic t

      stored :
          (j w : Bytes)
          → cache.load (cache.store s.topic_fork_cache t fork) j ≡ some w
          → w ≡ get_fork_digest_from_topic j
      stored j w h = elim (Bool-cases (text_eq t j)) [
        | inl p ↦
            let same : t ≡ j = (text_eq_iff t j).0 p in
            ground (arith, cache.load-store s.topic_fork_cache t fork j)
        | inr p ↦ v.cached j w (ground (arith, cache.load-store s.topic_fork_cache t fork j))
      ]

      fresh :
          IsValid forks cache
            (record s { topic_fork_cache = cache.store s.topic_fork_cache t fork })
      fresh = record {
        cfg_present = v.cfg_present;
        cfg_supported = unfold check_fork_supported in v.cfg_supported;
        cached = stored;
      }

  pub data Event : Type 0 where
    refreshes : Reply ForkDigestResponse → Reply HubForksFile → Event
    observes : Bytes → Event
    asks : Bytes → Event

  unfoldable pub step : State → Event → State
  step s (refreshes b g) = refresh_fork_digest forks cache s b g
  step s (observes d) = (observe_message_digest forks cache s d).0
  step s (asks t) = (topic_supported forks cache s t).1

  unfoldable pub run : State → List Event → State
  run s [] = s
  run s (e ∷ es) = run (step s e) es

  step-IsValid : (s : State) (e : Event) → IsValid forks cache s → IsValid forks cache (step s e)
  unfolding step
  step-IsValid s (refreshes b g) v = refresh-IsValid forks cache s b g v
  step-IsValid s (observes d) v = observe-IsValid forks cache s d v
  step-IsValid s (asks t) v = (topic_supported-digest s t v).1

  run-IsValid :
      (s : State) (es : List Event) → IsValid forks cache s → IsValid forks cache (run s es)
  unfolding run
  run-IsValid s [] v = v
  run-IsValid s (e ∷ es) v = run-IsValid (step s e) es (step-IsValid s e v)

  -- From a valid state, after any sequence of refreshes (failed ones included), observed digests
  -- and topic queries, there is an active digest and it is one of the supported digests.
  pub active_digest-run :
      (s : State) (es : List Event)
      → IsValid forks cache s
      → (is_empty (active_digest forks cache (run s es)) ≡ false)
        × (check_fork_supported forks cache (run s es) (active_digest forks cache (run s es))
            ≡ true)
  active_digest-run s es v = active_digest-supported forks cache (run s es) (run-IsValid s es v)

  observed-cases :
      (s : State) (d : Bytes)
      → (observe_message_digest forks cache s d).1 ≡ true
      → (is_empty (sanitize_fork_digest d) ≡ false)
        × (text_eq (sanitize_fork_digest d) (or_empty s.cfg_fork_digest) ≡ false)
        × (check_fork_supported forks cache s (sanitize_fork_digest d) ≡ true)
        × ((observe_message_digest forks cache s d).0
            ≡ record s { observed_digest = some (sanitize_fork_digest d) })
  unfolding observe_message_digest
  observed-cases s d h = (ground arith, ground arith, ground arith, ground arith)

  active-observed :
      (s : State) (d : Bytes)
      → is_empty d ≡ false
      → check_fork_supported forks cache s d ≡ true
      → active_digest forks cache (record s { observed_digest = some d }) ≡ d
  unfolding active_digest check_fork_supported
  active-observed s d h c = rw (h, c)

  -- Right after a refresh, traffic moves the active digest only to the future digest of that
  -- refresh, and never to its current one: an observation is accepted only if it is the future
  -- digest and not the current one, and the future digest is then the active one.
  observe-future :
      (s : State) (current future d : Bytes)
      → is_empty (sanitize_fork_digest current) ≡ false
      → let fresh = apply_fork_digest forks cache s current future in
        (observe_message_digest forks cache fresh d).1 ≡ true
        → (sanitize_fork_digest d ≡ sanitize_fork_digest future)
          × (sanitize_fork_digest d ≢ sanitize_fork_digest current)
          × (active_digest forks cache (observe_message_digest forks cache fresh d).0
              ≡ sanitize_fork_digest future)
  observe-future s current future d present h =
      let fresh = apply_fork_digest forks cache s current future in
      let (some_digest, not_cfg, known, after) = observed-cases fresh d h in
      let differs : text_eq (sanitize_fork_digest d) (sanitize_fork_digest current) ≡ false =
        rw (apply-cfg forks cache s current future present) at not_cfg in
      let known' =
        sym (apply-check forks cache s current future (sanitize_fork_digest d)) ∙ known in
      let is_future : sanitize_fork_digest d ≡ sanitize_fork_digest future =
        future_of current future d differs (rw (sanitize_idem d) at known') in
      (
        is_future,
        (λ e. cc ((text_eq_iff (sanitize_fork_digest d) (sanitize_fork_digest current)).1 e)),
        rw after (active-observed fresh (sanitize_fork_digest d) some_digest known ∙ is_future),
      )
    where
      future_of :
          (c f d : Bytes)
          → text_eq (sanitize_fork_digest d) (sanitize_fork_digest c) ≡ false
          → ((not (is_empty (sanitize_fork_digest c))
                && text_eq (sanitize_fork_digest c) (sanitize_fork_digest d))
              || (not (is_empty (sanitize_fork_digest f))
                  && text_eq (sanitize_fork_digest f) (sanitize_fork_digest d)))
            ≡ true
          → sanitize_fork_digest d ≡ sanitize_fork_digest f
      future_of c f d n k = ground (
        arith,
        text_eq_iff (sanitize_fork_digest d) (sanitize_fork_digest c),
        text_eq_iff (sanitize_fork_digest c) (sanitize_fork_digest d),
        text_eq_iff (sanitize_fork_digest f) (sanitize_fork_digest d),
      )
