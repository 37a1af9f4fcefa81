-- ===== src/MumP2p/Subscriptions.antt =====
-- Which topics of pkg/service/mum_p2p/topics.go are joined, subscribed and kept, whatever is asked.
pub mod Model
use optimum_gateway.Base.{
  ◌≡◌, refl, sym, ap, subst, ◌∙◌, arith, Bool, true, false, not, List, [], ◌∷◌, if◌then◌else◌,
  Result, ok, err, Each, Bool-cases, inl, inr, ◌⊎◌,
}
use optimum_gateway.Base.Wire.{Bytes}
use optimum_gateway.Base.Maps.{RwMap}
use optimum_gateway.Forks.{is_some}
use optimum_gateway.Topics.TopicMeta.{text_key}
use optimum_gateway.Utils.Text.{text_eq}
use optimum_gateway.Utils.Text.Laws.{text_eq_iff}
use optimum_gateway.MumP2p.Keeper.{TopicSet, TextsJson, Keeper, add_topic, remove_topic, is_blank}
use optimum_gateway.MumP2p.Subscriptions.Model.{
  empty_topic, join_failed, subscribe_failed, close_failed, not_found, publish_failed,
  Subscriptions, has_topic, has_subscription, subscribe_topic, unsubscribe_topic, publish_message,
  Event, subscribes, unsubscribes, publishes, step, run, Closes, IsPaired,
}

module _ (sets : TopicSet) (json : TextsJson) (names : RwMap Bytes (Unit {0}) text_key) where
  subscribe-IsPaired :
      (s : Subscriptions sets json names) (t : Bytes) (joined subscribed : Bool)
      → IsPaired sets json names s
      → IsPaired sets json names (subscribe_topic sets json names s t joined subscribed).0
  unfolding subscribe_topic add_topic
  subscribe-IsPaired s t joined subscribed h = record {
    paired = λ u. by_key u (Bool-cases (text_eq t u));
    kept = λ u. kept_key u (Bool-cases (text_eq t u));
  }
    where
      by_key :
          (u : Bytes)
          → ((text_eq t u ≡ true) ⊎ (text_eq t u ≡ false))
          → has_subscription sets json names
              (subscribe_topic sets json names s t joined subscribed).0
              u
            ≡ has_topic sets json names (subscribe_topic sets json names s t joined subscribed).0 u
      by_key u (inl y) = ground (
        arith,
        y,
        h.paired u,
        ap (has_topic sets json names s) ((text_eq_iff t u).0 y),
        names.load-store s.topics t tt u,
        names.load-store s.subscriptions t tt u,
        names.load-delete (names.store s.topics t tt) t u,
      )
      by_key u (inr n) = ground (
        arith,
        n,
        h.paired u,
        names.load-store s.topics t tt u,
        names.load-store s.subscriptions t tt u,
        names.load-delete (names.store s.topics t tt) t u,
      )

      kept_key :
          (u : Bytes)
          → ((text_eq t u ≡ true) ⊎ (text_eq t u ≡ false))
          → sets.has (subscribe_topic sets json names s t joined subscribed).0.keeper.topics_map u
            ≡ has_topic sets json names (subscribe_topic sets json names s t joined subscribed).0 u
      kept_key u (inl y) = ground (
        arith,
        y,
        h.kept u,
        ap (has_topic sets json names s) ((text_eq_iff t u).0 y),
        names.load-store s.topics t tt u,
        sets.has-put s.keeper.topics_map t u,
        names.load-delete (names.store s.topics t tt) t u,
      )
      kept_key u (inr n) = ground (
        arith,
        n,
        h.kept u,
        names.load-store s.topics t tt u,
        sets.has-put s.keeper.topics_map t u,
        names.load-delete (names.store s.topics t tt) t u,
      )

  unsubscribe-IsPaired :
      (s : Subscriptions sets json names) (t : Bytes)
      → IsPaired sets json names s
      → IsPaired sets json names (unsubscribe_topic sets json names s t true).0
  unfolding unsubscribe_topic remove_topic
  unsubscribe-IsPaired s t h = record {
    paired = λ u. by_key u (Bool-cases (text_eq t u));
    kept = λ u. kept_key u (Bool-cases (text_eq t u));
  }
    where
      by_key :
          (u : Bytes)
          → ((text_eq t u ≡ true) ⊎ (text_eq t u ≡ false))
          → has_subscription sets json names (unsubscribe_topic sets json names s t true).0 u
            ≡ has_topic sets json names (unsubscribe_topic sets json names s t true).0 u
      by_key u (inl y) = ground (
        arith,
        y,
        h.paired u,
        h.paired t,
        ap (has_topic sets json names s) ((text_eq_iff t u).0 y),
        names.load-delete s.topics t u,
        names.load-delete s.subscriptions t u,
      )
      by_key u (inr n) = ground (
        arith,
        n,
        h.paired u,
        names.load-delete s.topics t u,
        names.load-delete s.subscriptions t u,
      )

      kept_key :
          (u : Bytes)
          → ((text_eq t u ≡ true) ⊎ (text_eq t u ≡ false))
          → sets.has (unsubscribe_topic sets json names s t true).0.keeper.topics_map u
            ≡ has_topic sets json names (unsubscribe_topic sets json names s t true).0 u
      kept_key u (inl y) = ground (
        arith,
        y,
        h.kept u,
        h.paired t,
        ap (has_topic sets json names s) ((text_eq_iff t u).0 y),
        names.load-delete s.topics t u,
        sets.has-delete s.keeper.topics_map t u,
      )
      kept_key u (inr n) = ground (
        arith,
        n,
        h.kept u,
        names.load-delete s.topics t u,
        sets.has-delete s.keeper.topics_map t u,
      )

  publish-IsPaired :
      (s : Subscriptions sets json names) (t : Bytes) (joined subscribed published : Bool)
      → IsPaired sets json names s
      → IsPaired sets json names (publish_message sets json names s t joined subscribed published).0
  unfolding publish_message
  publish-IsPaired s t joined subscribed published h =
      elim (Bool-cases (has_topic sets json names s t)) [
        | inl y ↦ subst (IsPaired sets json names) (sym (published_state ∙ rw y refl)) h
        | inr n ↦
            subst (IsPaired sets json names) (sym (published_state ∙ rw n refl))
              (subscribe-IsPaired s t joined subscribed h)
      ]
    where
      published_state : (publish_message sets json names s t joined subscribed published).0 ≡ (
          if has_topic sets json names s t
          then s
          else (subscribe_topic sets json names s t joined subscribed).0)
      published_state = ground arith

  step-IsPaired :
      (s : Subscriptions sets json names) (e : Event sets json names)
      → Closes sets json names e
      → IsPaired sets json names s
      → IsPaired sets json names (step sets json names s e)
  unfolding step
  step-IsPaired s (subscribes t joined subscribed) c h = subscribe-IsPaired s t joined subscribed h
  step-IsPaired s (unsubscribes t false) c h = absurd (cc (c))
  step-IsPaired s (unsubscribes t true) c h = unsubscribe-IsPaired s t h
  step-IsPaired s (publishes t joined subscribed published) c h =
      publish-IsPaired s t joined subscribed published h

  -- As long as no topic fails to close, a node where exactly the topics that are joined are
  -- subscribed and kept stays such a node, whatever is subscribed, unsubscribed and published and
  -- whichever of these fail.
  pub run-IsPaired :
      (s : Subscriptions sets json names) (events : List (Event sets json names))
      → IsPaired sets json names s
      → Each (Closes sets json names) events
      → IsPaired sets json names (run sets json names s events)
  unfolding run
  run-IsPaired s [] h c = h
  run-IsPaired s (e ∷ es) h (c, cs) =
      run-IsPaired (step sets json names s e) es (step-IsPaired s e c h) cs

  -- When a joined topic that is not blank fails to close, its subscription is gone but the topic
  -- stays: the next `SubscribeTopic` of it succeeds, changes nothing and leaves it unsubscribed.
  pub unsubscribe_topic-stuck :
      (s : Subscriptions sets json names) (t : Bytes) (joined subscribed : Bool)
      → has_topic sets json names s t ≡ true
      → is_blank t ≡ false
      → (let failed = (unsubscribe_topic sets json names s t false).0 in
          ((unsubscribe_topic sets json names s t false).1 ≡ err close_failed)
          × (subscribe_topic sets json names failed t joined subscribed ≡ (failed, ok tt))
          × (has_subscription sets json names failed t ≡ false))
  unfolding unsubscribe_topic subscribe_topic
  unsubscribe_topic-stuck s t joined subscribed h b =
      let gone = names.load-delete s.subscriptions t t in
      let same = (text_eq_iff t t).1 refl in
      (
        ground (arith, h, gone, same),
        ground (arith, h, b, gone, same),
        ground (arith, h, gone, same),
      )
