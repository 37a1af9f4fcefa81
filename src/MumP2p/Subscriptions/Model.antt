-- ===== src/MumP2p/Subscriptions/Model.antt =====
-- pkg/service/mum_p2p/topics.go, with `PublishMessage` of messages.go. Joining, subscribing, closing
-- and publishing are the pubsub library's: whether each succeeds is an argument. Of a topic and a
-- subscription the maps hold, here, only that they are there.
use optimum_gateway.Base.{◌≡◌, Bool, true, not, List, [], ◌∷◌, if◌then◌else◌, Result, ok, err}
use optimum_gateway.Base.Wire.{Bytes}
use optimum_gateway.Base.Maps.{RwMap}
use optimum_gateway.Forks.{is_some}
use optimum_gateway.Topics.TopicMeta.{text_key}
use optimum_gateway.MumP2p.Keeper.{TopicSet, TextsJson, Keeper, add_topic, remove_topic, is_blank}

pub data TopicError : Type 0 where
  empty_topic join_failed subscribe_failed close_failed not_found publish_failed : TopicError

module _ (sets : TopicSet) (json : TextsJson) (names : RwMap Bytes (Unit {0}) text_key) where
  pub record Subscriptions : Type 0 where
    pub topics : names.Map
    pub subscriptions : names.Map
    pub keeper : Keeper sets json

  abbrev pub has_topic : Subscriptions → Bytes → Bool
  has_topic s t = is_some (names.load s.topics t)

  abbrev pub has_subscription : Subscriptions → Bytes → Bool
  has_subscription s t = is_some (names.load s.subscriptions t)

  -- `SubscribeTopic`
  unfoldable pub subscribe_topic :
      Subscriptions
      → Bytes
      → (joined subscribed : Bool) → Subscriptions × Result TopicError (Unit {0})
  subscribe_topic s t joined subscribed =
      if is_blank t
      then (s, err empty_topic)
      else (if has_topic s t
          then (s, ok tt)
          else (if not joined
              then (s, err join_failed)
              else (if not subscribed
                  then (
                    record s { topics = names.delete (names.store s.topics t tt) t },
                    err subscribe_failed,
                  )
                  else (
                    record s {
                      topics = names.store s.topics t tt;
                      subscriptions = names.store s.subscriptions t tt;
                      keeper = add_topic sets json s.keeper t;
                    },
                    ok tt,
                  ))))

  -- `UnsubscribeTopic`
  unfoldable pub unsubscribe_topic :
      Subscriptions → Bytes → (closed : Bool) → Subscriptions × Result TopicError (Unit {0})
  unsubscribe_topic s t closed =
      let s1 =
        if has_subscription s t
        then record s { subscriptions = names.delete s.subscriptions t }
        else s in
      if not (has_topic s1 t)
      then (s1, ok tt)
      else (if not closed then (s1, err close_failed) else (
        record s1 {
          topics = names.delete s1.topics t;
          keeper = remove_topic sets json s1.keeper t;
        },
        ok tt,
      ))

  -- `PublishMessage`
  unfoldable pub publish_message :
      Subscriptions
      → Bytes
      → (joined subscribed published : Bool) → Subscriptions × Result TopicError (Unit {0})
  unfolding subscribe_topic
  publish_message s t joined subscribed published =
      let sent = if published then ok tt else err publish_failed in
      let (s', answer) = subscribe_topic s t joined subscribed in
      if has_topic s t then (s, sent) else elim answer [
        | err e ↦ (s', err e)
        | ok u ↦ if has_topic s' t then (s', sent) else (s', err not_found)
      ]

  pub data Event : Type 0 where
    subscribes : Bytes → (joined subscribed : Bool) → Event
    unsubscribes : Bytes → (closed : Bool) → Event
    publishes : Bytes → (joined subscribed published : Bool) → Event

  unfoldable pub step : Subscriptions → Event → Subscriptions
  step s (subscribes t joined subscribed) = (subscribe_topic s t joined subscribed).0
  step s (unsubscribes t closed) = (unsubscribe_topic s t closed).0
  step s (publishes t joined subscribed published) =
      (publish_message s t joined subscribed published).0

  unfoldable pub run : Subscriptions → List Event → Subscriptions
  run s [] = s
  run s (e ∷ es) = run (step s e) es

  -- An event in which no topic fails to close.
  abbrev pub Closes : Event → Type 0
  Closes (subscribes t joined subscribed) = Unit
  Closes (unsubscribes t closed) = closed ≡ true
  Closes (publishes t joined subscribed published) = Unit

  -- A topic is subscribed and kept exactly when it is joined.
  pub record IsPaired (s : Subscriptions) : Type 0 where
    pub paired : (t : Bytes) → has_subscription s t ≡ has_topic s t
    pub kept : (t : Bytes) → sets.has s.keeper.topics_map t ≡ has_topic s t
