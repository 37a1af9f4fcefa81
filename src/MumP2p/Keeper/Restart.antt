-- ===== src/MumP2p/Keeper/Restart.antt =====
-- What a restart of the topics keeper reads (pkg/service/mum_p2p/topics_keeper).
use optimum_gateway.Base.{
  ◌≡◌, refl, ap, subst, arith, Bool, true, false, not, ◌&&◌, ◌||◌, Option, none, some, List, [],
  ◌∷◌, if◌then◌else◌, ◌==◌, Each, Bool-cases, inl, inr, ◌⊎◌, ==_iff,
}
use optimum_gateway.Base.Wire.{Bytes}
use optimum_gateway.Utils.Text.{text_eq}
use optimum_gateway.Utils.Text.Laws.{text_eq_iff}
use optimum_gateway.Enrollment.Actions.{File, missing, unreadable, holds}
use optimum_gateway.Gateway.Handshake.{contains_text}
use optimum_gateway.MumP2p.Keeper.{
  TopicSet, TextsJson, is_blank, Keeper, store_all, load_data, new_keeper, notify, add_topic,
  remove_topic, dump_data, persist_starts, persist_ends, persist_returns, stop_starts, stop_ends,
  Event, adds, removes, starts, returns, cancels, ends, begins_stop, ends_stop, step, run,
}

module _ (sets : TopicSet) (json : TextsJson) where
  abbrev K : Type 0
  K = Keeper sets json

  -- What comes before `Stop`, with topics that are valid texts and writes that succeed.
  abbrev pub Runs : Event sets json → Type 0
  Runs (adds t) = json.is_text t ≡ true
  Runs (removes t) = Unit
  Runs starts = Unit
  Runs returns = Unit
  Runs cancels = Unit
  Runs (ends saved) = saved ≡ true
  Runs begins_stop = ⊥
  Runs (ends_stop saved) = ⊥

  -- What a restart reads of a file is the topics, less the blank ones.
  abbrev pub Restores : File → sets.Set → Type 0
  Restores f s =
      (t : Bytes) → sets.has (load_data sets json f) t ≡ (sets.has s t && not (is_blank t))

  abbrev AreTexts : sets.Set → Type 0
  AreTexts s = (t : Bytes) → (not (sets.has s t) || json.is_text t) ≡ true

  texts-Each :
      (ts : List Bytes)
      → ((t : Bytes) → (not (contains_text ts t) || json.is_text t) ≡ true)
      → Each (λ t. json.is_text t ≡ true) ts
  texts-Each [] h = tt
  texts-Each (k ∷ ts) h =
      (ground (arith, h k, (text_eq_iff k k).1 refl), texts-Each ts (λ t. ground (arith, h t)))

  Each-texts :
      (ts : List Bytes) (t : Bytes)
      → Each (λ k. json.is_text k ≡ true) ts
      → (not (contains_text ts t) || json.is_text t) ≡ true
  Each-texts [] t h = refl
  Each-texts (k ∷ ts) t h = elim (Bool-cases (text_eq k t)) [
    | inl y ↦ ground (arith, y, h.0, ap json.is_text ((text_eq_iff k t).0 y))
    | inr n ↦ ground (arith, n, Each-texts ts t h.1)
  ]

  store_all-has :
      (ts : List Bytes) (s : sets.Set) (t : Bytes)
      → sets.has (store_all sets json ts s) t
        ≡ (sets.has s t || (contains_text ts t && not (is_blank t)))
  store_all-has [] s t = ground arith
  store_all-has (k ∷ ts) s t = elim (Bool-cases (text_eq k t)) [
    | inl y ↦ ground (
      arith,
      y,
      store_all-has ts (if is_blank k then s else sets.put s k) t,
      sets.has-put s k t,
      ap is_blank ((text_eq_iff k t).0 y),
    )
    | inr n ↦
        ground (
          arith,
          n,
          store_all-has ts (if is_blank k then s else sets.put s k) t,
          sets.has-put s k t,
        )
  ]

  load-AreTexts : (f : File) → AreTexts (load_data sets json f)
  unfolding load_data
  load-AreTexts missing t = ground (arith, sets.has_empty t)
  load-AreTexts unreadable t = ground (arith, sets.has_empty t)
  load-AreTexts (holds bytes) t = by_topics (json.unmarshal bytes) refl
    where
      by_topics :
          (o : Option (List Bytes))
          → json.unmarshal bytes ≡ o
          → (not (
                sets.has
                  (elim o as (λ x. sets.Set) [
                    | none ↦ sets.empty
                    | some topics ↦ store_all sets json topics sets.empty
                  ])
                  t)
              || json.is_text t)
            ≡ true
      by_topics none e = ground (arith, sets.has_empty t)
      by_topics (some topics) e = ground (
        arith,
        store_all-has topics sets.empty t,
        sets.has_empty t,
        Each-texts topics t (json.unmarshal-is_text bytes topics e),
      )

  dump-Restores :
      (k : K) → AreTexts k.topics_map → Restores (holds (dump_data sets json k)) k.topics_map
  unfolding load_data dump_data
  dump-Restores k h t =
      rw
        (
          load_data,
          json.unmarshal-marshal (sets.keys k.topics_map) (
              texts-Each (sets.keys k.topics_map)
                (λ u. ground (arith, h u, sets.contains-keys k.topics_map u))),
        )
        (ground (
          arith,
          store_all-has (sets.keys k.topics_map) sets.empty t,
          sets.has_empty t,
          sets.contains-keys k.topics_map t,
        ))

  load-Restores : (f : File) → Restores f (load_data sets json f)
  unfolding load_data
  load-Restores missing t = ground (arith, sets.has_empty t)
  load-Restores unreadable t = ground (arith, sets.has_empty t)
  load-Restores (holds bytes) t = by_topics (json.unmarshal bytes)
    where
      by_topics :
          (o : Option (List Bytes))
          → sets.has
              (elim o as (λ x. sets.Set) [
                | none ↦ sets.empty
                | some topics ↦ store_all sets json topics sets.empty
              ])
              t
            ≡ (sets.has
                  (elim o as (λ x. sets.Set) [
                    | none ↦ sets.empty
                    | some topics ↦ store_all sets json topics sets.empty
                  ])
                  t
                && not (is_blank t))
      by_topics none = ground (arith, sets.has_empty t)
      by_topics (some topics) = ground (arith, store_all-has topics sets.empty t, sets.has_empty t)

  -- The file after the write that is under way.
  abbrev upcoming : Option Bytes → File → File
  upcoming none f = f
  upcoming (some bytes) f = holds bytes

  -- With nothing queued, the file, or what is written over it next, restores the topics, as long as
  -- the context is not cancelled.
  abbrev IsInSync : K → Type 0
  IsInSync k =
      AreTexts k.topics_map
      × (k.cancelled ≡ false → k.queued ≡ 0 → Restores (upcoming k.writing k.file) k.topics_map)

  starts-IsInSync : (k : K) → IsInSync k → IsInSync (persist_starts sets json k)
  unfolding persist_starts
  starts-IsInSync k h = by_write k.writing refl
    where
      by_write : (w : Option Bytes) → k.writing ≡ w → IsInSync (persist_starts sets json k)
      by_write (some bytes) e = rw (persist_starts, e) h
      by_write none e = elim (Bool-cases (k.returned || k.queued == 0)) [
        | inl y ↦ rw (persist_starts, e, y) h
        | inr n ↦ rw (persist_starts, e, n) (h.0, λ c q. dump-Restores k h.0)
      ]

  ends-IsInSync : (k : K) → IsInSync k → IsInSync (persist_ends sets json k true)
  unfolding persist_ends
  ends-IsInSync k h = by_write k.writing refl
    where
      by_write : (w : Option Bytes) → k.writing ≡ w → IsInSync (persist_ends sets json k true)
      by_write none e = rw (persist_ends, e) h
      by_write (some bytes) e =
          rw (persist_ends, e)
            (h.0, λ c q. subst (λ w. Restores (upcoming w k.file) k.topics_map) e (h.1 c q))

  returns-IsInSync : (k : K) → IsInSync k → IsInSync (persist_returns sets json k)
  unfolding persist_returns
  returns-IsInSync k h = by_write k.writing refl
    where
      by_write : (w : Option Bytes) → k.writing ≡ w → IsInSync (persist_returns sets json k)
      by_write (some bytes) e = rw (persist_returns, e) h
      by_write none e = elim (Bool-cases k.cancelled) [
        | inl y ↦ rw (persist_returns, e, y) (h.0, λ c. absurd (cc (c)))
        | inr n ↦ rw (persist_returns, e, n) (h.0, λ c. h.1 n)
      ]

  -- A change of the topics is told to the loop, unless the context is cancelled.
  changes-IsInSync :
      (k : K) (s : sets.Set)
      → AreTexts s
      → IsInSync k
      → IsInSync (notify sets json (record k { topics_map = s }))
  changes-IsInSync k s texts h =
      (λ t. ground (arith, texts t), λ c q. absurd (ground (arith, c, q)))

  step-IsInSync :
      (k : K) (e : Event sets json) → Runs e → IsInSync k → IsInSync (step sets json k e)
  unfolding step add_topic remove_topic
  step-IsInSync k (adds t) r h = changes-IsInSync k (sets.put k.topics_map t) put_text h
    where
      put_text : AreTexts (sets.put k.topics_map t)
      put_text u = elim (Bool-cases (text_eq t u)) [
        | inl y ↦ ground (arith, r, ap json.is_text ((text_eq_iff t u).0 y))
        | inr n ↦ ground (arith, n, h.0 u, sets.has-put k.topics_map t u)
      ]
  step-IsInSync k (removes t) r h =
      changes-IsInSync k (sets.delete k.topics_map t)
        (λ u. ground (arith, h.0 u, sets.has-delete k.topics_map t u)) h
  step-IsInSync k starts r h = starts-IsInSync k h
  step-IsInSync k returns r h = returns-IsInSync k h
  step-IsInSync k cancels r h = (h.0, λ c. absurd (cc (c)))
  step-IsInSync k (ends false) r h = absurd (cc (r))
  step-IsInSync k (ends true) r h = ends-IsInSync k h
  step-IsInSync k begins_stop r h = absurd r
  step-IsInSync k (ends_stop saved) r h = absurd r

  run-IsInSync :
      (k : K) (events : List (Event sets json))
      → Each Runs events
      → IsInSync k
      → IsInSync (run sets json k events)
  unfolding run
  run-IsInSync k [] r h = h
  run-IsInSync k (e ∷ es) r h = run-IsInSync (step sets json k e) es r.1 (step-IsInSync k e r.0 h)

  -- Whatever valid topics come and go from the start of the keeper, with writes that succeed and
  -- before `Stop`: when no write is under way, a restart would load exactly the topics of then, less
  -- the blank ones, unless a text is queued or the context was cancelled; and after a `Stop` whose
  -- write succeeds, while nothing else happens, it loads exactly these in any case.
  pub run-Restores :
      (f : File) (draws : List Bool) (events : List (Event sets json))
      → Each Runs events
      → (run sets json (new_keeper sets json f draws) events).writing ≡ none
      → (let k = run sets json (new_keeper sets json f draws) events in
          (Restores k.file k.topics_map ⊎ (((k.queued == 0) ≡ false) ⊎ (k.cancelled ≡ true)))
          × Restores (stop_ends sets json (stop_starts sets json k) true).file k.topics_map)
  unfolding new_keeper stop_starts stop_ends
  run-Restores f draws events r w =
      let k = run sets json (new_keeper sets json f draws) events in
      let (texts, synced) =
        run-IsInSync (new_keeper sets json f draws) events r
          (load-AreTexts f, λ c q. load-Restores f) in
      (
        elim (Bool-cases k.cancelled) [
          | inl y ↦ inr (inr y)
          | inr n ↦ elim (Bool-cases (k.queued == 0)) [
            | inr q ↦ inr (inl q)
            | inl q ↦ inl (
                subst (λ o. Restores (upcoming o k.file) k.topics_map) w
                  (synced n ((==_iff k.queued 0).0 q)))
          ]
        ],
        dump-Restores k texts,
      )
