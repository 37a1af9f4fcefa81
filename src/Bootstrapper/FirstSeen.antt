-- ===== src/Bootstrapper/FirstSeen.antt =====
-- What the record of a slot says after a run of events, against their list (pkg/service/bootstrapper).
pub mod Summary
use mathlib.Core.List.{append-nil, append_assoc}
use optimum_gateway.Base.{
  ℕ, ◌≡◌, ◌<◌, refl, sym, ap, subst, ◌∙◌, arith, Bool, true, false, Option, none, some, List, [],
  ◌∷◌, ◌++◌, if◌then◌else◌, ◌==◌, ltb, inl, inr, Bool-cases, Each, ==_iff,
}
use optimum_gateway.Base.Wire.{Bytes}
use optimum_gateway.Base.Maps.{TtlMap, nat_key}
use optimum_gateway.Forks.{is_empty}
use optimum_gateway.StreamHub.{Source, lib_p2p, mum_p2p}
use optimum_gateway.Bootstrapper.{
  BlockArrival, LatencyComparator, Identity, created_by_publish, updated_by_publish,
  created_by_block, updated_by_block, compose_block_telemetry, compose_publish_telemetry,
  handle_block_event,
}
use optimum_gateway.Bootstrapper.FirstSeen.Summary.{
  is_publish, is_from, eth_first, eth_peer_first, mum_first, last_publish, IsTimed, of_slot,
  eth_first-append, eth_none, mum_first-append, last_publish-append, Says, Each-snoc,
}

module _ (slot_start : ℕ → ℕ) (me : Identity) (tracked : TtlMap ℕ LatencyComparator nat_key) where
  -- What an event makes of the record of its slot.
  abbrev pub after_event : Option LatencyComparator → BlockArrival → LatencyComparator
  after_event none ev =
      if is_publish ev
      then created_by_publish slot_start me ev
      else created_by_block slot_start me ev
  after_event (some v) ev =
      if is_publish ev
      then updated_by_publish slot_start me ev v
      else updated_by_block slot_start me ev v

  -- The worker changes the record of the slot so, and no other.
  pub handle_block_event-get :
      (m : tracked.Map) (now : ℕ) (ev : BlockArrival) (slot : ℕ)
      → tracked.get (handle_block_event slot_start me tracked m now ev) now slot ≡ (
          if ev.slot == slot
          then some (after_event (tracked.get m now ev.slot) ev)
          else tracked.get m now slot)
  unfolding handle_block_event compose_publish_telemetry compose_block_telemetry
  handle_block_event-get m now ev slot = elim (Bool-cases (ltb 0 ev.published_at)) [
    | inl y ↦ rw y (
        tracked.get-upsert m now ev.slot _ _ slot
        ∙ ap (λ x. if ev.slot == slot then some x else tracked.get m now slot)
            (published y (tracked.get m now ev.slot)))
    | inr n ↦ rw n (
        tracked.get-upsert m now ev.slot _ _ slot
        ∙ ap (λ x. if ev.slot == slot then some x else tracked.get m now slot)
            (arrived n (tracked.get m now ev.slot)))
  ]
    where
      published :
          ltb 0 ev.published_at ≡ true
          → (o : Option LatencyComparator)
          → ◌≡◌ {A = LatencyComparator}
              (elim o as (λ x. LatencyComparator) [
                | none ↦ created_by_publish slot_start me ev
                | some v ↦ updated_by_publish slot_start me ev v
              ])
              (after_event o ev)
      published y none = rw y refl
      published y (some v) = rw y refl

      arrived :
          ltb 0 ev.published_at ≡ false
          → (o : Option LatencyComparator)
          → ◌≡◌ {A = LatencyComparator}
              (elim o as (λ x. LatencyComparator) [
                | none ↦ created_by_block slot_start me ev
                | some v ↦ updated_by_block slot_start me ev v
              ])
              (after_event o ev)
      arrived n none = rw n refl
      arrived n (some v) = rw n refl

  created-Says : (ev : BlockArrival) → IsTimed ev → Says (after_event none ev) (ev ∷ [])
  unfolding created_by_publish created_by_block
  created-Says ev h = record {
    eth_time = ground arith;
    eth_peer = ground arith;
    mum_time = ground arith;
    published = ground arith;
    peer_timed = ground (arith, h);
  }

  updated-Says :
      (v : LatencyComparator) (evs : List BlockArrival) (ev : BlockArrival)
      → Each IsTimed evs
      → IsTimed ev
      → Says v evs
      → Says (after_event (some v) ev) (evs ++ (ev ∷ []))
  unfolding updated_by_publish updated_by_block
  updated-Says v evs ev hs h s = record {
    eth_time = ground (arith, s.eth_time, (eth_first-append evs ev hs).0);
    eth_peer =
        ground (arith, s.eth_time, s.eth_peer, (eth_first-append evs ev hs).1, eth_none evs hs);
    mum_time = ground (arith, s.mum_time, s.peer_timed, mum_first-append evs ev hs);
    published = ground (arith, s.published, last_publish-append evs ev 0);
    peer_timed = ground (arith, s.peer_timed, h);
  }

  -- The worker on events with the times at which it takes them.
  unfoldable pub handle_all : tracked.Map → List (ℕ × BlockArrival) → tracked.Map
  handle_all m [] = m
  handle_all m ((now, ev) ∷ evs) =
      handle_all (handle_block_event slot_start me tracked m now ev) evs

  -- The record of a slot does not expire while the worker takes some events, the last one of which
  -- is read at the time of the first parameter.
  abbrev pub Kept : ℕ → tracked.Map → ℕ → List (ℕ × BlockArrival) → Type 0
  Kept slot m before [] = Unit
  Kept slot m before ((now, ev) ∷ evs) =
      (tracked.get m now slot ≡ tracked.get m before slot)
      × Kept slot (handle_block_event slot_start me tracked m now ev) now evs

  abbrev pub last_time : ℕ → List (ℕ × BlockArrival) → ℕ
  last_time before [] = before
  last_time before ((now, ev) ∷ evs) = last_time now evs

  -- The record stands for the events so far, and there is one exactly when there was an event.
  abbrev pub Stands : Option LatencyComparator → List BlockArrival → Type 0
  Stands none evs = evs ≡ []
  Stands (some v) evs = Says v evs

  event-Stands :
      (o : Option LatencyComparator) (evs : List BlockArrival) (ev : BlockArrival)
      → Each IsTimed evs
      → IsTimed ev
      → Stands o evs
      → Says (after_event o ev) (evs ++ (ev ∷ []))
  event-Stands none evs ev hs h s =
      subst (λ xs. Says (after_event none ev) (xs ++ (ev ∷ []))) (sym s) (created-Says ev h)
  event-Stands (some v) evs ev hs h s = updated-Says v evs ev hs h s

  handle_all-Stands :
      (slot : ℕ) (m : tracked.Map) (before : ℕ) (seen : List BlockArrival)
      (evs : List (ℕ × BlockArrival))
      → Each IsTimed seen
      → Each (λ x. IsTimed x.1) evs
      → Kept slot m before evs
      → Stands (tracked.get m before slot) seen
      → Stands
          (tracked.get (handle_all m evs) (last_time before evs) slot)
          (seen ++ of_slot slot evs)
  unfolding handle_all
  handle_all-Stands slot m before seen [] ts hs k s =
      subst (Stands (tracked.get m before slot)) (sym (append-nil seen)) s
  handle_all-Stands slot m before seen ((now, ev) ∷ evs) ts (h, hs) (k, ks) s =
      let m' = handle_block_event slot_start me tracked m now ev in
      let got = handle_block_event-get m now ev slot in
      let stands : Stands (tracked.get m now slot) seen = subst (λ o. Stands o seen) (sym k) s in
      elim (Bool-cases (ev.slot == slot)) [
        | inl y ↦
            let here : ev.slot ≡ slot = (==_iff ev.slot slot).0 y in
            let made : tracked.get m' now slot ≡ some (after_event (tracked.get m now slot) ev) =
              got ∙ rw y refl ∙ ap (λ x. some (after_event (tracked.get m now x) ev)) here in
            let next =
              handle_all-Stands slot m' now (seen ++ (ev ∷ [])) evs (Each-snoc seen ev ts h) hs ks (
                subst (λ o. Stands o (seen ++ (ev ∷ []))) (sym made)
                  (event-Stands (tracked.get m now slot) seen ev ts h stands)) in
            subst (Stands (tracked.get (handle_all m' evs) (last_time now evs) slot))
              (append_assoc seen (ev ∷ []) (of_slot slot evs)
                ∙ ap (λ xs. seen ++ xs) (ground (arith, y)))
              next
        | inr n ↦
            let same : tracked.get m' now slot ≡ tracked.get m now slot = got ∙ rw n refl in
            let next =
              handle_all-Stands slot m' now seen evs ts hs ks
                (subst (λ o. Stands o seen) (sym same) stands) in
            subst (Stands (tracked.get (handle_all m' evs) (last_time now evs) slot))
              (ap (λ xs. seen ++ xs) (ground (arith, n))) next
      ]

  -- Whatever beacon blocks and publishes the worker takes, in whatever order and for whatever slots:
  -- while the record of a slot does not expire, it says when the consensus client first delivered a
  -- block of the slot and by which peer, when the mesh first did or was published to, and when the
  -- slot was last published; there is a record exactly when something came for the slot.
  pub handle_all_lem :
      (slot before : ℕ) (evs : List (ℕ × BlockArrival))
      → Each (λ x. IsTimed x.1) evs
      → Kept slot tracked.empty before evs
      → Stands
          (tracked.get (handle_all tracked.empty evs) (last_time before evs) slot)
          (of_slot slot evs)
  handle_all_lem slot before evs h k =
      handle_all-Stands slot tracked.empty before [] evs tt h k
        (subst (λ o. Stands o []) (sym (tracked.get_empty before slot)) refl)
