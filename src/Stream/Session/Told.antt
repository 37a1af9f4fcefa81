-- ===== src/Stream/Session/Told.antt =====
-- What a consumer can tell from the frames of its connection (pkg/service/stream).
use mathlib.Core.List.{append_assoc, append-nil}
use optimum_gateway.Base.{
  ℕ, ◌≡◌, refl, sym, ap, ◌∙◌, arith, Bool, true, false, Option, none, List, [], ◌∷◌, ◌++◌, ◌==◌,
  inl, inr, Bool-cases, ==_iff,
}
use optimum_gateway.Base.Wire.{Bytes}
use optimum_gateway.StreamHub.{BlockEvent}
use optimum_gateway.Stream.Auth.{ReauthMode}
use optimum_gateway.Stream.Frames.{Frame, block, lagged, heartbeat, block_frame}
use optimum_gateway.Stream.Session.Laws.{serve-runs, serve-running}
use optimum_gateway.Stream.Session.{
  Session, Event, hangs_up, takes_block, refreshes, reauth_tick, heartbeat_tick, pings, write,
  send_block, step, serve, new_session,
}

-- What a consumer reads off its frames: the blocks, and the losses it was told of last.
abbrev pub blocks_of : List Frame → List BlockEvent
blocks_of [] = []
blocks_of (block ev ∷ fs) = ev ∷ blocks_of fs
blocks_of (lagged d ∷ fs) = blocks_of fs
blocks_of (heartbeat a b c ∷ fs) = blocks_of fs

abbrev pub losses_from : ℕ → List Frame → ℕ
losses_from n [] = n
losses_from n (block ev ∷ fs) = losses_from n fs
losses_from n (lagged d ∷ fs) = losses_from d fs
losses_from n (heartbeat a b c ∷ fs) = losses_from n fs

-- The blocks that the loop took and the drop count at the last of them.
abbrev pub taken : List Event → List BlockEvent
taken [] = []
taken (takes_block ev d now lag_sent sent ∷ es) = ev ∷ taken es
taken (hangs_up ∷ es) = taken es
taken (refreshes token now ∷ es) = taken es
taken (reauth_tick now ∷ es) = taken es
taken (heartbeat_tick now sent ∷ es) = taken es
taken (pings sent ∷ es) = taken es

abbrev pub dropped_from : ℕ → List Event → ℕ
dropped_from n [] = n
dropped_from n (takes_block ev d now lag_sent sent ∷ es) = dropped_from d es
dropped_from n (hangs_up ∷ es) = dropped_from n es
dropped_from n (refreshes token now ∷ es) = dropped_from n es
dropped_from n (reauth_tick now ∷ es) = dropped_from n es
dropped_from n (heartbeat_tick now sent ∷ es) = dropped_from n es
dropped_from n (pings sent ∷ es) = dropped_from n es

-- The block as the consumer's mode shows it.
abbrev pub shown : Bool → BlockEvent → BlockEvent
shown true ev = ev
shown false ev = record ev { raw = none }

abbrev pub show_all : Bool → List BlockEvent → List BlockEvent
show_all raw [] = []
show_all raw (ev ∷ evs) = shown raw ev ∷ show_all raw evs

blocks_of-append : (fs gs : List Frame) → blocks_of (fs ++ gs) ≡ blocks_of fs ++ blocks_of gs
blocks_of-append [] gs = refl
blocks_of-append (block ev ∷ fs) gs = ap (λ xs. ev ∷ xs) (blocks_of-append fs gs)
blocks_of-append (lagged d ∷ fs) gs = blocks_of-append fs gs
blocks_of-append (heartbeat a b c ∷ fs) gs = blocks_of-append fs gs

losses-append :
    (n : ℕ) (fs gs : List Frame) → losses_from n (fs ++ gs) ≡ losses_from (losses_from n fs) gs
losses-append n [] gs = refl
losses-append n (block ev ∷ fs) gs = losses-append n fs gs
losses-append n (lagged d ∷ fs) gs = losses-append d fs gs
losses-append n (heartbeat a b c ∷ fs) gs = losses-append n fs gs

block_frame_lem : (raw : Bool) (ev : BlockEvent) → block_frame raw ev ≡ block (shown raw ev)
unfolding block_frame
block_frame_lem true ev = refl
block_frame_lem false ev = refl

show_taken :
    (raw : Bool) (e : Event) (es : List Event)
    → show_all raw (taken (e ∷ es)) ≡ show_all raw (taken (e ∷ [])) ++ show_all raw (taken es)
show_taken raw hangs_up es = refl
show_taken raw (takes_block ev d now lag_sent sent) es = refl
show_taken raw (refreshes token now) es = refl
show_taken raw (reauth_tick now) es = refl
show_taken raw (heartbeat_tick now sent) es = refl
show_taken raw (pings sent) es = refl

dropped-cons :
    (n : ℕ) (e : Event) (es : List Event)
    → dropped_from n (e ∷ es) ≡ dropped_from (dropped_from n (e ∷ [])) es
dropped-cons n hangs_up es = refl
dropped-cons n (takes_block ev d now lag_sent sent) es = refl
dropped-cons n (refreshes token now) es = refl
dropped-cons n (reauth_tick now) es = refl
dropped-cons n (heartbeat_tick now sent) es = refl
dropped-cons n (pings sent) es = refl

module _ (auth_at : ℕ → Bytes → Option Bytes) (slot_at : ℕ → ℕ) (mode : ReauthMode)
    (raw : Bool) where
  -- What the consumer has read, and its mode.
  abbrev pub Told : List BlockEvent → ℕ → Session → Type 0
  Told blocks losses s =
      (blocks_of s.sent ≡ blocks) × (losses_from 0 s.sent ≡ losses) × (s.last_dropped ≡ losses)

  sends-Told :
      (blocks : List BlockEvent) (losses : ℕ) (s : Session) (ev : BlockEvent) (now : ℕ)
      (sent : Bool)
      → Told blocks losses s
      → (send_block auth_at slot_at mode raw s ev now sent).running ≡ true
      → Told
          (blocks ++ (shown raw ev ∷ []))
          losses
          (send_block auth_at slot_at mode raw s ev now sent)
  unfolding send_block
  sends-Told blocks losses s ev now false h r = ground (arith, r)
  sends-Told blocks losses s ev now true h r = elim (Bool-cases s.running) [
    | inr n ↦ ground (arith, n, r)
    | inl y ↦
        let e : (send_block auth_at slot_at mode raw s ev now true).sent
            ≡ s.sent ++ (block_frame raw ev ∷ []) =
          ground (arith, y) in
        let d : (send_block auth_at slot_at mode raw s ev now true).last_dropped ≡ s.last_dropped =
          ground (arith, y) in
        let f = block_frame_lem raw ev in
        (
          ap blocks_of e
              ∙ blocks_of-append s.sent (block_frame raw ev ∷ [])
              ∙ ap (λ xs. xs ++ blocks_of (block_frame raw ev ∷ [])) h.0
              ∙ ap (λ x. blocks ++ blocks_of (x ∷ [])) f,
          ap (losses_from 0) e
              ∙ losses-append 0 s.sent (block_frame raw ev ∷ [])
              ∙ ap (λ x. losses_from (losses_from 0 s.sent) (x ∷ [])) f
              ∙ h.1,
          d ∙ h.2,
        )
  ]

  -- After a write that failed nothing else is sent.
  send_block-halted :
      (s : Session) (ev : BlockEvent) (now : ℕ) (sent : Bool)
      → s.running ≡ false
      → (send_block auth_at slot_at mode raw s ev now sent).running ≡ false
  unfolding send_block
  send_block-halted s ev now sent h = ground (arith, h)

  step-Told :
      (blocks : List BlockEvent) (losses : ℕ) (s : Session) (e : Event)
      → Told blocks losses s
      → (step auth_at slot_at mode raw s e).running ≡ true
      → Told
          (blocks ++ show_all raw (taken (e ∷ [])))
          (dropped_from losses (e ∷ []))
          (step auth_at slot_at mode raw s e)
  unfolding step
  step-Told blocks losses s hangs_up h r = absurd (cc)
  step-Told blocks losses s (takes_block ev d now lag_sent sent) h r =
      elim (Bool-cases (d == s.last_dropped)) [
        | inl same ↦
            let told : s.last_dropped ≡ d = sym ((==_iff d s.last_dropped).0 same) in
            rw same
              (sends-Told blocks d s ev now sent (h.0, h.1 ∙ sym h.2 ∙ told, told) (rw same at r))
        | inr new ↦ rw new (by_lag lag_sent (rw new at r))
      ]
    where
      by_lag :
          (b : Bool)
          → (send_block auth_at slot_at mode raw
              (write (record s { last_dropped = d }) (lagged d) b)
              ev
              now
              sent).running
            ≡ true
          → Told (blocks ++ (shown raw ev ∷ [])) d (
              send_block auth_at slot_at mode raw
                (write (record s { last_dropped = d }) (lagged d) b)
                ev
                now
                sent)
      by_lag false q = absurd (
          cc (
            sym q
            ∙ send_block-halted (write (record s { last_dropped = d }) (lagged d) false) ev now sent
                refl))
      by_lag true q =
          sends-Told blocks d (record s { last_dropped = d; sent = s.sent ++ (lagged d ∷ []) }) ev
            now sent
            (
              blocks_of-append s.sent (lagged d ∷ []) ∙ append-nil (blocks_of s.sent) ∙ h.0,
              losses-append 0 s.sent (lagged d ∷ []),
              refl,
            )
            q
  step-Told blocks losses s (refreshes token now) h r = ground (arith, h, append-nil blocks)
  step-Told blocks losses s (reauth_tick now) h r = (h.0 ∙ sym (append-nil blocks), h.1, h.2)
  step-Told blocks losses s (heartbeat_tick now false) h r = absurd (cc)
  step-Told blocks losses s (heartbeat_tick now true) h r =
      (blocks_of-append s.sent _ ∙ ap (λ xs. xs ++ []) h.0, losses-append 0 s.sent _ ∙ h.1, h.2)
  step-Told blocks losses s (pings true) h r = (h.0 ∙ sym (append-nil blocks), h.1, h.2)
  step-Told blocks losses s (pings false) h r = absurd (cc)

  pub serve-Told :
      (blocks : List BlockEvent) (losses : ℕ) (s : Session) (events : List Event)
      → Told blocks losses s
      → (serve auth_at slot_at mode raw s events).running ≡ true
      → Told
          (blocks ++ show_all raw (taken events))
          (dropped_from losses events)
          (serve auth_at slot_at mode raw s events)
  unfolding serve
  serve-Told blocks losses s [] h r = (h.0 ∙ sym (append-nil blocks), h.1, h.2)
  serve-Told blocks losses s (e ∷ es) h r =
      let runs =
        serve-runs auth_at slot_at mode raw s e es
          (serve-running auth_at slot_at mode raw s (e ∷ es) r) in
      let later = ap (λ x. x.running) (sym runs) ∙ r in
      let next =
        serve-Told (blocks ++ show_all raw (taken (e ∷ []))) (dropped_from losses (e ∷ []))
          (step auth_at slot_at mode raw s e) es
          (step-Told blocks losses s e h
            (serve-running auth_at slot_at mode raw (step auth_at slot_at mode raw s e) es later))
          later in
      (
        ap (λ x. blocks_of x.sent) runs
            ∙ next.0
            ∙ append_assoc blocks (show_all raw (taken (e ∷ []))) (show_all raw (taken es))
            ∙ ap (λ xs. blocks ++ xs) (sym (show_taken raw e es)),
        ap (λ x. losses_from 0 x.sent) runs ∙ next.1 ∙ sym (dropped-cons losses e es),
        ap (λ x. x.last_dropped) runs ∙ next.2 ∙ sym (dropped-cons losses e es),
      )

  -- Where a connection still runs after some events, the blocks in its frames are those that it took,
  -- in their order and without the raw bytes unless it asked for them, and the last loss that the
  -- consumer was told of is the drop count at the last block, 0 where there is none.
  pub serve-new_session :
      (token subject : Bytes) (events : List Event)
      → (serve auth_at slot_at mode raw (new_session token subject) events).running ≡ true
      → (blocks_of (serve auth_at slot_at mode raw (new_session token subject) events).sent
          ≡ show_all raw (taken events))
        × (losses_from 0 (serve auth_at slot_at mode raw (new_session token subject) events).sent
            ≡ dropped_from 0 events)
  unfolding new_session
  serve-new_session token subject events r =
      let told = serve-Told [] 0 (new_session token subject) events (refl, refl, refl) r in
      (told.0, told.1)
