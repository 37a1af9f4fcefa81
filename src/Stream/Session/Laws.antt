-- ===== src/Stream/Session/Laws.antt =====
-- What one connection of pkg/service/stream keeps to while its loop runs: the token it uses, and
-- when re-verification ends it.
use optimum_gateway.Base.{
  ℕ, ◌≡◌, refl, sym, ap, ◌∙◌, subst, arith, Bool, true, false, not, Option, none, some, List, [],
  ◌∷◌, if◌then◌else◌, inl, inr, Bool-cases, Each, ◌&&◌,
}
use optimum_gateway.Base.Wire.{Bytes}
use optimum_gateway.Utils.Text.{text_eq}
use optimum_gateway.Utils.Text.Laws.{text_eq_iff}
use optimum_gateway.Stream.Auth.{ReauthMode, off, observe, enforce, ConnAuth, accept, reverify}
use optimum_gateway.Stream.Session.{
  Session, Event, hangs_up, takes_block, refreshes, reauth_tick, heartbeat_tick, pings, send_block,
  step, serve,
}

reverify-subject :
    (mode : ReauthMode) (c : ConnAuth) (answer : Option Bytes)
    → (reverify mode c answer).0.subject ≡ c.subject
unfolding reverify
reverify-subject mode c (some got) = refl
reverify-subject off c none = refl
reverify-subject observe c none = refl
reverify-subject enforce c none = refl

-- Whether a re-verification keeps the stream.
abbrev pub passes : ReauthMode → Option Bytes → Bool
passes mode (some got) = true
passes off none = true
passes observe none = true
passes enforce none = false

reverify-passes :
    (mode : ReauthMode) (c : ConnAuth) (answer : Option Bytes)
    → not (reverify mode c answer).1 ≡ passes mode answer
unfolding reverify
reverify-passes mode c (some got) = refl
reverify-passes off c none = refl
reverify-passes observe c none = refl
reverify-passes enforce c none = refl

module _ (auth_at : ℕ → Bytes → Option Bytes) (slot_at : ℕ → ℕ) (mode : ReauthMode)
    (raw : Bool) where
  pub serve-runs :
      (s : Session) (e : Event) (es : List Event)
      → s.running ≡ true
      → serve auth_at slot_at mode raw s (e ∷ es)
        ≡ serve auth_at slot_at mode raw (step auth_at slot_at mode raw s e) es
  unfolding serve
  serve-runs s e es h = ground (arith, h)

  pub serve-halts :
      (s : Session) (es : List Event) → s.running ≡ false → serve auth_at slot_at mode raw s es ≡ s
  unfolding serve
  serve-halts s [] h = refl
  serve-halts s (e ∷ es) h = ground (arith, h)

  -- What each step keeps the loop keeps.
  serve-keeps :
      (P : Session → Type 0)
      → ((s : Session) (e : Event) → P s → P (step auth_at slot_at mode raw s e))
      → (s : Session) (es : List Event) → P s
      → P (serve auth_at slot_at mode raw s es)
  unfolding serve
  serve-keeps P keeps s [] h = h
  serve-keeps P keeps s (e ∷ es) h = elim (Bool-cases s.running) [
    | inl y ↦
        subst P (sym (serve-runs s e es y))
          (serve-keeps P keeps (step auth_at slot_at mode raw s e) es (keeps s e h))
    | inr n ↦ subst P (sym (serve-halts s (e ∷ es) n)) h
  ]

  -- The token was accepted at some time as the subject's.
  abbrev pub Proved : Bytes → Session → Type 0
  Proved subject s = (s.auth.subject ≡ subject) × (t : ℕ) × (auth_at t s.token ≡ some subject)

  accept-proved :
      (s : Session) (token subject : Bytes) (now : ℕ)
      → s.auth.subject ≡ subject
      → accept s.auth (auth_at now token) ≡ true
      → auth_at now token ≡ some subject
  unfolding accept
  accept-proved s token subject now own h = by_answer (auth_at now token) refl h
    where
      by_answer :
          (a : Option Bytes)
          → auth_at now token ≡ a
          → accept s.auth a ≡ true
          → auth_at now token ≡ some subject
      by_answer none e y = absurd (cc)
      by_answer (some got) e y = e ∙ ap some ((text_eq_iff got s.auth.subject).0 y ∙ own)

  step-Proved :
      (subject : Bytes) (s : Session) (e : Event)
      → Proved subject s
      → Proved subject (step auth_at slot_at mode raw s e)
  unfolding step send_block
  step-Proved subject s hangs_up h = h
  step-Proved subject s (takes_block ev d now lag_sent sent) h = ground (arith, h)
  step-Proved subject s (refreshes token now) h =
      elim (Bool-cases (accept s.auth (auth_at now token))) [
        | inl y ↦ rw y (h.0, now, accept-proved s token subject now h.0 y)
        | inr n ↦ rw n h
      ]
  step-Proved subject s (reauth_tick now) h =
      (reverify-subject mode s.auth (auth_at now s.token) ∙ h.0, h.1, h.2)
  step-Proved subject s (heartbeat_tick now true) h = h
  step-Proved subject s (heartbeat_tick now false) h = h
  step-Proved subject s (pings true) h = h
  step-Proved subject s (pings false) h = h

  -- Whatever arrives on a connection, its subject stays the one that was admitted, and the token it
  -- uses was accepted at some time as that subject's.
  pub serve-Proved :
      (subject : Bytes) (s : Session) (events : List Event)
      → Proved subject s
      → Proved subject (serve auth_at slot_at mode raw s events)
  serve-Proved subject s events h =
      serve-keeps (Proved subject) (λ s e. step-Proved subject s e) s events h

  pub serve-running :
      (s : Session) (es : List Event)
      → (serve auth_at slot_at mode raw s es).running ≡ true
      → s.running ≡ true
  serve-running s es r = elim (Bool-cases s.running) [
    | inl y ↦ y
    | inr n ↦ ap (λ x. x.running) (sym (serve-halts s es n)) ∙ r
  ]

  -- An event that ends no connection by itself: nobody hangs up and each write succeeds.
  abbrev pub Quiet : Event → Type 0
  Quiet hangs_up = ⊥
  Quiet (takes_block ev d now lag_sent sent) = (lag_sent ≡ true) × (sent ≡ true)
  Quiet (refreshes token now) = Unit
  Quiet (reauth_tick now) = Unit
  Quiet (heartbeat_tick now sent) = sent ≡ true
  Quiet (pings sent) = sent ≡ true

  -- The token that a refresh leaves in use.
  abbrev pub token_after : Bytes → Bytes → Option Bytes → Bytes → Bytes
  token_after subject token none candidate = token
  token_after subject token (some got) candidate = if text_eq got subject then candidate else token

  -- Whether each check on the way passes, each of the token that is in use then.
  abbrev pub all_pass : Bytes → Bytes → List Event → Bool
  all_pass subject token [] = true
  all_pass subject token (hangs_up ∷ es) = all_pass subject token es
  all_pass subject token (takes_block ev d now lag_sent sent ∷ es) = all_pass subject token es
  all_pass subject token (refreshes candidate now ∷ es) =
      all_pass subject (token_after subject token (auth_at now candidate) candidate) es
  all_pass subject token (reauth_tick now ∷ es) =
      passes mode (auth_at now token) && all_pass subject token es
  all_pass subject token (heartbeat_tick now sent ∷ es) = all_pass subject token es
  all_pass subject token (pings sent ∷ es) = all_pass subject token es

  token_next : Bytes → Bytes → Event → Bytes
  token_next subject token (refreshes candidate now) =
      token_after subject token (auth_at now candidate) candidate
  token_next subject token hangs_up = token
  token_next subject token (takes_block ev d now lag_sent sent) = token
  token_next subject token (reauth_tick now) = token
  token_next subject token (heartbeat_tick now sent) = token
  token_next subject token (pings sent) = token

  check_of : Bytes → Event → Bool
  check_of token (reauth_tick now) = passes mode (auth_at now token)
  check_of token hangs_up = true
  check_of token (takes_block ev d now lag_sent sent) = true
  check_of token (refreshes candidate now) = true
  check_of token (heartbeat_tick now sent) = true
  check_of token (pings sent) = true

  all_pass-cons :
      (subject token : Bytes) (e : Event) (es : List Event)
      → all_pass subject token (e ∷ es)
        ≡ (check_of token e && all_pass subject (token_next subject token e) es)
  unfolding check_of token_next
  all_pass-cons subject token hangs_up es = refl
  all_pass-cons subject token (takes_block ev d now lag_sent sent) es = refl
  all_pass-cons subject token (refreshes candidate now) es = refl
  all_pass-cons subject token (reauth_tick now) es = refl
  all_pass-cons subject token (heartbeat_tick now sent) es = refl
  all_pass-cons subject token (pings sent) es = refl

  -- After a quiet event the loop runs if the check passed.
  abbrev Continues : Session → Event → Session → Type 0
  Continues s e s' =
      (s'.running ≡ check_of s.token e)
      × (s'.auth.subject ≡ s.auth.subject)
      × (s'.token ≡ token_next s.auth.subject s.token e)

  step-Continues :
      (s : Session) (e : Event)
      → s.running ≡ true
      → Quiet e
      → Continues s e (step auth_at slot_at mode raw s e)
  unfolding step check_of token_next send_block
  step-Continues s hangs_up r q = absurd q
  step-Continues s (takes_block ev d now lag_sent sent) r (lag, q) = ground (arith, r, lag, q)
  step-Continues s (refreshes token now) r q = by_answer (auth_at now token)
    where
      by_answer :
          (a : Option Bytes)
          → ((if accept s.auth a then record s { token = token } else s).running ≡ true)
            × ((if accept s.auth a then record s { token = token } else s).auth.subject
                ≡ s.auth.subject)
            × ((if accept s.auth a then record s { token = token } else s).token
                ≡ token_after s.auth.subject s.token a token)
      by_answer none = unfold accept in (r, refl, refl)
      by_answer (some got) = unfold accept in (ground (arith, r))
  step-Continues s (reauth_tick now) r q = (
    reverify-passes mode s.auth (auth_at now s.token),
    reverify-subject mode s.auth (auth_at now s.token),
    refl,
  )
  step-Continues s (heartbeat_tick now sent) r q = rw q (r, refl, refl)
  step-Continues s (pings sent) r q = rw q (r, refl, refl)

  -- On a connection where nobody hangs up and each write succeeds, the loop still runs after some
  -- events exactly when each re-verification on the way passed: the mode is not to enforce, or the
  -- token then in use, the latest that was accepted as the subject's, still authenticated.
  pub serve-all_pass :
      (s : Session) (events : List Event)
      → s.running ≡ true
      → Each Quiet events
      → (serve auth_at slot_at mode raw s events).running ≡ all_pass s.auth.subject s.token events
  unfolding serve
  serve-all_pass s [] r q = r
  serve-all_pass s (e ∷ es) r (q, qs) =
      let (run, same, next) = step-Continues s e r q in
      let runs = ap (λ x. x.running) (serve-runs s e es r) in
      let spec = all_pass-cons s.auth.subject s.token e es in
      elim (Bool-cases (check_of s.token e)) [
        | inl y ↦
            runs
            ∙ serve-all_pass (step auth_at slot_at mode raw s e) es (run ∙ y) qs
            ∙ ap (λ x. all_pass x (step auth_at slot_at mode raw s e).token es) same
            ∙ ap (λ x. all_pass s.auth.subject x es) next
            ∙ sym (rw y at spec)
        | inr n ↦
            runs
            ∙ ap (λ x. x.running) (serve-halts (step auth_at slot_at mode raw s e) es (run ∙ n))
            ∙ run
            ∙ n
            ∙ sym (rw n at spec)
      ]
