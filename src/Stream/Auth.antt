-- ===== src/Stream/Auth.antt =====
-- The tokens of one consumer connection: pkg/service/stream/auth.go, and `connAuth` of
-- transport.go. What `Authenticate` answers at a time is that of a token; the manager is the one
-- of AuthToken, none where it is nil.
use optimum_gateway.Base.{
  ◌≡◌, ◌↔◌, refl, sym, ap, subst, Bool, true, false, not, Option, none, some, ok, err,
  if◌then◌else◌, inl, inr, ◌⊎◌, Bool-cases,
}
use optimum_gateway.Base.Wire.{Bytes}
use optimum_gateway.Utils.Text.{codes, text_eq}
use optimum_gateway.AuthToken.{Claims, Manager, is_enabled, verify_stream_token, aud_stream}

abbrev pub dev_local_subject : Bytes
dev_local_subject = codes "dev-local"

pub data ConsumerAuthenticator : Type 0 where
  jwks : Option Manager → ConsumerAuthenticator
  allow_all : ConsumerAuthenticator

-- `NewConsumerAuthenticator`
unfoldable pub new_consumer_authenticator : Option Manager → Bool → ConsumerAuthenticator
new_consumer_authenticator auth require_auth = if not require_auth then allow_all else jwks auth

-- `Authenticate`: the subject, or none for an error.
module _ (verify : Bytes → Bytes → Option Claims) (chain_of : Bytes → Option Bytes) where
  unfoldable pub authenticate : ConsumerAuthenticator → Bytes → Option Bytes
  authenticate allow_all token = some dev_local_subject
  authenticate (jwks none) token = none
  authenticate (jwks (some m)) token = elim (verify_stream_token verify chain_of m token) [
    | err e ↦ none
    | ok claims ↦ elim claims [ none ↦ none | some c ↦ some c.subject ]
  ]

  -- A consumer is authenticated as a subject exactly when auth is not required and the subject is
  -- the local one, or auth is on and the verifier gives that subject for a stream token.
  pub authenticate_iff :
      (auth : Option Manager) (require_auth : Bool) (token subject : Bytes)
      → (authenticate (new_consumer_authenticator auth require_auth) token ≡ some subject) ↔ (
          ((require_auth ≡ false) × (subject ≡ dev_local_subject))
          ⊎ ((require_auth ≡ true)
              × (m : Manager) × (auth ≡ some m)
              × (is_enabled m ≡ true)
              × (c : Claims) × (verify token aud_stream ≡ some c)
              × (c.subject ≡ subject)))
  unfolding authenticate new_consumer_authenticator verify_stream_token
  authenticate_iff auth false token subject =
      (λ h. inl (refl, cc), λ o. elim o [ inl x ↦ ap some (sym x.1) | inr x ↦ absurd (cc (x.0)) ])
  authenticate_iff none true token subject =
      (λ h. absurd (cc), λ o. elim o [ inl x ↦ absurd (cc (x.0)) | inr x ↦ absurd (cc (x.2)) ])
  authenticate_iff (some m) true token subject = (
    λ h. let (on, c, e, same) = by_enabled h in inr (refl, m, refl, on, c, e, same),
    λ o. elim o [
      | inl x ↦ absurd (cc (x.0))
      | inr x ↦
          let same : x.1 ≡ m = cc (x.2) in
          let on : is_enabled m ≡ true = subst (λ k. is_enabled k ≡ true) same x.3 in
          rw (authenticate, on, x.5) (ap some x.6)
    ],
  )
    where
      by_enabled :
          authenticate (jwks (some m)) token ≡ some subject
          → (is_enabled m ≡ true)
            × (c : Claims) × (verify token aud_stream ≡ some c)
            × (c.subject ≡ subject)
      by_enabled h = elim (Bool-cases (is_enabled m)) [
        | inr n ↦ absurd (cc (rw (authenticate, n) at h))
        | inl y ↦ let (c, e, same) = by_claims y (verify token aud_stream) refl h in (y, c, e, same)
      ]
        where
          by_claims :
              is_enabled m ≡ true
              → (k : Option Claims) → verify token aud_stream ≡ k
              → authenticate (jwks (some m)) token ≡ some subject
              → (c : Claims) × (k ≡ some c) × (c.subject ≡ subject)
          by_claims y none e h = absurd (cc (rw (authenticate, y, e) at h))
          by_claims y (some c) e h = (c, refl, cc (rw (authenticate, y, e) at h))

pub data ReauthMode : Type 0 where
  off observe enforce : ReauthMode

-- `connAuth`, less its configuration: the admitted subject and whether the last check failed.
pub record ConnAuth : Type 0 where
  pub subject : Bytes
  pub failing : Bool

-- `accept`; `answer` is what `Authenticate` says of the candidate.
unfoldable pub accept : ConnAuth → Option Bytes → Bool
accept c none = false
accept c (some got) = text_eq got c.subject

-- `reverify`: the state afterwards, and whether to cut the stream.
unfoldable pub reverify : ReauthMode → ConnAuth → Option Bytes → ConnAuth × Bool
reverify mode c (some got) = (record c { failing = false }, false)
reverify enforce c none = (c, true)
reverify mode c none = (record c { failing = true }, false)
