-- ===== src/AuthToken/Refresh.antt =====
-- `refreshLoop`, `NextRetryBackoff` and `MintErrorIsTerminal` of
-- pkg/service/auth_token/manager.go. The loop runs over a list of rounds, each with what the
-- outside world gives in it: the random draw, the mint's answer, and when the context is cancelled.
use optimum_gateway.Base.{
  ℕ, zero, suc, ◌*◌, ◌^◌, ◌≤◌, ◌≡◌, refl, arith, List, [], ◌∷◌, Bool, true, false, ◌||◌, not,
  Option, none, some, ◌==◌, if◌then◌else◌, min, Result, ok, err, Bool-cases, inl, inr, ◌⊎◌, Each,
}
use optimum_gateway.Base.Wire.{Bytes}
use optimum_gateway.Forks.{is_some}
use optimum_gateway.AuthToken.{
  Claims, Manager, MintError, PostReply, mint, unknown_key, key_revoked, key_suspended,
}
use optimum_gateway.AuthToken.Mint.{IsValid, mint-IsValid}

-- In seconds.
abbrev pub refresh_interval_min_sec : ℕ
refresh_interval_min_sec = 600

abbrev pub refresh_interval_max_sec : ℕ
refresh_interval_max_sec = 1200

-- `NextRetryBackoff`, in seconds.
unfoldable pub next_retry_backoff : ℕ → ℕ
next_retry_backoff current = if current == 0 then 60 else min (current * 2) 1800

-- `MintErrorIsTerminal`
unfoldable pub mint_error_is_terminal : Manager → MintError → Bool
mint_error_is_terminal m key_revoked = true
mint_error_is_terminal m key_suspended = true
mint_error_is_terminal m unknown_key = not (is_some m.cred)
mint_error_is_terminal m _ = false

pub record Round : Type 0 where
  pub draw : Option ℕ  -- of `RandBetween`
  pub done_waiting : Bool  -- the context is cancelled before the timer fires
  pub signed : Option Bytes
  pub reply : PostReply
  pub done_minting : Bool  -- the context is cancelled when the mint has failed

-- How long a round waits.
unfoldable pub wait_of : ℕ → Option ℕ → ℕ
wait_of backoff draw =
    if backoff == 0
    then (elim draw [
      | none ↦ refresh_interval_min_sec
      | some d ↦ if d == 0 then refresh_interval_min_sec else d
    ])
    else backoff

-- A draw is in the interval that it was asked for, or it failed.
abbrev pub IsDraw : Option ℕ → Type 0
IsDraw none = Unit
IsDraw (some d) = (refresh_interval_min_sec ≤ d) × (d ≤ refresh_interval_max_sec)

abbrev pub IsBackoff : ℕ → Type 0
IsBackoff b = (b ≡ 0) ⊎ ((60 ≤ b) × (b ≤ 1800))

abbrev pub IsWait : ℕ → Type 0
IsWait w = (60 ≤ w) × (w ≤ 1800)

module _ (verify : Bytes → Bytes → Option Claims) where
  -- `refreshLoop`: the manager afterwards and the waits that were begun, in their order.
  unfoldable pub refresh_loop : Manager → ℕ → List Round → Manager × List ℕ
  refresh_loop m backoff [] = (m, [])
  refresh_loop m backoff (r ∷ rounds) =
      let wait = wait_of backoff r.draw in
      let (m', answer) = mint verify m r.signed r.reply in
      let (renewed, waits) = refresh_loop m' 0 rounds in
      let (retried, retries) = refresh_loop m' (next_retry_backoff backoff) rounds in
      if r.done_waiting then (m, wait ∷ []) else (elim answer [
        | ok t ↦ (renewed, wait ∷ waits)
        | err e ↦
            if r.done_minting || mint_error_is_terminal m' e
            then (m', wait ∷ [])
            else (retried, wait ∷ retries)
      ])

  next_retry_backoff_bounds : (b : ℕ) → IsBackoff b → IsBackoff (next_retry_backoff b)
  unfolding next_retry_backoff
  next_retry_backoff_bounds b (inl z) = inr (ground (arith, z), ground (arith, z))
  next_retry_backoff_bounds b (inr (l, h)) = inr (ground (arith, l, h), ground (arith, l, h))

  wait_bounds :
      (b : ℕ) (draw : Option ℕ)
      → IsBackoff b
      → IsDraw draw
      → (60 ≤ wait_of b draw) × (wait_of b draw ≤ 1800)
  unfolding wait_of
  wait_bounds b none (inl z) d = (ground (arith, z), ground (arith, z))
  wait_bounds b none (inr (l, h)) d = (ground (arith, l, h), ground (arith, l, h))
  wait_bounds b (some x) (inl z) d = (ground (arith, z, d.0, d.1), ground (arith, z, d.0, d.1))
  wait_bounds b (some x) (inr (l, h)) d = (ground (arith, l, h), ground (arith, l, h))

  -- Whatever the mints answer, the loop waits between one and thirty minutes each time, and it
  -- keeps the manager valid.
  pub refresh_loop-bounds :
      (m : Manager) (backoff : ℕ) (rounds : List Round)
      → IsValid verify m
      → IsBackoff backoff
      → Each (λ r. IsDraw r.draw) rounds
      → Each IsWait (refresh_loop m backoff rounds).1
        × IsValid verify (refresh_loop m backoff rounds).0
  unfolding refresh_loop
  refresh_loop-bounds m backoff [] v b d = (tt, v)
  refresh_loop-bounds m backoff (r ∷ rounds) v b d = elim (Bool-cases r.done_waiting) [
    | inl e ↦ (rw e (wait_bounds backoff r.draw b d.0, tt), rw e v)
    | inr e ↦
        by_answer (λ m' b' v' k. refresh_loop-bounds m' b' rounds v' k d.1) e
          (mint verify m r.signed r.reply).1 refl
  ]
    where
      after : IsValid verify (mint verify m r.signed r.reply).0
      after = mint-IsValid verify m r.signed r.reply v

      by_answer :
          ((m' : Manager) (b' : ℕ)
            → IsValid verify m'
            → IsBackoff b'
            → Each IsWait (refresh_loop m' b' rounds).1
              × IsValid verify (refresh_loop m' b' rounds).0)
          → r.done_waiting ≡ false
          → (a : Result MintError Bytes) → (mint verify m r.signed r.reply).1 ≡ a
          → Each IsWait (refresh_loop m backoff (r ∷ rounds)).1
            × IsValid verify (refresh_loop m backoff (r ∷ rounds)).0
      by_answer next e (ok t) q =
          let (waits, kept) = next _ 0 after (inl refl) in
          (rw (e, q) (wait_bounds backoff r.draw b d.0, waits), rw (e, q) kept)
      by_answer next e (err x) q =
          elim (Bool-cases
            (r.done_minting || mint_error_is_terminal (mint verify m r.signed r.reply).0 x)) [
              | inl stops ↦
                  (rw (e, q, stops) (wait_bounds backoff r.draw b d.0, tt), rw (e, q, stops) after)
              | inr goes ↦
                  let (waits, kept) =
                    next _ (next_retry_backoff backoff) after
                      (next_retry_backoff_bounds backoff b) in
                  (rw (e, q, goes) (wait_bounds backoff r.draw b d.0, waits), rw (e, q, goes) kept)
            ]

-- The wait after a number of failures in a row.
abbrev pub backoff_after : ℕ → ℕ
backoff_after zero = 0
backoff_after (suc n) = next_retry_backoff (backoff_after n)

-- The waits after one, two, ... failures double from a minute up to half an hour.
pub next_retry_backoff-iterate : (n : ℕ) → backoff_after (suc n) ≡ min (60 * 2 ^ n) 1800
unfolding next_retry_backoff
next_retry_backoff-iterate zero = refl
next_retry_backoff-iterate (suc n) = ground (arith, next_retry_backoff-iterate n, positive n)
  where
    positive : (k : ℕ) → 1 ≤ 2 ^ k
    positive zero = omega arith
    positive (suc k) = omega (arith, positive k)
