-- ===== src/Utils/Retry.antt =====
-- pkg/utils/retryer.go. The request is a list of what its attempts would give; time passes only
-- in the waits between them, of which the model keeps whether the context ended there.
use optimum_gateway.Base.{
  ℕ, zero, suc, ◌*◌, ◌≤◌, arith, List, [], ◌∷◌, Bool, false, ◌||◌, Option, ◌==◌, if◌then◌else◌, min,
}

abbrev pub retry_attempts : ℕ
retry_attempts = 3

-- What one attempt gives: the body, if any, the status code, and whether there was an error.
pub record Attempt (A : Type 0) : Type 0 where
  pub body : Option A
  pub code : ℕ
  pub failed : Bool
  pub cancelled_after : Bool

-- `IsPostSuccess`
unfoldable pub is_post_success : ℕ → Bool
is_post_success code = code == 200 || code == 201

-- `slices.Contains`
abbrev contains_code : List ℕ → ℕ → Bool
contains_code [] code = false
contains_code (c ∷ cs) code = c == code || contains_code cs code

-- The test that `RetryPostRequest` gives to `retryRequest`, with its extra codes.
unfoldable pub accepts_post : List ℕ → ℕ → Bool
unfolding is_post_success
accepts_post codes code = is_post_success code || contains_code codes code

-- The test that `RetryGetRequest` gives to it.
unfoldable pub accepts_get : ℕ → Bool
accepts_get code = code == 200

-- The delay before the attempt after number `attempt`, less its jitter, in milliseconds.
unfoldable pub retry_delay : ℕ → ℕ
retry_delay zero = min 1000 8000
retry_delay (suc n) = min (2 * retry_delay n) 8000

module _ {A : Type 0} (accepts : ℕ → Bool) where
  -- `retryRequest` with attempts left after this one: the answer and the number of requests sent.
  -- The first attempt is `a`, the next ones are `later`; with none listed the request is not sent
  -- again.
  unfoldable pub retry_request : ℕ → Attempt A → List (Attempt A) → Attempt A × ℕ
  retry_request zero a later = (a, 1)
  retry_request (suc left) a [] = (a, 1)
  retry_request (suc left) a (b ∷ later) =
      let (answer, sent) = retry_request left b later in
      if accepts a.code then (a, 1) else (if a.cancelled_after then (a, 1) else (answer, suc sent))

  -- At least one request is sent, and no more than the first and those left.
  pub retry_request-bounds :
      (left : ℕ) (a : Attempt A) (later : List (Attempt A))
      → (1 ≤ (retry_request left a later).1) × ((retry_request left a later).1 ≤ suc left)
  unfolding retry_request
  retry_request-bounds zero a later = omega arith
  retry_request-bounds (suc left) a [] = omega arith
  retry_request-bounds (suc left) a (b ∷ later) = ground (arith, retry_request-bounds left b later)
