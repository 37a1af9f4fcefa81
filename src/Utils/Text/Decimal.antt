-- ===== src/Utils/Text/Decimal.antt =====
-- Facts about small decimal numbers, by evaluation of each.
use optimum_gateway.Base.{ℕ, zero, suc, ◌<◌, ◌≡◌, arith, Bool, true, ◌&&◌}

-- The test passes at each of the numbers `bound - 1`, ..., 0.
unfoldable pub passes_below : (ℕ → Bool) → ℕ → Bool
passes_below test zero = true
passes_below test (suc k) = test k && passes_below test k

pub passes_at :
    (test : ℕ → Bool) (k : ℕ) → passes_below test k ≡ true → (m : ℕ) → m < k → test m ≡ true
unfolding passes_below
passes_at test zero all m below = elim below [ ]
passes_at test (suc k) all m below =
    ground (arith, λ (low : passes_below test k ≡ true) (lt : m < k). passes_at test k low m lt)
