-- ===== src/Utils/Sizes.antt =====
-- pkg/utils/calc.go and pkg/utils/strings.go.
use optimum_gateway.Base.{
  ℕ, ◌+◌, ◌-◌, ◌/◌, Result, ok, err, ◌>>=◌, List, [], ◌∷◌, ◌++◌, if◌then◌else◌, ltb, ◌==◌, length,
  drop, ◌≡◌, ◌≤◌, ◌↔◌, arith,
}
use optimum_gateway.Base.Wire.{Bytes}
use optimum_gateway.Forks.{is_empty}
use optimum_gateway.Utils.Text.{NumError, trim_space, parse_uint, codes}

abbrev pub max_int : ℕ
max_int = 9223372036854775807

-- A size that is not positive, or that does not fit with its overhead.
pub data SizeError : Type 0 where
  not_positive too_large : SizeError

-- `CalculateMaxSize`, of an int64 that is not negative.
unfoldable pub calculate_max_size : ℕ → Result SizeError ℕ
calculate_max_size src =
    if src == 0
    then err not_positive
    else (if ltb (max_int - src / 5) src then err too_large else ok (src + src / 5))

-- `ShrinkPeerID`
unfoldable pub shrink_peer_id : Bytes → Bytes
shrink_peer_id pid = if ltb (length pid) 8 then pid else codes "..." ++ drop (length pid - 8) pid

-- `strings.Split` at a byte: the part that is being read, and the rest.
unfoldable pub split_byte : ℕ → Bytes → Bytes → List Bytes
split_byte sep part [] = part ∷ []
split_byte sep part (c ∷ s) =
    let next = split_byte sep [] s in
    let more = split_byte sep (part ++ (c ∷ [])) s in if c == sep then part ∷ next else more

-- The loop of `ParseCommaSeparatedUint64s`.
unfoldable pub parse_parts : List Bytes → Result NumError (List ℕ)
parse_parts [] = ok []
parse_parts (p ∷ ps) =
    if is_empty (trim_space p)
    then parse_parts ps
    else (parse_uint (trim_space p) >>= λ n. parse_parts ps >>= λ ns. ok (n ∷ ns))

-- `ParseCommaSeparatedUint64s`
unfoldable pub parse_comma_separated : Bytes → Result NumError (List ℕ)
unfolding split_byte parse_parts
parse_comma_separated s =
    if is_empty (trim_space s) then ok [] else parse_parts (split_byte 44 [] (trim_space s))

-- A size that is given is the source's and a fifth of it, rounded down, and fits an int.
pub calculate_max_size_iff :
    (src n : ℕ)
    → (calculate_max_size src ≡ ok n) ↔ ((1 ≤ src) × (n ≡ src + src / 5) × (n ≤ max_int))
unfolding calculate_max_size
calculate_max_size_iff src n = (
  λ h. (ground (arith, h), ground (arith, h), ground (arith, h)),
  λ h. ground (arith, h.0, h.1, h.2),
)
