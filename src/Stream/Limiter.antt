-- ===== src/Stream/Limiter.antt =====
-- `ConnLimiter` of pkg/service/stream/transport.go. Its mutex makes each call one step; `conns` and
-- the counts are ints that do not fall below 0 (Caps). A Go map is a list of entries, and a time is
-- a number that is not 0.
use optimum_gateway.Base.{
  ℕ, suc, ◌-◌, not, ◌||◌, Option, none, some, List, [], ◌∷◌, if◌then◌else◌, leb, ltb, ◌==◌,
}
use optimum_gateway.Base.Wire.{Bytes}
use optimum_gateway.Base.Maps.{nat_key, assoc_load, assoc_delete}
use optimum_gateway.Topics.TopicMeta.{text_key}
use optimum_gateway.Forks.{is_some}

pub record ConnLimiter : Type 0 where
  pub max_conns : ℕ
  pub max_conns_per_sub : ℕ
  pub conns : ℕ
  pub per_sub : List (Bytes × ℕ)
  pub next_id : ℕ
  pub starts : List (ℕ × ℕ)

-- An int of a map, 0 where there is none.
abbrev pub or_zero : Option ℕ → ℕ
or_zero none = 0
or_zero (some n) = n

-- `NewConnLimiter`
unfoldable pub new_conn_limiter : ℕ → ℕ → ConnLimiter
new_conn_limiter max_conns max_conns_per_sub = record {
  max_conns = max_conns;
  max_conns_per_sub = max_conns_per_sub;
  conns = 0;
  per_sub = [];
  next_id = 0;
  starts = [];
}

abbrev pub count_of : ConnLimiter → Bytes → ℕ
count_of l subject = or_zero (assoc_load text_key l.per_sub subject)

-- `acquire` at a time: the limiter afterwards and the id that the closer holds, none where a cap
-- is reached.
unfoldable pub acquire : ConnLimiter → Bytes → ℕ → ConnLimiter × Option ℕ
acquire l subject now =
    if leb l.max_conns l.conns || leb l.max_conns_per_sub (count_of l subject) then (l, none) else (
      record l {
        conns = suc l.conns;
        per_sub = (subject, suc (count_of l subject)) ∷ assoc_delete text_key l.per_sub subject;
        next_id = suc l.next_id;
        starts = (l.next_id, now) ∷ assoc_delete nat_key l.starts l.next_id;
      },
      some l.next_id,
    )

-- `release`
unfoldable pub release : ConnLimiter → Bytes → ℕ → ConnLimiter
release l subject id =
    let left = count_of l subject - 1 in
    let others = assoc_delete text_key l.per_sub subject in
    if not (is_some (assoc_load nat_key l.starts id)) then l else record l {
      conns = l.conns - 1;
      per_sub = (if left == 0 then others else (subject, left) ∷ others);
      starts = assoc_delete nat_key l.starts id;
    }

-- The loop of `oldestStart`, with the oldest one so far, 0 for none.
unfoldable pub oldest_from : ℕ → List (ℕ × ℕ) → ℕ
oldest_from oldest [] = oldest
oldest_from oldest ((id, t) ∷ starts) =
    oldest_from (if oldest == 0 || ltb t oldest then t else oldest) starts

-- `oldestStart`, which is what `publishOldest` publishes.
unfoldable pub oldest_start : ConnLimiter → ℕ
unfolding oldest_from
oldest_start l = oldest_from 0 l.starts
