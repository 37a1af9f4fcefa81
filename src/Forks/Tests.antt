-- ===== src/Forks/Tests.antt =====
-- The theorems on fork digests at a concrete history: digest "aaaaaaaa" with "bbbbbbbb" to come.
use optimum_gateway.Base.{◌≡◌, refl, List, [], ◌∷◌, true, false, some}
use optimum_gateway.Base.Maps.{RwMap, assoc_map}
use optimum_gateway.Base.Wire.{Bytes}
use optimum_gateway.Utils.Text.{codes, trim_space}
use optimum_gateway.Topics.TopicMeta.{text_key}
use optimum_gateway.Forks.{
  Forks, failed, answered, is_empty, sanitize_fork_digest, apply_fork_digest, new_forks,
  check_fork_supported, active_digest,
}
use optimum_gateway.Forks.Invariant.{IsValid, apply-IsValid}
use optimum_gateway.Forks.Transition.{Event, refreshes, observes, run, active_digest-run}

abbrev forks : RwMap Bytes (Unit {0}) text_key
forks = assoc_map Bytes (Unit {0}) text_key

abbrev cache : RwMap Bytes Bytes text_key
cache = assoc_map Bytes Bytes text_key

abbrev start : Forks forks cache
start = apply_fork_digest forks cache (new_forks forks cache) (codes "AAAAAAAA") (codes "bbbbbbbb")

start-IsValid : IsValid forks cache start
unfolding sanitize_fork_digest trim_space new_forks
start-IsValid =
    apply-IsValid forks cache _ (codes "AAAAAAAA") (codes "bbbbbbbb") refl (λ t v h. absurd (cc))

abbrev history : List (Event forks cache)
history =
    observes (codes "bbbbbbbb")
    ∷ refreshes failed failed
    ∷ refreshes (answered 200 (some (record { fork_digest = codes " bbbbbbbb"; future_fork = [] })))
        failed
    ∷ []

active_digest-run_example :
    (is_empty (active_digest forks cache (run forks cache start history)) ≡ false)
    × (check_fork_supported forks cache
          (run forks cache start history)
          (active_digest forks cache (run forks cache start history))
        ≡ true)
active_digest-run_example = active_digest-run forks cache start history start-IsValid
