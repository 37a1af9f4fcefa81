-- ===== src/Forks.antt =====
-- pkg/protocol/forks: the fork digests in use. The two concurrent maps are parameters; an
-- atomic.Value is an option, empty before the first store. A reply of bootstrap or the hub is an
-- argument: the HTTP client is not part of the repository.
pub mod Invariant
pub mod Transition
mod Tests
use mathlib.Core.List.{get_last?}
use optimum_gateway.Base.{
  ℕ, zero, suc, ◌≡◌, refl, List, [], ◌∷◌, ◌++◌, arith, Bool, true, false, ◌&&◌, ◌||◌, not,
  if◌then◌else◌, Option, none, some, Result, ok, err, length, ◌==◌,
}
use optimum_gateway.Base.Wire.{Bytes}
use optimum_gateway.Base.Maps.{RwMap}
use optimum_gateway.Utils.Text.{codes, text_eq, to_lower, trim_space}
use optimum_gateway.Topics.EthTopics.{get_fork_digest_from_topic}
use optimum_gateway.Topics.TopicMeta.{text_key}

-- `sanitizeForkDigest`
unfoldable pub sanitize_fork_digest : Bytes → Bytes
sanitize_fork_digest digest = to_lower (trim_space digest)

abbrev pub is_empty : Bytes → Bool
is_empty [] = true
is_empty (c ∷ s) = false

abbrev pub is_some {ℓ} : {A : Type ℓ} → Option A → Bool
is_some none = false
is_some (some a) = true

-- An atomic.Value read as a string, empty where nothing was stored.
abbrev pub or_empty : Option Bytes → Bytes
or_empty none = []
or_empty (some s) = s

-- What `GetCurl` gives: a transport or decoding error, or a status code with a body or none.
pub data Reply (A : Type 0) : Type 0 where
  failed : Reply A
  answered : ℕ → Option A → Reply A

pub record ForkDigestResponse : Type 0 where
  pub fork_digest : Bytes
  pub future_fork : Bytes

pub record HubForksFile : Type 0 where
  pub forks : List Bytes
  pub future_fork : Bytes

pub data LoadError : Type 0 where
  request_failed empty_digest empty_forks bad_digest_length : LoadError
  both_failed : LoadError → LoadError → LoadError
  cancelled unavailable : LoadError

module _ (forks : RwMap Bytes (Unit {0}) text_key) (cache : RwMap Bytes Bytes text_key) where
  pub record Forks : Type 0 where
    pub supported : forks.Map
    pub topic_fork_cache : cache.Map
    pub observed_digest : Option Bytes
    pub cfg_fork_digest : Option Bytes

  abbrev entry : Bytes → List (Bytes × Unit {0})
  entry val = if is_empty val then [] else (val, tt) ∷ []

  -- `applyForkDigest`: the supported set is replaced; an empty current digest keeps the old one.
  unfoldable pub apply_fork_digest : Forks → Bytes → Bytes → Forks
  apply_fork_digest s current future =
      let cur = sanitize_fork_digest current in
      let fut = sanitize_fork_digest future in
      record s {
        supported = forks.replace (entry cur ++ entry fut);
        cfg_fork_digest = if is_empty cur then s.cfg_fork_digest else some cur;
      }

  -- `CheckForkSupported`
  unfoldable pub check_fork_supported : Forks → Bytes → Bool
  check_fork_supported s digest = is_some (forks.load s.supported (sanitize_fork_digest digest))

  -- `ActiveDigest`
  unfoldable pub active_digest : Forks → Bytes
  active_digest s =
      if not (is_empty (or_empty s.observed_digest))
        && check_fork_supported s (or_empty s.observed_digest)
      then or_empty s.observed_digest
      else or_empty s.cfg_fork_digest

  -- `ObserveMessageDigest`: the state afterwards and the answer.
  unfoldable pub observe_message_digest : Forks → Bytes → Forks × Bool
  observe_message_digest s seen =
      let digest = sanitize_fork_digest seen in
      if is_empty digest
        || (text_eq digest (or_empty s.cfg_fork_digest)
            || (text_eq digest (active_digest s) || not (check_fork_supported s digest)))
      then (s, false)
      else (record s { observed_digest = some digest }, true)

  -- `TopicSupported`
  unfoldable pub topic_supported : Forks → Bytes → Bool × Forks
  topic_supported s topic =
      if text_eq topic (codes "mump2p_aggregated_messages")
      then (true, s)
      else elim (cache.load s.topic_fork_cache topic) [
        | some val ↦ (check_fork_supported s val, s)
        | none ↦
            let fork = get_fork_digest_from_topic topic in
            (
              check_fork_supported s fork,
              record s { topic_fork_cache = cache.store s.topic_fork_cache topic fork },
            )
      ]

  -- `loadFromBootstrap`
  unfoldable pub load_from_bootstrap : Forks → Reply ForkDigestResponse → Result LoadError Forks
  load_from_bootstrap s failed = err request_failed
  load_from_bootstrap s (answered code none) =
      if code == 200 then err empty_digest else err request_failed
  load_from_bootstrap s (answered code (some res)) =
      if code == 200
      then (if is_empty (trim_space res.fork_digest)
          then err empty_digest
          else ok (apply_fork_digest s res.fork_digest res.future_fork))
      else err request_failed

  -- The end of `loadFromGitHub`, on the last fork of a file that names one.
  unfoldable pub apply_hub : Forks → HubForksFile → Option Bytes → Result LoadError Forks
  apply_hub s res none = err empty_forks
  apply_hub s res (some newest) =
      let digest = to_lower (trim_space newest) in
      if length digest == 8
      then ok (apply_fork_digest s digest res.future_fork)
      else err bad_digest_length

  -- `loadFromGitHub`
  unfoldable pub load_from_hub : Forks → Reply HubForksFile → Result LoadError Forks
  unfolding apply_hub
  load_from_hub s failed = err request_failed
  load_from_hub s (answered code none) = err empty_forks
  load_from_hub s (answered code (some res)) =
      if code == 200 then apply_hub s res (get_last? res.forks) else err empty_forks

  -- `loadForkDigest`: the hub only after bootstrap has failed.
  unfoldable pub load_fork_digest :
      Forks → Reply ForkDigestResponse → Reply HubForksFile → Result LoadError Forks
  load_fork_digest s bootstrap hub = elim (load_from_bootstrap s bootstrap) [
    | ok s' ↦ ok s'
    | err e ↦ elim (load_from_hub s hub) [ ok s' ↦ ok s' | err g ↦ err (both_failed e g) ]
  ]

  -- One attempt of the first load: the replies, and whether the context ends in the wait after it.
  pub record Attempt : Type 0 where
    pub bootstrap : Reply ForkDigestResponse
    pub hub : Reply HubForksFile
    pub cancelled_after : Bool

  -- `loadInitialForkDigest` with the attempts left, at most 12.
  unfoldable pub load_initial_fork_digest : ℕ → Forks → List Attempt → Result LoadError Forks
  load_initial_fork_digest zero s attempts = err unavailable
  load_initial_fork_digest (suc n) s [] = err unavailable
  load_initial_fork_digest (suc n) s (a ∷ rest) =
      let later = load_initial_fork_digest n s rest in
      elim (load_fork_digest s a.bootstrap a.hub) [
        | ok s' ↦ ok s'
        | err e ↦
            if n == 0 then err unavailable else (if a.cancelled_after then err cancelled else later)
      ]

  -- One tick of `bgRefreshForkDigest`: a failure of both keeps the state.
  unfoldable pub refresh_fork_digest : Forks → Reply ForkDigestResponse → Reply HubForksFile → Forks
  refresh_fork_digest s bootstrap hub = elim (load_from_bootstrap s bootstrap) [
    | ok s' ↦ s'
    | err e ↦ elim (load_from_hub s hub) [ ok s' ↦ s' | err g ↦ s ]
  ]

  -- `NewService` before its first load.
  unfoldable pub new_forks : Forks
  new_forks = record {
    supported = forks.empty;
    topic_fork_cache = cache.empty;
    observed_digest = none;
    cfg_fork_digest = none;
  }
