-- ===== src/Stream/Frames.antt =====
-- What a consumer asks for and is sent: `normalizeMode`, `topicsOK`, `metadataToken` and
-- `bearerToken` on texts, `withDefaults`, `toProto` and `writeBlock`.
use optimum_gateway.Base.{
  ℕ, ◌≡◌, refl, Bool, true, false, not, ◌&&◌, ◌||◌, Option, none, some, List, [], ◌∷◌,
  if◌then◌else◌, ◌==◌,
}
use optimum_gateway.Base.Wire.{Bytes}
use optimum_gateway.Forks.{is_empty}
use optimum_gateway.Utils.Text.{codes, text_eq, trim_space}
use optimum_gateway.Topics.EthTopics.{strip_prefix}
use optimum_gateway.StreamHub.{BlockEvent, default_buffer_size}
use optimum_gateway.Stream.Auth.{ReauthMode, off, observe}

pub data Frame : Type 0 where
  block : BlockEvent → Frame
  lagged : ℕ → Frame
  heartbeat : ℕ → ℕ → ℕ → Frame

-- `normalizeMode`: whether the mode is allowed, and whether it is the raw one.
unfoldable pub normalize_mode : Bytes → Option Bool
normalize_mode mode =
    if is_empty mode || text_eq mode (codes "metadata")
    then some false
    else (if text_eq mode (codes "raw") then some true else none)

-- `topicsOK`
unfoldable pub topics_ok : List Bytes → Bool
topics_ok [] = true
topics_ok (t ∷ ts) =
    let rest = topics_ok ts in
    if not (is_empty t) && not (text_eq t (codes "beacon_block")) then false else rest

-- `metadataToken`, of the values of the authorization metadata.
unfoldable pub metadata_token : List Bytes → Bytes
metadata_token [] = []
metadata_token (v ∷ vs) = elim (strip_prefix (codes "Bearer ") v) [
  | none ↦ trim_space v
  | some after ↦ trim_space after
]

-- The loop of `bearerToken` over the offered subprotocols.
unfoldable pub offered_token : List Bytes → Bytes
offered_token [] = []
offered_token (p ∷ ps) = elim (strip_prefix (codes "bearer.") p) [
  | none ↦ offered_token ps
  | some token ↦ token
]

-- `bearerToken`, of the Authorization header and the offered subprotocols.
unfoldable pub bearer_token : Bytes → List Bytes → Bytes
unfolding offered_token
bearer_token header offers = elim (strip_prefix (codes "Bearer ") header) [
  | none ↦ offered_token offers
  | some token ↦ trim_space token
]

-- `Config`, times in milliseconds; the interval of the heartbeat that is negative is 0.
pub record Config : Type 0 where
  pub max_conns : ℕ
  pub max_conns_per_sub : ℕ
  pub buffer_size : ℕ
  pub heartbeat_interval : ℕ
  pub reauth_mode : Option ReauthMode
  pub reauth_interval : ℕ
  pub keepalive_min_time : ℕ

abbrev pub or_default : ℕ → ℕ → ℕ
or_default n d = if n == 0 then d else n

-- `withDefaults`, less the limiter; a negative number counts as 0.
unfoldable pub with_defaults : Config → Config
with_defaults c = record {
  max_conns = or_default c.max_conns 256;
  max_conns_per_sub = or_default c.max_conns_per_sub 8;
  buffer_size = or_default c.buffer_size default_buffer_size;
  heartbeat_interval = c.heartbeat_interval;
  reauth_mode = some (elim c.reauth_mode [ none ↦ observe | some m ↦ m ]);
  reauth_interval = or_default c.reauth_interval 60000;
  keepalive_min_time = or_default c.keepalive_min_time 20000;
}

-- `reauthInterval`: 0 where no ticker runs.
unfoldable pub reauth_interval_of : ReauthMode → ℕ → ℕ
reauth_interval_of off interval = 0
reauth_interval_of _ interval = interval

-- The block frame of `writeBlock` and of `toProto`: without the raw bytes in metadata mode.
unfoldable pub block_frame : Bool → BlockEvent → Frame
block_frame raw ev = if raw then block ev else block (record ev { raw = none })

-- What is sent of a block that is not asked for raw does not depend on its raw bytes.
pub block_frame-metadata :
    (ev : BlockEvent) (bytes : Option Bytes)
    → block_frame false ev ≡ block_frame false (record ev { raw = bytes })
unfolding block_frame
block_frame-metadata ev bytes = refl
