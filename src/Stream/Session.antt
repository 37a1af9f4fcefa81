-- ===== src/Stream/Session.antt =====
-- One consumer's connection: livenessState of pkg/service/stream/liveness.go and the loop that
-- `serve` (ws.go) and `Subscribe` (grpc.go) run, one case of its select for each event. The
-- queue of one that `offerLatest` fills is between the events: the newest token is the one taken.
-- Times are milliseconds; what `Authenticate` answers at a time and whether a write succeeds are
-- the environment's.
pub mod Laws
pub mod Told
use optimum_gateway.Base.{
  ℕ, ◌-◌, ◌≡◌, Bool, true, false, not, Option, none, some, List, [], ◌∷◌, ◌++◌, if◌then◌else◌, leb,
  ◌==◌,
}
use optimum_gateway.Base.Wire.{Bytes}
use optimum_gateway.StreamHub.{BlockEvent}
use optimum_gateway.Stream.Auth.{ReauthMode, ConnAuth, accept, reverify}
use optimum_gateway.Stream.Frames.{Frame, lagged, heartbeat, block_frame}

-- `livenessState`
pub record LivenessState : Type 0 where
  pub last_slot : ℕ
  pub last_block : ℕ

-- `observe` at a time.
unfoldable pub observe_slot : ℕ → ℕ → LivenessState
observe_slot now slot = record { last_slot = slot; last_block = now }

-- `snapshot`, the last slot and the silence; the slot that is expected is a parameter.
unfoldable pub snapshot : LivenessState → ℕ → ℕ × ℕ
snapshot l now = (
  l.last_slot,
  (if l.last_block == 0 then 0 else (if leb now l.last_block then 0 else now - l.last_block)),
)

-- What a select of the loop takes: the done channel or a closed subscription; a block with
-- `Dropped` as it is then, the time, and whether the writes of the two frames succeed; a token; a
-- tick of the re-verification; a tick of the heartbeat and whether its write succeeds; a ping.
pub data Event : Type 0 where
  hangs_up : Event
  takes_block : BlockEvent → (dropped now : ℕ) → (lag_sent sent : Bool) → Event
  refreshes : Bytes → ℕ → Event
  reauth_tick : ℕ → Event
  heartbeat_tick : ℕ → Bool → Event
  pings : Bool → Event

pub record Session : Type 0 where
  pub token : Bytes
  pub auth : ConnAuth
  pub live : LivenessState
  pub last_dropped : ℕ
  pub sent : List Frame
  pub running : Bool

-- The state at the head of the loop, for the token and the subject that were admitted.
unfoldable pub new_session : Bytes → Bytes → Session
new_session token subject = record {
  token = token;
  auth = record { subject = subject; failing = false };
  live = record { last_slot = 0; last_block = 0 };
  last_dropped = 0;
  sent = [];
  running = true;
}

-- `writeJSON` or `Send` of a frame: the loop returns where the write fails.
abbrev pub write : Session → Frame → Bool → Session
write s f ok_sent =
    if ok_sent then record s { sent = s.sent ++ (f ∷ []) } else record s { running = false }

module _ (auth_at : ℕ → Bytes → Option Bytes) (slot_at : ℕ → ℕ) (mode : ReauthMode)
    (raw : Bool) where
  -- The block after the lagged frame, where there is one.
  unfoldable pub send_block : Session → BlockEvent → ℕ → Bool → Session
  unfolding observe_slot
  send_block s ev now sent =
      if not s.running then s else record (write s (block_frame raw ev) sent) {
        live = (if sent then observe_slot now ev.slot else s.live);
      }

  unfoldable pub step : Session → Event → Session
  unfolding send_block snapshot
  step s hangs_up = record s { running = false }
  step s (takes_block ev dropped now lag_sent sent) =
      if dropped == s.last_dropped
      then send_block s ev now sent
      else send_block (write (record s { last_dropped = dropped }) (lagged dropped) lag_sent) ev now
          sent
  step s (refreshes token now) =
      if accept s.auth (auth_at now token) then record s { token = token } else s
  step s (reauth_tick now) =
      let (auth, cut) = reverify mode s.auth (auth_at now s.token) in
      record s { auth = auth; running = not cut }
  step s (heartbeat_tick now sent) =
      let (last, silence) = snapshot s.live now in
      write s (heartbeat last (slot_at now) silence) sent
  step s (pings sent) = if sent then s else record s { running = false }

  -- The loop, until it returns.
  unfoldable pub serve : Session → List Event → Session
  unfolding step
  serve s [] = s
  serve s (e ∷ es) = let rest = serve (step s e) es in if s.running then rest else s
