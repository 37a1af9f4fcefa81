-- ===== src/Stream/Tests.antt =====
-- The theorems on consumer streams at small runs.
use optimum_gateway.Base.{
  ℕ, ◌≡◌, refl, true, false, Option, none, some, List, [], ◌∷◌, ltb, if◌then◌else◌,
}
use optimum_gateway.Base.Wire.{Bytes}
use optimum_gateway.Utils.Text.{codes, text_eq}
use optimum_gateway.StreamHub.{BlockEvent, lib_p2p}
use optimum_gateway.Stream.Limiter.{new_conn_limiter}
use optimum_gateway.Stream.Caps.{Request, acquires, releases, run, run_spec, run-new}
use optimum_gateway.Stream.Auth.{enforce, accept, reverify}
use optimum_gateway.Stream.Frames.{normalize_mode, block_frame}
use optimum_gateway.Stream.Session.{
  Session, Event, takes_block, refreshes, reauth_tick, heartbeat_tick, serve, step, new_session,
  send_block, observe_slot, snapshot,
}
use optimum_gateway.Stream.Session.Laws.{serve-Proved, serve-all_pass, Proved, all_pass}
use optimum_gateway.Stream.Session.Told.{serve-new_session, blocks_of, losses_from, show_all}

abbrev requests : List Request
requests =
    acquires (codes "a") 1
    ∷ acquires (codes "a") 2
    ∷ acquires (codes "b") 3
    ∷ releases 0
    ∷ releases 0
    ∷ acquires (codes "a") 4
    ∷ acquires (codes "b") 5
    ∷ []

caps_run : run_spec 2 1 0 [] requests ≡ some 0 ∷ none ∷ some 1 ∷ some 2 ∷ none ∷ []
unfolding run_spec text_eq
caps_run = refl

run-new_example : run (new_conn_limiter 2 1) [] requests ≡ run_spec 2 1 0 [] requests
run-new_example = run-new 2 1 requests

modes :
    (normalize_mode [] ≡ some false)
    × (normalize_mode (codes "raw") ≡ some true)
    × (normalize_mode (codes "x") ≡ none)
unfolding normalize_mode text_eq
modes = (refl, refl, refl)

-- "old" authenticates until 50, "new" from 40 on.
abbrev auth_at : ℕ → Bytes → Option Bytes
auth_at now token =
    if text_eq token (codes "old")
    then (if ltb now 50 then some (codes "s") else none)
    else (if text_eq token (codes "new") then some (codes "s") else none)

abbrev slot_of : ℕ → ℕ
slot_of now = 9

abbrev ev : BlockEvent
ev = record {
  slot = 8;
  proposer_index = 1;
  parent_root = [];
  state_root = [];
  block_size_bytes = 3;
  topic = [];
  source = lib_p2p;
  received_at_ms = 7;
  gateway_id = [];
  fork_digest = [];
  stale = false;
  raw = some (1 ∷ []);
}

abbrev events : List Event
events =
    takes_block ev 0 10 true true
    ∷ reauth_tick 20
    ∷ refreshes (codes "new") 45
    ∷ takes_block ev 3 55 true true
    ∷ reauth_tick 60
    ∷ heartbeat_tick 61 true
    ∷ []

abbrev start : Session
start = new_session (codes "old") (codes "s")

serve-Proved_example :
    Proved auth_at slot_of enforce false
      (codes "s")
      (serve auth_at slot_of enforce false start events)
unfolding new_session text_eq
serve-Proved_example =
    serve-Proved auth_at slot_of enforce false (codes "s") start events (refl, 0, refl)

serve-new_session_example :
    (blocks_of (serve auth_at slot_of enforce false start events).sent
      ≡ show_all false (ev ∷ ev ∷ []))
    × (losses_from 0 (serve auth_at slot_of enforce false start events).sent ≡ 3)
unfolding new_session serve step send_block text_eq accept reverify block_frame observe_slot
    snapshot
serve-new_session_example =
    serve-new_session auth_at slot_of enforce false (codes "old") (codes "s") events refl

serve-all_pass_example :
    (serve auth_at slot_of enforce false start events).running
    ≡ all_pass auth_at slot_of enforce false (codes "s") (codes "old") events
unfolding new_session
serve-all_pass_example =
    serve-all_pass auth_at slot_of enforce false start events refl
      ((refl, refl), (tt, (tt, ((refl, refl), (tt, (refl, tt))))))

-- Without the refresh the second check cuts the stream.
cut_run :
    all_pass auth_at slot_of enforce false
      (codes "s")
      (codes "old")
      (reauth_tick 20 ∷ reauth_tick 60 ∷ [])
    ≡ false
unfolding text_eq
cut_run = refl
