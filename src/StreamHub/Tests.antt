-- ===== src/StreamHub/Tests.antt =====
-- The theorem on one subscriber at a broadcaster over a list of listeners.
use optimum_gateway.Base.{
  ℕ, ◌≡◌, refl, arith, false, Option, none, some, List, [], ◌∷◌, if◌then◌else◌, ◌==◌, ltb, length,
  ◌++◌,
}
use optimum_gateway.Base.Maps.{
  RwMap, assoc_map, nat_key, assoc_load, assoc_delete, assoc_load-delete,
}
use optimum_gateway.StreamHub.{
  BlockEvent, lib_p2p, Broadcaster, new_hub, subscribe, emit, receive, close, drops_of, offer_to,
  refuses,
}
use optimum_gateway.StreamHub.Delivery.{run-Accounts, subscribe-Accounts_new}
use optimum_gateway.StreamHub.Delivery.Model.{
  Event, emits, receives, closes, subscribes, View, Accounts, step, run,
}

record Channel : Type 0 where
  bound : ℕ
  queue : List BlockEvent

abbrev Listeners : Type 0
Listeners = List (ℕ × Channel)

abbrev as_pair : Option Channel → Option (ℕ × List BlockEvent)
as_pair none = none
as_pair (some c) = some (c.bound, c.queue)

abbrev channel_of : Listeners → ℕ → Option (ℕ × List BlockEvent)
channel_of s k = as_pair (assoc_load nat_key s k)

abbrev offer_channel : BlockEvent → Channel → Channel
offer_channel ev c =
    if ltb (length c.queue) c.bound then record c { queue = c.queue ++ (ev ∷ []) } else c

abbrev offer_all : BlockEvent → Listeners → Listeners
offer_all ev [] = []
offer_all ev ((k, c) ∷ s) = (k, offer_channel ev c) ∷ offer_all ev s

abbrev full_of : Listeners → List (ℕ × ℕ)
full_of [] = []
full_of ((k, c) ∷ s) =
    (k, if ltb (length c.queue) c.bound then 0 else 1) ∷ assoc_delete nat_key (full_of s) k

abbrev take_first : Listeners → ℕ → Option Channel → Listeners
take_first s k none = s
take_first s k (some c) = elim c.queue [ [] ↦ s | ev ∷ q ↦ (k, record c { queue = q }) ∷ s ]

offer_all-channel :
    (s : Listeners) (ev : BlockEvent) (k : ℕ)
    → channel_of (offer_all ev s) k ≡ offer_to ev (channel_of s k)
offer_all-channel [] ev k = refl
offer_all-channel ((j, c) ∷ s) ev k = ground (arith, offer_all-channel s ev k)

drops_of-delete :
    (ds : List (ℕ × ℕ)) (j k : ℕ)
    → drops_of (assoc_delete nat_key ds j) k ≡ (if j == k then 0 else drops_of ds k)
drops_of-delete [] j k = ground arith
drops_of-delete ((i, n) ∷ ds) j k = ground (arith, drops_of-delete ds j k)

full_of-drops : (s : Listeners) (k : ℕ) → drops_of (full_of s) k ≡ refuses (channel_of s k)
full_of-drops [] k = refl
full_of-drops ((j, c) ∷ s) k = ground (arith, full_of-drops s k, drops_of-delete (full_of s) j k)

take_first-channel :
    (s : Listeners) (j k n : ℕ) (ev : BlockEvent) (q : List BlockEvent)
    → channel_of s j ≡ some (n, ev ∷ q)
    → channel_of (take_first s j (assoc_load nat_key s j)) k
      ≡ (if j == k then some (n, q) else channel_of s k)
take_first-channel s j k n ev q h = ground (arith, h)

channel-delete :
    (s : Listeners) (j k : ℕ)
    → channel_of (assoc_delete nat_key s j) k ≡ (if j == k then none else channel_of s k)
channel-delete s j k = ground (arith, assoc_load-delete nat_key s j k)

channel-add :
    (s : Listeners) (j n k : ℕ)
    → channel_of ((j, record { bound = n; queue = [] }) ∷ s) k
      ≡ (if j == k then some (n, []) else channel_of s k)
channel-add s j n k = ground arith

abbrev broadcaster : Broadcaster BlockEvent
broadcaster = record {
  State = Listeners;
  new = [];
  channel = channel_of;
  register = λ s k n. (k, record { bound = n; queue = [] }) ∷ s;
  unregister = λ s k. assoc_delete nat_key s k;
  broadcast_try = λ s ev. (offer_all ev s, full_of s);
  receive = λ s k. take_first s k (assoc_load nat_key s k);
  channel-new = λ k. refl;
  channel-register = channel-add;
  channel-unregister = channel-delete;
  channel-broadcast = offer_all-channel;
  drops-broadcast = λ s ev k. full_of-drops s k;
  channel-receive = take_first-channel;
}

abbrev addresses : RwMap ℕ ℕ nat_key
addresses = assoc_map ℕ ℕ nat_key

abbrev block_at : ℕ → BlockEvent
block_at slot = record {
  slot = slot;
  proposer_index = 1;
  parent_root = [];
  state_root = [];
  block_size_bytes = 3;
  topic = [];
  source = lib_p2p;
  received_at_ms = 7;
  gateway_id = [];
  fork_digest = [];
  stale = false;
  raw = none;
}

-- One subscriber with room for one event.
abbrev start : View broadcaster addresses
start = record {
  hub = subscribe broadcaster addresses (new_hub broadcaster addresses) 1 1;
  emitted = [];
  received = [];
}

abbrev events : List Event
events =
    emits (block_at 5)
    ∷ subscribes 2 0
    ∷ emits (block_at 6)
    ∷ receives 1
    ∷ emits (block_at 7)
    ∷ closes 2
    ∷ []

dropped_one : (run broadcaster addresses 1 start events).hub.counters 1 ≡ 1
unfolding run step emit subscribe new_hub close receive
dropped_one = refl

run-Accounts_example : Accounts broadcaster addresses 1 (run broadcaster addresses 1 start events)
unfolding new_hub
run-Accounts_example =
    run-Accounts broadcaster addresses 1 start events (tt, (refl, (tt, (tt, (tt, (refl, tt))))))
      (subscribe-Accounts_new broadcaster addresses (new_hub broadcaster addresses) 1 1
        (λ j d e. absurd (cc)))
