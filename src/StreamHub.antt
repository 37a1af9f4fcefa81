-- ===== src/StreamHub.antt =====
-- pkg/service/streamhub: the fan-out of block events to subscribers with bounded buffers. The
-- broadcaster of optimum-common is a parameter; a listener's key is a number, new at each call. A
-- drop counter is shared by pointer between the hub's map and its subscription: counters live in
-- a heap, at the address that is the key.
pub mod Delivery
mod Tests
use optimum_gateway.Base.{
  ℕ, zero, suc, ◌+◌, ◌≤◌, ◌<◌, ◌≡◌, Bool, true, false, Option, none, some, List, [], ◌∷◌, ◌++◌,
  if◌then◌else◌, ◌==◌, ltb, length,
}
use optimum_gateway.Base.Wire.{Bytes}
use optimum_gateway.Base.Maps.{RwMap, nat_key}

abbrev pub default_buffer_size : ℕ
default_buffer_size = 64

pub data Source : Type 0 where
  lib_p2p mum_p2p : Source

pub record BlockEvent : Type 0 where
  pub slot : ℕ
  pub proposer_index : ℕ
  pub parent_root : Bytes
  pub state_root : Bytes
  pub block_size_bytes : ℕ
  pub topic : Bytes
  pub source : Source
  pub received_at_ms : ℕ
  pub gateway_id : Bytes
  pub fork_digest : Bytes
  pub stale : Bool
  pub raw : Option Bytes

-- How often a listener was said to have dropped.
abbrev pub drops_of : List (ℕ × ℕ) → ℕ → ℕ
drops_of [] k = 0
drops_of ((j, n) ∷ ds) k = (if j == k then n else 0) + drops_of ds k

-- A buffer with its bound, after an event is offered to it.
abbrev pub offer {ℓ} : {E : Type ℓ} → E → ℕ × List E → ℕ × List E
offer ev (bound, q) = if ltb (length q) bound then (bound, q ++ (ev ∷ [])) else (bound, q)

abbrev pub refuses {ℓ} : {E : Type ℓ} → Option (ℕ × List E) → ℕ
refuses none = 0
refuses (some (bound, q)) = if ltb (length q) bound then 0 else 1

abbrev pub offer_to {ℓ} : {E : Type ℓ} → E → Option (ℕ × List E) → Option (ℕ × List E)
offer_to ev none = none
offer_to ev (some b) = some (offer ev b)

-- `syncx.Broadcaster[E]`: a listener's channel is its bound and what is buffered, oldest first,
-- or none where it is not registered. `broadcast_try` offers an event to every channel and says
-- which were full.
pub record Broadcaster (E : Type 0) : Type 1 where
  pub State : Type 0
  pub new : State
  pub channel : State → ℕ → Option (ℕ × List E)
  pub register : State → ℕ → ℕ → State
  pub unregister : State → ℕ → State
  pub broadcast_try : State → E → State × List (ℕ × ℕ)
  -- A receive of a listener, where something is buffered.
  pub receive : State → ℕ → State
  pub channel-new : (k : ℕ) → channel new k ≡ none
  pub channel-register :
      (s : State) (j n k : ℕ)
      → channel (register s j n) k ≡ (if j == k then some (n, []) else channel s k)
  pub channel-unregister :
      (s : State) (j k : ℕ) → channel (unregister s j) k ≡ (if j == k then none else channel s k)
  pub channel-broadcast :
      (s : State) (ev : E) (k : ℕ) → channel (broadcast_try s ev).0 k ≡ offer_to ev (channel s k)
  pub drops-broadcast :
      (s : State) (ev : E) (k : ℕ) → drops_of (broadcast_try s ev).1 k ≡ refuses (channel s k)
  pub channel-receive :
      (s : State) (j k n : ℕ) (ev : E) (q : List E)
      → channel s j ≡ some (n, ev ∷ q)
      → channel (receive s j) k ≡ (if j == k then some (n, q) else channel s k)

module _ (bc : Broadcaster BlockEvent) (addresses : RwMap ℕ ℕ nat_key) where
  -- `Service`, with the heap of the counters.
  pub record Hub : Type 0 where
    pub listeners : bc.State
    pub dropped : addresses.Map
    pub counters : ℕ → ℕ

  -- `New`
  unfoldable pub new_hub : Hub
  new_hub = record { listeners = bc.new; dropped = addresses.empty; counters = λ k. 0 }

  -- `Subscribe` with a key that was just made; a size that is not positive is 0.
  unfoldable pub subscribe : Hub → ℕ → ℕ → Hub
  subscribe h key buf_size = record {
    listeners =
        bc.register h.listeners key (if buf_size == 0 then default_buffer_size else buf_size);
    dropped = addresses.store h.dropped key key;
    counters = λ k. if k == key then 0 else h.counters k;
  }

  -- The callback of `Emit` on the listeners that dropped.
  unfoldable pub count_drops : addresses.Map → List (ℕ × ℕ) → (ℕ → ℕ) → ℕ → ℕ
  count_drops dropped [] counters = counters
  count_drops dropped ((key, num) ∷ drops) counters =
      count_drops dropped drops (elim (addresses.load dropped key) [
        | none ↦ counters
        | some d ↦ λ k. if k == d then counters k + num else counters k
      ])

  -- `Emit`
  unfoldable pub emit : Hub → BlockEvent → Hub
  unfolding count_drops
  emit h ev =
      let (listeners, drops) = bc.broadcast_try h.listeners ev in
      record h { listeners = listeners; counters = count_drops h.dropped drops h.counters }

  -- `Dropped` of a subscription.
  unfoldable pub dropped_count : Hub → ℕ → ℕ
  dropped_count h key = h.counters key

  -- `Close` of a subscription.
  unfoldable pub close : Hub → ℕ → Hub
  close h key = record h {
    listeners = bc.unregister h.listeners key;
    dropped = addresses.delete h.dropped key;
  }

  -- A receive from `Events`, by a subscription with something buffered.
  unfoldable pub receive : Hub → ℕ → Hub
  receive h key = record h { listeners = bc.receive h.listeners key }
