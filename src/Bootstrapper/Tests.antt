-- ===== src/Bootstrapper/Tests.antt =====
-- The theorem on the record of a slot at a map without expiry.
use optimum_gateway.Base.{ℕ, ◌≡◌, refl, arith, true, none, some, List, [], ◌∷◌, if◌then◌else◌}
use optimum_gateway.Base.Maps.{TtlMap, nat_key, assoc_load}
use optimum_gateway.Utils.Text.{codes}
use optimum_gateway.StreamHub.{lib_p2p, mum_p2p}
use optimum_gateway.Bootstrapper.{
  BlockArrival, LatencyComparator, Identity, compose_block_telemetry, compose_publish_telemetry,
  handle_block_event,
}
use optimum_gateway.Bootstrapper.FirstSeen.{handle_all, handle_all_lem, Stands}

upsert-get :
    (m : List (ℕ × LatencyComparator)) (k : ℕ) (f : LatencyComparator → LatencyComparator)
    (v : LatencyComparator) (j : ℕ)
    → assoc_load nat_key
        ((k, elim (assoc_load nat_key m k) as (λ x. LatencyComparator) [ none ↦ v | some x ↦ f x ])
          ∷ m)
        j
      ≡ (if nat_key.same k j
          then some (elim (assoc_load nat_key m k) as (λ x. LatencyComparator) [
            | none ↦ v
            | some x ↦ f x
          ])
          else assoc_load nat_key m j)
upsert-get m k f v j = refl

abbrev tracked : TtlMap ℕ LatencyComparator nat_key
tracked = record {
  Map = List (ℕ × LatencyComparator);
  empty = [];
  get = λ m now k. assoc_load nat_key m k;
  upsert = λ m now k f v.
      (k, elim (assoc_load nat_key m k) as (λ x. LatencyComparator) [ none ↦ v | some x ↦ f x ])
      ∷ m;
  get_empty = λ now j. refl;
  get-upsert = λ m now k f v j. upsert-get m k f v j;
}

abbrev me : Identity
me = record { gateway_id = codes "g"; peer_id = codes "p"; chain_id = 1; telemetry_enable = true }

abbrev from_client : BlockArrival
from_client = record {
  source = lib_p2p;
  slot = 5;
  proposer_index = 3;
  block_size = 10;
  recv_at = 100;
  origin_gateway_id = [];
  upstream_peer_id = codes "cl";
  published_at = 0;
}

abbrev publish : BlockArrival
publish = record from_client { published_at = 101 }

abbrev copy : BlockArrival
copy = record from_client { source = mum_p2p; recv_at = 130; upstream_peer_id = codes "up" }

abbrev events : List (ℕ × BlockArrival)
events = (1, from_client) ∷ (2, publish) ∷ (3, record copy { slot = 6 }) ∷ (4, copy) ∷ []

handle_all_lem_example :
    Stands
      (λ s. s)
      me
      tracked
      (tracked.get (handle_all (λ s. s) me tracked tracked.empty events) 4 5)
      (from_client ∷ publish ∷ copy ∷ [])
unfolding handle_block_event compose_block_telemetry compose_publish_telemetry
handle_all_lem_example =
    handle_all_lem (λ s. s) me tracked 5 0 events
      ((λ e. omega arith), ((λ e. omega arith), ((λ e. omega arith), ((λ e. omega arith), tt))))
      (refl, (refl, (refl, (refl, tt))))
