-- ===== src/Bootstrapper/FirstSeen/Summary.antt =====
-- What a list of block events says of its slot, independently of how pkg/service/bootstrapper keeps
-- it.
use optimum_gateway.Base.{
  ℕ, ◌≡◌, ◌<◌, refl, arith, Bool, true, false, List, [], ◌∷◌, ◌++◌, if◌then◌else◌, ◌==◌, ltb, inl,
  inr, Bool-cases, Each,
}
use optimum_gateway.Base.Wire.{Bytes}
use optimum_gateway.Base.Maps.{nat_key}
use optimum_gateway.Forks.{is_empty}
use optimum_gateway.StreamHub.{Source, lib_p2p, mum_p2p}
use optimum_gateway.Bootstrapper.{BlockArrival, LatencyComparator}

-- An event is a publish, or an arrival from the consensus client or from the mesh.
abbrev pub is_publish : BlockArrival → Bool
is_publish ev = ltb 0 ev.published_at

abbrev pub is_from : Source → BlockArrival → Bool
is_from lib_p2p ev =
    if is_publish ev then false else elim ev.source [ lib_p2p ↦ true | mum_p2p ↦ false ]
is_from mum_p2p ev =
    if is_publish ev then false else elim ev.source [ lib_p2p ↦ false | mum_p2p ↦ true ]

-- The time and the peer of the first arrival from the consensus client, 0 and none if there is none.
abbrev pub eth_first : List BlockArrival → ℕ
eth_first [] = 0
eth_first (ev ∷ evs) = if is_from lib_p2p ev then ev.recv_at else eth_first evs

abbrev pub eth_peer_first : List BlockArrival → Bytes
eth_peer_first [] = []
eth_peer_first (ev ∷ evs) = if is_from lib_p2p ev then ev.upstream_peer_id else eth_peer_first evs

-- The time of the first arrival from the mesh or publish into it.
abbrev pub mum_first : List BlockArrival → ℕ
mum_first [] = 0
mum_first (ev ∷ evs) =
    if is_publish ev
    then ev.published_at
    else (if is_from mum_p2p ev then ev.recv_at else mum_first evs)

-- The time of the last publish.
abbrev pub last_publish : ℕ → List BlockArrival → ℕ
last_publish n [] = n
last_publish n (ev ∷ evs) = last_publish (if is_publish ev then ev.published_at else n) evs

-- An arrival has its time.
abbrev pub IsTimed : BlockArrival → Type 0
IsTimed ev = is_publish ev ≡ false → 0 < ev.recv_at

abbrev pub of_slot : ℕ → List (ℕ × BlockArrival) → List BlockArrival
of_slot slot [] = []
of_slot slot ((now, ev) ∷ evs) =
    let rest = of_slot slot evs in if ev.slot == slot then ev ∷ rest else rest

pub eth_first-append :
    (evs : List BlockArrival) (ev : BlockArrival)
    → Each IsTimed evs
    → ((if eth_first evs == 0 then eth_first (ev ∷ []) else eth_first evs)
        ≡ eth_first (evs ++ (ev ∷ [])))
      × ((if eth_first evs == 0 then eth_peer_first (ev ∷ []) else eth_peer_first evs)
          ≡ eth_peer_first (evs ++ (ev ∷ [])))
eth_first-append [] ev h = (refl, refl)
eth_first-append (x ∷ evs) ev (h, hs) =
    let ih = eth_first-append evs ev hs in
    elim (Bool-cases (is_from lib_p2p x)) [
      | inl y ↦ (ground (arith, y, h), ground (arith, y, h))
      | inr n ↦ rw n ih
    ]

pub eth_none :
    (evs : List BlockArrival) → Each IsTimed evs → eth_first evs ≡ 0 → eth_peer_first evs ≡ []
eth_none [] h e = refl
eth_none (x ∷ evs) (h, hs) e = ground (arith, h, e, eth_none evs hs)

pub mum_first-append :
    (evs : List BlockArrival) (ev : BlockArrival)
    → Each IsTimed evs
    → (if mum_first evs == 0 then mum_first (ev ∷ []) else mum_first evs)
      ≡ mum_first (evs ++ (ev ∷ []))
mum_first-append [] ev h = refl
mum_first-append (x ∷ evs) ev (h, hs) = ground (arith, h, mum_first-append evs ev hs)

pub last_publish-append :
    (evs : List BlockArrival) (ev : BlockArrival) (n : ℕ)
    → last_publish n (evs ++ (ev ∷ []))
      ≡ (if is_publish ev then ev.published_at else last_publish n evs)
last_publish-append [] ev n = refl
last_publish-append (x ∷ evs) ev n =
    last_publish-append evs ev (if is_publish x then x.published_at else n)

-- What a record says, against the events of its slot so far.
pub record Says (v : LatencyComparator) (evs : List BlockArrival) : Type 0 where
  pub eth_time : v.eth_seen_at_ms ≡ eth_first evs
  pub eth_peer : v.eth_upstream_peer_id ≡ eth_peer_first evs
  pub mum_time : v.mum_seen_at_ms ≡ mum_first evs
  pub published : v.mum_published_at_ms ≡ last_publish 0 evs
  pub peer_timed : is_empty v.upstream_peer_id ≡ false → 0 < v.mum_seen_at_ms

pub Each-snoc :
    (evs : List BlockArrival) (ev : BlockArrival)
    → Each IsTimed evs
    → IsTimed ev
    → Each IsTimed (evs ++ (ev ∷ []))
Each-snoc [] ev h e = (e, tt)
Each-snoc (x ∷ evs) ev (h, hs) e = (h, Each-snoc evs ev hs e)
