-- ===== src/Base/Maps.antt =====
-- The concurrent maps of github.com/getoptimum/optimum-common/pkg/syncx, as interfaces: their
-- operations, each of which is atomic, with what their users rely on. Keys are compared by `Key`.
use optimum_gateway.Base.{
  ℕ, ◌+◌, ◌<◌, ◌≤◌, ◌≡◌, ◌↔◌, refl, ap, arith, Bool, true, false, Option, none, some, List, [], ◌∷◌,
  if◌then◌else◌, ltb, inl, inr, Bool-cases, ==_iff, ◌&&◌, ◌||◌, leb,
}
use optimum_gateway.Base.{◌==◌ as nat_beq}

pub record Key (A : Type 0) : Type 0 where
  pub same : A → A → Bool
  pub same_iff : (x y : A) → (same x y ≡ true) ↔ (x ≡ y)

instance abbrev pub nat_key : Key ℕ
nat_key = record { same = nat_beq; same_iff = ==_iff }

pub same_refl : {A : Type 0} (e : Key A) (a : A) → e.same a a ≡ true
same_refl e a = (e.same_iff a a).1 refl

-- The value of a key in a list of entries, the first that has it: a Go map as a list.
module _ {K V : Type 0} (e : Key K) where
  abbrev pub assoc_load : List (K × V) → K → Option V
  assoc_load [] j = none
  assoc_load ((k, v) ∷ m) j = if e.same k j then some v else assoc_load m j

-- `syncx.RWMap[K, V]`
pub record RwMap (K V : Type 0) (e : Key K) : Type 1 where
  pub Map : Type 0
  pub empty : Map
  pub load : Map → K → Option V
  pub store : Map → K → V → Map
  pub delete : Map → K → Map
  -- The map with exactly the entries of a Go map.
  pub replace : List (K × V) → Map
  pub load-replace : (m : List (K × V)) (j : K) → load (replace m) j ≡ assoc_load e m j
  pub load-empty : (j : K) → load empty j ≡ none
  pub load-store :
      (m : Map) (k : K) (v : V) (j : K)
      → load (store m k v) j ≡ (if e.same k j then some v else load m j)
  pub load-delete :
      (m : Map) (k j : K) → load (delete m k) j ≡ (if e.same k j then none else load m j)

-- `syncx.TTLMap[K, struct{}]`: a set whose entries live for a while. `get m now k` is the
-- answer at time `now`; an entry counts from when it was last put.
pub record TtlSet (K : Type 0) (e : Key K) : Type 1 where
  pub Set : Type 0
  pub empty : Set
  pub ttl : ℕ
  pub get : Set → ℕ → K → Bool
  pub put : Set → ℕ → K → Set
  pub get-empty : (now : ℕ) (j : K) → get empty now j ≡ false
  pub get-put_self :
      (m : Set) (at : ℕ) (k : K) (now : ℕ)
      → at ≤ now
      → now < at + ttl
      → get (put m at k) now k ≡ true
  pub get-put_ne :
      (m : Set) (at : ℕ) (k : K) (now : ℕ) (j : K)
      → e.same k j ≡ false
      → get (put m at k) now j ≡ get m now j

-- `syncx.TTLMap[K, V]`, at one time: an upsert updates the entry that is alive, or makes it.
pub record TtlMap (K V : Type 0) (e : Key K) : Type 1 where
  pub Map : Type 0
  pub empty : Map
  pub get : Map → ℕ → K → Option V
  pub upsert : Map → ℕ → K → (V → V) → V → Map
  pub get_empty : (now : ℕ) (j : K) → get empty now j ≡ none
  pub get-upsert :
      (m : Map) (now : ℕ) (k : K) (f : V → V) (v : V) (j : K)
      → get (upsert m now k f v) now j ≡ (
          if e.same k j then some (elim (get m now k) [ none ↦ v | some x ↦ f x ]) else get m now j)

-- Equal keys compare alike with every other.
pub same_eq : {K : Type 0} (e : Key K) (k j i : K) → e.same k j ≡ true → e.same k i ≡ e.same j i
same_eq e k j i h = ap (λ x. e.same x i) ((e.same_iff k j).0 h)

module _ {K V : Type 0} (e : Key K) where
  abbrev pub assoc_delete : List (K × V) → K → List (K × V)
  assoc_delete [] j = []
  assoc_delete ((k, v) ∷ m) j =
      let rest = assoc_delete m j in if e.same k j then rest else (k, v) ∷ rest

  pub assoc_load-delete :
      (m : List (K × V)) (k j : K)
      → assoc_load e (assoc_delete m k) j ≡ (if e.same k j then none else assoc_load e m j)
  assoc_load-delete [] k j = ground arith
  assoc_load-delete ((i, v) ∷ m) k j = elim (Bool-cases (e.same i k)) [
    | inl h ↦ rw h (ground (arith, assoc_load-delete m k j, same_eq e i k j h))
    | inr h ↦ rw h (ground (arith, assoc_load-delete m k j, other i k j h))
  ]
    where
      other : (i k j : K) → e.same i k ≡ false → e.same k j ≡ true → e.same i j ≡ false
      other i k j h p = elim (Bool-cases (e.same i j)) [
        | inl q ↦ absurd (cc ((e.same_iff k j).0 p))
        | inr q ↦ q
      ]

-- A map that meets the interface: a list of entries, the newest first.
abbrev pub assoc_map : (K V : Type 0) (e : Key K) → RwMap K V e
assoc_map K V e = record {
  Map = List (K × V);
  empty = [];
  load = assoc_load e;
  store = λ m k v. (k, v) ∷ m;
  delete = assoc_delete e;
  replace = λ m. m;
  load-replace = λ m j. refl;
  load-empty = λ j. refl;
  load-store = λ m k v j. refl;
  load-delete = assoc_load-delete e;
}

-- A set that meets the interface: each entry with the time it was put.
module _ {K : Type 0} (e : Key K) where
  abbrev pub timed_get : List (K × ℕ) → ℕ → ℕ → K → Bool
  timed_get [] life now j = false
  timed_get ((k, at) ∷ m) life now j =
      (e.same k j && (leb at now && ltb now (at + life))) || timed_get m life now j

  pub timed_get_self :
      (life : ℕ) (m : List (K × ℕ)) (at : ℕ) (k : K) (now : ℕ)
      → at ≤ now
      → now < at + life
      → timed_get ((k, at) ∷ m) life now k ≡ true
  timed_get_self life m at k now h l = rw (same_refl e k) (ground arith)

  pub timed_get_ne :
      (life : ℕ) (m : List (K × ℕ)) (at : ℕ) (k : K) (now : ℕ) (j : K)
      → e.same k j ≡ false
      → timed_get ((k, at) ∷ m) life now j ≡ timed_get m life now j
  timed_get_ne life m at k now j h = rw h

abbrev pub timed_set : (life : ℕ) (K : Type 0) (e : Key K) → TtlSet K e
timed_set life K e = record {
  Set = List (K × ℕ);
  empty = [];
  ttl = life;
  get = λ m now j. timed_get e m life now j;
  put = λ m at k. (k, at) ∷ m;
  get-empty = λ now j. refl;
  get-put_self = timed_get_self e life;
  get-put_ne = timed_get_ne e life;
}
