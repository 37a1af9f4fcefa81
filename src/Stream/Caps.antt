-- ===== src/Stream/Caps.antt =====
-- `ConnLimiter` against its specification: the open connections with their subjects, of which a
-- new one is admitted while there are fewer than each cap.
pub mod Model
use optimum_gateway.Base.{
  ℕ, zero, suc, ◌+◌, ◌-◌, ◌≤◌, ◌<◌, ◌≡◌, ◌≢◌, refl, sym, ap, ◌∙◌, subst, arith, Bool, true, false,
  not, ◌||◌, ◌&&◌, Option, none, some, List, [], ◌∷◌, if◌then◌else◌, leb, ltb, ◌==◌, length, inl,
  inr, ◌⊎◌, Bool-cases, Each, ==_iff, ==_refl,
}
use optimum_gateway.Base.Wire.{Bytes}
use optimum_gateway.Base.Maps.{Key, nat_key, assoc_load, assoc_delete, assoc_load-delete, same_refl}
use optimum_gateway.Topics.TopicMeta.{text_key}
use optimum_gateway.Utils.Text.{text_eq}
use optimum_gateway.Forks.{is_some}
use optimum_gateway.Stream.Limiter.{
  ConnLimiter, new_conn_limiter, acquire, release, count_of, or_zero,
}
use optimum_gateway.Stream.Caps.Model.{
  Open, Stands, has_id, without, subject_of, admits, Fresh, acquire-Stands, release-Stands,
  has_id-without,
}

pub data Request : Type 0 where
  acquires : Bytes → ℕ → Request
  releases : ℕ → Request

-- What the callers see of a limiter: for each request that opens a connection its id, or none.
-- A closer is the id with the subject that it was opened with; it may be called again.
unfoldable pub run : ConnLimiter → Open → List Request → List (Option ℕ)
run l closers [] = []
run l closers (acquires s now ∷ requests) =
    let (l', answer) = acquire l s now in
    let rest = run l' closers requests in
    elim answer [ none ↦ none ∷ rest | some id ↦ some id ∷ run l' ((id, s) ∷ closers) requests ]
run l closers (releases id ∷ requests) = run (release l (subject_of closers id) id) closers requests

-- The same of the specification, whose ids count the connections opened.
unfoldable pub run_spec : ℕ → ℕ → ℕ → Open → List Request → List (Option ℕ)
run_spec max_conns max_per_sub next o [] = []
run_spec max_conns max_per_sub next o (acquires s now ∷ requests) =
    let opened = run_spec max_conns max_per_sub (suc next) ((next, s) ∷ o) requests in
    let refused = run_spec max_conns max_per_sub next o requests in
    if admits max_conns max_per_sub o s then some next ∷ opened else none ∷ refused
run_spec max_conns max_per_sub next o (releases id ∷ requests) =
    run_spec max_conns max_per_sub next (without id o) requests

-- The closers hold the subjects of the open connections.
abbrev pub Holds : Open → Open → Type 0
Holds closers o = (id : ℕ) → has_id id o ≡ true → subject_of closers id ≡ subject_of o id

acquire-caps :
    (l : ConnLimiter) (s : Bytes) (now : ℕ)
    → ((acquire l s now).0.max_conns ≡ l.max_conns)
      × ((acquire l s now).0.max_conns_per_sub ≡ l.max_conns_per_sub)
unfolding acquire
acquire-caps l s now = (ground arith, ground arith)

release-caps :
    (l : ConnLimiter) (s : Bytes) (id : ℕ)
    → ((release l s id).max_conns ≡ l.max_conns)
      × ((release l s id).max_conns_per_sub ≡ l.max_conns_per_sub)
      × ((release l s id).next_id ≡ l.next_id)
unfolding release
release-caps l s id = (ground arith, ground arith, ground arith)

Holds-cons :
    (closers o : Open) (n : ℕ) (s : Bytes)
    → Holds closers o
    → has_id n o ≡ false
    → Holds ((n, s) ∷ closers) ((n, s) ∷ o)
Holds-cons closers o n s c new id h = elim (Bool-cases (n == id)) [
  | inl y ↦ ground (arith, y)
  | inr d ↦ ground (arith, d, c id)
]

subject-without :
    (id j n : ℕ) (o : Open)
    → Fresh n o
    → has_id j (without id o) ≡ true
    → subject_of (without id o) j ≡ subject_of o j
subject-without id j n [] f h = refl
subject-without id j n ((i, t) ∷ o) (lt, new, f) h =
    ground (arith, subject-without id j n o f, new, h)

Holds-without :
    (closers o : Open) (id n : ℕ) → Holds closers o → Fresh n o → Holds closers (without id o)
Holds-without closers o id n c f j h =
    c j (ground (arith, has_id-without id j n o f, h)) ∙ sym (subject-without id j n o f h)

run-Stands :
    (l : ConnLimiter) (closers o : Open) (requests : List Request)
    → Stands l o
    → Holds closers o
    → run l closers requests ≡ run_spec l.max_conns l.max_conns_per_sub l.next_id o requests
unfolding run run_spec release
run-Stands l closers o [] h c = refl
run-Stands l closers o (acquires s now ∷ requests) h c = elim (acquire-Stands l o s now h) [
  | inr (full, same) ↦
      rw (run, ap (λ p. p.1) same, ap (λ p. p.0) same, full)
        (ap (λ xs. none ∷ xs) (run-Stands l closers o requests h c))
  | inl (room, given, next, new, stands) ↦
      let (total, per_sub) = acquire-caps l s now in
      let later =
        run-Stands (acquire l s now).0 ((l.next_id, s) ∷ closers) ((l.next_id, s) ∷ o) requests
          stands (Holds-cons closers o l.next_id s c new) in
      rw (run, given, room) (ap (λ xs. some l.next_id ∷ xs) (rw (next, total, per_sub) at later))
]
run-Stands l closers o (releases id ∷ requests) h c =
    let (total, per_sub, next) = release-caps l (subject_of closers id) id in
    let later =
      run-Stands (release l (subject_of closers id) id) closers (without id o) requests
        (release-Stands l o (subject_of closers id) id h (c id))
        (Holds-without closers o id l.next_id c h.fresh) in
    rw (next, total, per_sub) at later

-- From the start, whatever connections are opened and closed in whatever order, closers called
-- again included, the limiter answers as its specification does: a connection is admitted exactly
-- while fewer are open than the total cap, and fewer of its subject than that cap.
pub run-new :
    (max_conns max_per_sub : ℕ) (requests : List Request)
    → run (new_conn_limiter max_conns max_per_sub) [] requests
      ≡ run_spec max_conns max_per_sub 0 [] requests
unfolding new_conn_limiter
run-new max_conns max_per_sub requests =
    run-Stands (new_conn_limiter max_conns max_per_sub) [] [] requests
      (record { total = refl; counts = λ s. refl; live = λ id. refl; fresh = tt }) (λ id h. refl)
