-- ===== src/Stream/Caps/Model.antt =====
-- What a `ConnLimiter` stands for, and that `acquire` and `release` keep to it.
use optimum_gateway.Base.{
  ℕ, suc, ◌+◌, ◌-◌, ◌<◌, ◌≡◌, refl, sym, ap, subst, arith, Bool, true, false, not, ◌||◌, ◌&&◌, none,
  some, List, [], ◌∷◌, if◌then◌else◌, leb, ltb, ◌==◌, length, inl, inr, ◌⊎◌, Bool-cases,
}
use optimum_gateway.Base.Wire.{Bytes}
use optimum_gateway.Base.Maps.{nat_key, assoc_load, assoc_delete, assoc_load-delete}
use optimum_gateway.Topics.TopicMeta.{text_key}
use optimum_gateway.Utils.Text.{text_eq}
use optimum_gateway.Forks.{is_some}
use optimum_gateway.Stream.Limiter.{ConnLimiter, acquire, release, count_of}

-- An open connection: its id and its subject.
abbrev pub Open : Type 0
Open = List (ℕ × Bytes)

abbrev pub count_subject : Bytes → Open → ℕ
count_subject s [] = 0
count_subject s ((id, t) ∷ o) = (if text_eq t s then 1 else 0) + count_subject s o

abbrev pub has_id : ℕ → Open → Bool
has_id id [] = false
has_id id ((j, t) ∷ o) = j == id || has_id id o

abbrev pub without : ℕ → Open → Open
without id [] = []
without id ((j, t) ∷ o) = let rest = without id o in if j == id then o else (j, t) ∷ rest

-- The subject that a connection was opened with, which its closer holds.
abbrev pub subject_of : Open → ℕ → Bytes
subject_of [] id = []
subject_of ((j, t) ∷ o) id = if j == id then t else subject_of o id

-- The ids stand below the next one, and each once.
abbrev pub Fresh : ℕ → Open → Type 0
Fresh n [] = Unit
Fresh n ((j, t) ∷ o) = (j < n) × (has_id j o ≡ false) × Fresh n o

-- The limiter stands for the open connections.
pub record Stands (l : ConnLimiter) (o : Open) : Type 0 where
  pub total : l.conns ≡ length o
  pub counts : (s : Bytes) → count_of l s ≡ count_subject s o
  pub live : (id : ℕ) → is_some (assoc_load nat_key l.starts id) ≡ has_id id o
  pub fresh : Fresh l.next_id o

-- The specification of the caps.
abbrev pub admits : ℕ → ℕ → Open → Bytes → Bool
admits max_conns max_per_sub o s = ltb (length o) max_conns && ltb (count_subject s o) max_per_sub

pub Fresh-suc : (n : ℕ) (o : Open) → Fresh n o → Fresh (suc n) o
Fresh-suc n [] f = tt
Fresh-suc n ((j, t) ∷ o) (lt, new, f) = (omega (arith, lt), new, Fresh-suc n o f)

pub Fresh-next : (n : ℕ) (o : Open) → Fresh n o → has_id n o ≡ false
Fresh-next n [] f = refl
Fresh-next n ((j, t) ∷ o) (lt, new, f) = ground (arith, lt, Fresh-next n o f)

pub opened-Stands :
    (l : ConnLimiter) (o : Open) (s : Bytes) (now : ℕ)
    → Stands l o
    → Stands
        (record l {
          conns = suc l.conns;
          per_sub = (s, suc (count_of l s)) ∷ assoc_delete text_key l.per_sub s;
          next_id = suc l.next_id;
          starts = (l.next_id, now) ∷ assoc_delete nat_key l.starts l.next_id;
        })
        ((l.next_id, s) ∷ o)
opened-Stands l o s now h = record {
  total = ap suc h.total;
  counts = λ s'. elim (Bool-cases (text_eq s s')) [
    | inl y ↦ ground (arith, y, h.counts s', ap (count_of l) ((text_key.same_iff s s').0 y))
    | inr n ↦ ground (arith, n, h.counts s', assoc_load-delete text_key l.per_sub s s')
  ];
  live = λ id. ground (arith, h.live id, assoc_load-delete nat_key l.starts l.next_id id);
  fresh = (omega arith, Fresh-next l.next_id o h.fresh, Fresh-suc l.next_id o h.fresh);
}

-- Where a connection is admitted the limiter gives a new id and stands for one connection more;
-- elsewhere it stays and gives none.
pub acquire-Stands :
    (l : ConnLimiter) (o : Open) (s : Bytes) (now : ℕ)
    → Stands l o
    → ((admits l.max_conns l.max_conns_per_sub o s ≡ true)
        × ((acquire l s now).1 ≡ some l.next_id)
        × ((acquire l s now).0.next_id ≡ suc l.next_id)
        × (has_id l.next_id o ≡ false)
        × Stands (acquire l s now).0 ((l.next_id, s) ∷ o))
      ⊎ ((admits l.max_conns l.max_conns_per_sub o s ≡ false) × (acquire l s now ≡ (l, none)))
unfolding acquire
acquire-Stands l o s now h =
    elim (Bool-cases (leb l.max_conns l.conns || leb l.max_conns_per_sub (count_of l s))) [
      | inl full ↦ inr (ground (arith, h.total, h.counts s), rw full refl)
      | inr room ↦ inl (
        ground (arith, h.total, h.counts s),
        rw room refl,
        rw room refl,
        Fresh-next l.next_id o h.fresh,
        rw room (opened-Stands l o s now h),
      )
    ]

pub length-without :
    (id : ℕ) (o : Open) → has_id id o ≡ true → suc (length (without id o)) ≡ length o
length-without id [] h = absurd (cc)
length-without id ((j, t) ∷ o) h = ground (arith, length-without id o)

pub has_id-without :
    (id j n : ℕ) (o : Open) → Fresh n o → has_id j (without id o) ≡ (has_id j o && not (id == j))
has_id-without id j n [] f = refl
has_id-without id j n ((i, t) ∷ o) (lt, new, f) = ground (arith, has_id-without id j n o f, new)

pub Fresh-without : (id n : ℕ) (o : Open) → Fresh n o → Fresh n (without id o)
Fresh-without id n [] f = tt
Fresh-without id n ((j, t) ∷ o) (lt, new, f) = elim (Bool-cases (j == id)) [
  | inl y ↦ rw y f
  | inr d ↦ rw d (lt, ground (arith, has_id-without id j n o f, new), Fresh-without id n o f)
]

pub count-without :
    (id : ℕ) (o : Open) (s : Bytes)
    → has_id id o ≡ true
    → (if text_eq (subject_of o id) s then 1 else 0) + count_subject s (without id o)
      ≡ count_subject s o
count-without id [] s h = absurd (cc)
count-without id ((j, t) ∷ o) s h = ground (arith, count-without id o s)

pub without_none : (id : ℕ) (o : Open) → has_id id o ≡ false → without id o ≡ o
without_none id [] h = refl
without_none id ((j, t) ∷ o) h = ground (arith, without_none id o)

-- Releasing an open connection leaves a limiter that stands for the others; releasing one that is
-- not open changes nothing, whatever the subject.
pub release-Stands :
    (l : ConnLimiter) (o : Open) (s : Bytes) (id : ℕ)
    → Stands l o
    → (has_id id o ≡ true → s ≡ subject_of o id)
    → Stands (release l s id) (without id o)
unfolding release
release-Stands l o s id h subject = elim (Bool-cases (has_id id o)) [
  | inr n ↦ rw (h.live id, n, without_none id o n) h
  | inl y ↦
      rw (h.live id, y)
        (record {
          total = omega (arith, h.total, length-without id o y);
          counts = λ s'. released s' (
              subst
                (λ x.
                  (if text_eq x s' then 1 else 0) + count_subject s' (without id o)
                  ≡ count_subject s' o)
                (sym (subject y)) (count-without id o s' y));
          live = λ j. ground (
            arith,
            h.live j,
            assoc_load-delete nat_key l.starts id j,
            has_id-without id j l.next_id o h.fresh,
          );
          fresh = Fresh-without id l.next_id o h.fresh;
        })
]
  where
    released :
        (s' : Bytes)
        → (if text_eq s s' then 1 else 0) + count_subject s' (without id o) ≡ count_subject s' o
        → count_of
            (record l {
              conns = l.conns - 1;
              per_sub =
                  (if count_of l s - 1 == 0
                    then assoc_delete text_key l.per_sub s
                    else (s, count_of l s - 1) ∷ assoc_delete text_key l.per_sub s);
              starts = assoc_delete nat_key l.starts id;
            })
            s'
          ≡ count_subject s' (without id o)
    released s' c = elim (Bool-cases (text_eq s s')) [
      | inl e ↦ ground (
        arith,
        e,
        c,
        h.counts s',
        ap (count_of l) ((text_key.same_iff s s').0 e),
        assoc_load-delete text_key l.per_sub s s',
      )
      | inr d ↦ ground (arith, d, c, h.counts s', assoc_load-delete text_key l.per_sub s s')
    ]
