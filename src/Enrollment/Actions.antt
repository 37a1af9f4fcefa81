-- ===== src/Enrollment/Actions.antt =====
-- Steps of pkg/service/enrollment over the directory of the credential. A file is missing, cannot
-- be read (a failed read or a wrong checksum), or holds its bytes. What was posted is kept too.
use optimum_gateway.Base.{◌≡◌, refl, List, Result, ok, err}
use optimum_gateway.Base.Wire.{Bytes}

pub data File : Type 0 where
  missing unreadable : File
  holds : Bytes → File

-- The directory, and the requests that were sent, the last one first.
pub record Place (R : Type 0) : Type 0 where
  pub credential : File
  pub pending : File
  pub posted : List R

-- A step on the directory that gives a value or an error.
abbrev pub Action : Type 0 → Type 0 → Type 0 → Type 0
Action R E A = Place R → Place R × Result E A

abbrev pub continue_with :
    {R E A B : Type 0} → (A → Action R E B) → Place R → Result E A → Place R × Result E B
continue_with f p (ok a) = f a p
continue_with f p (err e) = (p, err e)

infixl 5 ◌>>=◌ ◌>>◌
abbrev pub ◌>>=◌ : {R E A B : Type 0} → Action R E A → (A → Action R E B) → Action R E B
(m >>= f) p = continue_with f (m p).0 (m p).1

abbrev pub ◌>>◌ : {R E B : Type 0} → Action R E (Unit {0}) → Action R E B → Action R E B
(m >> k) p = continue_with (λ u. k) (m p).0 (m p).1

abbrev pub lift : {R E A : Type 0} → Result E A → Action R E A
lift r p = (p, r)

abbrev pub change : {R E : Type 0} → (Place R → Place R) → Action R E (Unit {0})
change f p = (f p, ok tt)

-- Where a chain gives a value its first step did, and the rest gives that value.
pub continue_ok :
    {R E A B : Type 0} (f : A → Action R E B) (p : Place R) (r : Result E A) {q : Place R} {b : B}
    → continue_with f p r ≡ (q, ok b)
    → (a : A) × (r ≡ ok a) × (f a p ≡ (q, ok b))
continue_ok f p (ok a) h = (a, refl, h)
continue_ok f p (err e) h = absurd (cc)
