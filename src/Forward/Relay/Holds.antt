-- ===== src/Forward/Relay/Holds.antt =====
-- Properties of a result that may be missing, and how they pass through a chain of steps.
use bev_search.Common.{Bool, true, false, Option, some, none, if◌then◌else◌, ◌≡◌, refl, subst}
use mathlib.Core.Option.{some-injective, none-ne-some}
use bev_search.Auth.{◌>>=◌}

-- A property of a result, if there is one.
pub data Holds {A : Type 0} (P : A → Type 0) : Option A → Type 0 where
  missing : Holds P none
  present : {a : A} → P a → Holds P (some a)

pub Holds-if :
    {A : Type 0} {P : A → Type 0} (b : Bool) {x y : Option A}
    → Holds P x
    → Holds P y
    → Holds P (if b then x else y)
Holds-if true hx hy = hx
Holds-if false hx hy = hy

pub Holds-bind :
    {A B : Type 0} {P : B → Type 0} (m : Option A) (f : A → Option B)
    → ((a : A) → m ≡ some a → Holds P (f a))
    → Holds P (m >>= f)
Holds-bind none f h = missing
Holds-bind (some a) f h = h a refl

known : {A : Type 0} (P : A → Type 0) (m : Option A) → Holds P m → (a : A) → m ≡ some a → P a
known P none h a e = absurd (none-ne-some a e)
known P (some b) (present h) a e = subst P (some-injective b a e) h

pub Holds-at : {A : Type 0} {P : A → Type 0} (m : Option A) (a : A) → m ≡ some a → Holds P m → P a
Holds-at {P = P} m a e h = known P m h a e

-- The same, with the test's value.
pub Holds-cases :
    {A : Type 0} {P : A → Type 0} (b : Bool) {x y : Option A}
    → (b ≡ true → Holds P x)
    → (b ≡ false → Holds P y)
    → Holds P (if b then x else y)
Holds-cases true hx hy = hx refl
Holds-cases false hx hy = hy refl
