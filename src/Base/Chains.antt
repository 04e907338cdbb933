-- ===== src/Base/Chains.antt =====
-- Chains of steps that may fail and do not.
use mathlib.Core.Path.{◌≡◌, refl}
use mathlib.Core.Bool.{Bool, true, false}
use mathlib.Core.Option.{Option, none, some}
use ecat_v2_master.Base.Maybe.{◌>>=◌, when}
use ecat_v2_master.Base.Tests.{if◌then◌else◌}

-- The step is defined, and its result has the property.
abbrev pub Runs : {A : Type 0} → (A → Type 0) → Option A → Type 0
Runs {A} P o = (a : A) × (o ≡ some a) × P a

pub Runs-bind :
    {A B : Type 0} (P : A → Type 0) (Q : B → Type 0) (o : Option A) (f : A → Option B)
    → Runs P o
    → ((a : A) → P a → Runs Q (f a))
    → Runs Q (o >>= f)
Runs-bind P Q none f (a, e, p) h = absurd (cc)
Runs-bind P Q (some b) f (a, e, p) h = let same : a ≡ b = cc e in rw (← same) (h a p)

pub Runs-when :
    {A : Type 0} (P : A → Type 0) (b : Bool) (f : A → Option A) (a : A)
    → P a
    → Runs P (f a)
    → Runs P (when b f a)
Runs-when P true f a p r = r
Runs-when P false f a p r = (a, refl, p)

pub Runs-if :
    {A : Type 0} (P : A → Type 0) (b : Bool) (x y : Option A)
    → Runs P x
    → Runs P y
    → Runs P (if b then x else y)
Runs-if P true x y r s = r
Runs-if P false x y r s = s

pub either {ℓ} :
    {A : Type 0} (P : A → Type ℓ) (b : Bool) (x y : A) → P x → P y → P (if b then x else y)
either P true x y p q = p
either P false x y p q = q

-- If the step is defined, its result has the property.
abbrev pub Ends : {A : Type 0} → (A → Type 0) → Option A → Type 0
Ends {A} P o = (a : A) → o ≡ some a → P a

pub Ends-some : {A : Type 0} (P : A → Type 0) (a : A) → P a → Ends P (some a)
Ends-some P a p b e = let same : a ≡ b = cc e in rw (← same) p

pub Ends-bind :
    {A B : Type 0} (P : A → Type 0) (Q : B → Type 0) (o : Option A) (f : A → Option B)
    → Ends P o
    → ((a : A) → P a → Ends Q (f a))
    → Ends Q (o >>= f)
Ends-bind P Q none f p h b e = absurd (cc)
Ends-bind P Q (some a) f p h b e = h a (p a refl) b e

pub Ends-when :
    {A : Type 0} (P : A → Type 0) (b : Bool) (f : A → Option A) (a : A)
    → P a
    → Ends P (f a)
    → Ends P (when b f a)
Ends-when P true f a p r = r
Ends-when P false f a p r = Ends-some P a p

pub Ends-if :
    {A : Type 0} (P : A → Type 0) (b : Bool) (x y : Option A)
    → Ends P x
    → Ends P y
    → Ends P (if b then x else y)
Ends-if P true x y r s = r
Ends-if P false x y r s = s

-- With what the test says
pub Runs-when_known :
    {A : Type 0} (P : A → Type 0) (b : Bool) (f : A → Option A) (a : A)
    → (b ≡ true → Runs P (f a))
    → (b ≡ false → P a)
    → Runs P (when b f a)
Runs-when_known P true f a r p = r refl
Runs-when_known P false f a r p = (a, refl, p refl)

pub Runs-passed :
    {A : Type 0} (P : A → Type 0) (b : Bool) (x y : Option A)
    → b ≡ false
    → Runs P y
    → Runs P (if b then x else y)
Runs-passed P true x y e r = absurd (cc e)
Runs-passed P false x y e r = r
