-- ===== src/Base/Chain.antt =====
-- Chains of calls that may fail: `if ((p = f()) == NULL) goto done;`.
use mathlib.Core.Path.{◌≡◌, refl, subst}
use mathlib.Core.Bool.{Bool, true, false}
use mathlib.Core.Option.{Option, none, some}

infixl 5 ◌>>=◌ ◌>>◌
abbrev pub ◌>>=◌ {ℓ κ} : {A : Type ℓ} {B : Type κ} → Option A → (A → Option B) → Option B
none >>= f = none
some a >>= f = f a

abbrev pub ◌>>◌ {ℓ} : {B : Type ℓ} → Option (Unit {0}) → Option B → Option B
m >> k = m >>= λ _. k

abbrev pub fail_if : Bool → Option (Unit {0})
fail_if true = none
fail_if false = some tt

-- A chain that has a result has passed each of its steps.
pub bind-some {ℓ κ} :
    {A : Type ℓ} {B : Type κ} (o : Option A) (f : A → Option B) (b : B)
    → (o >>= f) ≡ some b
    → (a : A) × (o ≡ some a) × (f a ≡ some b)
bind-some none f b e = absurd (cc e)
bind-some (some a) f b e = (a, refl, e)

pub fail_if-some {ℓ} :
    {B : Type ℓ} (t : Bool) (k : Option B) (b : B)
    → (fail_if t >> k) ≡ some b
    → (t ≡ false) × (k ≡ some b)
fail_if-some true k b e = absurd (cc e)
fail_if-some false k b e = (refl, e)

-- What a chain has for a result, if it has one.
pub data Yields {A : Type 0} (P : A → Type 0) : Option A → Type 0 where
  fails : Yields P none
  yields : {a : A} → P a → Yields P (some a)

pub Yields-bind :
    {A B : Type 0} {P : A → Type 0} {R : B → Type 0} {o : Option A} {f : A → Option B}
    → Yields P o
    → ((a : A) → P a → Yields R (f a))
    → Yields R (o >>= f)
Yields-bind fails k = fails
Yields-bind (yields p) k = k _ p

pub Yields-fail_if :
    {B : Type 0} {R : B → Type 0} {o : Option B} (t : Bool)
    → (t ≡ false → Yields R o)
    → Yields R (fail_if t >> o)
Yields-fail_if true k = fails
Yields-fail_if false k = k refl

pub Yields-at : {A : Type 0} {P : A → Type 0} {o : Option A} (a : A) → Yields P o → o ≡ some a → P a
Yields-at a fails e = absurd (cc e)
Yields-at {P = P} a (yields {a = b} p) e = let same : b ≡ a = cc e in subst P same p

pub Yields-known :
    {A B : Type 0} {R : B → Type 0} (o : Option A) {f : A → Option B}
    → ((a : A) → o ≡ some a → Yields R (f a))
    → Yields R (o >>= f)
Yields-known none k = fails
Yields-known (some a) k = k a refl

pub Yields-test : {P : Unit {0} → Type 0} (t : Bool) → (t ≡ false → P tt) → Yields P (fail_if t)
Yields-test true k = fails
Yields-test false k = yields (k refl)

pub Yields-weaken :
    {A : Type 0} {P R : A → Type 0} {o : Option A} → Yields P o → ((a : A) → P a → R a) → Yields R o
Yields-weaken fails k = fails
Yields-weaken (yields p) k = yields (k _ p)

pub Yields-all : {A : Type 0} {P : A → Type 0} (o : Option A) → ((a : A) → P a) → Yields P o
Yields-all none k = fails
Yields-all (some a) k = yields (k a)
