-- ===== src/Base/Yields.antt =====
-- A computation that ends with a value, and what holds of the value.
use mathlib.Core.Option.{Option, none, some}
use mathlib.Core.Path.{◌≡◌, refl, ap, subst}
use mathlib.Core.Bool.{Bool, true, false}
use h.Base.Tests.{if◌then◌else◌}

pub data Yields {ℓ κ} {A : Type ℓ} (Post : A → Type κ) : Option A → Type (ℓ ⊔ κ) where
  yields : {a : A} → Post a → Yields Post (some a)

pub Yields-weaken {ℓ κ μ} :
    {A : Type ℓ} {Post : A → Type κ} {Weak : A → Type μ} {o : Option A}
    → Yields Post o
    → ((a : A) → Post a → Weak a)
    → Yields Weak o
Yields-weaken (yields p) f = yields (f _ p)

-- The value itself, with the equation.
pub Yields-some {ℓ κ} :
    {A : Type ℓ} {Post : A → Type κ} {o : Option A}
    → Yields Post o
    → (a : A) × (o ≡ some a) × Post a
Yields-some (yields {a} p) = (a, refl, p)

-- A loop that may use up its rounds.
infixl 5 ◌>>=◌
abbrev pub ◌>>=◌ {ℓ κ} : {A : Type ℓ} {B : Type κ} → Option A → (A → Option B) → Option B
none >>= f = none
some a >>= f = f a

pub Yields-bind {ℓ κ μ ν} :
    {A : Type ℓ} {B : Type κ} {Post : A → Type μ} {Then : B → Type ν} {o : Option A}
    {f : A → Option B}
    → Yields Post o
    → ((a : A) → Post a → Yields Then (f a))
    → Yields Then (o >>= f)
Yields-bind (yields p) next = next _ p

pub Yields-if {ℓ κ} :
    {A : Type ℓ} {Post : A → Type κ} {x y : Option A} (b : Bool)
    → (b ≡ true → Yields Post x)
    → (b ≡ false → Yields Post y)
    → Yields Post (if b then x else y)
Yields-if true f g = f refl
Yields-if false f g = g refl

or_else {ℓ} : {A : Type ℓ} → A → Option A → A
or_else a none = a
or_else a (some b) = b

-- The value that was computed.
pub Yields-value {ℓ κ} :
    {A : Type ℓ} {Post : A → Type κ} {o : Option A} {a : A} → Yields Post o → o ≡ some a → Post a
unfolding or_else
Yields-value {Post = Post} (yields {a = b} p) e = subst Post (ap (or_else b) e) p
