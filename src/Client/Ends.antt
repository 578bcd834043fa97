-- ===== src/Client/Ends.antt =====
-- A run that ends with a value, and what holds of the value.
use h.Base.{◌≡◌, refl}
use h.Client.{Outcome, done, ◌>>=◌}

pub data Ends {ℓ κ} {A : Type ℓ} (Post : A → Type κ) : Outcome A → Type (ℓ ⊔ κ) where
  ends : {a : A} → Post a → Ends Post (done a)

pub Ends-bind {ℓ κ μ ν} :
    {A : Type ℓ} {B : Type κ} {Post : A → Type μ} {Then : B → Type ν} {o : Outcome A}
    {f : A → Outcome B}
    → Ends Post o
    → ((a : A) → Post a → Ends Then (f a))
    → Ends Then (o >>= f)
Ends-bind (ends p) next = next _ p

pub Ends-weaken {ℓ κ μ} :
    {A : Type ℓ} {Post : A → Type κ} {Weak : A → Type μ} {o : Outcome A}
    → Ends Post o
    → ((a : A) → Post a → Weak a)
    → Ends Weak o
Ends-weaken (ends p) f = ends (f _ p)

pub Ends-bind-two {ℓ κ μ ν ρ} :
    {A : Type ℓ} {B : Type κ} {C : Type ρ} {Post : A → Type μ} {Then : C → Type ν} {o : Outcome A}
    (f : A → Outcome B) (g : B → Outcome C)
    → Ends Post o
    → ((a : A) → Post a → Ends Then (f a >>= g))
    → Ends Then (o >>= f >>= g)
Ends-bind-two f g (ends p) next = next _ p

pub Ends-done {ℓ κ} :
    {A : Type ℓ} {Post : A → Type κ} {o : Outcome A} → Ends Post o → (a : A) × (o ≡ done a) × Post a
Ends-done (ends p) = (_, refl, p)
