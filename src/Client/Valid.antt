-- ===== src/Client/Valid.antt =====
-- A set with its members, and the lock around the operations.
use h.Base.{
  ℕ, ◌<◌, ◌≡◌, ◌≢◌, refl, sym, ◌∙◌, Bool, true, false, Option, some, List, [], ◌∷◌, ◌++◌, ◌==◌,
  arith,
}
use h.Links.Apart.{Apart}
use h.Links.Joins.{IsRing}
use h.Client.{Client, World, done, put, lock, unlock}

pub put-same {ℓ} : {A : Type ℓ} (p : ℕ) (o : Option A) (f : ℕ → Option A) → put p o f p ≡ o
put-same p o f = let same : (p == p) ≡ true = ground arith in rw same refl

pub put-other {ℓ} :
    {A : Type ℓ} (p : ℕ) (o : Option A) (f : ℕ → Option A) (q : ℕ) → q ≢ p → put p o f q ≡ f q
put-other p o f q h = let other : (q == p) ≡ false = ground arith in rw other refl

-- The members of a set are alive and know it.
pub data Members (clients : ℕ → Option Client) (cs : ℕ) : List ℕ → Type 0 where
  no_more : Members clients cs []
  member :
      {x : ℕ} {c : Client} {xs : List ℕ}
      → clients x ≡ some c
      → c.cs ≡ cs
      → 0 < c.ref_count
      → Members clients cs xs
      → Members clients cs (x ∷ xs)

pub Members-put :
    {clients : ℕ → Option Client} {cs : ℕ} {xs : List ℕ} (p : ℕ) (o : Option Client)
    → Apart p xs
    → Members clients cs xs
    → Members (put p o clients) cs xs
Members-put p o apart no_more = no_more
Members-put {clients} p o apart (member {x = x} alive knows pos rest) =
    member (put-other p o clients x (λ e. apart.0 (sym e)) ∙ alive) knows pos
      (Members-put p o apart.1 rest)

-- One of the members, and the others.
pub Members-at :
    {clients : ℕ → Option Client} {cs : ℕ} (c : ℕ) (xs ys : List ℕ)
    → Members clients cs (xs ++ (c ∷ ys))
    → ((o : Client) × (clients c ≡ some o) × (o.cs ≡ cs) × (0 < o.ref_count))
      × Members clients cs (xs ++ ys)
Members-at c [] ys (member {c = o} alive knows pos rest) = ((o, alive, knows, pos), rest)
Members-at c (x ∷ xs) ys (member alive knows pos rest) =
    let (found, others) = Members-at c xs ys rest in (found, member alive knows pos others)

-- A set that is allocated and whose lock is free, with its members, the newest first.
pub record IsClientSet (w : World) (cs : ℕ) (refs : ℕ) (xs : List ℕ) : Type 0 where
  pub ring : IsRing w.links cs xs
  pub free : w.sets cs ≡ some (refs, false)
  pub counted : 0 < refs
  pub members : Members w.clients cs xs

pub lock_lem :
    {cs refs : ℕ} (w : World)
    → w.sets cs ≡ some (refs, false)
    → lock cs w ≡ done (record w { sets = put cs (some (refs, true)) w.sets })
unfolding lock
lock_lem w e = rw e refl

pub unlock_lem :
    {cs refs : ℕ} {held : Bool} (w : World)
    → w.sets cs ≡ some (refs, held)
    → unlock cs w ≡ done (record w { sets = put cs (some (refs, false)) w.sets })
unfolding unlock
unlock_lem w e = rw e refl
