-- ===== src/Links/Joins.antt =====
-- A list of nodes from one node to another, with links both ways, and what leaves it alone.
use h.Base.{ℕ, ◌≡◌, ◌≢◌, refl, sym, ◌∙◌, true, false, List, [], ◌∷◌, ◌++◌, ◌==◌, arith}
use h.Links.{Links, set}
use h.Links.Apart.{Apart, Distinct}

pub data Joins (m : Links) : ℕ → List ℕ → ℕ → Type 0 where
  last : {a b : ℕ} → m.next a ≡ b → m.prev b ≡ a → Joins m a [] b
  link :
      {a x b : ℕ} {xs : List ℕ}
      → m.next a ≡ x
      → m.prev x ≡ a
      → Joins m x xs b
      → Joins m a (x ∷ xs) b

-- The list with its head `h`.
pub record IsRing (m : Links) (h : ℕ) (xs : List ℕ) : Type 0 where
  pub joins : Joins m h xs h
  pub distinct : Distinct (h ∷ xs)
  pub real : Apart 0 (h ∷ xs)

pub set-other : (c v : ℕ) (f : ℕ → ℕ) (q : ℕ) → q ≢ c → set c v f q ≡ f q
set-other c v f q h = let other : (q == c) ≡ false = ground arith in rw other refl

pub set-same : (c v : ℕ) (f : ℕ → ℕ) → set c v f c ≡ v
set-same c v f = let same : (c == c) ≡ true = ground arith in rw same refl

pub Joins-next :
    {m : Links} {a b : ℕ} {xs : List ℕ} (c v : ℕ)
    → Apart c (a ∷ xs)
    → Joins m a xs b
    → Joins (record m { next = set c v m.next }) a xs b
Joins-next {m = m} {a} c v apart (last n p) =
    last (set-other c v m.next a (λ e. apart.0 (sym e)) ∙ n) p
Joins-next {m = m} {a} c v apart (link n p rest) =
    link (set-other c v m.next a (λ e. apart.0 (sym e)) ∙ n) p (Joins-next c v apart.1 rest)

pub Joins-prev :
    {m : Links} {a b : ℕ} {xs : List ℕ} (c v : ℕ)
    → Apart c xs
    → c ≢ b
    → Joins m a xs b
    → Joins (record m { prev = set c v m.prev }) a xs b
Joins-prev {m = m} {b = b} c v apart end (last n p) =
    last n (set-other c v m.prev b (λ e. end (sym e)) ∙ p)
Joins-prev {m = m} c v apart end (link {x = x} n p rest) =
    link n (set-other c v m.prev x (λ e. apart.0 (sym e)) ∙ p) (Joins-prev c v apart.1 end rest)

-- The neighbours of a node within the list.
pub prev-Apart :
    {m : Links} {a b : ℕ} (c e : ℕ) (xs ys : List ℕ)
    → Apart c (a ∷ xs)
    → Joins m a (xs ++ (e ∷ ys)) b
    → c ≢ m.prev e
prev-Apart c e [] ys apart (link n p rest) = λ q. apart.0 (q ∙ p)
prev-Apart c e (x ∷ xs) ys apart (link n p rest) = prev-Apart c e xs ys apart.1 rest

pub next-Apart :
    {m : Links} {a b : ℕ} (c e : ℕ) (xs ys : List ℕ)
    → Apart c ys
    → c ≢ b
    → Joins m a (xs ++ (e ∷ ys)) b
    → c ≢ m.next e
next-Apart c e [] [] apart end (link n p (last n' p')) = λ q. end (q ∙ n')
next-Apart c e [] (y ∷ ys) apart end (link n p (link n' p' rest)) = λ q. apart.0 (q ∙ n')
next-Apart c e (x ∷ xs) ys apart end (link n p rest) = next-Apart c e xs ys apart end rest

-- The first step of a list, and what is behind it.
pub end-next : {m : Links} {a b : ℕ} → Joins m a [] b → m.next a ≡ b
end-next (last n p) = n

pub first-next : {m : Links} {a x b : ℕ} {xs : List ℕ} → Joins m a (x ∷ xs) b → m.next a ≡ x
first-next (link n p rest) = n

pub rest-Joins : {m : Links} {a x b : ℕ} {xs : List ℕ} → Joins m a (x ∷ xs) b → Joins m x xs b
rest-Joins (link n p rest) = rest
