-- ===== src/Links/Apart.antt =====
-- Numbers that are none of a list, and lists without repetition.
use h.Base.{ℕ, ◌≢◌, sym, List, [], ◌∷◌, ◌++◌}

abbrev pub Apart : ℕ → List ℕ → Type 0
Apart c [] = Unit
Apart c (x ∷ xs) = (c ≢ x) × Apart c xs

abbrev pub Distinct : List ℕ → Type 0
Distinct [] = Unit
Distinct (x ∷ xs) = Apart x xs × Distinct xs

pub Apart-front : (c : ℕ) (xs ys : List ℕ) → Apart c (xs ++ ys) → Apart c xs
Apart-front c [] ys h = tt
Apart-front c (x ∷ xs) ys h = (h.0, Apart-front c xs ys h.1)

pub Apart-back : (c : ℕ) (xs ys : List ℕ) → Apart c (xs ++ ys) → Apart c ys
Apart-back c [] ys h = h
Apart-back c (x ∷ xs) ys h = Apart-back c xs ys h.1

pub Apart-append : (c : ℕ) (xs ys : List ℕ) → Apart c xs → Apart c ys → Apart c (xs ++ ys)
Apart-append c [] ys h k = k
Apart-append c (x ∷ xs) ys h k = (h.0, Apart-append c xs ys h.1 k)

-- What is left when one of the list goes.
pub Apart-drop : (c e : ℕ) (xs ys : List ℕ) → Apart c (xs ++ (e ∷ ys)) → Apart c (xs ++ ys)
Apart-drop c e [] ys h = h.1
Apart-drop c e (x ∷ xs) ys h = (h.0, Apart-drop c e xs ys h.1)

pub Distinct-drop : (e : ℕ) (xs ys : List ℕ) → Distinct (xs ++ (e ∷ ys)) → Distinct (xs ++ ys)
Distinct-drop e [] ys h = h.1
Distinct-drop e (x ∷ xs) ys h = (Apart-drop x e xs ys h.0, Distinct-drop e xs ys h.1)

pub Apart-at : (c e : ℕ) (xs ys : List ℕ) → Apart c (xs ++ (e ∷ ys)) → c ≢ e
Apart-at c e [] ys h = h.0
Apart-at c e (x ∷ xs) ys h = Apart-at c e xs ys h.1

pub Distinct-at : (e : ℕ) (xs ys : List ℕ) → Distinct (xs ++ (e ∷ ys)) → Apart e xs × Apart e ys
Distinct-at e [] ys h = (tt, h.0)
Distinct-at e (x ∷ xs) ys h =
    let (front, back) = Distinct-at e xs ys h.1 in
    (((λ q. Apart-at x e xs ys h.0 (sym q)), front), back)
