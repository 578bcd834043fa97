-- ===== src/RelaySet/Pairs.antt =====
-- Lists of pairs without repetition, and the calls on them.
use h.Base.{
  ℕ, ◌≡◌, ◌≢◌, refl, sym, ap, inl, inr, Bool, true, false, Bool-cases, List, [], ◌∷◌, ◌++◌, ◌==◌,
  ==-eq, if◌then◌else◌, arith,
}
use h.Errno.{Code, ok, minus, einval}
use h.Links.Apart.{Apart}
use h.RelaySet.{RelayCall, add, del}

abbrev pub contains : ℕ → List ℕ → Bool
contains p [] = false
contains p (x ∷ xs) = if p == x then true else contains p xs

abbrev pub without : ℕ → List ℕ → List ℕ
without p [] = []
without p (x ∷ xs) = if p == x then xs else x ∷ without p xs

-- The same calls on the pairs of the set, the newest first.
abbrev pub call_pairs : RelayCall → List ℕ → List Code × List ℕ
call_pairs (add p) xs = if contains p xs then (minus einval ∷ [], xs) else (ok ∷ [], p ∷ xs)
call_pairs (del p) xs = ([], without p xs)

abbrev pub run_pairs : List RelayCall → List ℕ → List Code × List ℕ
run_pairs [] xs = ([], xs)
run_pairs (c ∷ calls) xs =
    let (out, ys) = call_pairs c xs in let (outs, zs) = run_pairs calls ys in (out ++ outs, zs)

abbrev pub pair_in : RelayCall → ℕ
pair_in (add p) = p
pair_in (del p) = p

abbrev pub AllKnown : (ℕ → Type 0) → List RelayCall → Type 0
AllKnown all [] = Unit
AllKnown all (c ∷ calls) = all (pair_in c) × AllKnown all calls

pub not-contains : (p : ℕ) (xs : List ℕ) → contains p xs ≡ false → Apart p xs
not-contains p [] h = tt
not-contains p (x ∷ xs) h = (ground arith, not-contains p xs (ground arith))

pub Apart-contains : (p : ℕ) (xs : List ℕ) → Apart p xs → contains p xs ≡ false
Apart-contains p [] h = refl
Apart-contains p (x ∷ xs) h = ground (arith, h.0, Apart-contains p xs h.1)

-- Where a pair of the list stands.
pub contains-at :
    (p : ℕ) (xs : List ℕ)
    → contains p xs ≡ true
    → (front : List ℕ) × (back : List ℕ) × (xs ≡ front ++ (p ∷ back))
      × (without p xs ≡ front ++ back)
contains-at p [] h = absurd (ground arith)
contains-at p (x ∷ xs) h = elim (Bool-cases (p == x)) [
  | inl same ↦ ([], xs, ap (λ q. q ∷ xs) (sym (==-eq p x same)), rw same refl)
  | inr other ↦
      let (front, back, e, left) = contains-at p xs (ground (arith, h, other)) in
      (x ∷ front, back, ap (λ r. x ∷ r) e, rw other (ap (λ r. x ∷ r) left))
]

pub contains-drop :
    (q p : ℕ) (front back : List ℕ)
    → q ≢ p
    → contains q (front ++ (p ∷ back)) ≡ contains q (front ++ back)
contains-drop q p [] back other = let differs : (q == p) ≡ false = ground arith in rw differs refl
contains-drop q p (x ∷ front) back other = rw (contains-drop q p front back other) refl

pub without-out : (p : ℕ) (xs : List ℕ) → contains p xs ≡ false → without p xs ≡ xs
without-out p [] out = refl
without-out p (x ∷ xs) out =
    let differs : (p == x) ≡ false = ground arith in
    rw differs (ap (λ l. x ∷ l) (without-out p xs (ground arith)))
