-- ===== src/Trace/Strings.antt =====
-- Strings of C and `strncpy`, which src/trace.c copies them with.
use h.Base.{
  ℕ, zero, suc, ◌≤◌, ◌≡◌, ◌≢◌, refl, ap, false, List, [], ◌∷◌, ◌++◌, length, take, drop, ◌==◌,
  arith,
}
use h.Trace.{strncpy}

-- Bytes of a string of C.
abbrev pub NoZero : List ℕ → Type 0
NoZero [] = Unit
NoZero (c ∷ s) = (c ≢ 0) × NoZero s

pub NoZero-take : (n : ℕ) (s : List ℕ) → NoZero s → NoZero (take n s)
NoZero-take zero s h = tt
NoZero-take (suc n) [] h = tt
NoZero-take (suc n) (c ∷ s) h = (h.0, NoZero-take n s h.1)

pub NoZero-drop : (n : ℕ) (s : List ℕ) → NoZero s → NoZero (drop n s)
NoZero-drop zero s h = h
NoZero-drop (suc n) [] h = tt
NoZero-drop (suc n) (c ∷ s) h = NoZero-drop n s h.1

pub NoZero-append : (s t : List ℕ) → NoZero s → NoZero t → NoZero (s ++ t)
NoZero-append [] t h k = k
NoZero-append (c ∷ s) t h k = (h.0, NoZero-append s t h.1 k)

pub NoZero-front : (s t : List ℕ) → NoZero (s ++ t) → NoZero s
NoZero-front [] t h = tt
NoZero-front (c ∷ s) t h = (h.0, NoZero-front s t h.1)

pub NoZero-back : (s t : List ℕ) → NoZero (s ++ t) → NoZero t
NoZero-back [] t h = h
NoZero-back (c ∷ s) t h = NoZero-back s t h.1

-- Where no zero stands in the way, `strncpy` copies.
pub strncpy_lem : (n : ℕ) (s : List ℕ) → n ≤ length s → NoZero (take n s) → strncpy n s ≡ take n s
strncpy_lem zero s h z = refl
strncpy_lem (suc n) [] h z = absurd (omega arith)
strncpy_lem (suc n) (c ∷ s) h z =
    let other : (c == 0) ≡ false = ground (arith, z.0) in
    rw other (ap (λ r. c ∷ r) (strncpy_lem n s (omega arith) z.1))
