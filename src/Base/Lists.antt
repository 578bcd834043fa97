-- ===== src/Base/Lists.antt =====
-- Lists measured, cut and summed by native numbers, under the library's names.
use Prim.Native.Nat.{ℕ, zero, suc, ◌+◌, ◌-◌, ◌≤◌, min}
use mathlib.Core.Path.{◌≡◌, refl, ap, sym, ◌∙◌}
use mathlib.Core.List.{List, [], ◌∷◌, ◌++◌}
use mathlib.Core.Option.{Option, none, some}
use native.Mathlib.Omega.{arith}
use native.Mathlib.Nat.{zero-add, suc-add}

module _ {ℓ} {A : Type ℓ} where
  abbrev pub length : List A → ℕ
  length [] = 0
  length (_ ∷ xs) = suc (length xs)

  abbrev pub take : ℕ → List A → List A
  take zero xs = []
  take (suc n) [] = []
  take (suc n) (x ∷ xs) = x ∷ take n xs

  abbrev pub drop : ℕ → List A → List A
  drop zero xs = xs
  drop (suc n) [] = []
  drop (suc n) (x ∷ xs) = drop n xs

  abbrev pub get_elem? : List A → ℕ → Option A
  get_elem? [] i = none
  get_elem? (x ∷ xs) zero = some x
  get_elem? (x ∷ xs) (suc i) = get_elem? xs i

  pub length-append : (xs ys : List A) → length (xs ++ ys) ≡ length xs + length ys
  length-append [] ys = omega arith
  length-append (x ∷ xs) ys = omega (arith, length-append xs ys)

module _ {ℓ} {A : Type ℓ} where
  pub take-append-drop : (n : ℕ) (xs : List A) → take n xs ++ drop n xs ≡ xs
  take-append-drop zero xs = refl
  take-append-drop (suc n) [] = refl
  take-append-drop (suc n) (x ∷ xs) = ap (λ r. x ∷ r) (take-append-drop n xs)

  pub length-take : (n : ℕ) (xs : List A) → length (take n xs) ≡ min n (length xs)
  length-take zero xs = omega arith
  length-take (suc n) [] = omega arith
  length-take (suc n) (x ∷ xs) = omega (arith, length-take n xs)

  pub length-drop : (n : ℕ) (xs : List A) → length (drop n xs) ≡ length xs - n
  length-drop zero xs = omega arith
  length-drop (suc n) [] = omega arith
  length-drop (suc n) (x ∷ xs) = omega (arith, length-drop n xs)

  drop-nil : (n : ℕ) → drop {A = A} n [] ≡ []
  drop-nil zero = refl
  drop-nil (suc n) = refl

  pub drop-drop : (n m : ℕ) (xs : List A) → drop n (drop m xs) ≡ drop (m + n) xs
  drop-drop n zero xs = rw zero-add
  drop-drop n (suc m) [] = rw (drop-nil n, drop-nil (suc m + n))
  drop-drop n (suc m) (x ∷ xs) = rw suc-add (drop-drop n m xs)

  pub drop-drop_le : (k n : ℕ) (xs : List A) → k ≤ n → drop (n - k) (drop k xs) ≡ drop n xs
  drop-drop_le k n xs h = drop-drop (n - k) k xs ∙ ap (λ m. drop m xs) (omega arith)

  pub drop-length : (n : ℕ) (xs : List A) → length xs ≤ n → drop n xs ≡ []
  drop-length n [] h = drop-nil n
  drop-length zero (x ∷ xs) h = absurd (omega arith)
  drop-length (suc n) (x ∷ xs) h = drop-length n xs (omega arith)

  pub take-length : (n : ℕ) (xs : List A) → length xs ≤ n → take n xs ≡ xs
  take-length zero [] h = refl
  take-length (suc n) [] h = refl
  take-length zero (x ∷ xs) h = absurd (omega arith)
  take-length (suc n) (x ∷ xs) h = ap (λ r. x ∷ r) (take-length n xs (omega arith))

  pub take-append : (n : ℕ) (xs ys : List A) → n ≤ length xs → take n (xs ++ ys) ≡ take n xs
  take-append zero xs ys h = refl
  take-append (suc n) [] ys h = absurd (omega arith)
  take-append (suc n) (x ∷ xs) ys h = ap (λ r. x ∷ r) (take-append n xs ys (omega arith))

  pub drop-append : (n : ℕ) (xs ys : List A) → n ≤ length xs → drop n (xs ++ ys) ≡ drop n xs ++ ys
  drop-append zero xs ys h = refl
  drop-append (suc n) [] ys h = absurd (omega arith)
  drop-append (suc n) (x ∷ xs) ys h = drop-append n xs ys (omega arith)

  -- A cut behind the first list.
  pub take-past :
      (n : ℕ) (xs ys : List A) → length xs ≤ n → take n (xs ++ ys) ≡ xs ++ take (n - length xs) ys
  take-past n [] ys h = ap (λ k. take k ys) (omega arith)
  take-past zero (x ∷ xs) ys h = absurd (omega arith)
  take-past (suc n) (x ∷ xs) ys h =
      ap (λ r. x ∷ r)
        (take-past n xs ys (omega arith)
          ∙ ap (λ k. xs ++ take k ys) {x = n - length xs} {y = suc n - suc (length xs)}
              (omega arith))

  pub drop-past :
      (n : ℕ) (xs ys : List A) → length xs ≤ n → drop n (xs ++ ys) ≡ drop (n - length xs) ys
  drop-past n [] ys h = ap (λ k. drop k ys) (omega arith)
  drop-past zero (x ∷ xs) ys h = absurd (omega arith)
  drop-past (suc n) (x ∷ xs) ys h =
      drop-past n xs ys (omega arith)
      ∙ ap (λ k. drop k ys) {x = n - length xs} {y = suc n - suc (length xs)} (omega arith)

  pub take-nil : (n : ℕ) → take {A = A} n [] ≡ []
  take-nil zero = refl
  take-nil (suc n) = refl

  pub take-split :
      (n m : ℕ) (xs : List A) → n ≤ m → take m xs ≡ take n (take m xs) ++ take (m - n) (drop n xs)
  take-split zero m xs h = ap (λ k. take k xs) (omega arith)
  take-split (suc n) zero xs h = absurd (omega arith)
  take-split (suc n) (suc m) [] h = sym (take-nil (suc m - suc n))
  take-split (suc n) (suc m) (x ∷ xs) h =
      ap (λ r. x ∷ r)
        (take-split n m xs (omega arith)
          ∙ ap (λ k. take n (take m xs) ++ take k (drop n xs)) {x = m - n} {y = suc m - suc n}
              (omega arith))

module _ {ℓ} {A : Type ℓ} where
  -- `memcpy(&to[at], from, ...)` inside a list.
  abbrev pub copy_at : ℕ → List A → List A → List A
  copy_at at from to = take at to ++ from ++ drop (at + length from) to

  pub length-copy_at :
      (n : ℕ) (from to : List A)
      → n + length from ≤ length to
      → length (copy_at n from to) ≡ length to
  length-copy_at n from to h = omega (
    arith,
    length-append (take n to ++ from) (drop (n + length from) to),
    length-append (take n to) from,
    length-take n to,
    length-drop (n + length from) to,
  )

  -- Up to the end of what was copied.
  pub take-copy_at :
      (at : ℕ) (from to : List A)
      → at ≤ length to
      → take (at + length from) (copy_at at from to) ≡ take at to ++ from
  take-copy_at at from to h =
      let front = length-append (take at to) from in
      take-append (at + length from) (take at to ++ from) (drop (at + length from) to)
        (omega (arith, front, length-take at to))
      ∙ take-length (at + length from) (take at to ++ from)
          (omega (arith, front, length-take at to))

  -- Behind what was copied.
  pub drop-copy_at :
      (at n : ℕ) (from to : List A)
      → at ≤ length to
      → at + length from ≤ n
      → drop n (copy_at at from to) ≡ drop n to
  drop-copy_at at n from to h le =
      let k = at + length from in
      let front = length-append (take at to) from in
      sym (drop-drop_le k n (copy_at at from to) le)
      ∙ ap (drop (n - k)) (
          drop-append k (take at to ++ from) (drop k to) (omega (arith, front, length-take at to))
          ∙ ap (λ r. r ++ drop k to)
              (drop-length k (take at to ++ from) (omega (arith, front, length-take at to))))
      ∙ drop-drop_le k n to le
