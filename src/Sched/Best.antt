-- ===== src/Sched/Best.antt =====
-- `h6_find_best_loop` finds a loop of least weight.
use h.Base.{
  ℕ, zero, suc, ◌+◌, ◌≤◌, ◌<◌, ◌≡◌, ◌⊎◌, inl, inr, refl, Bool-cases, List, [], ◌∷◌, ltb, ltb→lt,
  length, arith,
}
use h.Sched.{Sched, weight_at, best_from, find_best_loop}

abbrev pub sum : List ℕ → ℕ
sum [] = 0
sum (w ∷ l) = w + sum l

pub weight_at-le-sum : (l : List ℕ) (i : ℕ) → weight_at l i ≤ sum l
weight_at-le-sum [] i = omega arith
weight_at-le-sum (w ∷ l) zero = omega arith
weight_at-le-sum (w ∷ l) (suc i) = omega (arith, weight_at-le-sum l i)

-- The loop at `r` is lighter than `best_w` and as light as any.
record Lightest (l : List ℕ) (idx best_w r : ℕ) : Type 0 where
  place : ℕ
  same : r ≡ idx + place
  inside : place < length l
  lighter : weight_at l place < best_w
  least : (j : ℕ) → j < length l → weight_at l place ≤ weight_at l j

abbrev Found : List ℕ → ℕ → ℕ → ℕ → ℕ → Type 0
Found l idx best_w best_i r =
    ((r ≡ best_i) × ((j : ℕ) → j < length l → best_w ≤ weight_at l j)) ⊎ Lightest l idx best_w r

all_cons :
    {w : ℕ} (l : List ℕ) (b : ℕ)
    → b ≤ w
    → ((j : ℕ) → j < length l → b ≤ weight_at l j)
    → (j : ℕ) → j < length (w ∷ l)
    → b ≤ weight_at (w ∷ l) j
all_cons l b le all zero h = le
all_cons l b le all (suc j) h = all j (omega arith)

Found-lighter :
    {w : ℕ} {l : List ℕ} {idx best_w r : ℕ}
    → w < best_w
    → Found l (suc idx) w idx r
    → Lightest (w ∷ l) idx best_w r
Found-lighter {w} lt (inl (same, all)) = record {
  place = 0;
  same = omega arith;
  inside = omega arith;
  lighter = lt;
  least = all_cons _ w (omega arith) all;
}
Found-lighter lt (inr b) = record {
  place = suc b.place;
  same = omega (arith, b.same);
  inside = omega (arith, b.inside);
  lighter = omega (arith, b.lighter);
  least = all_cons _ _ (omega (arith, b.lighter)) b.least;
}

Found-heavier :
    {w : ℕ} {l : List ℕ} {idx best_w best_i r : ℕ}
    → best_w ≤ w
    → Found l (suc idx) best_w best_i r
    → Found (w ∷ l) idx best_w best_i r
Found-heavier {best_w} le (inl (same, all)) = inl (same, all_cons _ best_w le all)
Found-heavier le (inr b) = inr (record {
  place = suc b.place;
  same = omega (arith, b.same);
  inside = omega (arith, b.inside);
  lighter = b.lighter;
  least = all_cons _ _ (omega (arith, b.lighter)) b.least;
})

best_from-Found :
    (l : List ℕ) (idx best_w best_i : ℕ) → Found l idx best_w best_i (best_from l idx best_w best_i)
unfolding best_from
best_from-Found [] idx best_w best_i = inl (refl, λ j h. absurd (omega arith))
best_from-Found (w ∷ l) idx best_w best_i = elim (Bool-cases (ltb w best_w)) [
  | inl lighter ↦
      rw lighter (inr (Found-lighter (ltb→lt _ _ lighter) (best_from-Found l (suc idx) w idx)))
  | inr heavier ↦
      rw heavier (Found-heavier (ground arith) (best_from-Found l (suc idx) best_w best_i))
]

-- Where the total is the sum of the loops' weights, the loop that `h6_find_best_loop` returns is one
-- of the loops, and none of them weighs less.
pub find_best_loop_lem :
    (s : Sched)
    → s.total_weight ≡ sum s.loops
    → 0 < length s.loops
    → (find_best_loop s < length s.loops)
      × ((j : ℕ) → j < length s.loops → weight_at s.loops (find_best_loop s) ≤ weight_at s.loops j)
unfolding find_best_loop
find_best_loop_lem s total some_loop = elim (best_from-Found s.loops 0 s.total_weight 0) [
  | inl (same, all) ↦ rw same (some_loop, λ j h. omega (arith, all j h, weight_at-le-sum s.loops 0))
  | inr b ↦
      let place : best_from s.loops 0 s.total_weight 0 ≡ b.place = omega (arith, b.same) in
      rw place (b.inside, b.least)
]
