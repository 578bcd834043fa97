-- ===== src/Sched/Balance.antt =====
-- The balance that `h6_sched_add` keeps on the loops of `h6_sched_new`.
use h.Base.{ℕ, zero, suc, ◌+◌, ◌≤◌, ◌<◌, ◌≡◌, refl, sym, List, [], ◌∷◌, length, arith}
use h.Base.Words.{u32_mod, add_u32}
use h.Sched.{Sched, SrcWeight, weight_at, zeros, sched_new, find_best_loop, sched_add}
use h.Sched.Best.{sum, find_best_loop_lem, weight_at-le-sum}
use h.Sched.Accounts.{IsValid, sched_add_lem, weight_at-set_weight, length-set_weight}

-- No loop is more than `most` heavier than another.
abbrev pub IsBalanced : ℕ → List ℕ → Type 0
IsBalanced most l = (i j : ℕ) → i < length l → j < length l → weight_at l i ≤ weight_at l j + most

weight_at-zeros : (n i : ℕ) → weight_at (zeros n) i ≡ 0
weight_at-zeros zero i = refl
weight_at-zeros (suc n) zero = refl
weight_at-zeros (suc n) (suc i) = weight_at-zeros n i

sum-zeros : (n : ℕ) → sum (zeros n) ≡ 0
sum-zeros zero = refl
sum-zeros (suc n) = omega (arith, sum-zeros n)

length-zeros : (n : ℕ) → length (zeros n) ≡ n
length-zeros zero = refl
length-zeros (suc n) = omega (arith, length-zeros n)

sched_new-IsValid : (n : ℕ) → IsValid (sched_new n)
unfolding sched_new
sched_new-IsValid n = record {
  each = weight_at-zeros n;
  sums = sum-zeros n;
  total = refl;
  placed = tt;
  small = omega arith;
}

sched_add-IsBalanced :
    (s : Sched) (src weight most : ℕ)
    → IsValid s
    → 0 < length s.loops
    → s.total_weight + weight < u32_mod
    → weight ≤ most
    → IsBalanced most s.loops
    → IsBalanced most (sched_add s src weight).0.loops
unfolding sched_add
sched_add-IsBalanced s src weight most v some_loop room light balanced i j in_i in_j =
    let best = find_best_loop s in
    let (inside, least) = find_best_loop_lem s (sym v.sums) some_loop in
    let new = add_u32 (weight_at s.loops best) weight in
    let same = length-set_weight s.loops best new in
    let small : add_u32 (weight_at s.loops best) weight ≡ weight_at s.loops best + weight =
      omega (arith, weight_at-le-sum s.loops best, v.sums) in
    ground (
      arith,
      small,
      weight_at-set_weight s.loops best new i inside,
      weight_at-set_weight s.loops best new j inside,
      least j (omega arith),
      balanced i j (omega arith) (omega arith),
    )

sched_add-size :
    (s : Sched) (src weight : ℕ)
    → s.total_weight + weight < u32_mod
    → (length (sched_add s src weight).0.loops ≡ length s.loops)
      × ((sched_add s src weight).0.total_weight ≡ s.total_weight + weight)
unfolding sched_add
sched_add-size s src weight room = (length-set_weight s.loops (find_best_loop s) _, omega arith)

-- One `h6_sched_add` for each event and weight.
unfoldable pub sched_add_all : Sched → List (ℕ × ℕ) → Sched
sched_add_all s [] = s
sched_add_all s ((src, weight) ∷ l) = sched_add_all (sched_add s src weight).0 l

abbrev pub Light : ℕ → List (ℕ × ℕ) → Type 0
Light most [] = Unit
Light most ((src, weight) ∷ l) = (weight ≤ most) × Light most l

abbrev pub weights : List (ℕ × ℕ) → ℕ
weights [] = 0
weights ((src, weight) ∷ l) = weight + weights l

sched_add_all-IsBalanced :
    (s : Sched) (l : List (ℕ × ℕ)) (most : ℕ)
    → IsValid s
    → 0 < length s.loops
    → s.total_weight + weights l < u32_mod
    → Light most l
    → IsBalanced most s.loops
    → IsValid (sched_add_all s l) × IsBalanced most (sched_add_all s l).loops
unfolding sched_add_all
sched_add_all-IsBalanced s [] most v some_loop room light balanced = (v, balanced)
sched_add_all-IsBalanced s ((src, weight) ∷ l) most v some_loop room (one, light) balanced =
    let added = sched_add_lem s src weight v some_loop (omega arith) in
    let size = sched_add-size s src weight (omega arith) in
    sched_add_all-IsBalanced (sched_add s src weight).0 l most added.0 (omega (arith, size.0))
      (omega (arith, size.1)) light
      (sched_add-IsBalanced s src weight most v some_loop (omega arith) one balanced)

-- The events of a list with their weights, and those added in front of others, the last one first.
abbrev pub entries : List SrcWeight → List (ℕ × ℕ)
entries [] = []
entries (sw ∷ l) = (sw.src, sw.w) ∷ entries l

abbrev pub in_front : List (ℕ × ℕ) → List (ℕ × ℕ) → List (ℕ × ℕ)
in_front [] old = old
in_front (x ∷ l) old = in_front l (x ∷ old)

sched_add_all-entries :
    (s : Sched) (l : List (ℕ × ℕ))
    → entries (sched_add_all s l).w_list ≡ in_front l (entries s.w_list)
unfolding sched_add_all sched_add
sched_add_all-entries s [] = refl
sched_add_all-entries s ((src, weight) ∷ l) = sched_add_all-entries (sched_add s src weight).0 l

-- When events of weight at most `most` each are given to the loops of a new scheduler, and all
-- weigh less than 2^32, the list holds those events with their weights, the last one first, the
-- accounts hold and no loop weighs more than another and `most`.
pub sched_add_all_lem :
    (loops : ℕ) (l : List (ℕ × ℕ)) (most : ℕ)
    → 0 < loops
    → weights l < u32_mod
    → Light most l
    → IsValid (sched_add_all (sched_new loops) l)
      × IsBalanced most (sched_add_all (sched_new loops) l).loops
      × (entries (sched_add_all (sched_new loops) l).w_list ≡ in_front l [])
unfolding sched_new
sched_add_all_lem loops l most some_loop room light =
    let (valid, balanced) =
      sched_add_all-IsBalanced (sched_new loops) l most (sched_new-IsValid loops)
        (omega (arith, length-zeros loops)) (omega arith) light
        (λ i j in_i in_j. omega (arith, weight_at-zeros loops i)) in
    (valid, balanced, sched_add_all-entries (sched_new loops) l)
