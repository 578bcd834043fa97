-- ===== src/Sched/Accounts.antt =====
-- The accounts of `h6_sched_add` and `h6_sched_remove`: each loop's weight is that of its events.
use h.Base.{
  ℕ, zero, suc, ◌+◌, ◌≤◌, ◌<◌, ◌≡◌, refl, sym, inl, inr, Bool-cases, List, [], ◌∷◌, ◌==◌,
  if◌then◌else◌, length, arith,
}
use h.Base.Words.{u32_mod, add_u32}
use h.Sched.{Sched, SrcWeight, src_weight, weight_at, set_weight, find_best_loop, sched_add}
use h.Sched.Best.{sum, weight_at-le-sum, find_best_loop_lem}

-- The weight of the events on one loop, and on all.
abbrev pub load : ℕ → List SrcWeight → ℕ
load i [] = 0
load i (sw ∷ l) = (if sw.loop == i then sw.w else 0) + load i l

abbrev pub all_load : List SrcWeight → ℕ
all_load [] = 0
all_load (sw ∷ l) = sw.w + all_load l

abbrev pub AllIn : ℕ → List SrcWeight → Type 0
AllIn n [] = Unit
AllIn n (sw ∷ l) = (sw.loop < n) × AllIn n l

pub record IsValid (s : Sched) : Type 0 where
  pub each : (i : ℕ) → weight_at s.loops i ≡ load i s.w_list
  pub sums : sum s.loops ≡ s.total_weight
  pub total : s.total_weight ≡ all_load s.w_list
  pub placed : AllIn (length s.loops) s.w_list
  pub small : s.total_weight < u32_mod

pub weight_at-set_weight :
    (l : List ℕ) (i v j : ℕ)
    → i < length l
    → weight_at (set_weight l i v) j ≡ (if i == j then v else weight_at l j)
weight_at-set_weight [] i v j h = absurd (omega arith)
weight_at-set_weight (w ∷ l) zero v zero h = refl
weight_at-set_weight (w ∷ l) zero v (suc j) h = ground arith
weight_at-set_weight (w ∷ l) (suc i) v zero h = ground arith
weight_at-set_weight (w ∷ l) (suc i) v (suc j) h = ground (arith, weight_at-set_weight l i v j)

pub sum-set_weight :
    (l : List ℕ) (i v : ℕ) → i < length l → sum (set_weight l i v) + weight_at l i ≡ sum l + v
sum-set_weight [] i v h = absurd (omega arith)
sum-set_weight (w ∷ l) zero v h = omega arith
sum-set_weight (w ∷ l) (suc i) v h = omega (arith, sum-set_weight l i v (omega arith))

pub length-set_weight : (l : List ℕ) (i v : ℕ) → length (set_weight l i v) ≡ length l
length-set_weight [] i v = refl
length-set_weight (w ∷ l) zero v = refl
length-set_weight (w ∷ l) (suc i) v = omega (arith, length-set_weight l i v)

pub AllIn-weaken : {m n : ℕ} → m ≡ n → (l : List SrcWeight) → AllIn m l → AllIn n l
AllIn-weaken e [] all = all
AllIn-weaken e (sw ∷ l) (one, all) = (omega arith, AllIn-weaken e l all)

-- For a scheduler with a loop and valid accounts, as long as the total stays a `uint32_t`:
-- `h6_sched_add` puts the event on a loop of least weight and keeps the accounts valid. The list of events gains one entry at its head, with the event, its
-- weight and that loop, whose weight and the total grow by that weight; the other loops keep theirs.
pub sched_add_lem :
    (s : Sched) (src weight : ℕ)
    → IsValid s
    → 0 < length s.loops
    → s.total_weight + weight < u32_mod
    → IsValid (sched_add s src weight).0
      × ((j : ℕ)
          → j < length s.loops
          → weight_at s.loops (sched_add s src weight).1 ≤ weight_at s.loops j)
      × ((sched_add s src weight).1 < length s.loops)
      × ((sched_add s src weight).0.w_list
          ≡ src_weight weight src (sched_add s src weight).1 ∷ s.w_list)
      × ((sched_add s src weight).0.total_weight ≡ s.total_weight + weight)
      × (length (sched_add s src weight).0.loops ≡ length s.loops)
      × ((j : ℕ)
          → weight_at (sched_add s src weight).0.loops j ≡ (
              if (sched_add s src weight).1 == j
              then weight_at s.loops j + weight
              else weight_at s.loops j))
unfolding sched_add
sched_add_lem s src weight v some_loop room =
    let best = find_best_loop s in
    let (inside, least) = find_best_loop_lem s (sym v.sums) some_loop in
    let new = add_u32 (weight_at s.loops best) weight in
    let bound = weight_at-le-sum s.loops best in
    let keep = sym (length-set_weight s.loops best new) in
    (
      record {
        each = λ i.
            ground (arith, weight_at-set_weight s.loops best new i inside, v.each i, v.sums, bound);
        sums = omega (arith, sum-set_weight s.loops best new inside, v.sums, bound);
        total = omega (arith, v.total);
        placed = AllIn-weaken keep (src_weight weight src best ∷ s.w_list) (inside, v.placed);
        small = omega arith;
      },
      least,
      inside,
      refl,
      omega (arith, v.small),
      sym keep,
      λ j. elim (Bool-cases (best == j)) [
        | inl same ↦ ground (arith, weight_at-set_weight s.loops best new j inside, v.sums, bound)
        | inr other ↦ ground (arith, weight_at-set_weight s.loops best new j inside)
      ],
    )
