-- ===== src/Sched/Remove.antt =====
-- `h6_sched_remove` takes the newest entry of an event, and keeps the accounts.
use h.Base.{
  ℕ, zero, suc, ◌+◌, ◌≤◌, ◌<◌, ◌≡◌, ◌≢◌, refl, sym, inl, inr, Bool-cases, Option, none, some, List,
  [], ◌∷◌, ◌==◌, ==-refl, if◌then◌else◌, length, arith,
}
use h.Base.Words.{u32_mod, add_u32, sub_u32}
use h.Sched.{
  Sched, SrcWeight, src_weight, weight_at, set_weight, find_best_loop, sched_add, find_sw,
  delete_sw, del_found, sched_remove,
}
use h.Sched.Best.{find_best_loop_lem, weight_at-le-sum}
use h.Sched.Accounts.{
  load, all_load, AllIn, AllIn-weaken, IsValid, weight_at-set_weight, sum-set_weight,
  length-set_weight,
}

-- `list_find_custom` finds the event and `list_delete_link` leaves the others.
pub data Takes (src : ℕ) : List SrcWeight → SrcWeight → List SrcWeight → Type 0 where
  here : {sw : SrcWeight} {l : List SrcWeight} → sw.src ≡ src → Takes src (sw ∷ l) sw l
  later :
      {first sw : SrcWeight} {l rest : List SrcWeight}
      → first.src ≢ src
      → Takes src l sw rest
      → Takes src (first ∷ l) sw (first ∷ rest)

find_sw-Takes :
    (src : ℕ) (l : List SrcWeight) {sw : SrcWeight}
    → find_sw src l ≡ some sw
    → Takes src l sw (delete_sw src l)
find_sw-Takes src [] h = absurd (ground arith)
find_sw-Takes src (first ∷ l) {sw} h = elim (Bool-cases (first.src == src)) [
  | inl same ↦
      let this : first ≡ sw = ground (arith, same) in rw same (rw (sym this) (here (ground arith)))
  | inr other ↦ rw other (later (ground arith) (find_sw-Takes src l (ground (arith, other))))
]

Takes-load :
    {src : ℕ} {l rest : List SrcWeight} {sw : SrcWeight}
    → Takes src l sw rest
    → (i : ℕ) → load i l ≡ (if sw.loop == i then sw.w else 0) + load i rest
Takes-load (here _) i = refl
Takes-load (later _ t) i = omega (arith, Takes-load t i)

Takes-all_load :
    {src : ℕ} {l rest : List SrcWeight} {sw : SrcWeight}
    → Takes src l sw rest
    → all_load l ≡ sw.w + all_load rest
Takes-all_load (here _) = refl
Takes-all_load (later _ t) = omega (arith, Takes-all_load t)

Takes-AllIn :
    {n src : ℕ} {l rest : List SrcWeight} {sw : SrcWeight}
    → Takes src l sw rest
    → AllIn n l
    → (sw.loop < n) × AllIn n rest
Takes-AllIn (here _) all = all
Takes-AllIn (later _ t) (one, all) =
    let (inside, others) = Takes-AllIn t all in (inside, (one, others))

-- What `h6_sched_remove` did: the loop and the entries left, or no entry of the event.
pub data Removed (src : ℕ) (s : Sched) : Option ℕ × Sched → Type 0 where
  removed :
      {sw : SrcWeight} {s' : Sched}
      → Takes src s.w_list sw s'.w_list
      → IsValid s'
      → Removed src s (some sw.loop, s')
  not_found :
      ((sw : SrcWeight) (rest : List SrcWeight) → ¬ Takes src s.w_list sw rest)
      → Removed src s (none, s)

find_sw-none :
    (src : ℕ) (l : List SrcWeight)
    → find_sw src l ≡ none
    → (sw : SrcWeight) (rest : List SrcWeight) → ¬ Takes src l sw rest
find_sw-none src [] h sw rest t = elim t [ ]
find_sw-none src (first ∷ l) h sw rest (here same) = ground arith
find_sw-none src (first ∷ l) h sw rest (later other t) = find_sw-none src l (ground arith) _ _ t

del_found_lem :
    (s : Sched) (src : ℕ)
    → IsValid s
    → (found : Option SrcWeight) → find_sw src s.w_list ≡ found
    → Removed src s (del_found s src found)
unfolding del_found
del_found_lem s src v none h = not_found (find_sw-none src s.w_list h)
del_found_lem s src v (some sw) h =
    let t = find_sw-Takes src s.w_list h in
    let (inside, others) = Takes-AllIn t v.placed in
    let new = sub_u32 (weight_at s.loops sw.loop) sw.w in
    let bound = weight_at-le-sum s.loops sw.loop in
    let own : sw.w ≤ weight_at s.loops sw.loop =
      ground (arith, Takes-load t sw.loop, v.each sw.loop) in
    removed t (record {
      each = λ i. ground (
        arith,
        weight_at-set_weight s.loops sw.loop new i inside,
        v.each i,
        Takes-load t i,
        own,
        v.sums,
        v.small,
        bound,
      );
      sums = omega (arith, sum-set_weight s.loops sw.loop new inside, v.sums, v.small, bound, own);
      total = omega (arith, v.total, Takes-all_load t, v.small);
      placed =
          AllIn-weaken (sym (length-set_weight s.loops sw.loop new)) (delete_sw src s.w_list)
            others;
      small = omega arith;
    })

-- `h6_sched_remove` returns 0 and takes the newest entry of the event off the list and its weight
-- off its loop and the total, or returns -1 and changes nothing where no entry is the event's.
pub sched_remove_lem : (s : Sched) (src : ℕ) → IsValid s → Removed src s (sched_remove s src)
unfolding sched_remove
sched_remove_lem s src v = del_found_lem s src v (find_sw src s.w_list) refl

-- Adding a weight and subtracting it again leaves the loops as they were.
set_weight-set_weight :
    (l : List ℕ) (i v weight : ℕ)
    → v ≡ weight_at l i + weight
    → v < u32_mod
    → i < length l
    → set_weight (set_weight l i v) i (sub_u32 (weight_at (set_weight l i v) i) weight) ≡ l
set_weight-set_weight [] i v weight e small h = absurd (omega arith)
set_weight-set_weight (w ∷ l) zero v weight e small h =
    let same : sub_u32 v weight ≡ w = omega arith in rw same refl
set_weight-set_weight (w ∷ l) (suc i) v weight e small h =
    rw (set_weight-set_weight l i v weight e small (omega arith)) refl

delete_sw-first : (sw : SrcWeight) (l : List SrcWeight) → delete_sw sw.src (sw ∷ l) ≡ l
delete_sw-first sw l = rw (==-refl sw.src) refl

-- Removing an event right after adding it restores a scheduler with valid accounts, as long as the
-- total with the event's weight is a `uint32_t` and there is a loop; the loop returned is the one that
-- the event was put on.
pub sched_remove-add :
    (s : Sched) (src weight : ℕ)
    → IsValid s
    → 0 < length s.loops
    → s.total_weight + weight < u32_mod
    → sched_remove (sched_add s src weight).0 src ≡ (some (sched_add s src weight).1, s)
unfolding sched_remove del_found sched_add
sched_remove-add s src weight v some_loop room =
    let best = find_best_loop s in
    let inside = (find_best_loop_lem s (sym v.sums) some_loop).0 in
    let new = add_u32 (weight_at s.loops best) weight in
    let bound = weight_at-le-sum s.loops best in
    let small : add_u32 (weight_at s.loops best) weight ≡ weight_at s.loops best + weight =
      omega (arith, bound, v.sums) in
    let weights = set_weight-set_weight s.loops best new weight small (omega arith) inside in
    let total : sub_u32 (add_u32 s.total_weight weight) weight ≡ s.total_weight = omega arith in
    rw (==-refl src)
      (rw (weights, total, delete_sw-first (src_weight weight src best) s.w_list) refl)
