-- ===== src/Sched/Tests.antt =====
-- Runs of the scheduler, and its theorems at concrete inputs.
use h.Base.{ℕ, ◌+◌, ◌≤◌, ◌<◌, ◌≡◌, refl, some, List, [], ◌∷◌, ◌==◌, if◌then◌else◌, length, arith}
use h.Base.Words.{u32_mod}
use h.Sched.{
  Sched, src_weight, weight_at, best_from, find_best_loop, sched_new, sched_add, sched_remove,
}
use h.Sched.Accounts.{IsValid, sched_add_lem}
use h.Sched.Remove.{Removed, sched_remove_lem, sched_remove-add}
use h.Sched.Balance.{IsBalanced, entries, sched_add_all, sched_add_all_lem}

-- Two loops, with event 7 of weight 3 and event 8 of weight 2.
abbrev jobs : List (ℕ × ℕ)
jobs = (7, 3) ∷ (8, 2) ∷ []

busy : Sched
busy = sched_add_all (sched_new 2) jobs

busy_state : busy.loops ≡ 3 ∷ 2 ∷ []
unfolding busy sched_add_all sched_add find_best_loop best_from sched_new
busy_state = refl

busy_weight : busy.total_weight ≡ 5
unfolding busy sched_add_all sched_add sched_new
busy_weight = refl

sched_add_all_lem_example :
    IsValid (sched_add_all (sched_new 2) jobs)
    × IsBalanced 3 (sched_add_all (sched_new 2) jobs).loops
    × (entries (sched_add_all (sched_new 2) jobs).w_list ≡ (8, 2) ∷ (7, 3) ∷ [])
sched_add_all_lem_example =
    sched_add_all_lem 2 jobs 3 (omega arith) (omega arith) (omega arith, (omega arith, tt))

busy-IsValid : IsValid busy
unfolding busy
busy-IsValid =
    (sched_add_all_lem 2 jobs 3 (omega arith) (omega arith) (omega arith, (omega arith, tt))).0

busy_room : (w : ℕ) → w ≤ 100 → busy.total_weight + w < u32_mod
busy_room w h = omega (arith, busy_weight)

busy_loops : 0 < length busy.loops
busy_loops = rw busy_state (omega arith)

sched_add_lem_example :
    IsValid (sched_add busy 9 4).0
    × ((j : ℕ)
        → j < length busy.loops
        → weight_at busy.loops (sched_add busy 9 4).1 ≤ weight_at busy.loops j)
    × ((sched_add busy 9 4).1 < length busy.loops)
    × ((sched_add busy 9 4).0.w_list ≡ src_weight 4 9 (sched_add busy 9 4).1 ∷ busy.w_list)
    × ((sched_add busy 9 4).0.total_weight ≡ busy.total_weight + 4)
    × (length (sched_add busy 9 4).0.loops ≡ length busy.loops)
    × ((j : ℕ)
        → weight_at (sched_add busy 9 4).0.loops j ≡ (
            if (sched_add busy 9 4).1 == j
            then weight_at busy.loops j + 4
            else weight_at busy.loops j))
sched_add_lem_example = sched_add_lem busy 9 4 busy-IsValid busy_loops (busy_room 4 (omega arith))

sched_remove-add_example :
    sched_remove (sched_add busy 9 4).0 9 ≡ (some (sched_add busy 9 4).1, busy)
sched_remove-add_example =
    sched_remove-add busy 9 4 busy-IsValid busy_loops (busy_room 4 (omega arith))

sched_remove_lem_example : Removed 8 busy (sched_remove busy 8)
sched_remove_lem_example = sched_remove_lem busy 8 busy-IsValid
