-- ===== src/Sched.antt =====
-- src/h6_sched.c: the loads of the event loops and the events on them. `list_insert_head`,
-- `list_find_custom` and `list_delete_link` on `w_list` are those of a list; a loop is its index.
pub mod Best
pub mod Accounts
pub mod Remove
pub mod Balance
mod Tests
use h.Base.{ℕ, zero, suc, ◌+◌, Option, none, some, List, [], ◌∷◌, ltb, ◌==◌, if◌then◌else◌, length}
use h.Base.Words.{add_u32, sub_u32}

-- `h6_src_weight`: an event, its weight, and the loop that it was given to.
pub record SrcWeight : Type 0 where
  pub w : ℕ
  pub src : ℕ
  pub loop : ℕ

abbrev pub src_weight : ℕ → ℕ → ℕ → SrcWeight
src_weight w src loop = record { w = w; src = src; loop = loop }

-- `h6_scher_t`: the weights of the loops, of which there are `count`, and of the events.
pub record Sched : Type 0 where
  pub loops : List ℕ
  pub total_weight : ℕ
  pub w_list : List SrcWeight

-- `loops[i].weight`
abbrev pub weight_at : List ℕ → ℕ → ℕ
weight_at [] i = 0
weight_at (w ∷ l) zero = w
weight_at (w ∷ l) (suc i) = weight_at l i

abbrev pub set_weight : List ℕ → ℕ → ℕ → List ℕ
set_weight [] i v = []
set_weight (w ∷ l) zero v = v ∷ l
set_weight (w ∷ l) (suc i) v = w ∷ set_weight l i v

abbrev pub zeros : ℕ → List ℕ
zeros zero = []
zeros (suc n) = 0 ∷ zeros n

-- `h6_sched_new`, with the weights that `h6_loop_init` sets.
pub sched_new : ℕ → Sched
sched_new loops = record { loops = zeros loops; total_weight = 0; w_list = [] }

-- The loop of `h6_find_best_loop`: the weights from `idx` on.
pub best_from : List ℕ → (idx best_w best_i : ℕ) → ℕ
best_from [] idx best_w best_i = best_i
best_from (w ∷ l) idx best_w best_i =
    best_from l (suc idx) (if ltb w best_w then w else best_w)
      (if ltb w best_w then idx else best_i)

pub find_best_loop : Sched → ℕ
unfolding best_from
find_best_loop s = best_from s.loops 0 s.total_weight 0

-- `h6_sched_add`, with the loop that the event is attached to.
pub sched_add : Sched → ℕ → ℕ → Sched × ℕ
sched_add s src weight =
    let best = find_best_loop s in
    (
      record {
        loops = set_weight s.loops best (add_u32 (weight_at s.loops best) weight);
        total_weight = add_u32 s.total_weight weight;
        w_list = src_weight weight src best ∷ s.w_list;
      },
      best,
    )

-- `list_find_custom` by `h6_loop_find_sw`, and `list_delete_link` of what it finds.
abbrev pub find_sw : ℕ → List SrcWeight → Option SrcWeight
find_sw src [] = none
find_sw src (sw ∷ l) = if sw.src == src then some sw else find_sw src l

abbrev pub delete_sw : ℕ → List SrcWeight → List SrcWeight
delete_sw src [] = []
delete_sw src (sw ∷ l) = if sw.src == src then l else sw ∷ delete_sw src l

-- `h6_sched_del_weight` of what was found. Nothing found is -1.
pub del_found : Sched → ℕ → Option SrcWeight → Option ℕ × Sched
del_found s src none = (none, s)
del_found s src (some sw) = (
  some sw.loop,
  record {
    loops = set_weight s.loops sw.loop (sub_u32 (weight_at s.loops sw.loop) sw.w);
    total_weight = sub_u32 s.total_weight sw.w;
    w_list = delete_sw src s.w_list;
  },
)

-- `h6_sched_remove`, with the loop that the event is removed from; `none` is -1.
pub sched_remove : Sched → ℕ → Option ℕ × Sched
unfolding del_found
sched_remove s src = del_found s src (find_sw src s.w_list)
