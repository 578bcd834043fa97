-- ===== src/Links.antt =====
-- include/list.h: circular lists through nodes that stand inside other objects. A node is a number,
-- 0 is NULL.
pub mod Apart
pub mod Joins
pub mod Insert
pub mod Remove
use h.Base.{ℕ, Bool, true, false, Option, none, some, ◌||◌, ◌==◌, if◌then◌else◌}
use h.Base.Yields.{◌>>=◌}

-- The two pointers of each `list_head`.
pub record Links : Type 0 where
  pub next : ℕ → ℕ
  pub prev : ℕ → ℕ

abbrev pub set : ℕ → ℕ → (ℕ → ℕ) → ℕ → ℕ
set p v f q = if q == p then v else f q

-- `INIT_LIST_HEAD`
abbrev pub list_init : ℕ → Links → Links
list_init p m = record { next = set p p m.next; prev = set p p m.prev }

-- `__list_add`
abbrev pub add_between : ℕ → ℕ → ℕ → Links → Links
add_between new prev next m = record {
  next = set prev new (set new next m.next);
  prev = set new prev (set next new m.prev);
}

pub list_add : ℕ → ℕ → Links → Links
list_add new head m = add_between new head (m.next head) m

-- `__list_del`; `none` where it writes through NULL.
abbrev pub join_ends : ℕ → ℕ → Links → Option Links
join_ends prev next m =
    if prev == 0 || next == 0
    then none
    else some (record { next = set prev next m.next; prev = set next prev m.prev })

abbrev pub clear : ℕ → Links → Links
clear entry m = record { next = set entry 0 m.next; prev = set entry 0 m.prev }

pub list_del : ℕ → Links → Option Links
list_del entry m = join_ends (m.prev entry) (m.next entry) m >>= (λ m. some (clear entry m))

pub list_del_init : ℕ → Links → Option Links
list_del_init entry m =
    join_ends (m.prev entry) (m.next entry) m >>= (λ m. some (list_init entry m))

abbrev pub list_empty : ℕ → Links → Bool
list_empty head m = m.next head == head
