-- ===== src/Heap.antt =====
-- The memory that src/queue.c works on: nodes of `struct _list` at addresses, and the actions that
-- read and write them. What `calloc` returns is an argument of the action.
pub mod Outcomes
pub mod Cell
pub mod Chain
pub mod Cut
use h.Base.{ℕ, Option, none, some, ◌==◌, if◌then◌else◌}

-- A `void *` or a `list_t *`; NULL is 0.
abbrev pub Ptr : Type 0
Ptr = ℕ

abbrev pub null : Ptr
null = 0

-- `struct _list`; its field `data` is `value` here.
pub record ListNode : Type 0 where
  pub value : Ptr
  pub next : Ptr
  pub prev : Ptr

abbrev pub list_node : Ptr → Ptr → Ptr → ListNode
list_node v q b = record { value = v; next = q; prev = b }

abbrev pub Memory : Type 0
Memory = Ptr → Option ListNode

unfoldable pub put : Ptr → Option ListNode → Memory → Memory
put p c h a = if a == p then c else h a

-- `trap` is an access through NULL or through a pointer to nothing, or a failed `assert`;
-- `starved` says that the rounds granted to a loop ran out.
pub data Outcome (A : Type 0) : Type 0 where
  done : A → Memory → Outcome A
  trap : Outcome A
  starved : Outcome A

abbrev pub Action : Type 0 → Type 0
Action A = Memory → Outcome A

abbrev pub give : {A : Type 0} → A → Action A
give a h = done a h

module _ {A B : Type 0} where
  abbrev pub chain_to : (A → Action B) → Outcome A → Outcome B
  chain_to k (done a h) = k a h
  chain_to k trap = trap
  chain_to k starved = starved

  infixl 5 ◌>>=◌ ◌>>◌
  abbrev pub ◌>>=◌ : Action A → (A → Action B) → Action B
  ◌>>=◌ m k h = chain_to k (m h)

  abbrev pub ◌>>◌ : Action A → Action B → Action B
  m >> k = m >>= λ _. k

-- `*p`
unfoldable pub fetch : Ptr → Action ListNode
fetch p h = if p == null then trap else elim (h p) [ none ↦ trap | some n ↦ done n h ]

abbrev pub store : Ptr → ListNode → Action (Unit {0})
store p n h = done tt (put p (some n) h)

-- `p->data = v`, `p->next = q` and `p->prev = b`
unfoldable pub set_value : Ptr → Ptr → Action (Unit {0})
set_value p v = do n ← fetch p; store p (record n { value = v })

unfoldable pub set_next : Ptr → Ptr → Action (Unit {0})
set_next p q = do n ← fetch p; store p (record n { next = q })

unfoldable pub set_prev : Ptr → Ptr → Action (Unit {0})
set_prev p b = do n ← fetch p; store p (record n { prev = b })

-- `free(p)` of a node; a second `free` of the same address is a trap.
unfoldable pub release : Ptr → Action (Unit {0})
release p = do n ← fetch p; λ h. done tt (put p none h)
