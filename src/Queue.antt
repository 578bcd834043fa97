-- ===== src/Queue.antt =====
-- The `queue_*` functions of src/queue.c. A `queue_t` is owned by the caller and is never NULL, so
-- each function takes it and returns it; `assert(queue != NULL)` always holds.
pub mod Push
pub mod Pop
pub mod Clear
pub mod Script
mod Tests
use h.Base.{ℕ, suc, ◌≡◌, Option, none, some, ◌==◌, if◌then◌else◌, ◌%◌, length}
use h.Base.Words.{u32_mod, add_u32, sub_u32}
use h.Heap.{Ptr, null, Memory, Action, give, ◌>>=◌, ◌>>◌, fetch, set_prev}
use h.Heap.Chain.{Items, Chain}
use h.LinkList.{list_insert_head, list_insert_tail, list_free, list_free_1, list_foreach}

pub record Queue : Type 0 where
  pub head : Ptr
  pub tail : Ptr
  pub count : ℕ

abbrev pub queue_t : Ptr → Ptr → ℕ → Queue
queue_t f l n = record { head = f; tail = l; count = n }

-- `memset(queue, 0, sizeof(queue_t))`
abbrev pub queue_init : Queue
queue_init = queue_t null null 0

-- `queue_new`, where `calloc` returns memory, and `queue_free`. The memory of the `queue_t` itself is
-- not among the nodes.
abbrev pub queue_new : Queue
queue_new = queue_t null null 0

pub queue_push_tail : ℕ → Ptr → Queue → Ptr → Action Queue
queue_push_tail rounds fresh queue value = do
  tail ← list_insert_tail rounds fresh queue.tail value
  n ← fetch tail
  let q =
      if n.next == null
      then record queue { head = tail; tail = tail }
      else record queue { tail = n.next }
  give (record q { count = add_u32 q.count 1 })

-- The data of the first node, or NULL.
pub queue_pop_head : Queue → Action (Ptr × Queue)
queue_pop_head queue = if queue.head == null then give (null, queue) else do
  n ← fetch queue.head
  if n.next == null then give tt else set_prev n.next null
  let tail = if n.next == null then null else queue.tail
  list_free_1 queue.head
  give (n.value, record { head = n.next; tail = tail; count = sub_u32 queue.count 1 })

-- The test of the source compares `queue->tail` with itself.
pub queue_pop_tail : Queue → Action (Ptr × Queue)
queue_pop_tail queue = if queue.tail == null then give (null, queue) else do
  n ← fetch queue.tail
  let q =
      if queue.tail == queue.tail
      then record queue { head = null; tail = null }
      else record queue { tail = n.prev }
  list_free_1 queue.tail
  give (n.value, record q { count = sub_u32 q.count 1 })

pub queue_push_head : Ptr → Queue → Ptr → Action Queue
queue_push_head fresh queue value = do
  head ← list_insert_head fresh queue.head value
  let q =
      if queue.head == null
      then record queue { head = head; tail = head }
      else record queue { head = head }
  give (record q { count = add_u32 q.count 1 })

pub queue_length : Queue → ℕ
queue_length queue = queue.count

pub queue_clear : ℕ → Queue → Action Queue
queue_clear rounds queue = list_free rounds queue.head >> give queue_init

pub queue_free : ℕ → Queue → Action (Unit {0})
queue_free rounds queue = list_free rounds queue.head

pub queue_foreach : ℕ → Queue → (Ptr → Ptr → Action (Unit {0})) → Ptr → Action (Unit {0})
queue_foreach rounds queue visit value =
    if queue.head == null then give tt else list_foreach rounds queue.head visit value

-- The queue holds the items, from head to tail, and its counter is their number modulo 2 ^ 32.
pub record IsQueue (h : Memory) (queue : Queue) (xs : Items) : Type 0 where
  pub chain : Chain h queue.tail null null queue.head xs
  pub count : queue.count ≡ length xs % u32_mod
