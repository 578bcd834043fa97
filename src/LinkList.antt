-- ===== src/LinkList.antt =====
-- The `list_*` functions of src/queue.c. `fresh` is what `calloc` returns; a loop is given `rounds`.
pub mod Ends
pub mod Insert
pub mod Find
pub mod Unlink
pub mod Free
use h.Base.{ℕ, zero, suc, Bool, true, false, not, ◌==◌, if◌then◌else◌}
use h.Heap.{
  Ptr, null, list_node, Memory, put, Action, starved, give, ◌>>=◌, ◌>>◌, fetch, store, set_value,
  set_next, set_prev, release,
}

-- A block of zeros, or NULL.
unfoldable pub list_alloc : Ptr → Action Ptr
list_alloc fresh = if fresh == null then give null else store fresh (list_node 0 0 0) >> give fresh

unfoldable pub list_free_1 : Ptr → Action (Unit {0})
list_free_1 list = if list == null then give tt else release list

pub list_free : ℕ → Ptr → Action (Unit {0})
list_free zero list = λ _. starved
list_free (suc rounds) list =
    if list == null then give tt else do n ← fetch list; list_free_1 list; list_free rounds n.next

unfoldable pub list_insert_head : Ptr → Ptr → Ptr → Action Ptr
list_insert_head fresh list value = do
  new ← list_alloc fresh
  if new == null then give null else do
    set_value new value
    set_next new list
    set_prev new null
    if list == null then give tt else set_prev list new
    give new

pub list_first : ℕ → Ptr → Action Ptr
list_first zero list = λ _. starved
list_first (suc rounds) list =
    if list == null
    then give list
    else do n ← fetch list; if n.prev == null then give list else list_first rounds n.prev

unfoldable pub list_last : ℕ → Ptr → Action Ptr
list_last zero list = λ _. starved
list_last (suc rounds) list =
    if list == null
    then give list
    else do n ← fetch list; if n.next == null then give list else list_last rounds n.next

unfoldable pub list_insert_tail : ℕ → Ptr → Ptr → Ptr → Action Ptr
list_insert_tail rounds fresh list value = do
  new ← list_alloc fresh
  if new == null then give null else do
    set_value new value
    set_next new null
    if list == null
        then set_prev new null >> give new
        else do last ← list_last rounds list; set_prev new last; set_next last new; give list

-- `head` is the caller's pointer, `list` the node that is looked at.
list_remove_loop : ℕ → (head list value : Ptr) → Action Ptr
list_remove_loop zero head list value = λ _. starved
list_remove_loop (suc rounds) head list value = if list == null then give head else do
  n ← fetch list
  if not (n.value == value) then list_remove_loop rounds head n.next value else do
    if n.prev == null then give tt else set_next n.prev n.next
    if n.next == null then give tt else set_prev n.next n.prev
    m ← fetch list
    list_free_1 list
    give (if head == list then m.next else head)

pub list_remove : ℕ → Ptr → Ptr → Action Ptr
list_remove rounds list value = list_remove_loop rounds list list value

list_remove_all_loop : ℕ → (head list value : Ptr) → Action Ptr
list_remove_all_loop zero head list value = λ _. starved
list_remove_all_loop (suc rounds) head list value = if list == null then give head else do
  n ← fetch list
  if not (n.value == value) then list_remove_all_loop rounds head n.next value else do
    if n.prev == null then give tt else set_next n.prev n.next
    if n.next == null then give tt else set_prev n.next n.prev
    list_free_1 list
    list_remove_all_loop rounds (if n.prev == null then n.next else head) n.next value

pub list_remove_all : ℕ → Ptr → Ptr → Action Ptr
list_remove_all rounds list value = list_remove_all_loop rounds list list value

pub list_remove_link : Ptr → Ptr → Action Ptr
list_remove_link list target = if target == null then give list else do
  n ← fetch target
  if n.next == null then give tt else set_prev n.next n.prev
  m ← fetch target
  if m.prev == null then give tt else set_next m.prev m.next
  k ← fetch target
  set_next target null
  set_prev target null
  give (if target == list then k.next else list)

pub list_delete_link : Ptr → Ptr → Action Ptr
list_delete_link list target = do
  list' ← list_remove_link list target
  list_free_1 target
  give list'

pub list_concat : ℕ → Ptr → Ptr → Action Ptr
list_concat rounds list1 list2 = if list2 == null then give list1 else do
  last ← list_last rounds list1
  if last == null then give tt else set_next last list2
  set_prev list2 last
  give (if last == null then list2 else list1)

pub list_find : ℕ → Ptr → Ptr → Action Ptr
list_find zero list value = λ _. starved
list_find (suc rounds) list value =
    if list == null
    then give list
    else do n ← fetch list; if n.value == value then give list else list_find rounds n.next value

-- `compare` is the caller's function on the node's data; it returns 0 where they agree.
pub list_find_custom : ℕ → Ptr → Ptr → (Ptr → Ptr → ℕ) → Action Ptr
list_find_custom zero list value compare = λ _. starved
list_find_custom (suc rounds) list value compare = if list == null then give list else do
  n ← fetch list
  if compare n.value value == 0 then give list else list_find_custom rounds n.next value compare

-- `visit` is the caller's function; `next` is read before it is called.
pub list_foreach : ℕ → Ptr → (Ptr → Ptr → Action (Unit {0})) → Ptr → Action (Unit {0})
list_foreach zero list visit value = λ _. starved
list_foreach (suc rounds) list visit value =
    if list == null
    then give tt
    else do n ← fetch list; visit n.value value; list_foreach rounds n.next visit value
