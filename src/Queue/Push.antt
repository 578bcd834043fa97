-- ===== src/Queue/Push.antt =====
-- What `queue_push_tail` and `queue_push_head` add.
use h.Base.{ℕ, suc, ◌≡◌, ◌≢◌, refl, none, [], ◌∷◌, ◌++◌, ◌%◌, arith, length, length-append}
use h.Base.Words.{u32_mod, add_u32}
use h.Heap.{Ptr, null, Memory, put, trap, fetch}
use h.Heap.Cell.{not_null, fetch-done, Holds-put}
use h.Heap.Chain.{Items, Chain, stop, link, Chain-Rear}
use h.Heap.Outcomes
use h.Heap.Outcomes.{Ends, ends}
use h.LinkList.Insert.{
  Untouched, is_null, list_insert-null, list_insert_tail-nil, list_insert_tail-append,
  list_insert_head-nil, list_insert_head-cons,
}
use h.Queue.{Queue, queue_t, IsQueue, queue_push_tail, queue_push_head}

-- A queue of the items, written over a memory in which all else is as it was.
abbrev pub Pushed : Memory → Items → Queue → Memory → Type 0
Pushed h xs queue g = IsQueue g queue xs × Untouched xs h g

module _ {h : Memory} (fresh v : Ptr) (ne : fresh ≢ null) (unused : h fresh ≡ none) where
  push_tail-Chain :
      {f l n : Ptr} {xs : Items} (rounds : ℕ)
      → Chain h l null null f xs
      → n ≡ length xs % u32_mod
      → Ends
          (Pushed h (xs ++ (fresh, v) ∷ []))
          (queue_push_tail (suc rounds) fresh (queue_t f l n) v h)
  unfolding queue_push_tail put
  push_tail-Chain rounds stop count =
      rw (list_insert_tail-nil h fresh v ne (suc rounds), fetch-done (Holds-put h v null null ne))
        (ends (
          record { chain = link (Holds-put h v null null ne) refl stop; count = omega arith },
          λ a o. ground arith,
        ))
  push_tail-Chain rounds (link {xs} e out c) count =
      let r = Chain-Rear e c in
      Outcomes.next (list_insert_tail-append fresh v ne rounds unused r.holds e out c)
        λ list g (same_list, holds, chain, same).
          rw (same_list, fetch-done holds, is_null fresh ne)
            (ends (
              record { chain = chain; count = omega (arith, length-append xs ((fresh, v) ∷ [])) },
              same,
            ))

  -- Given a fresh node, `queue_push_tail` puts the new item behind all others, counts it, and
  -- writes nothing but the queue's nodes; one round of `list_last` is enough.
  pub queue_push_tail_lem :
      {queue : Queue} {xs : Items} (rounds : ℕ)
      → IsQueue h queue xs
      → Ends (Pushed h (xs ++ (fresh, v) ∷ [])) (queue_push_tail (suc rounds) fresh queue v h)
  queue_push_tail_lem rounds is = push_tail-Chain rounds is.chain is.count

  push_head-Chain :
      {f l n : Ptr} {xs : Items}
      → Chain h l null null f xs
      → n ≡ length xs % u32_mod
      → Ends (Pushed h ((fresh, v) ∷ xs)) (queue_push_head fresh (queue_t f l n) v h)
  unfolding queue_push_head put
  push_head-Chain stop count = rw (list_insert_head-nil h fresh v ne) (
      ends (
        record { chain = link (Holds-put h v null null ne) refl stop; count = omega arith },
        λ a o. ground arith,
      ))
  push_head-Chain (link {xs} e out c) count =
      Outcomes.next (list_insert_head-cons fresh v ne unused e out c)
        λ head g (same_head, chain, same).
          rw (same_head, not_null e) (ends (record { chain = chain; count = omega arith }, same))

  -- Given a fresh node, `queue_push_head` puts the new item before all others.
  pub queue_push_head_lem :
      {queue : Queue} {xs : Items}
      → IsQueue h queue xs
      → Ends (Pushed h ((fresh, v) ∷ xs)) (queue_push_head fresh queue v h)
  queue_push_head_lem is = push_head-Chain is.chain is.count

-- When `calloc` fails, `queue_push_tail` reads through NULL, whatever the queue.
pub queue_push_tail-null :
    (rounds : ℕ) (queue : Queue) (v : Ptr) (h : Memory)
    → queue_push_tail rounds null queue v h ≡ trap
unfolding queue_push_tail fetch
queue_push_tail-null rounds queue v h = rw ((list_insert-null rounds queue.tail v h).1)

-- When `calloc` fails, `queue_push_head` loses the queue's first node and counts an item all the
-- same, whatever the queue.
pub queue_push_head-null :
    (queue : Queue) (v : Ptr) (h : Memory)
    → Ends
        (λ queue' g. (queue'.head ≡ null) × (queue'.count ≡ add_u32 queue.count 1) × (g ≡ h))
        (queue_push_head null queue v h)
unfolding queue_push_head
queue_push_head-null queue v h =
    rw ((list_insert-null 0 queue.head v h).0) (ends (ground arith, ground arith, refl))
