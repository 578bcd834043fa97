-- ===== src/Queue/Pop.antt =====
-- What `queue_pop_head` and `queue_pop_tail` take out.
use h.Base.{
  ap, ℕ, suc, ◌≡◌, ◌≢◌, refl, sym, false, none, some, [], ◌∷◌, ◌++◌, ◌%◌, ==-refl, arith, length,
  length-append,
}
use h.Base.Words.{u32_mod, sub_u32}
use h.Heap.{Ptr, null, list_node, Memory, put, done}
use h.Heap.Cell.{not_null, fetch-done, set_prev-done, release-done, Holds-put_ne}
use h.Heap.Chain.{Items, has, Chain, stop, link, Chain-nil, Chain-put, Chain-set_prev}
use h.Heap.Cut.{Chain-Cut}
use h.Heap.Outcomes.{Ends, ends, weaken}
use h.LinkList.{list_free_1}
use h.Queue.{Queue, queue_t, IsQueue, queue_pop_head, queue_pop_tail}

-- What a pop of the first item leaves: the other items, the first node free, and all else as it was.
abbrev pub Popped : Memory → Ptr × Ptr → Items → Ptr × Queue → Memory → Type 0
Popped h (p, v) xs (out, queue) g =
    (out ≡ v)
    × IsQueue g queue xs
    × (g p ≡ none)
    × ((a : Ptr) → a ≢ p → has a xs ≡ false → g a ≡ h a)

pop_head-Chain :
    {h : Memory} {f l n : Ptr} {x : Ptr × Ptr} {xs : Items}
    → Chain h l null null f (x ∷ xs)
    → n ≡ suc (length xs) % u32_mod
    → Ends (Popped h x xs) (queue_pop_head (queue_t f l n) h)
unfolding queue_pop_head list_free_1 put
pop_head-Chain (link e out stop) count =
    rw (not_null e, fetch-done e, release-done e)
      (ends (
        refl,
        record { chain = stop; count = omega arith },
        ground arith,
        λ a ne apart. ground arith,
      ))
pop_head-Chain {h} {f} (link {q} e out (link {q = q'} {v = v'} e' out' c)) count =
    let e'' = Holds-put_ne e q (some (list_node v' q' null)) (ground arith) in
    rw (not_null e, fetch-done e, not_null e', set_prev-done e' null, release-done e'')
      (ends (
        refl,
        record {
          chain = Chain-put f none (Chain-set_prev null e' out' c) out;
          count = omega arith;
        },
        ground arith,
        λ a ne apart. ground arith,
      ))

-- `queue_pop_head` returns the value of the first item, leaves the others in order, and gives the
-- first node back; no other memory changes.
pub queue_pop_head_lem :
    {h : Memory} {queue : Queue} {x : Ptr × Ptr} {xs : Items}
    → IsQueue h queue (x ∷ xs)
    → Ends (Popped h x xs) (queue_pop_head queue h)
queue_pop_head_lem is = pop_head-Chain is.chain is.count

-- A list that starts at NULL has no node.
no_items :
    {h : Memory} {last b p : Ptr} {xs : Items} → Chain h last null b p xs → p ≡ null → xs ≡ []
no_items stop e = refl
no_items (link at out c) e = absurd (at.ne_null e)

-- What `queue_pop_tail` leaves, whatever else the queue held: no node at all, one item less on the
-- counter, and every other node still allocated.
abbrev pub Emptied : Memory → Queue → Ptr × Ptr → Ptr × Queue → Memory → Type 0
Emptied h queue (p, v) (out, queue') g =
    (out ≡ v)
    × (queue' ≡ queue_t null null (sub_u32 queue.count 1))
    × (g p ≡ none)
    × ((a : Ptr) → a ≢ p → g a ≡ h a)

pop_tail-Chain :
    {h : Memory} {f l p v : Ptr} (n : ℕ) (xs : Items)
    → Chain h l null null f (xs ++ (p, v) ∷ [])
    → Ends (Emptied h (queue_t f l n) (p, v)) (queue_pop_tail (queue_t f l n) h)
unfolding queue_pop_tail list_free_1 put
pop_tail-Chain {h} {l} {p} n xs c =
    let cut = Chain-Cut xs c in
    let e : l ≡ p = sym (Chain-nil cut.rear).0 in
    rw (e, not_null cut.holds, fetch-done cut.holds, ==-refl, release-done cut.holds)
      (ends (refl, refl, ground arith, λ a ne. ground arith))

-- `queue_pop_tail` returns the value of the last item and frees its node. A queue of one item is
-- empty then; any longer queue is not the queue of the items in front, which stay allocated with
-- nothing that leads to them.
pub queue_pop_tail_lem :
    {h : Memory} {queue : Queue} {p v : Ptr} (xs : Items)
    → IsQueue h queue (xs ++ (p, v) ∷ [])
    → Ends
        (λ (out, queue') g.
          Emptied h queue (p, v) (out, queue') g
          × (xs ≡ [] → IsQueue g queue' xs)
          × (xs ≢ [] → ¬ IsQueue g queue' xs))
        (queue_pop_tail queue h)
queue_pop_tail_lem {queue} {p} {v} xs is =
    weaken (pop_tail-Chain queue.count xs is.chain)
      λ (out, queue') g (same_out, same_queue, freed, kept). (
        (same_out, same_queue, freed, kept),
        λ none_left.
            rw (same_queue, none_left)
              (record {
                chain = stop;
                count =
                    omega (arith, is.count, ap length none_left, length-append xs ((p, v) ∷ []));
              }),
        λ some_left bad. some_left (no_items bad.chain (ap (λ r. r.head) same_queue)),
      )

-- On an empty queue both pops return NULL and change nothing.
pub queue_pop-empty :
    {h : Memory} {queue : Queue}
    → IsQueue h queue []
    → (queue_pop_head queue h ≡ done (null, queue) h)
      × (queue_pop_tail queue h ≡ done (null, queue) h)
unfolding queue_pop_head queue_pop_tail
queue_pop-empty is = let e = Chain-nil is.chain in (rw (e.1), rw (← e.0))
