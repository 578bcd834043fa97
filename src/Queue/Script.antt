-- ===== src/Queue/Script.antt =====
-- Any sequence of calls on a queue answers as the same calls on a sequence of values.
use h.Base.{
  ℕ, zero, suc, ◌+◌, ◌%◌, ◌≤◌, ◌<◌, ◌≡◌, ◌≢◌, refl, ap, inl, inr, Bool-cases, ==-eq, ◌∙◌, false,
  none, List, [], ◌∷◌, ◌++◌, length, length-append, ap₂, ◌==◌, arith,
}
use h.Base.Words.{u32_mod}
use h.Heap.{Ptr, null, Memory, Action, give, ◌>>=◌, ◌>>◌}
use h.Heap.Chain.{Items, has, has-append, stop}
use h.Heap.Outcomes
use h.Heap.Outcomes.{Ends, ends, weaken}
use h.LinkList.Free.{Freed, list_free_lem}
use h.Queue.{
  queue_new, queue_free, Queue, IsQueue, queue_push_tail, queue_push_head, queue_pop_head,
  queue_length, queue_clear,
}
use h.Queue.Push.{queue_push_tail_lem, queue_push_head_lem}
use h.Queue.Pop.{queue_pop_head_lem, queue_pop-empty}
use h.Queue.Clear.{queue_clear_lem}

-- A call; a push has the pointer that `calloc` returns in it, and the value.
pub data Call : Type 0 where
  push_tail push_head : Ptr → Ptr → Call
  pop_head count clear : Call

-- A call on a queue, and what it returns: a value or a count, and 0 where it returns nothing.
pub call_queue : ℕ → Call → Queue → Action (ℕ × Queue)
call_queue rounds (push_tail p v) queue = do q ← queue_push_tail rounds p queue v; give (0, q)
call_queue rounds (push_head p v) queue = do q ← queue_push_head p queue v; give (0, q)
call_queue rounds pop_head queue = queue_pop_head queue
call_queue rounds count queue = give (queue_length queue, queue)
call_queue rounds clear queue = do q ← queue_clear rounds queue; give (0, q)

pub run_queue : ℕ → List Call → Queue → Action (List ℕ × Queue)
run_queue rounds [] queue = give ([], queue)
run_queue rounds (c ∷ calls) queue = do
  (out, q) ← call_queue rounds c queue
  (outs, q) ← run_queue rounds calls q
  give (out ∷ outs, q)

-- The same calls on the items, in their order.
abbrev pub call_items : Call → Items → ℕ × Items
call_items (push_tail p v) xs = (0, xs ++ ((p, v) ∷ []))
call_items (push_head p v) xs = (0, (p, v) ∷ xs)
call_items pop_head [] = (null, [])
call_items pop_head ((p, v) ∷ xs) = (v, xs)
call_items count xs = (length xs % u32_mod, xs)
call_items clear xs = (0, [])

abbrev pub run_items : List Call → Items → List ℕ × Items
run_items [] xs = ([], xs)
run_items (c ∷ calls) xs =
    let (out, ys) = call_items c xs in let (outs, zs) = run_items calls ys in (out ∷ outs, zs)

-- The pointer of a push is memory that is not in use: neither in the memory before the first call
-- nor in the queue at the time; a node that was given back may come again.
abbrev pub Fresh : Memory → Call → Items → Type 0
Fresh h (push_tail p v) xs = (p ≢ null) × (h p ≡ none) × (has p xs ≡ false)
Fresh h (push_head p v) xs = (p ≢ null) × (h p ≡ none) × (has p xs ≡ false)
Fresh h _ xs = Unit

abbrev pub AllFresh : Memory → List Call → Items → Type 0
AllFresh h [] xs = Unit
AllFresh h (c ∷ calls) xs = Fresh h c xs × AllFresh h calls (call_items c xs).1

-- What is free at first and not in the queue is free.
abbrev pub Clean : Memory → Items → Memory → Type 0
Clean h xs g = (a : Ptr) → h a ≡ none → has a xs ≡ false → g a ≡ none

popped-Clean :
    {h g g' : Memory} (x : Ptr × Ptr) (xs : Items)
    → Clean h (x ∷ xs) g
    → g' x.0 ≡ none
    → ((a : Ptr) → a ≢ x.0 → has a xs ≡ false → g' a ≡ g a)
    → Clean h xs g'
popped-Clean {g' = g'} x xs clean freed same a free out = elim (Bool-cases (a == x.0)) [
  | inl e ↦ ap g' (==-eq a x.0 e) ∙ freed
  | inr ne ↦ same a (ground arith) out ∙ clean a free (ground arith)
]

cleared-Clean : {h g g' : Memory} (xs : Items) → Clean h xs g → Freed xs g g' → Clean h [] g'
cleared-Clean xs clean gone a free out = elim (Bool-cases (has a xs)) [
  | inl inside ↦ gone a ∙ rw inside refl
  | inr outside ↦ gone a ∙ rw outside (clean a free outside)
]

abbrev Answers : Memory → Call → Items → ℕ × Queue → Memory → Type 0
Answers h c xs (out, q) g =
    (out ≡ (call_items c xs).0) × IsQueue g q (call_items c xs).1 × Clean h (call_items c xs).1 g

call_queue_lem :
    {h g : Memory} {queue : Queue} (rounds : ℕ) (c : Call) (xs : Items)
    → IsQueue g queue xs
    → Clean h xs g
    → Fresh h c xs
    → length xs < rounds
    → Ends (Answers h c xs) (call_queue rounds c queue g)
unfolding call_queue queue_length
call_queue_lem zero c xs is clean fresh enough = absurd (omega arith)
call_queue_lem (suc k) (push_tail p v) xs is clean (ne, unused, away) enough =
    Outcomes.next (queue_push_tail_lem p v ne (clean p unused away) k is) λ q g' (is', same). ends (
      refl,
      is',
      λ a free out. same a out ∙ clean a free (ground (arith, has-append a xs ((p, v) ∷ []))),
    )
call_queue_lem (suc k) (push_head p v) xs is clean (ne, unused, away) enough =
    Outcomes.next (queue_push_head_lem p v ne (clean p unused away) is)
      λ q g' (is', same). ends (refl, is', λ a free out. same a out ∙ clean a free (ground arith))
call_queue_lem (suc k) pop_head [] is clean fresh enough =
    rw (queue_pop-empty is).0 (ends (refl, is, clean))
call_queue_lem (suc k) pop_head (x ∷ xs) is clean fresh enough =
    weaken (queue_pop_head_lem is) λ (out, q) g' (same_out, is', freed, same).
      (same_out, is', popped-Clean x xs clean freed same)
call_queue_lem (suc k) count xs is clean fresh enough = ends (is.count, is, clean)
call_queue_lem (suc k) clear xs is clean fresh enough =
    Outcomes.next (queue_clear_lem (suc k) is enough)
      λ q g' (is', gone). ends (refl, is', cleared-Clean xs clean gone)

length-call : (c : Call) (xs : Items) → length (call_items c xs).1 ≤ suc (length xs)
length-call (push_tail p v) xs = omega (arith, length-append xs ((p, v) ∷ []))
length-call (push_head p v) xs = omega arith
length-call pop_head [] = omega arith
length-call pop_head (x ∷ xs) = omega arith
length-call count xs = omega arith
length-call clear xs = omega arith

run_queue-from :
    {h g : Memory} {queue : Queue} (rounds : ℕ) (calls : List Call) (xs : Items)
    → IsQueue g queue xs
    → Clean h xs g
    → AllFresh h calls xs
    → length calls + length xs < rounds
    → Ends
        (λ (outs, q) g'.
          (outs ≡ (run_items calls xs).0)
          × IsQueue g' q (run_items calls xs).1
          × Clean h (run_items calls xs).1 g')
        (run_queue rounds calls queue g)
unfolding run_queue
run_queue-from rounds [] xs is clean fresh enough = ends (refl, is, clean)
run_queue-from rounds (c ∷ calls) xs is clean fresh enough =
    Outcomes.next (call_queue_lem rounds c xs is clean fresh.0 (omega arith))
      λ (out, q) g' (same, is', clean').
        Outcomes.next
          (run_queue-from rounds calls (call_items c xs).1 is' clean' fresh.1
            (omega (arith, length-call c xs)))
          λ (outs, q') g'' (rest, is'', clean''). ends (ap₂ (λ x r. x ∷ r) same rest, is'', clean'')

-- Where each push gets memory that is not in use, and the rounds are more than the calls and the
-- items together, any sequence of pushes, pops at the head, counts and clearings of a queue ends
-- without a fault, answers as the same calls on the sequence of its items, and leaves a queue of what
-- they leave; all memory that was not in use at first is not in use, but for the nodes of that queue.
pub run_queue_lem :
    {h : Memory} {queue : Queue} (rounds : ℕ) (calls : List Call) (xs : Items)
    → IsQueue h queue xs
    → AllFresh h calls xs
    → length calls + length xs < rounds
    → Ends
        (λ (outs, q) g.
          (outs ≡ (run_items calls xs).0)
          × IsQueue g q (run_items calls xs).1
          × Clean h (run_items calls xs).1 g)
        (run_queue rounds calls queue h)
run_queue_lem rounds calls xs is fresh enough =
    run_queue-from rounds calls xs is (λ a free out. free) fresh enough

length-run :
    (calls : List Call) (xs : Items) → length (run_items calls xs).1 ≤ length calls + length xs
length-run [] xs = omega arith
length-run (c ∷ calls) xs = omega (arith, length-run calls (call_items c xs).1, length-call c xs)

-- A queue from `queue_new` to `queue_free`, with the calls between.
pub queue_life : ℕ → List Call → Action (List ℕ)
queue_life rounds calls = do
  (outs, q) ← run_queue rounds calls queue_new
  queue_free rounds q
  give outs

-- The same for a new queue that is freed after the calls: where each push gets memory that is not in
-- use, and the rounds are more than the calls, this ends without a fault, answers as the calls on the
-- empty sequence, and all memory that was not in use at first is not in use at the end.
pub queue_life_lem :
    {h : Memory} (rounds : ℕ) (calls : List Call)
    → AllFresh h calls []
    → length calls < rounds
    → Ends
        (λ outs g. (outs ≡ (run_items calls []).0) × ((a : Ptr) → h a ≡ none → g a ≡ none))
        (queue_life rounds calls h)
unfolding queue_life queue_free
queue_life_lem rounds calls fresh enough =
    let new : IsQueue _ queue_new [] = record { chain = stop; count = omega arith } in
    Outcomes.next (run_queue-from rounds calls [] new (λ a free out. free) fresh (omega arith))
      λ (outs, q) g (same, is, clean).
        Outcomes.next (list_free_lem rounds is.chain (omega (arith, length-run calls [])))
          λ _ g' gone.
            ends (same, λ a free. cleared-Clean (run_items calls []).1 clean gone a free refl)
