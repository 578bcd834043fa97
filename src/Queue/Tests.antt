-- ===== src/Queue/Tests.antt =====
-- The theorems on queue.c at small queues, and runs.
use h.Base.{ℕ, ◌≡◌, ◌≢◌, refl, none, some, List, [], ◌∷◌, arith}
use h.Heap.{
  Ptr, list_node, Memory, put, done, fetch, set_value, set_next, set_prev, release, ◌>>=◌, Action,
  give,
}
use h.Heap.Chain.{Items, stop, link}
use h.Heap.Outcomes.{Ends}
use h.LinkList.{list_alloc, list_free_1, list_insert_head, list_insert_tail, list_last}
use h.Queue.{
  Queue, queue_t, queue_init, IsQueue, queue_push_tail, queue_push_head, queue_pop_head,
  queue_pop_tail,
}
use h.Queue.Pop.{Emptied, queue_pop_tail_lem}
use h.Queue.Script.{
  Clean, Call, push_tail, push_head, pop_head, count, clear, run_queue, run_queue_lem,
}

-- Two nodes, at 1 and 2.
abbrev memory : Memory
memory a = put 1 (some (list_node 10 2 0)) (put 2 (some (list_node 20 0 1)) (λ _. none)) a

abbrev items : Items
items = (1, 10) ∷ (2, 20) ∷ []

abbrev front : Items
front = (1, 10) ∷ []

abbrev queue : Queue
queue = queue_t 1 2 2

queue-IsQueue : IsQueue memory queue items
unfolding put
queue-IsQueue = record {
  chain =
      link (record { ne_null = omega arith; here = refl }) refl
        (link (record { ne_null = omega arith; here = refl }) refl stop);
  count = refl;
}

-- Three items in, two out at the head: the order of arrival.
script : Action (Ptr × Ptr × ℕ)
script = do
  q ← queue_push_tail 1 1 queue_init 10
  q ← queue_push_tail 1 2 q 20
  q ← queue_push_head 3 q 30
  (a, q) ← queue_pop_head q
  (b, q) ← queue_pop_head q
  give (a, b, q.count)

script_output : (g : Memory) × (script (λ _. none) ≡ done (30, 10, 1) g)
unfolding script queue_push_tail queue_push_head queue_pop_head list_insert_head list_insert_tail
    list_last list_alloc list_free_1 put fetch set_value set_next set_prev release
script_output = (_, refl)

queue_pop_tail_example :
    Ends
      (λ (out, queue') g.
        Emptied memory queue (2, 20) (out, queue') g
        × (front ≡ [] → IsQueue g queue' front)
        × (front ≢ [] → ¬ IsQueue g queue' front))
      (queue_pop_tail queue memory)
queue_pop_tail_example = queue_pop_tail_lem front queue-IsQueue

empty-IsQueue : IsQueue memory queue_init []
empty-IsQueue = record { chain = stop; count = refl }

-- A push that reuses the address that a pop gave back.
abbrev calls : List Call
calls = push_tail 3 30 ∷ pop_head ∷ push_head 4 40 ∷ count ∷ pop_head ∷ clear ∷ push_tail 3 50 ∷ []

run_queue_lem_example :
    Ends
      (λ (outs, q) g.
        (outs ≡ 0 ∷ 10 ∷ 0 ∷ 3 ∷ 40 ∷ 0 ∷ 0 ∷ [])
        × IsQueue g q ((3, 50) ∷ [])
        × Clean memory ((3, 50) ∷ []) g)
      (run_queue 10 calls queue memory)
unfolding put
run_queue_lem_example =
    run_queue_lem 10 calls items queue-IsQueue
      (
        (omega arith, refl, refl),
        (tt, ((omega arith, refl, refl), (tt, (tt, (tt, ((omega arith, refl, refl), tt)))))),
      )
      (omega arith)
