-- ===== src/Queue/Clear.antt =====
-- `queue_clear` empties a queue and gives its nodes back.
use h.Base.{ℕ, ◌<◌, [], arith, length}
use h.Heap.{Memory}
use h.Heap.Chain.{Items, stop}
use h.Heap.Outcomes
use h.Heap.Outcomes.{Ends, ends}
use h.LinkList.Free.{Freed, list_free_lem}
use h.Queue.{Queue, IsQueue, queue_clear}

-- With a round for each item and one more, `queue_clear` leaves the empty queue, and of the memory
-- all but the queue's nodes.
pub queue_clear_lem :
    {h : Memory} {queue : Queue} {xs : Items} (rounds : ℕ)
    → IsQueue h queue xs
    → length xs < rounds
    → Ends (λ queue' g. IsQueue g queue' [] × Freed xs h g) (queue_clear rounds queue h)
unfolding queue_clear
queue_clear_lem rounds is fuel =
    Outcomes.next (list_free_lem rounds is.chain fuel)
      λ _ g gone. ends (record { chain = stop; count = omega arith }, gone)
