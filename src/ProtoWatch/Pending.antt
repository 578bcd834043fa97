-- ===== src/ProtoWatch/Pending.antt =====
-- `__proto_watch_write_pending`: the queue goes out in order.
use h.Base.{ℕ, zero, suc, ◌<◌, ◌≡◌, ◌≢◌, refl, ◌∙◌, false, Option, none, List, [], length, arith}
use native.Mathlib.Decide.{ℕ_discrete}
use h.Base.Yields.{Yields, yields, Yields-bind, Yields-weaken}
use h.Errno.{Code, ok, minus}
use h.MemBlock.{MemBlock}
use h.ProtoWatch.{
  Watch, SendResult, Progress, write_pending_loop, pending_step, pending_round, write_pending,
  drop_block,
}
use h.ProtoWatch.Send.{TakesAtMost, Written, write_directly_lem}
use h.ProtoWatch.Valid.{held, IsValid}
use h.ProtoWatch.Continues.{
  Continues, Continues-trans, Next, next_block-Next, next_block-none, keep_block-Continues,
  drop_block-Continues, stop-Continues,
}

-- How `__proto_watch_write_pending` returns: 0 with nothing left and EV_WRITE off, or an error with
-- a block still in `write_buffer` and EV_WRITE as it was.
pub record Drained {Net : Type 0} (w : Watch Net) (r : Code × Watch Net) : Type 0 where
  pub continues : Continues w r.1
  pub all_out : r.0 ≡ ok → (r.1.write_buffer ≡ none) × (r.1.backlog ≡ []) × (r.1.ev_write ≡ false)
  pub stopped : r.0 ≢ ok → (held r.1 ≢ 0) × (r.1.ev_write ≡ w.ev_write)

module _ {Net : Type 0} (send : Net → List ℕ → SendResult × Net) (law : TakesAtMost send) where
  Drained-trans :
      {a b : Watch Net} {r : Code × Watch Net}
      → Continues a b
      → b.ev_write ≡ a.ev_write
      → Drained b r
      → Drained a r
  Drained-trans p same d = record {
    continues = Continues-trans p d.continues;
    all_out = d.all_out;
    stopped = λ h. ((d.stopped h).0, (d.stopped h).1 ∙ same);
  }

  module _ (again : Watch Net → Option (Code × Watch Net)) {w : Watch Net}
      (ih : (w' : Watch Net)
        → IsValid w'
        → w'.connecting ≡ false
        → held w' < held w
        → Yields (Drained w') (again w')) where
    pending_step-Drained :
        {w' : Watch Net} {mb : MemBlock}
        → w'.connecting ≡ false
        → Next w (mb, w')
        → (r : Progress Net) → Written w'.socket mb r
        → Yields (Drained w) (pending_step send again w' r)
    unfolding pending_step
    pending_step-Drained {w'} calm nx (ok, mb', s) wr =
        let dropped = drop_block-Continues nx.continues.valid nx.in_buffer wr refl in
        Yields-weaken
          (ih (drop_block w' mb' s) dropped.valid calm (ground (arith, nx.fewer, nx.in_buffer)))
          λ r d. Drained-trans (Continues-trans nx.continues dropped) nx.same_write d
    pending_step-Drained {w'} calm nx (minus e, mb', s) wr = yields (record {
      continues =
          Continues-trans nx.continues (keep_block-Continues nx.continues.valid nx.in_buffer wr);
      all_out = λ h. cc;
      stopped = λ h. (ground arith, nx.same_write);
    })

    pending_round-Drained :
        {o : Option (MemBlock × Watch Net)}
        → w.connecting ≡ false
        → Yields (Next w) o
        → Yields (Drained w) (pending_round send again w o)
    unfolding pending_round
    pending_round-Drained calm (yields nx) =
        Yields-bind (write_directly_lem send law _ _ nx.fits)
          λ r wr. pending_step-Drained (nx.continues.same_connecting ∙ calm) nx r wr

  write_pending_loop-Drained :
      (rounds : ℕ) (w : Watch Net)
      → IsValid w
      → w.connecting ≡ false
      → held w < rounds
      → Yields (Drained w) (write_pending_loop send rounds w)
  unfolding write_pending_loop
  write_pending_loop-Drained zero w v calm fuel = absurd (omega arith)
  write_pending_loop-Drained (suc k) w v calm fuel = elim (ℕ_discrete (held w) 0) [
    | yes none_left ↦
        let (e, no_buffer, no_backlog) = next_block-none w none_left in
        rw (e, write_pending_loop)
          (yields (record {
            continues = stop-Continues v calm no_buffer no_backlog;
            all_out = λ h. (no_buffer, no_backlog, refl);
            stopped = λ h. absurd (h refl);
          }))
    | no some_left ↦
        pending_round-Drained (write_pending_loop send k)
          (λ w' v' calm' lt. write_pending_loop-Drained k w' v' calm' (omega arith)) calm
          (next_block-Next w v (omega arith))
  ]

  -- On a valid watch that is connected, `__proto_watch_write_pending` ends. What has been sent with
  -- what is still to be sent stays the same bytes in the same order; every block is owned or freed
  -- as before, and the watch is valid again. It returns 0 exactly with an empty queue and EV_WRITE
  -- taken off, and an error only with a block left and EV_WRITE as it was.
  pub write_pending_lem :
      (w : Watch Net) → IsValid w → w.connecting ≡ false → Yields (Drained w) (write_pending send w)
  unfolding write_pending
  write_pending_lem w v calm =
      write_pending_loop-Drained (suc (suc (length w.backlog))) w v calm (ground arith)
