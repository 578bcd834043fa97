-- ===== src/Trace/System/Delivered.antt =====
-- What the two threads reach: nothing is lost or reordered.
use h.Base.{ℕ, ◌+◌, ◌≤◌, ◌<◌, ◌≡◌, sym, ap, ◌∙◌, ◌⊎◌, inl, inr, false, [], ◌++◌, append-nil}
use h.Base.Words.{u32_mod}
use h.Trace.{trace_line_max_size}
use h.Trace.Valid.{IsValid, contents}
use h.Trace.System.{finished, System, Reach, here, next, AllTidy}
use h.Trace.System.Inv.{is_loud, Inv, initial-Inv, Step-Inv}

Reach-Inv :
    {size : ℕ} {s : System}
    → trace_line_max_size ≤ size
    → size + size < u32_mod
    → (reached : Reach size s) → AllTidy reached
    → Inv s
Reach-Inv big small here tidy = initial-Inv _ big small
Reach-Inv big small (next before step) tidy =
    Step-Inv (Reach-Inv big small before tidy.0) step tidy.1

-- Where the ring's size is at least 4096 and less than 2 ^ 31, in every state that the two threads
-- reach by writing only strings that have no zero and are shorter than the ring's size, the ring is valid and what was printed, followed by what the ring holds, is what was
-- written, in order.
pub in_order_lem :
    {size : ℕ} {s : System}
    → trace_line_max_size ≤ size
    → size + size < u32_mod
    → (reached : Reach size s) → AllTidy reached
    → IsValid s.ring × (s.output ++ contents s.ring ≡ s.sent)
in_order_lem big small reached tidy =
    let inv = Reach-Inv big small reached tidy in (inv.flow.valid, inv.flow.all)

-- Where the ring's size is at least 4096 and less than 2 ^ 31 and the strings written have no zero and
-- are shorter than the ring's size: in a state that the two threads reach in which the worker is not about
-- to print, the semaphore is 0 and the other thread is not about to post it, or in which the worker has
-- ended, all that was written has been printed, in order.
pub delivered_lem :
    {size : ℕ} {s : System}
    → trace_line_max_size ≤ size
    → size + size < u32_mod
    → (reached : Reach size s) → AllTidy reached
    → ((is_loud s ≡ false) ⊎ (s.worker ≡ finished))
    → s.output ≡ s.sent
delivered_lem {s = s} big small reached tidy at_rest =
    let inv = Reach-Inv big small reached tidy in
    let nothing : contents s.ring ≡ [] = elim at_rest [
      | inl silent ↦ inv.heard silent
      | inr ended ↦ inv.done ended
    ] in
    sym (append-nil s.output) ∙ ap (λ r. s.output ++ r) (sym nothing) ∙ inv.flow.all
