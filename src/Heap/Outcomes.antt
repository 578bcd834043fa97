-- ===== src/Heap/Outcomes.antt =====
-- Total correctness of an action: no trap, rounds enough, and a postcondition.
use h.Heap.{Memory, Outcome, done, Action, chain_to}

pub data Ends {A : Type 0} (Post : A → Memory → Type 0) : Outcome A → Type 0 where
  ends : {a : A} {h : Memory} → Post a h → Ends Post (done a h)

module _ {A : Type 0} {Post : A → Memory → Type 0} where
  pub next :
      {B : Type 0} {Then : B → Memory → Type 0} {o : Outcome A} {k : A → Action B}
      → Ends Post o
      → ((a : A) (h : Memory) → Post a h → Ends Then (k a h))
      → Ends Then (chain_to k o)
  next (ends p) continue = continue _ _ p

  pub weaken :
      {Weak : A → Memory → Type 0} {o : Outcome A}
      → Ends Post o
      → ((a : A) (h : Memory) → Post a h → Weak a h)
      → Ends Weak o
  weaken (ends p) f = ends (f _ _ p)
