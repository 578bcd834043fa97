-- ===== src/EvLoop/Life.antt =====
-- src/h6_ev.c: making a loop and letting it go, over which parts of it are allocated. Which of the
-- allocations succeed is an argument.
use h.Base.{ℕ, ◌-◌, ◌≡◌, refl, Bool, true, false, not, ◌&&◌, ◌||◌, ◌==◌, if◌then◌else◌}
use h.Errno.{Code, ok, minus, eperm}
use h.Client.{Outcome, done, fault, ◌>>=◌}

-- What of an `h6_ev_loop` is allocated: itself, the loop of libev, the two ends of the pipe, the lock
-- and the queue; and its references.
pub record LoopParts : Type 0 where
  pub loop : Bool
  pub ev_loop : Bool
  pub wakeup_pipe : Bool
  pub lock : Bool
  pub operations : Bool
  pub ref_count : ℕ

-- `h6_ev_loop_free`
pub h6_ev_loop_free : LoopParts → Outcome LoopParts
h6_ev_loop_free p =
    if p.loop
    then done (record p { loop = false; ev_loop = false; lock = false; operations = false })
    else fault

-- `h6_ev_loop_init`
pub h6_ev_loop_init :
    (ev_loop wakeup_pipe lock operations : Bool) → LoopParts → Outcome (Code × LoopParts)
h6_ev_loop_init ev_loop wakeup_pipe lock operations p =
    if p.loop
    then if ev_loop
      then if wakeup_pipe
        then if lock
          then if operations
            then done (
              ok,
              record p {
                ref_count = 1;
                ev_loop = true;
                wakeup_pipe = true;
                lock = true;
                operations = true;
              },
            )
            else h6_ev_loop_free
                (record p { ref_count = 1; ev_loop = true; wakeup_pipe = true; lock = true })
              >>= (λ p. done (minus eperm, p))
          else h6_ev_loop_free (record p { ref_count = 1; ev_loop = true; wakeup_pipe = true })
            >>= (λ p. done (minus eperm, p))
        else done (minus eperm, record p { ref_count = 1 })
      else done (minus eperm, record p { ref_count = 1 })
    else fault

-- `free(loop)`
pub free_loop : LoopParts → Outcome LoopParts
free_loop p = if p.loop then done (record p { loop = false }) else fault

-- `h6_ev_loop_new`, where `calloc` returns memory or not; whether there is a loop.
abbrev pub new_end : Code × LoopParts → Outcome (Bool × LoopParts)
new_end (ok, p) = done (true, p)
new_end (minus e, p) = free_loop p >>= (λ p. done (false, p))

abbrev pub no_parts : LoopParts
no_parts = record {
  loop = false;
  ev_loop = false;
  wakeup_pipe = false;
  lock = false;
  operations = false;
  ref_count = 0;
}

pub h6_ev_loop_new :
    (memory ev_loop wakeup_pipe lock operations : Bool) → Outcome (Bool × LoopParts)
h6_ev_loop_new memory ev_loop wakeup_pipe lock operations =
    h6_ev_loop_init ev_loop wakeup_pipe lock operations (record no_parts { loop = memory })
    >>= new_end

-- `h6_ev_loop_unref`
pub h6_ev_loop_unref : LoopParts → Outcome LoopParts
h6_ev_loop_unref p =
    if p.loop && not (p.ref_count == 0)
    then if p.ref_count == 1
      then h6_ev_loop_free (record p { ref_count = 0 })
      else done (record p { ref_count = p.ref_count - 1 })
    else fault

-- What is left where it ends.
abbrev pub EndedWell : Bool → Outcome (Bool × LoopParts) → Type 0
EndedWell made (done (there, p)) =
    (there ≡ made)
    × (if made
        then h6_ev_loop_unref p ≡ done (record no_parts { wakeup_pipe = true })
        else p.loop || p.ev_loop || p.wakeup_pipe || p.lock || p.operations ≡ false)
EndedWell made o = ⊥

abbrev pub NewLoop : (memory ev_loop wakeup_pipe lock operations : Bool) → Type 0
NewLoop memory ev_loop wakeup_pipe lock operations =
    let o = h6_ev_loop_new memory ev_loop wakeup_pipe lock operations in
    if memory && (not (ev_loop && wakeup_pipe) || (lock && operations))
    then EndedWell (ev_loop && wakeup_pipe) o
    else o ≡ fault

-- Whichever allocations fail: without memory for the loop, and where the lock or the queue cannot be
-- made, `h6_ev_loop_new` writes through NULL or frees the loop twice; where the loop of libev or the pipe
-- cannot be made, it returns NULL with nothing left allocated; otherwise it makes a loop, and its last
-- `h6_ev_loop_unref` frees all of it but the two descriptors of the pipe.
pub h6_ev_loop_new_lem :
    (memory ev_loop wakeup_pipe lock operations : Bool)
    → NewLoop memory ev_loop wakeup_pipe lock operations
unfolding h6_ev_loop_new h6_ev_loop_init h6_ev_loop_free free_loop h6_ev_loop_unref
h6_ev_loop_new_lem false ev_loop wakeup_pipe lock operations = refl
h6_ev_loop_new_lem true false wakeup_pipe lock operations = (refl, refl)
h6_ev_loop_new_lem true true false lock operations = (refl, refl)
h6_ev_loop_new_lem true true true false operations = refl
h6_ev_loop_new_lem true true true true false = refl
h6_ev_loop_new_lem true true true true true = (refl, refl)
