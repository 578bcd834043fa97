-- ===== src/Trace/System/Inv.antt =====
-- What every step of the two threads keeps.
use h.Base.{ℕ, ◌+◌, ◌≤◌, ◌<◌, ◌≡◌, refl, Bool, true, false, ◌||◌, [], ltb, arith}
use mathlib.Core.Path.{subst}
use h.Base.Words.{u32_mod}
use h.Trace.{trace_line_max_size}
use h.Trace.Valid.{contents, empty_ring-IsValid}
use h.Trace.System.{
  Worker, asleep, finished, printing, last_printing, Writer, idle, posting, stopping, System, Step,
  wake, print, print_on, go_on, leave, last_print, last_print_on, call_ready, call_polls, poll,
  write, post, post_none, stop, stop_post, IsTidy, initial,
}
use h.Trace.System.Flow.{Flow, Fits, print_Round, Round-Flow, write-Flow, Flow-writer, Flow-worker}

-- Whether the worker is about to look at the ring, or the other thread at the semaphore.
abbrev pub is_awake : Worker → Bool
is_awake (printing c) = true
is_awake (last_printing c) = true
is_awake _ = false

abbrev pub is_posting : Writer → Bool
is_posting posting = true
is_posting stopping = true
is_posting _ = false

-- Whether the worker has seen that it is to end.
abbrev pub is_leaving : Worker → Bool
is_leaving (last_printing c) = true
is_leaving finished = true
is_leaving _ = false

-- Whether the other thread is in `async_ring_buf_write`.
abbrev pub is_writing : Writer → Bool
is_writing idle = false
is_writing stopping = false
is_writing _ = true

-- What is still going to be heard of.
abbrev pub is_loud : System → Bool
is_loud s = is_awake s.worker || (is_posting s.writer || ltb 0 s.sem)

pub record Inv (s : System) : Type 0 where
  pub flow : Flow s
  pub heard : is_loud s ≡ false → contents s.ring ≡ []
  pub leaving : is_leaving s.worker ≡ true → s.exit ≡ true
  pub quiet : s.exit ≡ true → is_writing s.writer ≡ false
  pub done : s.worker ≡ finished → contents s.ring ≡ []
  pub roused : s.exit ≡ true → s.writer ≡ idle → s.worker ≡ asleep → 0 < s.sem

pub initial-Inv :
    (size : ℕ) → trace_line_max_size ≤ size → size + size < u32_mod → Inv (initial size)
initial-Inv size big small =
    let (valid, empty) = empty_ring-IsValid size (omega arith) small in
    record {
      flow = record { valid = valid; big = big; whole = rw empty tt; all = empty; fits = tt };
      heard = λ h. empty;
      leaving = λ h. absurd (ground arith);
      quiet = λ h. absurd (ground arith);
      done = λ h. empty;
      roused = λ h. absurd (ground arith);
    }

pub Step-Inv : {s t : System} → Inv s → (step : Step s t) → IsTidy step → Inv t
Step-Inv {s} inv (wake junk w some_left) tidy = record {
  flow = Flow-worker s _ _ inv.flow;
  heard = λ h. absurd (ground arith);
  leaving = λ h. absurd (ground arith);
  quiet = inv.quiet;
  done = λ h. absurd (ground arith);
  roused = λ h i a. absurd (ground arith);
}
Step-Inv {s} inv (print w r) tidy =
    let round = print_Round inv.flow r in
    record {
      flow = Round-Flow s _ inv.flow round;
      heard = λ h. round.last refl;
      leaving = λ h. absurd (ground arith);
      quiet = inv.quiet;
      done = λ h. absurd (ground arith);
      roused = λ h i a. absurd (ground arith);
    }
Step-Inv {s} inv (print_on w r) tidy =
    let round = print_Round inv.flow r in
    record {
      flow = Round-Flow s _ inv.flow round;
      heard = λ h. absurd (ground arith);
      leaving = λ h. absurd (ground arith);
      quiet = inv.quiet;
      done = λ h. absurd (ground arith);
      roused = λ h i a. absurd (ground arith);
    }
Step-Inv {s} inv (go_on w e) tidy = record {
  flow = Flow-worker s _ _ inv.flow;
  heard = λ h. inv.heard (ground arith);
  leaving = λ h. absurd (ground arith);
  quiet = inv.quiet;
  done = λ h. absurd (ground arith);
  roused = λ h i a. absurd (ground arith);
}
Step-Inv {s} inv (leave junk w e) tidy = record {
  flow = Flow-worker s _ _ inv.flow;
  heard = λ h. absurd (ground arith);
  leaving = λ h. e;
  quiet = inv.quiet;
  done = λ h. absurd (ground arith);
  roused = λ h i a. absurd (ground arith);
}
Step-Inv {s} inv (last_print w r) tidy =
    let round = print_Round inv.flow r in
    record {
      flow = Round-Flow s _ inv.flow round;
      heard = λ h. round.last refl;
      leaving = λ h. inv.leaving (rw w refl);
      quiet = inv.quiet;
      done = λ h. round.last refl;
      roused = λ h i a. absurd (ground arith);
    }
Step-Inv {s} inv (last_print_on w r) tidy =
    let round = print_Round inv.flow r in
    record {
      flow = Round-Flow s _ inv.flow round;
      heard = λ h. absurd (ground arith);
      leaving = λ h. inv.leaving (rw w refl);
      quiet = inv.quiet;
      done = λ h. absurd (ground arith);
      roused = λ h i a. absurd (ground arith);
    }
Step-Inv {s} inv (call_ready m w e room) (z, short) = record {
  flow = Flow-writer s _ _ _ inv.flow (z, short, room);
  heard = λ h. inv.heard (ground arith);
  leaving = inv.leaving;
  quiet = λ h. absurd (ground arith);
  done = inv.done;
  roused = λ h i a. absurd (ground arith);
}
Step-Inv {s} inv (call_polls m w e full) (z, short) = record {
  flow = Flow-writer s _ _ _ inv.flow (z, short);
  heard = λ h. inv.heard (ground arith);
  leaving = inv.leaving;
  quiet = λ h. absurd (ground arith);
  done = inv.done;
  roused = λ h i a. absurd (ground arith);
}
Step-Inv {s} inv (poll {m = m} w e room) tidy =
    let (clean, short) = subst (Fits s.ring) w inv.flow.fits in
    record {
      flow = Flow-writer s _ _ _ inv.flow (clean, short, room);
      heard = λ h. inv.heard (ground arith);
      leaving = inv.leaving;
      quiet = λ h. absurd (ground (arith, inv.quiet h));
      done = inv.done;
      roused = λ h i a. absurd (ground arith);
    }
Step-Inv {s} inv (write w) tidy = record {
  flow = write-Flow s inv.flow w;
  heard = λ h. absurd (ground arith);
  leaving = inv.leaving;
  quiet = λ h. absurd (ground (arith, inv.quiet h));
  done = λ h. absurd (ground (arith, inv.quiet (inv.leaving (rw h refl))));
  roused = λ h i a. absurd (ground arith);
}
Step-Inv {s} inv (post w e) tidy = record {
  flow = Flow-writer s _ _ _ inv.flow tt;
  heard = λ h. absurd (ground arith);
  leaving = inv.leaving;
  quiet = λ h. refl;
  done = inv.done;
  roused = λ h i a. omega arith;
}
Step-Inv {s} inv (post_none w e) tidy = record {
  flow = Flow-writer s _ _ _ inv.flow tt;
  heard = λ h. absurd (ground arith);
  leaving = inv.leaving;
  quiet = λ h. refl;
  done = inv.done;
  roused = λ h i a. e;
}
Step-Inv {s} inv (stop w e) tidy = record {
  flow = Flow-writer s _ _ _ inv.flow tt;
  heard = λ h. absurd (ground arith);
  leaving = λ h. refl;
  quiet = λ h. refl;
  done = inv.done;
  roused = λ h i a. absurd (ground arith);
}
Step-Inv {s} inv (stop_post w) tidy = record {
  flow = Flow-writer s _ _ _ inv.flow tt;
  heard = λ h. absurd (ground arith);
  leaving = inv.leaving;
  quiet = λ h. refl;
  done = inv.done;
  roused = λ h i a. omega arith;
}
