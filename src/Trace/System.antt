-- ===== src/Trace/System.antt =====
-- src/trace.c: the thread that prints and a thread that traces, as steps between the locks. The
-- semaphore is a number; what is on the stack in `cycle` when a print begins may be anything.
pub mod Flow
pub mod Inv
pub mod Delivered
mod Tests
use h.Base.{ℕ, suc, ◌+◌, ◌-◌, ◌≤◌, ◌<◌, ◌≡◌, Bool, true, false, some, List, [], ◌∷◌, ◌++◌, length}
use h.Trace.{Ring, empty_ring, trace_line_max_size, get_free_space, ring_write, print_round}
use h.Trace.Strings.{NoZero}

-- Where `trace_thread_worker` stands: at `sem_wait`, at the head of the print's loop, before
-- `atomic_get(&buf->exit)`, in the last print, behind it.
pub data Worker : Type 0 where
  asleep checking finished : Worker
  printing last_printing : Bool → Worker

-- Where the thread that traces stands: in no call; in `async_ring_buf_write` in the loop that waits
-- for room, behind it, before the look at the semaphore; in `async_ring_buf_free` before `sem_post`.
pub data Writer : Type 0 where
  idle posting stopping : Writer
  polling ready : List ℕ → Writer

-- `output` is what has been printed, `sent` what has been written into the ring.
pub record System : Type 0 where
  pub ring : Ring
  pub sem : ℕ
  pub worker : Worker
  pub writer : Writer
  pub exit : Bool
  pub output : List ℕ
  pub sent : List ℕ

-- A step of the worker, or of the other thread in `async_ring_buf_write` or `async_ring_buf_free`.
pub data Step (s : System) : System → Type 0 where
  wake :
      (junk : Bool)
      → s.worker ≡ asleep
      → 0 < s.sem
      → Step s (record s { sem = s.sem - 1; worker = printing junk })
  print :
      {cycle : Bool} {out : List ℕ} {b : Ring}
      → s.worker ≡ printing cycle
      → print_round cycle s.ring ≡ some (out, false, b)
      → Step s (record s { ring = b; output = s.output ++ out; worker = checking })
  print_on :
      {cycle : Bool} {out : List ℕ} {b : Ring}
      → s.worker ≡ printing cycle
      → print_round cycle s.ring ≡ some (out, true, b)
      → Step s (record s { ring = b; output = s.output ++ out; worker = printing true })
  go_on : s.worker ≡ checking → s.exit ≡ false → Step s (record s { worker = asleep })
  leave :
      (junk : Bool)
      → s.worker ≡ checking
      → s.exit ≡ true
      → Step s (record s { worker = last_printing junk })
  last_print :
      {cycle : Bool} {out : List ℕ} {b : Ring}
      → s.worker ≡ last_printing cycle
      → print_round cycle s.ring ≡ some (out, false, b)
      → Step s (record s { ring = b; output = s.output ++ out; worker = finished })
  last_print_on :
      {cycle : Bool} {out : List ℕ} {b : Ring}
      → s.worker ≡ last_printing cycle
      → print_round cycle s.ring ≡ some (out, true, b)
      → Step s (record s { ring = b; output = s.output ++ out; worker = last_printing true })
  call_ready :
      (m : List ℕ)
      → s.writer ≡ idle
      → s.exit ≡ false
      → length m ≤ get_free_space s.ring
      → Step s (record s { writer = ready m })
  call_polls :
      (m : List ℕ)
      → s.writer ≡ idle
      → s.exit ≡ false
      → get_free_space s.ring < length m
      → Step s (record s { writer = polling m })
  -- Only this thread posts and only the worker makes room, so that what it saw of the semaphore still
  -- holds where it looks at the room.
  poll :
      {m : List ℕ}
      → s.writer ≡ polling m
      → s.sem ≡ 0
      → length m ≤ get_free_space s.ring
      → Step s (record s { writer = ready m })
  write :
      {m : List ℕ}
      → s.writer ≡ ready m
      → Step s (record s { ring = ring_write s.ring m; sent = s.sent ++ m; writer = posting })
  post : s.writer ≡ posting → s.sem ≡ 0 → Step s (record s { sem = 1; writer = idle })
  post_none : s.writer ≡ posting → 0 < s.sem → Step s (record s { writer = idle })
  stop : s.writer ≡ idle → s.exit ≡ false → Step s (record s { writer = stopping; exit = true })
  stop_post : s.writer ≡ stopping → Step s (record s { sem = suc s.sem; writer = idle })

-- `async_ring_buf_new`
abbrev pub initial : ℕ → System
initial size = record {
  ring = empty_ring size;
  sem = 0;
  worker = asleep;
  writer = idle;
  exit = false;
  output = [];
  sent = [];
}

-- A call of `async_ring_buf_write` with a string that has no zero and is shorter than the ring.
abbrev pub IsTidy : {s t : System} → Step s t → Type 0
IsTidy {s} (call_ready m w e room) = NoZero m × (length m < s.ring.size)
IsTidy {s} (call_polls m w e full) = NoZero m × (length m < s.ring.size)
IsTidy _ = Unit

pub data Reach (size : ℕ) : System → Type 0 where
  here : Reach size (initial size)
  next : {s t : System} → Reach size s → Step s t → Reach size t

-- Every such call of a run is one with such a string.
abbrev pub AllTidy : {size : ℕ} {s : System} → Reach size s → Type 0
AllTidy here = Unit
AllTidy (next before step) = AllTidy before × IsTidy step
