-- ===== src/EvLoop.antt =====
-- src/h6_ev.c: an event loop, the queue of operations that other threads leave to it, and the
-- reference counts of the events. An event is a number; each function runs under the loop's lock.
use h.Base.{
  ℕ, zero, suc, ◌+◌, ◌-◌, Bool, true, false, not, ◌&&◌, ◌||◌, Option, none, some, List, [], ◌∷◌,
  ◌++◌, leb, ◌==◌, if◌then◌else◌,
}
use h.Base.Yields.{◌>>=◌}
pub mod Refs
pub mod Steps
pub mod Requests
pub mod Users
pub mod Life
pub mod Script
mod Tests

-- A C `int`.
pub data ℤ : Type 0 where
  pos negsuc : ℕ → ℤ

abbrev pub is_nonneg : ℤ → Bool
is_nonneg (pos n) = true
is_nonneg (negsuc n) = false

-- The bits EV_READ and EV_WRITE of a set of events.
pub record Mask : Type 0 where
  pub reads : Bool
  pub writes : Bool

abbrev pub is_none : Mask → Bool
is_none m = not (m.reads || m.writes)

-- `a | b`, `a & b` and `a & ~b`
abbrev pub bit_or : Mask → Mask → Mask
bit_or a b = record { reads = a.reads || b.reads; writes = a.writes || b.writes }

abbrev pub bit_and : Mask → Mask → Mask
bit_and a b = record { reads = a.reads && b.reads; writes = a.writes && b.writes }

abbrev pub bit_clear : Mask → Mask → Mask
bit_clear a b = record { reads = a.reads && not b.reads; writes = a.writes && not b.writes }

-- `struct _h6_ev`; `attached` says that `opt->loop` is the loop and not NULL.
pub record Event : Type 0 where
  pub ref_count : ℕ
  pub ev_fd : ℤ
  pub timeout : ℤ
  pub events : Mask
  pub in_loop : Bool
  pub attached : Bool

-- The functions of `h6_ev_loop_ops` with their event.
pub data Op : Type 0 where
  ops_add ops_remove ops_modify : ℕ → Op
  ops_quit : Op

-- The calls that leave the file: libev's, the event's `destroy`, and the pipe's.
pub data Call : Type 0 where
  io_start : ℕ → Mask → Call
  timer_start : ℕ → ℤ → Call
  io_stop timer_stop timer_again dispatch destroy : ℕ → Call
  timer_set : ℕ → ℤ → Call
  ev_break ev_run wake_write wake_read : Call

-- `struct _h6_ev_loop_t` with the events in memory and the calls made, the latest first.
pub record EvLoop : Type 0 where
  pub events : ℕ → Option Event
  pub operations : List Op
  pub ev_list : List ℕ
  pub loop_quited : Bool
  pub loop_running : Bool
  pub request_pending : Bool
  pub calls : List Call

abbrev pub max_ref_count_value : ℕ
max_ref_count_value = 10000

pub update : ℕ → Option Event → (ℕ → Option Event) → ℕ → Option Event
update e c m a = if e == a then c else m a

abbrev pub set_event : ℕ → Option Event → EvLoop → EvLoop
set_event e c s = record s { events = update e c s.events }

abbrev pub call : Call → EvLoop → EvLoop
call c s = record s { calls = c ∷ s.calls }

-- REF_DEBUG_TEST; `none` is a failed `assert` or an access to freed memory.
abbrev pub ref_ok : Event → Bool
ref_ok ev = leb 1 ev.ref_count && not (leb max_ref_count_value ev.ref_count)

-- `h6_ev_ref`
pub ref : ℕ → EvLoop → Option EvLoop
ref e s = do
  ev ← s.events e
  if ref_ok ev
      then some (set_event e (some (record ev { ref_count = suc ev.ref_count })) s)
      else none

-- `h6_ev_unref`; `destroy` is called where it is set.
pub unref : ℕ → EvLoop → Option EvLoop
unref e s = do
  ev ← s.events e
  if ref_ok ev
      then some (
          if ev.ref_count == 1
          then call (destroy e) (set_event e none s)
          else set_event e (some (record ev { ref_count = ev.ref_count - 1 })) s)
      else none

-- `h6_ev_new` on a free address, with its size and allocations good.
abbrev pub ev_new : ℤ → Mask → Event
ev_new fd events = record {
  ref_count = 1;
  ev_fd = fd;
  timeout = negsuc 0;
  events = events;
  in_loop = false;
  attached = false;
}

-- `h6_ev_set_timeout`
pub set_timeout : ℕ → ℤ → EvLoop → Option EvLoop
set_timeout e timeout s = do
  ev ← s.events e
  some (if ev.attached then s else set_event e (some (record ev { timeout = timeout })) s)

-- `h6_ev_loop_wakeup`
abbrev pub wakeup : EvLoop → EvLoop
wakeup s = if s.request_pending then s else call wake_write (record s { request_pending = true })

-- `queue_push_tail` on `operations`, and the wake-up.
abbrev pub push : Op → EvLoop → EvLoop
push op s = wakeup (record s { operations = s.operations ++ op ∷ [] })

pub loop_quit : EvLoop → EvLoop
loop_quit s = if s.loop_quited then s else push ops_quit (record s { loop_quited = true })

-- `h6_ev_loop_attach`
pub loop_attach : ℕ → EvLoop → Option (Bool × EvLoop)
loop_attach e s = do
  ev ← s.events e
  if ev.attached then none else if s.loop_quited then some (false, s) else (do
    s ← ref e (set_event e (some (record ev { attached = true })) s)
    some (true, push (ops_add e) s))

-- `h6_ev_loop_remove`
pub loop_remove : ℕ → EvLoop → Option EvLoop
loop_remove e s = do
  ev ← s.events e
  if not ev.attached
      then none
      else if s.loop_quited
      then some s
      else (do s ← ref e s; some (push (ops_remove e) s))

-- `h6_ev_loop_modify_event`
pub modify_event : ℕ → EvLoop → Option EvLoop
modify_event e s = if s.loop_quited then some s else (do s ← ref e s; some (push (ops_modify e) s))

-- `h6_ev_add_events` and `h6_ev_remove_events`
pub add_events : ℕ → Mask → EvLoop → Option EvLoop
add_events e mask s = if is_none mask then some s else (do
  ev ← s.events e
  if is_none (bit_clear mask ev.events)
      then some s
      else (let s = set_event e (some (record ev { events = bit_or ev.events mask })) s in
          if ev.attached then modify_event e s else some s))

pub remove_events : ℕ → Mask → EvLoop → Option EvLoop
remove_events e mask s = if is_none mask then some s else (do
  ev ← s.events e
  if is_none (bit_and ev.events mask)
      then some s
      else (let s = set_event e (some (record ev { events = bit_clear ev.events mask })) s in
          if ev.attached then modify_event e s else some s))
