-- ===== src/EvLoop/Steps.antt =====
-- src/h6_ev.c: what the loop's own thread does with the operations left to it.
pub mod Sync
pub mod Exec
pub mod Freed
pub mod Callbacks
use h.Base.{
  ℕ, zero, suc, Bool, true, false, not, ◌&&◌, Option, none, some, List, [], ◌∷◌, ◌==◌,
  if◌then◌else◌,
}
use h.Base.Yields.{◌>>=◌}
use h.EvLoop.{
  ℤ, is_nonneg, Mask, is_none, bit_or, bit_and, bit_clear, Event, Op, ops_add, ops_remove,
  ops_modify, ops_quit, Call, io_start, timer_start, io_stop, timer_stop, ev_break, wake_read,
  EvLoop, set_event, call, ref, unref,
}

-- `ev_io_stop` and, with events to watch, `ev_io_start` again.
abbrev pub start_io : ℕ → Event → EvLoop → EvLoop
start_io e ev s =
    if is_nonneg ev.ev_fd && not (is_none ev.events) then call (io_start e ev.events) s else s

abbrev pub stop_io : ℕ → Event → EvLoop → EvLoop
stop_io e ev s = if is_nonneg ev.ev_fd then call (io_stop e) s else s

-- `h6_ev_loop_sync_add`
pub sync_add : ℕ → EvLoop → Option EvLoop
sync_add e s = do
  ev ← s.events e
  let s = start_io e ev s
  let s = if is_nonneg ev.timeout then call (timer_start e ev.timeout) s else s
  some (set_event e (some (record ev { in_loop = true })) s)

-- `h6_ev_loop_sync_remove`
pub sync_remove : ℕ → EvLoop → Option EvLoop
sync_remove e s = do
  ev ← s.events e
  let s = stop_io e ev s
  let s = if is_nonneg ev.timeout then call (timer_stop e) s else s
  some (set_event e (some (record ev { in_loop = false })) s)

-- `h6_ev_loop_sync_io_modified` for an operation on I/O.
pub sync_io_modified : ℕ → EvLoop → Option EvLoop
sync_io_modified e s = do
  ev ← s.events e
  some (if ev.in_loop then start_io e ev (stop_io e ev s) else s)

-- The read of `ref_count` that a TRACE_DEBUG makes behind `h6_ev_unref`.
pub traced : ℕ → EvLoop → Option EvLoop
traced e s = s.events e >>= (λ ev. some s)

pub run_add : ℕ → EvLoop → Option EvLoop
unfolding sync_add
run_add e s = ref e (record s { ev_list = e ∷ s.ev_list }) >>= sync_add e

-- `list_find`, and `list_remove_link` of what it finds.
abbrev pub is_listed : ℕ → List ℕ → Bool
is_listed e [] = false
is_listed e (a ∷ l) = if a == e then true else is_listed e l

abbrev pub remove_link : ℕ → List ℕ → List ℕ
remove_link e [] = []
remove_link e (a ∷ l) = if a == e then l else a ∷ remove_link e l

pub run_remove : ℕ → EvLoop → Option EvLoop
unfolding sync_remove
run_remove e s =
    if is_listed e s.ev_list
    then sync_remove e (record s { ev_list = remove_link e s.ev_list }) >>= unref e >>= traced e
    else some s

-- Whether `opt->loop` of an event is set.
abbrev pub is_attached : Option Event → Bool
is_attached none = false
is_attached (some ev) = ev.attached

-- `list_foreach` with `h6_ev_realse_one`, which dies on an event without a loop.
pub release_all : List ℕ → EvLoop → Option EvLoop
unfolding sync_remove
release_all [] s = some s
release_all (e ∷ l) s =
    if is_attached (s.events e) then (sync_remove e s >>= unref e >>= release_all l) else none

pub run_quit : EvLoop → Option EvLoop
unfolding release_all
run_quit s = do s ← release_all s.ev_list s; some (call ev_break (record s { ev_list = [] }))

-- `(*ops->func)(loop, ops)`, and `h6_ev_unref` and the trace behind it where the operation has an
-- event.
pub run_op : Op → EvLoop → Option EvLoop
unfolding run_add run_remove run_quit sync_io_modified
run_op (ops_add e) s = run_add e s >>= unref e >>= traced e
run_op (ops_remove e) s = run_remove e s >>= unref e >>= traced e
run_op (ops_modify e) s = sync_io_modified e s >>= unref e >>= traced e
run_op ops_quit s = run_quit s

-- The loop of `h6_ev_loop_exec_operations` over the operations in the queue.
pub exec_operations : List Op → EvLoop → Option EvLoop
unfolding run_op
exec_operations [] s = some s
exec_operations (op ∷ l) s = run_op op (record s { operations = l }) >>= exec_operations l

-- `h6_ev_loop_force_woken_up`
pub force_woken_up : EvLoop → Option EvLoop
unfolding exec_operations
force_woken_up s =
    exec_operations s.operations (call wake_read (record s { request_pending = false }))

-- `h6_ev_add_events_sync` and `h6_ev_remove_events_sync`
pub add_events_sync : ℕ → Mask → EvLoop → Option EvLoop
unfolding sync_io_modified
add_events_sync e mask s = do
  ev ← s.events e
  if is_none (bit_clear mask ev.events)
      then some s
      else sync_io_modified e (set_event e (some (record ev { events = bit_or ev.events mask })) s)

pub remove_events_sync : ℕ → Mask → EvLoop → Option EvLoop
unfolding sync_io_modified
remove_events_sync e mask s = do
  ev ← s.events e
  if is_none (bit_and ev.events mask)
      then some s
      else sync_io_modified e
          (set_event e (some (record ev { events = bit_clear ev.events mask })) s)
