-- ===== src/EvLoop/Steps/Callbacks.antt =====
-- src/h6_ev.c: running a loop, and what libev's callbacks and the user's, which they call, do within
-- the loop's thread. The user's callback is recorded as a call; its answer is an argument.
use h.Base.{
  ℕ, zero, suc, ◌+◌, ◌<◌, ◌≡◌, refl, Bool, true, false, Option, none, some, inl, inr, Bool-cases,
  if◌then◌else◌, arith,
}
use h.Base.Yields.{Yields, yields, ◌>>=◌, Yields-weaken}
use h.EvLoop.{
  ℤ, pos, negsuc, Mask, is_none, bit_or, bit_and, bit_clear, Event, timer_again, dispatch,
  timer_set, ev_run, EvLoop, set_event, call,
}
use h.EvLoop.Refs.{Counted, Live, live, Counts-Live}
use h.EvLoop.Steps.{add_events_sync, remove_events_sync}
use h.EvLoop.Steps.Sync.{
  Same-refl, Same-trans, Quiet-refl, Quiet-Keeps, Keeps, sync_io_modified_lem,
}

-- `h6_ev_loop_run`
unfoldable pub loop_run : EvLoop → EvLoop
loop_run s =
    if s.loop_quited
    then s
    else if s.loop_running
    then s
    else call ev_run (record s { loop_running = true })

abbrev pub is_pos : ℤ → Bool
is_pos (pos zero) = false
is_pos (pos (suc n)) = true
is_pos (negsuc n) = false

-- `h6_ev_reset_timer`
pub reset_timer : ℕ → EvLoop → Option EvLoop
reset_timer e s = do
  ev ← s.events e
  if is_pos ev.timeout
      then (if ev.attached then some (call (timer_again e) s) else none)
      else some s

-- `h6_ev_cb_io` and `h6_ev_cb_timeout`, with the answer of `h6_ev_call`.
pub cb_io : ℕ → Bool → EvLoop → Option EvLoop
cb_io e answer s = do
  ev ← s.events e
  if answer then reset_timer e (call (dispatch e) s) else some (call (dispatch e) s)

pub cb_timeout : ℕ → EvLoop → Option EvLoop
cb_timeout e s = do ev ← s.events e; some (call (dispatch e) s)

-- `h6_ev_mod_timer_sync`, with the milliseconds that the time converts to, or 0 or less where the time
-- is not positive.
pub mod_timer_sync : ℕ → ℤ → EvLoop → Option EvLoop
mod_timer_sync e millis s = do
  ev ← s.events e
  let timeout = if is_pos millis then millis else pos 1
  if ev.attached
      then some (
          call (timer_again e)
            (call (timer_set e timeout) (set_event e (some (record ev { timeout = timeout })) s)))
      else none

-- What the loop's thread does for an event, within a callback or to call one.
pub data Callback : Type 0 where
  fire : ℕ → Bool → Callback
  tick : ℕ → Callback
  set_timer : ℕ → ℤ → Callback
  sync_more sync_less : ℕ → Mask → Callback

abbrev pub event_of : Callback → ℕ
event_of (fire e answer) = e
event_of (tick e) = e
event_of (set_timer e millis) = e
event_of (sync_more e mask) = e
event_of (sync_less e mask) = e

pub call_back : Callback → EvLoop → Option EvLoop
call_back (fire e answer) s = cb_io e answer s
call_back (tick e) s = cb_timeout e s
call_back (set_timer e millis) s = mod_timer_sync e millis s
call_back (sync_more e mask) s = add_events_sync e mask s
call_back (sync_less e mask) s = remove_events_sync e mask s

module _ {u k : ℕ → ℕ} where
  cb_io-at :
      (e : ℕ) (answer : Bool) (s : EvLoop) {c : Option Event}
      → s.events e ≡ c
      → Live (u e) (k e) c
      → Counted u k s.events
      → 0 < k e
      → Yields (Keeps u k s) (cb_io e answer s)
  unfolding cb_io reset_timer
  cb_io-at e false s found (live ev n tied) counted some_held =
      rw found (yields (counted, record { operations = refl; ev_list = refl; loop_quited = refl }))
  cb_io-at e true s found (live ev n tied) counted some_held =
      rw found (elim (Bool-cases (is_pos ev.timeout)) [
        | inl counts_down ↦ rw counts_down (
            rw (tied some_held)
              (yields (counted, record { operations = refl; ev_list = refl; loop_quited = refl })))
        | inr never ↦
            rw never
              (yields (counted, record { operations = refl; ev_list = refl; loop_quited = refl }))
      ])

  cb_timeout-at :
      (e : ℕ) (s : EvLoop) {c : Option Event}
      → s.events e ≡ c
      → Live (u e) (k e) c
      → Counted u k s.events
      → Yields (Keeps u k s) (cb_timeout e s)
  unfolding cb_timeout
  cb_timeout-at e s found (live ev n tied) counted =
      rw found (yields (counted, record { operations = refl; ev_list = refl; loop_quited = refl }))

  -- The event gets other fields than its count and its loop.
  changed :
      (e : ℕ) (s : EvLoop) (ev ev' : Event)
      → s.events e ≡ some ev
      → ev'.ref_count ≡ ev.ref_count
      → ev'.attached ≡ ev.attached
      → ev.ref_count ≡ u e + k e
      → 0 < k e
      → (0 < k e → ev.attached ≡ true)
      → Counted u k s.events
      → Keeps u k s (set_event e (some ev') s)
  changed e s ev ev' found count loop n some_held tied counted =
      Quiet-Keeps ev' e Quiet-refl found count loop n (omega arith) tied counted

  mod_timer_sync-at :
      (e : ℕ) (millis : ℤ) (s : EvLoop) {c : Option Event}
      → s.events e ≡ c
      → Live (u e) (k e) c
      → Counted u k s.events
      → 0 < k e
      → Yields (Keeps u k s) (mod_timer_sync e millis s)
  unfolding mod_timer_sync
  mod_timer_sync-at e millis s found (live ev n tied) counted some_held =
      let timeout = if is_pos millis then millis else pos 1 in
      let kept =
        changed e s ev (record ev { timeout = timeout }) found refl refl n some_held tied counted in
      let runs : mod_timer_sync e millis s
          ≡ some (
              call (timer_again e) (
                call (timer_set e timeout)
                  (set_event e (some (record ev { timeout = timeout })) s))) =
        rw found (rw (tied some_held) refl) in
      rw runs (yields (kept.0, record { operations = refl; ev_list = refl; loop_quited = refl }))

  add_events_sync-at :
      (e : ℕ) (mask : Mask) (s : EvLoop) {c : Option Event}
      → s.events e ≡ c
      → Live (u e) (k e) c
      → Counted u k s.events
      → 0 < k e
      → Yields (Keeps u k s) (add_events_sync e mask s)
  unfolding add_events_sync
  add_events_sync-at e mask s found (live ev n tied) counted some_held =
      rw found (elim (Bool-cases (is_none (bit_clear mask ev.events))) [
        | inl known ↦ rw known (yields (counted, Same-refl))
        | inr new ↦
            let kept =
              changed e s ev (record ev { events = bit_or ev.events mask }) found refl refl n
                some_held tied counted in
            rw new (
              Yields-weaken (sync_io_modified_lem e _ kept.0 some_held)
                (λ r after. (after.0, Same-trans kept.1 after.1)))
      ])

  remove_events_sync-at :
      (e : ℕ) (mask : Mask) (s : EvLoop) {c : Option Event}
      → s.events e ≡ c
      → Live (u e) (k e) c
      → Counted u k s.events
      → 0 < k e
      → Yields (Keeps u k s) (remove_events_sync e mask s)
  unfolding remove_events_sync
  remove_events_sync-at e mask s found (live ev n tied) counted some_held =
      rw found (elim (Bool-cases (is_none (bit_and ev.events mask))) [
        | inl known ↦ rw known (yields (counted, Same-refl))
        | inr new ↦
            let kept =
              changed e s ev (record ev { events = bit_clear ev.events mask }) found refl refl n
                some_held tied counted in
            rw new (
              Yields-weaken (sync_io_modified_lem e _ kept.0 some_held)
                (λ r after. (after.0, Same-trans kept.1 after.1)))
      ])

  -- A callback of an event that the loop holds.
  pub call_back_lem :
      (c : Callback) (s : EvLoop)
      → Counted u k s.events
      → 0 < k (event_of c)
      → Yields (Keeps u k s) (call_back c s)
  unfolding call_back
  call_back_lem (fire e answer) s counted held =
      cb_io-at e answer s refl (Counts-Live (counted.at e) (omega arith)) counted held
  call_back_lem (tick e) s counted held =
      cb_timeout-at e s refl (Counts-Live (counted.at e) (omega arith)) counted
  call_back_lem (set_timer e millis) s counted held =
      mod_timer_sync-at e millis s refl (Counts-Live (counted.at e) (omega arith)) counted held
  call_back_lem (sync_more e mask) s counted held =
      add_events_sync-at e mask s refl (Counts-Live (counted.at e) (omega arith)) counted held
  call_back_lem (sync_less e mask) s counted held =
      remove_events_sync-at e mask s refl (Counts-Live (counted.at e) (omega arith)) counted held
