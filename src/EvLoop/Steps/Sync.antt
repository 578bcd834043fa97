-- ===== src/EvLoop/Steps/Sync.antt =====
-- Starting and stopping what libev watches keeps the references.
use h.Base.{
  ℕ, ◌+◌, ◌<◌, ◌≡◌, refl, ◌∙◌, Bool, true, false, Option, some, if◌then◌else◌, arith, ◌&&◌, not,
}
use h.Base.Yields.{Yields, yields}
use h.EvLoop.{Event, EvLoop, set_event, call, is_nonneg, io_start, is_none, io_stop}
use h.EvLoop.Refs.{there, Counted, Same, Live, live, Counts-Live, Counted-update}
use h.EvLoop.Steps.{sync_add, sync_remove, sync_io_modified}

-- The loop after calls alone.
pub record Quiet (s s' : EvLoop) : Type 0 where
  pub same : Same s s'
  pub events : s'.events ≡ s.events

pub Same-refl : {s : EvLoop} → Same s s
Same-refl = record { operations = refl; ev_list = refl; loop_quited = refl }

pub Same-trans : {s t r : EvLoop} → Same s t → Same t r → Same s r
Same-trans one two = record {
  operations = two.operations ∙ one.operations;
  ev_list = two.ev_list ∙ one.ev_list;
  loop_quited = two.loop_quited ∙ one.loop_quited;
}

pub Quiet-refl : {s : EvLoop} → Quiet s s
Quiet-refl = record { same = Same-refl; events = refl }

pub Quiet-call : {s x : EvLoop} (b : Bool) (c : _) → Quiet s x → Quiet s (if b then call c x else x)
Quiet-call false c q = q
Quiet-call true c q = record {
  same = record {
    operations = q.same.operations;
    ev_list = q.same.ev_list;
    loop_quited = q.same.loop_quited;
  };
  events = q.events;
}

abbrev pub Keeps : (ℕ → ℕ) → (ℕ → ℕ) → EvLoop → EvLoop → Type 0
Keeps u k s s' = Counted u k s'.events × Same s s'

module _ {u : ℕ → ℕ} where
  pub Quiet-Keeps :
      {k : ℕ → ℕ} {s x : EvLoop} {ev : Event} (ev' : Event) (e : ℕ)
      → Quiet s x
      → s.events e ≡ some ev
      → ev'.ref_count ≡ ev.ref_count
      → ev'.attached ≡ ev.attached
      → ev.ref_count ≡ u e + k e
      → 0 < u e + k e
      → (0 < k e → ev.attached ≡ true)
      → Counted u k s.events
      → Keeps u k s (set_event e (some ev') x)
  Quiet-Keeps {k} {x} ev' e q found same_count same_loop n some_ref tied counted = (
    Counted-update e (some ev') (rw (q.events) counted) (λ a other. refl)
        (there (omega arith) some_ref λ h. same_loop ∙ tied h),
    record {
      operations = q.same.operations;
      ev_list = q.same.ev_list;
      loop_quited = q.same.loop_quited;
    },
  )

  sync_add-at :
      {k : ℕ → ℕ} (e : ℕ) (s : EvLoop) {c : Option Event}
      → s.events e ≡ c
      → Live (u e) (k e) c
      → Counted u k s.events
      → 0 < u e + k e
      → Yields (Keeps u k s) (sync_add e s)
  unfolding sync_add
  sync_add-at e s found (live ev n tied) counted some_ref = rw found (
      yields (
        Quiet-Keeps _ e (Quiet-call (is_nonneg ev.timeout) _ (Quiet-call _ _ Quiet-refl)) found refl
          refl n some_ref tied counted))

  sync_remove-at :
      {k : ℕ → ℕ} (e : ℕ) (s : EvLoop) {c : Option Event}
      → s.events e ≡ c
      → Live (u e) (k e) c
      → Counted u k s.events
      → 0 < u e + k e
      → Yields (Keeps u k s) (sync_remove e s)
  unfolding sync_remove
  sync_remove-at e s found (live ev n tied) counted some_ref = rw found (
      yields (
        Quiet-Keeps _ e (Quiet-call (is_nonneg ev.timeout) _ (Quiet-call _ _ Quiet-refl)) found refl
          refl n some_ref tied counted))

  Quiet-if :
      {k : ℕ → ℕ} {s x : EvLoop} (b : Bool)
      → Quiet s x
      → Counted u k s.events
      → Keeps u k s (if b then x else s)
  Quiet-if false q counted = (counted, Same-refl)
  Quiet-if true q counted = (rw (q.events) counted, q.same)

  sync_io_modified-at :
      {k : ℕ → ℕ} (e : ℕ) (s : EvLoop) {c : Option Event}
      → s.events e ≡ c
      → Live (u e) (k e) c
      → Counted u k s.events
      → Yields (Keeps u k s) (sync_io_modified e s)
  unfolding sync_io_modified
  sync_io_modified-at e s found (live ev n tied) counted = rw found (
      yields (
        Quiet-if ev.in_loop
          (Quiet-call (is_nonneg ev.ev_fd && not (is_none ev.events)) (io_start e ev.events)
            (Quiet-call (is_nonneg ev.ev_fd) (io_stop e) Quiet-refl))
          counted))

  pub sync_add_lem :
      {k : ℕ → ℕ} (e : ℕ) (s : EvLoop)
      → Counted u k s.events
      → 0 < k e
      → Yields (Keeps u k s) (sync_add e s)
  sync_add_lem e s counted some_ref =
      sync_add-at e s refl (Counts-Live (counted.at e) (omega arith)) counted (omega arith)

  pub sync_remove_lem :
      {k : ℕ → ℕ} (e : ℕ) (s : EvLoop)
      → Counted u k s.events
      → 0 < k e
      → Yields (Keeps u k s) (sync_remove e s)
  sync_remove_lem e s counted some_ref =
      sync_remove-at e s refl (Counts-Live (counted.at e) (omega arith)) counted (omega arith)

  pub sync_io_modified_lem :
      {k : ℕ → ℕ} (e : ℕ) (s : EvLoop)
      → Counted u k s.events
      → 0 < k e
      → Yields (Keeps u k s) (sync_io_modified e s)
  sync_io_modified_lem e s counted some_ref =
      sync_io_modified-at e s refl (Counts-Live (counted.at e) (omega arith)) counted
