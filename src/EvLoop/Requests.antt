-- ===== src/EvLoop/Requests.antt =====
-- What other threads ask of the loop keeps the count of the references.
use h.Base.{
  ℕ, ◌+◌, ◌<◌, ◌≡◌, refl, sym, ◌∙◌, inl, inr, true, false, not, Bool-cases, Option, some, List, [],
  ◌∷◌, ◌++◌, ==-refl, arith,
}
use h.Base.Yields.{Yields, yields, ◌>>=◌, Yields-bind, Yields-if}
use h.EvLoop.{
  Event, Op, ops_add, ops_remove, ops_modify, EvLoop, max_ref_count_value, update, set_event, ref,
  push, loop_attach, loop_remove, modify_event,
}
use h.EvLoop.Refs.{
  one_if, op_ref, queued, held, Counted, Same, Live, live, Counts-Live, Counted-same,
  Counted-update, there, take_ref,
}

queued-append : (l : List Op) (op : Op) (a : ℕ) → queued a (l ++ op ∷ []) ≡ op_ref op a + queued a l
queued-append [] op a = omega arith
queued-append (x ∷ l) op a = omega (arith, queued-append l op a)

abbrev pub IsCounted : (ℕ → ℕ) → EvLoop → Type 0
IsCounted users s = Counted users (held s) s.events

some-inj : {a b : Event} → some a ≡ some b → a ≡ b
some-inj same = ground arith

update-same : (e : ℕ) (c : Option Event) (m : ℕ → Option Event) → update e c m e ≡ c
unfolding update
update-same e c m = rw (==-refl e) refl

module _ {u : ℕ → ℕ} where
  -- An operation in the queue holds the reference taken for it.
  pub push-IsCounted :
      {s t : EvLoop} (op : Op)
      → Counted u (λ a. op_ref op a + held s a) t.events
      → Same s t
      → IsCounted u (push op t)
  push-IsCounted {s} {t} op counted same = elim (Bool-cases t.request_pending) [
    | inl pending ↦ rw pending (
        Counted-same counted
          λ a. rw (same.ev_list, same.operations) (omega (arith, queued-append s.operations op a)))
    | inr idle ↦ rw idle (
        Counted-same counted
          λ a. rw (same.ev_list, same.operations) (omega (arith, queued-append s.operations op a)))
  ]

  -- A reference taken for an operation, which is left in the queue.
  request :
      (op : Op) (e : ℕ) (s : EvLoop) {c : Option Event}
      → ((a : ℕ) → op_ref op a ≡ one_if e a)
      → s.events e ≡ c
      → Live (u e) (held s e) c
      → IsCounted u s
      → u e + held s e < max_ref_count_value
      → 0 < u e + held s e
      → ((ev : Event) → c ≡ some ev → ev.attached ≡ true)
      → Yields (IsCounted u) (do t ← ref e s; some (push op t))
  request op e s own found at counted few some_ref attached =
      Yields-bind
        (take_ref {k' = λ a. op_ref op a + held s a} e s found at counted few some_ref attached
          (λ a. omega (arith, own a)))
        λ t (counted', same). yields (push-IsCounted op counted' same)

  modify_event-at :
      (e : ℕ) (s : EvLoop) {c : Option Event}
      → s.events e ≡ c
      → Live (u e) (held s e) c
      → IsCounted u s
      → u e + held s e < max_ref_count_value
      → 0 < u e + held s e
      → ((ev : Event) → c ≡ some ev → ev.attached ≡ true)
      → Yields (IsCounted u) (modify_event e s)
  unfolding modify_event
  modify_event-at e s found at counted few some_ref attached =
      Yields-if s.loop_quited (λ quited. yields counted)
        λ runs. request (ops_modify e) e s (λ a. refl) found at counted few some_ref attached

  loop_remove-at :
      (e : ℕ) (s : EvLoop) {c : Option Event}
      → s.events e ≡ c
      → Live (u e) (held s e) c
      → IsCounted u s
      → u e + held s e < max_ref_count_value
      → 0 < u e + held s e
      → ((ev : Event) → c ≡ some ev → ev.attached ≡ true)
      → Yields (IsCounted u) (loop_remove e s)
  unfolding loop_remove
  loop_remove-at e s found (live ev n tied) counted few some_ref attached = rw found (
      rw (attached ev refl) (
        Yields-if s.loop_quited (λ quited. yields counted)
          λ runs.
            request (ops_remove e) e s (λ a. refl) found (live ev n tied) counted few some_ref
              attached))

  loop_attach-at :
      (e : ℕ) (s : EvLoop) {c : Option Event}
      → s.events e ≡ c
      → Live (u e) (held s e) c
      → IsCounted u s
      → u e + held s e < max_ref_count_value
      → 0 < u e + held s e
      → ((ev : Event) → c ≡ some ev → ev.attached ≡ false)
      → Yields (λ (done, s'). (done ≡ not s.loop_quited) × IsCounted u s') (loop_attach e s)
  unfolding loop_attach
  loop_attach-at e s found (live ev n tied) counted few some_ref free =
      let now = record ev { attached = true } in
      let t = set_event e (some now) s in
      let counted_now =
        Counted-update e (some now) counted (λ a other. refl) (there n some_ref λ h. refl) in
      rw found (
        rw (free ev refl) (
          Yields-if s.loop_quited (λ quited. yields (rw quited refl, counted))
            λ runs.
              Yields-bind
                (take_ref {k' = λ a. op_ref (ops_add e) a + held s a} e t
                  (update-same e (some now) s.events) (live now n (λ h. refl)) counted_now few
                  some_ref (λ ev' same. ground arith) (λ a. refl))
                λ r (counted', same).
                  yields (rw runs refl, push-IsCounted {s = t} (ops_add e) counted' same)))

  -- A user's reference to an event that is not attached, with the references counted and too few
  -- for REF_DEBUG_TEST to fail: `h6_ev_loop_attach` returns whether the loop has not been told to
  -- quit, and the references count again, the new operation's included.
  pub loop_attach_lem :
      (e : ℕ) (s : EvLoop) {ev : Event}
      → IsCounted u s
      → u e + held s e < max_ref_count_value
      → 0 < u e
      → s.events e ≡ some ev
      → ev.attached ≡ false
      → Yields (λ (done, s'). (done ≡ not s.loop_quited) × IsCounted u s') (loop_attach e s)
  loop_attach_lem e s counted few some_user found free =
      loop_attach-at e s refl (Counts-Live (counted.at e) (omega arith)) counted few (omega arith)
        λ ev' same. rw (← some-inj (sym found ∙ same)) free

  -- The same for an attached event: `h6_ev_loop_remove` and `h6_ev_loop_modify_event` return, and
  -- the references count again.
  pub loop_remove_lem :
      (e : ℕ) (s : EvLoop) {ev : Event}
      → IsCounted u s
      → u e + held s e < max_ref_count_value
      → 0 < u e
      → s.events e ≡ some ev
      → ev.attached ≡ true
      → Yields (IsCounted u) (loop_remove e s) × Yields (IsCounted u) (modify_event e s)
  loop_remove_lem e s counted few some_user found attached =
      let at = Counts-Live (counted.at e) (omega arith) in
      let tied : (ev' : Event) → s.events e ≡ some ev' → ev'.attached ≡ true =
        λ ev' same. rw (← some-inj (sym found ∙ same)) attached in
      (
        loop_remove-at e s refl at counted few (omega arith) tied,
        modify_event-at e s refl at counted few (omega arith) tied,
      )
