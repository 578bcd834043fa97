-- ===== src/EvLoop/Refs.antt =====
-- The references to the events: who holds them, and what taking and dropping one does.
use h.Base.{
  ℕ, suc, ◌+◌, ◌<◌, ◌≡◌, ◌≢◌, refl, inl, inr, true, Bool-cases, Option, none, some, List, [], ◌∷◌,
  ◌==◌, ==-eq, if◌then◌else◌, arith,
}
use h.Base.Yields.{Yields, yields}
use h.EvLoop.{
  Event, Op, ops_add, ops_remove, ops_modify, ops_quit, EvLoop, max_ref_count_value, update, ref_ok,
  ref, unref,
}

abbrev pub one_if : ℕ → ℕ → ℕ
one_if e a = if e == a then 1 else 0

-- How often an event is in a list, and in the queue of operations.
abbrev pub listed : ℕ → List ℕ → ℕ
listed a [] = 0
listed a (e ∷ l) = one_if e a + listed a l

abbrev pub op_ref : Op → ℕ → ℕ
op_ref (ops_add e) a = one_if e a
op_ref (ops_remove e) a = one_if e a
op_ref (ops_modify e) a = one_if e a
op_ref ops_quit a = 0

abbrev pub queued : ℕ → List Op → ℕ
queued a [] = 0
queued a (op ∷ l) = op_ref op a + queued a l

-- The references that the loop holds.
abbrev pub held : EvLoop → ℕ → ℕ
held s a = listed a s.ev_list + queued a s.operations

-- An event in memory has one reference for each user and each place of the loop, and some; where
-- the loop has one, it is attached. An event that is not in memory has none.
pub data Counts (users held : ℕ) : Option Event → Type 0 where
  gone : users + held ≡ 0 → Counts users held none
  there :
      {ev : Event}
      → ev.ref_count ≡ users + held
      → 0 < users + held
      → (0 < held → ev.attached ≡ true)
      → Counts users held (some ev)

pub record Counted (users held : ℕ → ℕ) (events : ℕ → Option Event) : Type 0 where
  pub at : (a : ℕ) → Counts (users a) (held a) (events a)

-- As few references that REF_DEBUG_TEST lets one more be taken and dropped.
abbrev pub Few : (ℕ → ℕ) → (ℕ → ℕ) → Type 0
Few users held = (a : ℕ) → suc (users a + held a) < max_ref_count_value

-- The loop after a change of the memory alone.
pub record Same (s s' : EvLoop) : Type 0 where
  pub operations : s'.operations ≡ s.operations
  pub ev_list : s'.ev_list ≡ s.ev_list
  pub loop_quited : s'.loop_quited ≡ s.loop_quited

-- The event that a reference leads to.
pub data Live (users held : ℕ) : Option Event → Type 0 where
  live :
      (ev : Event)
      → ev.ref_count ≡ users + held
      → (0 < held → ev.attached ≡ true)
      → Live users held (some ev)

pub Counts-Live : {u k : ℕ} {c : Option Event} → Counts u k c → 0 < u + k → Live u k c
Counts-Live (gone n) some_ref = absurd (omega arith)
Counts-Live (there {ev} n some_left tied) some_ref = live ev n tied

Counts-same : {u k k' : ℕ} {c : Option Event} → k ≡ k' → Counts u k c → Counts u k' c
Counts-same same (gone n) = gone (omega arith)
Counts-same same (there n some_left tied) =
    there (omega arith) (omega arith) λ h. tied (omega arith)

pub Live-attached :
    {u k : ℕ} {c : Option Event}
    → Live u k c
    → 0 < k
    → (ev : Event) → c ≡ some ev
    → ev.attached ≡ true
Live-attached (live ev n tied) some_held ev' same = ground (arith, tied some_held)

module _ {u : ℕ → ℕ} where
  pub Counted-same :
      {k k' : ℕ → ℕ} {m : ℕ → Option Event}
      → Counted u k m
      → ((a : ℕ) → k a ≡ k' a)
      → Counted u k' m
  Counted-same all same = record { at = λ a. Counts-same (same a) (all.at a) }

  pub Counted-update :
      {k k' : ℕ → ℕ} {m : ℕ → Option Event} (e : ℕ) (c : Option Event)
      → Counted u k m
      → ((a : ℕ) → e ≢ a → k a ≡ k' a)
      → Counts (u e) (k' e) c
      → Counted u k' (update e c m)
  unfolding update
  Counted-update {k} {k'} {m} e c all same new = record {
    at = λ a. elim (Bool-cases (e == a)) [
      | inl hit ↦ rw hit (rw (← ==-eq e a hit) new)
      | inr miss ↦ rw miss (Counts-same (same a (ground arith)) (all.at a))
    ];
  }

  pub take_ref :
      {k k' : ℕ → ℕ} (e : ℕ) (s : EvLoop) {c : Option Event}
      → s.events e ≡ c
      → Live (u e) (k e) c
      → Counted u k s.events
      → u e + k e < max_ref_count_value
      → 0 < u e + k e
      → ((ev : Event) → c ≡ some ev → ev.attached ≡ true)
      → ((a : ℕ) → k' a ≡ one_if e a + k a)
      → Yields (λ s'. Counted u k' s'.events × Same s s') (ref e s)
  unfolding ref
  take_ref {k} {k'} e s found (live ev n tied) counted few some_ref attached more =
      let here = more e in
      let good : ref_ok ev ≡ true = ground arith in
      rw found (
        rw good (
          yields (
            Counted-update e _ counted (λ a other. ground (arith, more a))
                (there (ground arith) (ground arith) λ h. attached ev refl),
            record { operations = refl; ev_list = refl; loop_quited = refl },
          )))

  drop_ref :
      {k k' : ℕ → ℕ} (e : ℕ) (s : EvLoop) {c : Option Event}
      → s.events e ≡ c
      → Live (u e) (k e) c
      → Counted u k s.events
      → u e + k e < max_ref_count_value
      → ((a : ℕ) → k a ≡ one_if e a + k' a)
      → Yields (λ s'. Counted u k' s'.events × Same s s') (unref e s)
  unfolding unref
  drop_ref {k} {k'} e s found (live ev n tied) counted few less =
      let here : k e ≡ suc (k' e) = ground (arith, less e) in
      let good : ref_ok ev ≡ true = ground arith in
      let others : (a : ℕ) → e ≢ a → k a ≡ k' a = λ a other. ground (arith, less a) in
      rw found (
        rw good (elim (Bool-cases (ev.ref_count == 1)) [
          | inl last ↦ rw last (
              yields (
                Counted-update e none counted others (gone (ground arith)),
                record { operations = refl; ev_list = refl; loop_quited = refl },
              ))
          | inr more ↦ rw more (
              yields (
                Counted-update e _ counted others
                    (there (ground arith) (ground arith) λ h. tied (ground arith)),
                record { operations = refl; ev_list = refl; loop_quited = refl },
              ))
        ]))

  pub ref_lem :
      {k k' : ℕ → ℕ} (e : ℕ) (s : EvLoop)
      → Counted u k s.events
      → u e + k e < max_ref_count_value
      → 0 < k e
      → ((a : ℕ) → k' a ≡ one_if e a + k a)
      → Yields (λ s'. Counted u k' s'.events × Same s s') (ref e s)
  ref_lem e s counted few some_ref more =
      let at = Counts-Live (counted.at e) (omega arith) in
      take_ref e s refl at counted few (omega arith) (Live-attached at some_ref) more

  pub unref_lem :
      {k k' : ℕ → ℕ} (e : ℕ) (s : EvLoop)
      → Counted u k s.events
      → u e + k e < max_ref_count_value
      → ((a : ℕ) → k a ≡ one_if e a + k' a)
      → Yields (λ s'. Counted u k' s'.events × Same s s') (unref e s)
  unref_lem e s counted few less =
      drop_ref e s refl (Counts-Live (counted.at e) (ground (arith, less e))) counted few less
