-- ===== src/EvLoop/Users.antt =====
-- Users that take and drop references to events of their own.
use h.Base.{
  ℕ, ◌+◌, ◌-◌, ◌<◌, ◌≡◌, ◌≢◌, refl, inl, inr, true, Bool-cases, Option, none, ◌==◌, ==-eq, arith,
}
use h.Base.Yields.{Yields, yields}
use h.EvLoop.{Event, EvLoop, max_ref_count_value, update, ref_ok, ref, unref}
use h.EvLoop.Refs.{one_if, Counts, gone, there, Counted, Same, Live, live, Counts-Live}

abbrev pub more : ℕ → (ℕ → ℕ) → ℕ → ℕ
more e u a = one_if e a + u a

abbrev pub fewer : ℕ → (ℕ → ℕ) → ℕ → ℕ
fewer e u a = u a - one_if e a

Counts-users : {u u' k : ℕ} {c : Option Event} → u ≡ u' → Counts u k c → Counts u' k c
Counts-users same (gone n) = gone (omega arith)
Counts-users same (there n some_left tied) = there (omega arith) (omega arith) tied

module _ {u u' k : ℕ → ℕ} where
  -- The event changes, and the number of its users.
  Counted-users :
      {m : ℕ → Option Event} (e : ℕ) (c : Option Event)
      → Counted u k m
      → ((a : ℕ) → e ≢ a → u a ≡ u' a)
      → Counts (u' e) (k e) c
      → Counted u' k (update e c m)
  unfolding update
  Counted-users {m} e c all same new = record {
    at = λ a. elim (Bool-cases (e == a)) [
      | inl hit ↦ rw hit (rw (← ==-eq e a hit) new)
      | inr miss ↦ rw miss (Counts-users (same a (ground arith)) (all.at a))
    ];
  }

module _ {u k : ℕ → ℕ} where
  user_ref-at :
      (e : ℕ) (s : EvLoop) {c : Option Event}
      → s.events e ≡ c
      → Live (u e) (k e) c
      → Counted u k s.events
      → u e + k e < max_ref_count_value
      → 0 < u e
      → Yields (λ s'. Counted (more e u) k s'.events × Same s s') (ref e s)
  unfolding ref
  user_ref-at e s found (live ev n tied) counted few own =
      let good : ref_ok ev ≡ true = ground arith in
      rw found (
        rw good (
          yields (
            Counted-users e _ counted (λ a other. ground arith)
                (there (ground arith) (ground arith) tied),
            record { operations = refl; ev_list = refl; loop_quited = refl },
          )))

  user_unref-at :
      (e : ℕ) (s : EvLoop) {c : Option Event}
      → s.events e ≡ c
      → Live (u e) (k e) c
      → Counted u k s.events
      → u e + k e < max_ref_count_value
      → 0 < u e
      → Yields (λ s'. Counted (fewer e u) k s'.events × Same s s') (unref e s)
  unfolding unref
  user_unref-at e s found (live ev n tied) counted few own =
      let good : ref_ok ev ≡ true = ground arith in
      rw found (
        rw good (elim (Bool-cases (ev.ref_count == 1)) [
          | inl final ↦ rw final (
              yields (
                Counted-users e none counted (λ a other. ground arith) (gone (ground arith)),
                record { operations = refl; ev_list = refl; loop_quited = refl },
              ))
          | inr shared ↦ rw shared (
              yields (
                Counted-users e _ counted (λ a other. ground arith)
                    (there (ground arith) (ground arith) tied),
                record { operations = refl; ev_list = refl; loop_quited = refl },
              ))
        ]))

  -- A user's reference lets the user take another one, or drop it.
  pub user_ref_lem :
      (e : ℕ) (s : EvLoop)
      → Counted u k s.events
      → u e + k e < max_ref_count_value
      → 0 < u e
      → Yields (λ s'. Counted (more e u) k s'.events × Same s s') (ref e s)
        × Yields (λ s'. Counted (fewer e u) k s'.events × Same s s') (unref e s)
  user_ref_lem e s counted few own =
      let at = Counts-Live (counted.at e) (omega arith) in
      (user_ref-at e s refl at counted few own, user_unref-at e s refl at counted few own)
