-- ===== src/EvLoop/Steps/Freed.antt =====
-- The trace behind an unref of the loop's thread reads an event that may be freed.
use h.Base.{
  ℕ, ◌+◌, ◌≤◌, ◌≡◌, refl, ap, ◌∙◌, inl, inr, false, Bool-cases, Option, none, List, [], ◌∷◌, ◌==◌,
  ==-refl, arith,
}
use h.Base.Yields.{◌>>=◌, Yields-some}
use h.EvLoop.{wake_read, Event, Op, ops_remove, EvLoop, call}
use h.EvLoop.Refs.{
  one_if, listed, queued, held, Counts, gone, there, Counted, Few, Counted-same, unref_lem,
}
use h.EvLoop.Steps.{
  traced, is_listed, remove_link, run_remove, run_op, exec_operations, force_woken_up,
}
use h.EvLoop.Steps.Sync.{sync_remove_lem}
use h.EvLoop.Steps.Exec.{listed-remove, then-Keeps, traced_lem}

unused : {u k : ℕ} {c : Option Event} → Counts u k c → u + k ≡ 0 → c ≡ none
unused (gone n) h = refl
unused (there n some_left tied) h = absurd (omega arith)

traced-none : (e : ℕ) (s : EvLoop) → s.events e ≡ none → traced e s ≡ none
unfolding traced
traced-none e s freed = rw freed refl

unlisted : (e : ℕ) (l : List ℕ) → is_listed e l ≡ false → listed e l ≡ 0
unlisted e [] h = refl
unlisted e (b ∷ l) h = elim (Bool-cases (b == e)) [
  | inl same ↦ absurd (ground arith)
  | inr other ↦ rw other (omega (arith, unlisted e l (ground arith)))
]

module _ {u : ℕ → ℕ} where
  run_remove-none :
      (e : ℕ) (s : EvLoop)
      → Counted u (λ a. one_if e a + held s a) s.events
      → Few u (λ a. one_if e a + held s a)
      → u e ≡ 0
      → listed e s.ev_list ≤ 1
      → queued e s.operations ≡ 0
      → run_op (ops_remove e) s ≡ none
  unfolding run_op run_remove
  run_remove-none e s counted few unowned once alone =
      let self = ==-refl e in
      elim (Bool-cases (is_listed e s.ev_list)) [
        | inr absent ↦
            let (t, runs, (counted', same')) =
              Yields-some
                (unref_lem {k' = held s} e s counted (omega (arith, few e)) (λ a. refl)) in
            rw absent (
              ap (λ o. o >>= traced e) runs
              ∙ traced-none e t
                  (unused (counted'.at e) (omega (arith, unlisted e s.ev_list absent))))
        | inl present ↦
            let less = listed-remove e s.ev_list present in
            let here : listed e (remove_link e s.ev_list) ≡ 0 = ground (arith, less e) in
            let now = record s { ev_list = remove_link e s.ev_list } in
            let stopped = sync_remove_lem e now counted (ground arith) in
            let dropped = then-Keeps stopped λ t counted'.
              unref_lem {k' = held s} e t counted' (omega (arith, few e)) (λ a. refl) in
            let read =
              then-Keeps dropped λ t counted'. traced_lem e t counted' (ground (arith, less e)) in
            let dropped_again = then-Keeps read λ t counted'.
              unref_lem {k' = held now} e t counted' (omega (arith, few e))
                (λ a. omega (arith, less a)) in
            let (t, runs, (counted', same')) = Yields-some dropped_again in
            rw present (
              ap (λ o. o >>= traced e) runs
              ∙ traced-none e t (unused (counted'.at e) (omega arith)))
      ]

  -- Where the references are counted and few enough for REF_DEBUG_TEST, no user has a reference to an
  -- event, and a request to remove it is the first of the queue and the only one for it: the loop's
  -- thread that wakes up reads the event after it has freed it, whether or not the event was in the
  -- loop's list, and whatever the queue holds behind.
  pub force_woken_up-freed :
      (e : ℕ) (l : List Op) (s : EvLoop)
      → Counted u (held s) s.events
      → Few u (held s)
      → s.operations ≡ ops_remove e ∷ l
      → u e ≡ 0
      → listed e s.ev_list ≤ 1
      → queued e l ≡ 0
      → force_woken_up s ≡ none
  unfolding force_woken_up exec_operations
  force_woken_up-freed e l s counted few same unowned once alone =
      let woken = call wake_read (record s { request_pending = false }) in
      let popped = record woken { operations = l } in
      let refs : (a : ℕ) → held s a ≡ one_if e a + held popped a = λ a. rw same (omega arith) in
      ap (λ ops. exec_operations ops woken) same
      ∙ ap (λ o. o >>= exec_operations l)
          (run_remove-none e popped (Counted-same counted refs) (λ a. omega (arith, few a, refs a))
            unowned once alone)
