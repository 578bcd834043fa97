-- ===== src/EvLoop/Steps/Exec.antt =====
-- The loop's own thread keeps the count of the references, and never meets a freed event.
use h.Base.{
  ℕ, ◌+◌, ◌≤◌, ◌<◌, ◌≡◌, refl, sym, ◌∙◌, inl, inr, true, false, Bool-cases, Option, List, [], ◌∷◌,
  ◌==◌, ==-refl, ==-eq, arith,
}
use h.Base.Yields.{Yields, yields, ◌>>=◌, Yields-bind, Yields-weaken}
use h.EvLoop.{wake_read, Event, Op, ops_add, ops_remove, ops_modify, ops_quit, EvLoop, unref, call}
use h.EvLoop.Refs.{
  one_if, listed, op_ref, queued, held, Counted, Few, Live, live, Counts-Live, Counted-same,
  ref_lem, unref_lem,
}
use h.EvLoop.Steps.{
  is_attached, traced, sync_io_modified, run_add, is_listed, remove_link, run_remove, release_all,
  run_quit, run_op, exec_operations, force_woken_up,
}
use h.EvLoop.Steps.Sync.{
  Same-refl, Same-trans, Keeps, sync_add_lem, sync_remove_lem, sync_io_modified_lem,
}

pub listed-remove :
    (e : ℕ) (l : List ℕ)
    → is_listed e l ≡ true
    → (a : ℕ) → listed a l ≡ one_if e a + listed a (remove_link e l)
listed-remove e [] h a = absurd (ground arith)
listed-remove e (b ∷ l) h a = elim (Bool-cases (b == e)) [
  | inl same ↦ rw same (rw (==-eq b e same) refl)
  | inr other ↦ rw other (omega (arith, listed-remove e l (ground arith) a))
]

is_attached_lem : {u k : ℕ} {c : Option Event} → Live u k c → 0 < k → is_attached c ≡ true
is_attached_lem (live ev n tied) some_ref = tied some_ref

-- The state after an operation: the references are counted, and no more than before.
abbrev pub Ran : (ℕ → ℕ) → (ℕ → ℕ) → List Op → EvLoop → Type 0
Ran u before ops s' =
    Counted u (held s') s'.events × (s'.operations ≡ ops) × ((a : ℕ) → held s' a ≤ before a)

-- A user holds a reference to the event that an operation removes or changes.
abbrev pub IsKept : (ℕ → ℕ) → Op → Type 0
IsKept u (ops_add e) = Unit
IsKept u (ops_remove e) = 0 < u e
IsKept u (ops_modify e) = 0 < u e
IsKept u ops_quit = Unit

abbrev pub AllKept : (ℕ → ℕ) → List Op → Type 0
AllKept u [] = Unit
AllKept u (op ∷ l) = IsKept u op × AllKept u l

module _ {u : ℕ → ℕ} where
  traced-at :
      {k : ℕ → ℕ} (e : ℕ) (s : EvLoop) {c : Option Event}
      → s.events e ≡ c
      → Live (u e) (k e) c
      → Counted u k s.events
      → Yields (Keeps u k s) (traced e s)
  unfolding traced
  traced-at e s found (live ev n tied) counted = rw found (yields (counted, Same-refl))

  -- An event with a reference left can be read.
  pub traced_lem :
      {k : ℕ → ℕ} (e : ℕ) (s : EvLoop)
      → Counted u k s.events
      → 0 < u e + k e
      → Yields (Keeps u k s) (traced e s)
  traced_lem e s counted some_ref = traced-at e s refl (Counts-Live (counted.at e) some_ref) counted

  pub then-Keeps :
      {k k' : ℕ → ℕ} {s : EvLoop} {o : Option EvLoop} {f : EvLoop → Option EvLoop}
      → Yields (Keeps u k s) o
      → ((t : EvLoop) → Counted u k t.events → Yields (Keeps u k' t) (f t))
      → Yields (Keeps u k' s) (o >>= f)
  then-Keeps (yields (counted, same)) next =
      Yields-weaken (next _ counted) λ r (counted', same'). (counted', Same-trans same same')

  settle :
      {k before : ℕ → ℕ} {t : EvLoop} {o : Option EvLoop}
      → Yields (Keeps u k t) o
      → ((a : ℕ) → k a ≡ held t a)
      → ((a : ℕ) → held t a ≤ before a)
      → Yields (Ran u before t.operations) o
  settle {t} kept refs less = Yields-weaken kept λ s' (counted, same').
      let held_same : (a : ℕ) → held s' a ≡ held t a =
        λ a. rw (same'.operations, same'.ev_list) refl in
      (
        Counted-same counted λ a. refs a ∙ sym (held_same a),
        same'.operations,
        λ a. omega (arith, held_same a, less a),
      )

  -- The operations, whose own reference to the event is counted first.
  run_add_lem :
      (e : ℕ) (s : EvLoop)
      → Counted u (λ a. one_if e a + held s a) s.events
      → Few u (λ a. one_if e a + held s a)
      → Yields
          (Ran u (λ a. one_if e a + held s a) s.operations)
          (run_add e s >>= unref e >>= traced e)
  unfolding run_add
  run_add_lem e s counted few =
      let self = ==-refl e in
      let now = record s { ev_list = e ∷ s.ev_list } in
      let taken =
        ref_lem {k' = λ a. one_if e a + (one_if e a + held s a)} e now counted
          (omega (arith, few e)) (ground arith) (λ a. refl) in
      let added = then-Keeps taken λ t counted'. sync_add_lem e t counted' (ground arith) in
      let dropped = then-Keeps added λ t counted'.
        unref_lem {k' = λ a. one_if e a + held s a} e t counted' (ground (arith, few e))
          (λ a. refl) in
      let read = then-Keeps dropped λ t counted'. traced_lem e t counted' (ground arith) in
      settle read (λ a. omega arith) (λ a. omega arith)

  run_modify_lem :
      (e : ℕ) (s : EvLoop)
      → 0 < u e
      → Counted u (λ a. one_if e a + held s a) s.events
      → Few u (λ a. one_if e a + held s a)
      → Yields
          (Ran u (λ a. one_if e a + held s a) s.operations)
          (sync_io_modified e s >>= unref e >>= traced e)
  run_modify_lem e s own counted few =
      let self = ==-refl e in
      let modified = sync_io_modified_lem e s counted (ground arith) in
      let dropped =
        then-Keeps modified
          λ t counted'. unref_lem {k' = held s} e t counted' (omega (arith, few e)) (λ a. refl) in
      let read = then-Keeps dropped λ t counted'. traced_lem e t counted' (omega arith) in
      settle read (λ a. refl) (λ a. omega arith)

  run_remove_lem :
      (e : ℕ) (s : EvLoop)
      → 0 < u e
      → Counted u (λ a. one_if e a + held s a) s.events
      → Few u (λ a. one_if e a + held s a)
      → Yields
          (Ran u (λ a. one_if e a + held s a) s.operations)
          (run_remove e s >>= unref e >>= traced e)
  unfolding run_remove
  run_remove_lem e s own counted few =
      let self = ==-refl e in
      elim (Bool-cases (is_listed e s.ev_list)) [
        | inr absent ↦ rw absent (
            settle
              (then-Keeps (unref_lem {k' = held s} e s counted (omega (arith, few e)) (λ a. refl))
                λ t counted'. traced_lem e t counted' (omega arith))
              (λ a. refl) (λ a. omega arith))
        | inl present ↦
            let less = listed-remove e s.ev_list present in
            let now = record s { ev_list = remove_link e s.ev_list } in
            let stopped = sync_remove_lem e now counted (ground arith) in
            let dropped = then-Keeps stopped λ t counted'.
              unref_lem {k' = held s} e t counted' (omega (arith, few e)) (λ a. refl) in
            let read = then-Keeps dropped λ t counted'. traced_lem e t counted' (omega arith) in
            let dropped_again = then-Keeps read λ t counted'.
              unref_lem {k' = held now} e t counted' (omega (arith, few e))
                (λ a. omega (arith, less a)) in
            let read_again =
              then-Keeps dropped_again λ t counted'. traced_lem e t counted' (omega arith) in
            rw present (settle read_again (λ a. refl) (λ a. omega (arith, less a)))
      ]

  release_all_lem :
      {k : ℕ → ℕ} (l : List ℕ) (s : EvLoop)
      → Counted u (λ a. listed a l + k a) s.events
      → Few u (λ a. listed a l + k a)
      → Yields (Keeps u k s) (release_all l s)
  unfolding release_all
  release_all_lem [] s counted few = yields (Counted-same counted (λ a. omega arith), Same-refl)
  release_all_lem {k} (e ∷ l) s counted few =
      let self = ==-refl e in
      let at = Counts-Live (counted.at e) (ground arith) in
      let stopped = sync_remove_lem e s counted (ground arith) in
      let dropped = then-Keeps stopped λ t counted'.
        unref_lem {k' = λ a. listed a l + k a} e t counted' (omega (arith, few e))
          (λ a. omega arith) in
      rw (is_attached_lem at (ground arith))
        (then-Keeps dropped λ t counted'. release_all_lem l t counted' λ a. omega (arith, few a))

  run_quit_lem :
      (s : EvLoop)
      → Counted u (held s) s.events
      → Few u (held s)
      → Yields (Ran u (held s) s.operations) (run_quit s)
  unfolding run_quit
  run_quit_lem s counted few =
      Yields-bind (release_all_lem {k = λ a. queued a s.operations} s.ev_list s counted few)
        λ t (counted', same'). yields (
          Counted-same counted' (λ a. rw (same'.operations) (omega arith)),
          same'.operations,
          λ a. rw (same'.operations) (omega arith),
        )

  run_op_lem :
      (op : Op) (s : EvLoop)
      → IsKept u op
      → Counted u (λ a. op_ref op a + held s a) s.events
      → Few u (λ a. op_ref op a + held s a)
      → Yields (Ran u (λ a. op_ref op a + held s a) s.operations) (run_op op s)
  unfolding run_op
  run_op_lem (ops_add e) s own counted few = run_add_lem e s counted few
  run_op_lem (ops_remove e) s own counted few = run_remove_lem e s own counted few
  run_op_lem (ops_modify e) s own counted few = run_modify_lem e s own counted few
  run_op_lem ops_quit s own counted few =
      Yields-weaken
        (run_quit_lem s (Counted-same counted λ a. omega arith) λ a. omega (arith, few a))
        λ t (counted', same', less). (counted', same', λ a. omega (arith, less a))

  exec_operations_lem :
      (l : List Op) (s : EvLoop)
      → s.operations ≡ l
      → AllKept u l
      → Counted u (held s) s.events
      → Few u (held s)
      → Yields (λ s'. Counted u (held s') s'.events × (s'.operations ≡ [])) (exec_operations l s)
  unfolding exec_operations
  exec_operations_lem [] s same own counted few = yields (counted, same)
  exec_operations_lem (op ∷ l) s same own counted few =
      let popped = record s { operations = l } in
      let refs : (a : ℕ) → held s a ≡ op_ref op a + held popped a = λ a. rw same (omega arith) in
      Yields-bind
        (run_op_lem op popped own.0 (Counted-same counted refs) λ a. omega (arith, few a, refs a))
        λ t (counted', same', less).
          exec_operations_lem l t same' own.1 counted' λ a. omega (arith, less a, few a, refs a)

  -- Where each event has a reference for each user and each place of the loop, and few enough that
  -- REF_DEBUG_TEST passes, and where a user holds a reference to each event that the queue has to be
  -- removed or changed, the loop's thread performs all operations in the queue without meeting a
  -- freed event or a failed assertion; the references count again, and the queue is empty.
  pub force_woken_up_lem :
      (s : EvLoop)
      → AllKept u s.operations
      → Counted u (held s) s.events
      → Few u (held s)
      → Yields (λ s'. Counted u (held s') s'.events × (s'.operations ≡ [])) (force_woken_up s)
  unfolding force_woken_up
  force_woken_up_lem s own counted few =
      exec_operations_lem s.operations (call wake_read (record s { request_pending = false })) refl
        own counted few
