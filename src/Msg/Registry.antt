-- ===== src/Msg/Registry.antt =====
-- The registration of types of messages.
use h.Base.{
  ℕ, zero, suc, ◌%◌, ◌<◌, ◌≡◌, refl, sym, ◌∙◌, ap, inl, inr, Bool, true, false, Bool-cases, Option,
  none, some, Option-cases, List, [], ◌∷◌, length, ◌==◌, ==-eq, if◌then◌else◌, arith,
}
use h.Errno.{Code, ok, minus, eexist}
use h.Client.{done}
use h.Client.Ends.{Ends, ends, Ends-bind, Ends-weaken}
use h.Msg.{
  OpsArray, no_types, entry, set_entry, register_msg_type, get_msg_ops, register_all, asserted,
}

module _ {Ops : Type 0} where
  -- The first registration of a type.
  abbrev pub first_of : ℕ → List (ℕ × Ops) → Option Ops
  first_of k [] = none
  first_of k ((mt, ops) ∷ regs) = if k == mt then some ops else first_of k regs

  -- What the registrations return where the types that are taken are given.
  abbrev pub codes : (taken : ℕ → Bool) → List (ℕ × Ops) → List Code
  codes taken [] = []
  codes taken ((mt, ops) ∷ regs) =
      (if taken mt then minus eexist else ok) ∷ codes (λ k. if k == mt then true else taken k) regs

  abbrev pub AllTypes : List (ℕ × Ops) → Type 0
  AllTypes [] = Unit
  AllTypes ((mt, ops) ∷ regs) = (mt < 4) × AllTypes regs

  abbrev entry_or_none : ℕ → OpsArray Ops → Option Ops
  entry_or_none k [] = none
  entry_or_none zero (o ∷ l) = o
  entry_or_none (suc k) (o ∷ l) = entry_or_none k l

  entry_lem : (k : ℕ) (l : OpsArray Ops) → k < length l → entry k l ≡ done (entry_or_none k l)
  entry_lem k [] inside = absurd (omega arith)
  entry_lem zero (o ∷ l) inside = refl
  entry_lem (suc k) (o ∷ l) inside = entry_lem k l (omega arith)

  set_entry_lem :
      (k mt : ℕ) (ops : Ops) (l : OpsArray Ops)
      → mt < length l
      → entry_or_none k (set_entry mt ops l) ≡ (if k == mt then some ops else entry_or_none k l)
  set_entry_lem k mt ops [] inside = absurd (omega arith)
  set_entry_lem zero zero ops (o ∷ l) inside = refl
  set_entry_lem zero (suc mt) ops (o ∷ l) inside = ground arith
  set_entry_lem (suc k) zero ops (o ∷ l) inside = ground arith
  set_entry_lem (suc k) (suc mt) ops (o ∷ l) inside =
      ground (arith, set_entry_lem k mt ops l (omega arith))

  length-set_entry :
      (mt : ℕ) (ops : Ops) (l : OpsArray Ops) → length (set_entry mt ops l) ≡ length l
  length-set_entry mt ops [] = refl
  length-set_entry zero ops (o ∷ l) = refl
  length-set_entry (suc mt) ops (o ∷ l) = omega (arith, length-set_entry mt ops l)

  abbrev or_else : Option Ops → Option Ops → Option Ops
  or_else none o = o
  or_else (some a) o = some a

  abbrev is_some : Option Ops → Bool
  is_some none = false
  is_some (some a) = true

  -- What the registrations leave of the array.
  record Registered (l : OpsArray Ops) (taken : ℕ → Bool) (regs : List (ℕ × Ops))
      (r : List Code × OpsArray Ops) : Type 0 where
    pub results : r.0 ≡ codes taken regs
    pub size : length r.1 ≡ 4
    pub entries : (k : ℕ) → entry_or_none k r.1 ≡ or_else (entry_or_none k l) (first_of k regs)

  or_else-none : (o : Option Ops) → or_else o none ≡ o
  or_else-none none = refl
  or_else-none (some a) = refl

  known_after :
      (k mt : ℕ) (ops : Ops) (l : OpsArray Ops) (taken : ℕ → Bool)
      → mt < length l
      → taken k ≡ is_some (entry_or_none k l)
      → (if k == mt then true else taken k) ≡ is_some (entry_or_none k (set_entry mt ops l))
  known_after k mt ops l taken inside known =
      rw (set_entry_lem k mt ops l inside)
        (elim (Bool-cases (k == mt)) [ inl same ↦ rw same refl | inr other ↦ rw other known ])

  known_still :
      (k mt : ℕ) (l : OpsArray Ops) (taken : ℕ → Bool) (there : Ops)
      → entry_or_none mt l ≡ some there
      → taken k ≡ is_some (entry_or_none k l)
      → (if k == mt then true else taken k) ≡ is_some (entry_or_none k l)
  known_still k mt l taken there e known = elim (Bool-cases (k == mt)) [
    | inl same ↦ rw (same, ==-eq k mt same) (rw e refl)
    | inr other ↦ rw other known
  ]

  first_free :
      (k mt : ℕ) (ops : Ops) (l : OpsArray Ops) (regs : List (ℕ × Ops))
      → mt < length l
      → entry_or_none mt l ≡ none
      → or_else (entry_or_none k (set_entry mt ops l)) (first_of k regs)
        ≡ or_else (entry_or_none k l) (if k == mt then some ops else first_of k regs)
  first_free k mt ops l regs inside free =
      rw (set_entry_lem k mt ops l inside) (elim (Bool-cases (k == mt)) [
        | inl same ↦ rw (same, ==-eq k mt same) (rw free refl)
        | inr other ↦ rw other refl
      ])

  first_used :
      (k mt : ℕ) (ops : Ops) (l : OpsArray Ops) (regs : List (ℕ × Ops)) (there : Ops)
      → entry_or_none mt l ≡ some there
      → or_else (entry_or_none k l) (first_of k regs)
        ≡ or_else (entry_or_none k l) (if k == mt then some ops else first_of k regs)
  first_used k mt ops l regs there e = elim (Bool-cases (k == mt)) [
    | inl same ↦ rw (same, ==-eq k mt same) (rw e refl)
    | inr other ↦ rw other refl
  ]

  register_all_from :
      (regs : List (ℕ × Ops)) (l : OpsArray Ops) (taken : ℕ → Bool)
      → length l ≡ 4
      → ((k : ℕ) → taken k ≡ is_some (entry_or_none k l))
      → AllTypes regs
      → Ends (Registered l taken regs) (register_all regs l)
  unfolding register_all register_msg_type
  register_all_from [] l taken four known all = ends (record {
    results = refl;
    size = four;
    entries = λ k. sym (or_else-none (entry_or_none k l));
  })
  register_all_from ((mt, ops) ∷ regs) l taken four known all =
      rw (entry_lem mt l (omega arith)) (elim (Option-cases (entry_or_none mt l)) [
        | inl free ↦
            let after =
              register_all_from regs (set_entry mt ops l) _ (length-set_entry mt ops l ∙ four)
                (λ k. known_after k mt ops l taken (omega arith) (known k)) all.1 in
            let fresh : taken mt ≡ false = known mt ∙ ap is_some free in
            rw free (
              Ends-bind after (λ r done_rest. ends (record {
                results = rw fresh (ap (λ c. ok ∷ c) done_rest.results);
                size = done_rest.size;
                entries = λ k. done_rest.entries k ∙ first_free k mt ops l regs (omega arith) free;
              })))
        | inr (there, e) ↦
            let after =
              register_all_from regs l _ four (λ k. known_still k mt l taken there e (known k))
                all.1 in
            let used : taken mt ≡ true = known mt ∙ ap is_some e in
            rw e (
              Ends-bind after (λ r done_rest. ends (record {
                results = rw used (ap (λ c. minus eexist ∷ c) done_rest.results);
                size = done_rest.size;
                entries = λ k. done_rest.entries k ∙ first_used k mt ops l regs there e;
              })))
      ])

  nothing : (k : ℕ) → entry_or_none k (no_types) ≡ none
  nothing zero = refl
  nothing (suc zero) = refl
  nothing (suc (suc zero)) = refl
  nothing (suc (suc (suc zero))) = refl
  nothing (suc (suc (suc (suc k)))) = refl

  -- From the empty array, any sequence of registrations of types below 4 ends, returns 0 for the
  -- first registration of a type and `-EEXIST` for each further one, and leaves an array in which
  -- a message of any type reaches the functions that were registered first for the two low bits of
  -- its type; where none were, the assertion fails.
  pub register_all_lem :
      (regs : List (ℕ × Ops))
      → AllTypes regs
      → Ends
          (λ (errs, l).
            (errs ≡ codes (λ k. false) regs)
            × ((type : ℕ) → get_msg_ops type l ≡ asserted (first_of (type % 4) regs)))
          (register_all regs no_types)
  unfolding get_msg_ops
  register_all_lem regs all =
      Ends-weaken
        (register_all_from regs no_types (λ k. false) refl (λ k. sym (ap is_some (nothing k))) all)
        (λ r registered. (
          registered.results,
          λ type.
              let value =
                registered.entries (type % 4)
                ∙ ap (λ o. or_else o (first_of (type % 4) regs)) (nothing (type % 4)) in
              rw (entry_lem (type % 4) r.1 (omega (arith, registered.size))) (rw value refl),
        ))
