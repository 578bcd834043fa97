-- ===== src/Trace/Print.antt =====
-- `trace_print_until_zero` prints all that the ring holds.
use h.Base.{
  ℕ, zero, suc, ◌-◌, ◌≤◌, ◌<◌, ◌≡◌, refl, sym, ap, ◌∙◌, ◌⊎◌, inl, inr, Bool, true, false,
  Bool-cases, Option, none, some, List, [], ◌∷◌, ◌++◌, append-nil, length, take, ◌==◌, ltb, arith,
  length-drop, drop-length, take-append-drop,
}
use h.Base.Yields.{Yields, yields}
use h.Trace.{
  Ring, trace_line_max_size, get_used_space, printed, after_read, print_round, after_more,
  after_round, print_until_zero,
}
use h.Trace.Valid.{IsValid, contents, spaces_lem}
use h.Trace.Strings.{NoZero, NoZero-take, NoZero-drop}
use h.Trace.Read.Pieces.{Reads}
use h.Trace.Read.{ring_read_lem}

printed_lem : (s : List ℕ) → NoZero s → printed s ≡ s
printed_lem [] z = refl
printed_lem (c ∷ s) z =
    let other : (c == 0) ≡ false = ground (arith, z.0) in
    rw other (ap (λ r. c ∷ r) (printed_lem s z.1))

length-zero : (s : List ℕ) → length s ≡ 0 → s ≡ []
length-zero [] e = refl
length-zero (c ∷ s) e = absurd (omega arith)

-- What a round does: it prints the oldest bytes and goes on only where more are left, or where it
-- found none and `cycle` was set before.
pub record Round (cycle : Bool) (b : Ring) (r : List ℕ × Bool × Ring) : Type 0 where
  pub kept : r.0 ++ contents r.2 ≡ contents b
  pub valid : IsValid r.2
  pub size : r.2.size ≡ b.size
  pub whole : NoZero (contents r.2)
  pub last : r.1 ≡ false → contents r.2 ≡ []
  pub more :
      0 < length (contents b)
      → r.1 ≡ true
      → (0 < length (contents r.2)) × (length (contents r.2) < length (contents b))
  pub idle : contents b ≡ [] → r ≡ ([], cycle, b)

-- A round that reads.
read-Round :
    {cycle now : Bool} {b : Ring} {n : ℕ} {o : Option (List ℕ × Ring)}
    → NoZero (contents b)
    → 0 < length (contents b)
    → (now ≡ false → length (contents b) ≤ n)
    → (now ≡ true → (0 < n) × (n < length (contents b)))
    → Yields (Reads b n) o
    → Yields (Round cycle b) (after_read now o)
read-Round {b = b} {n = n} z held last more (yields {a} reads) = yields (record {
  kept =
      ap (λ r. r ++ contents a.1)
        (ap printed reads.bytes ∙ printed_lem (take n (contents b)) (NoZero-take n (contents b) z))
      ∙ ap (λ r. take n (contents b) ++ r) reads.left
      ∙ take-append-drop n (contents b);
  valid = reads.valid;
  size = reads.size;
  whole = rw (reads.left) (NoZero-drop n (contents b) z);
  last = λ stop. reads.left ∙ drop-length n (contents b) (last stop);
  more = λ some_left go. omega (arith, more go, ap length reads.left, length-drop n (contents b));
  idle = λ none_left. absurd (omega (arith, ap length none_left));
})

pub print_round_lem :
    (cycle : Bool) (b : Ring)
    → IsValid b
    → trace_line_max_size ≤ b.size
    → NoZero (contents b)
    → Yields (Round cycle b) (print_round cycle b)
unfolding print_round
print_round_lem cycle b v big z =
    let used = (spaces_lem b v).0 in
    elim (Bool-cases (get_used_space b == 0)) [
      | inl idle ↦
          let nothing = length-zero (contents b) (ground (arith, used)) in
          rw idle (
            yields (record {
              kept = refl;
              valid = v;
              size = refl;
              whole = z;
              last = λ stop. nothing;
              more = λ held go. absurd (ground (arith, used));
              idle = λ e. refl;
            }))
      | inr busy ↦ rw busy (elim (Bool-cases (ltb (trace_line_max_size - 1) (get_used_space b))) [
        | inl full ↦ rw full (
            read-Round z (ground (arith, used)) (λ e. absurd (ground arith))
              (λ e. ground (arith, used)) (ring_read_lem b 4095 v (omega (arith, big)) z))
        | inr part ↦ rw part (
            read-Round z (ground (arith, used)) (λ e. omega (arith, used))
              (λ e. absurd (ground arith))
              (ring_read_lem b (get_used_space b) v (ground (arith, big)) z))
      ])
    ]

-- What the loop does: it prints what the ring held, and leaves it valid and empty.
pub record Prints (b : Ring) (r : List ℕ × Ring) : Type 0 where
  pub all : r.0 ≡ contents b
  pub empty : contents r.1 ≡ []
  pub valid : IsValid r.1
  pub size : r.1.size ≡ b.size

after_more-Prints :
    {b t : Ring} {o : Option (List ℕ × Ring)} (out : List ℕ)
    → out ++ contents t ≡ contents b
    → t.size ≡ b.size
    → Yields (Prints t) o
    → Yields (Prints b) (after_more out o)
after_more-Prints out kept same (yields prints) = yields (record {
  all = ap (λ r. out ++ r) prints.all ∙ kept;
  empty = prints.empty;
  valid = prints.valid;
  size = prints.size ∙ same;
})

starts-held :
    {cycle : Bool} {b : Ring} {out : List ℕ} {t : Ring}
    → (0 < length (contents b)) ⊎ (cycle ≡ false)
    → Round cycle b (out, true, t)
    → 0 < length (contents b)
starts-held (inl held) round = held
starts-held {b = b} (inr quiet) round = elim (Bool-cases (length (contents b) == 0)) [
  | inl none_left ↦
      let same = ap (λ r. r.1) (round.idle (length-zero (contents b) (ground arith))) in
      absurd (ground (arith, same))
  | inr some_left ↦ ground arith
]

after_one :
    {cycle : Bool} {b : Ring} (again : Ring → Option (List ℕ × Ring)) (k : ℕ)
    (r : List ℕ × Bool × Ring)
    → length (contents b) < suc k
    → trace_line_max_size ≤ b.size
    → ((0 < length (contents b)) ⊎ (cycle ≡ false))
    → ((t : Ring)
        → IsValid t
        → trace_line_max_size ≤ t.size
        → NoZero (contents t)
        → length (contents t) < k
        → 0 < length (contents t)
        → Yields (Prints t) (again t))
    → Round cycle b r
    → Yields (Prints b) (after_round again (some r))
unfolding after_round
after_one again k (out, false, t) enough big starts next round =
    let nothing = round.last refl in
    yields (record {
      all = sym (append-nil out) ∙ ap (λ r. out ++ r) (sym nothing) ∙ round.kept;
      empty = nothing;
      valid = round.valid;
      size = round.size;
    })
after_one again k (out, true, t) enough big starts next round =
    let (left, fewer) = round.more (starts-held starts round) refl in
    after_more-Prints out round.kept round.size
      (next t round.valid (omega (arith, round.size)) round.whole (omega arith) left)

after_round-Prints :
    {cycle : Bool} {b : Ring} (again : Ring → Option (List ℕ × Ring)) (k : ℕ)
    {o : Option (List ℕ × Bool × Ring)}
    → length (contents b) < suc k
    → trace_line_max_size ≤ b.size
    → ((0 < length (contents b)) ⊎ (cycle ≡ false))
    → ((t : Ring)
        → IsValid t
        → trace_line_max_size ≤ t.size
        → NoZero (contents t)
        → length (contents t) < k
        → 0 < length (contents t)
        → Yields (Prints t) (again t))
    → Yields (Round cycle b) o
    → Yields (Prints b) (after_round again o)
after_round-Prints again k enough big starts next (yields {a} round) =
    after_one again k a enough big starts next round

-- On a valid ring of at least 4096 bytes that holds no zero, with more rounds than bytes, where the
-- ring holds something or `cycle` starts as 0, `trace_print_until_zero` ends, prints what the ring
-- held, in order, and leaves it valid and empty.
pub print_until_zero_lem :
    (rounds : ℕ) (cycle : Bool) (b : Ring)
    → IsValid b
    → trace_line_max_size ≤ b.size
    → NoZero (contents b)
    → length (contents b) < rounds
    → ((0 < length (contents b)) ⊎ (cycle ≡ false))
    → Yields (Prints b) (print_until_zero rounds cycle b)
unfolding print_until_zero
print_until_zero_lem zero cycle b v big z enough starts = absurd (omega arith)
print_until_zero_lem (suc k) cycle b v big z enough starts =
    after_round-Prints (print_until_zero k true) k enough big starts
      (λ t v' big' z' enough' held. print_until_zero_lem k true t v' big' z' enough' (inl held))
      (print_round_lem cycle b v big z)

-- On an empty ring, where `cycle` starts as anything but 0, the loop never ends.
pub print_until_zero-empty :
    (rounds : ℕ) (b : Ring) → IsValid b → contents b ≡ [] → print_until_zero rounds true b ≡ none
unfolding print_until_zero print_round after_round
print_until_zero-empty zero b v e = refl
print_until_zero-empty (suc k) b v e =
    let none_used : (get_used_space b == 0) ≡ true =
      ground (arith, (spaces_lem b v).0, ap length e) in
    rw none_used (rw (print_until_zero-empty k b v e) refl)
