-- ===== src/Trace/Tests.antt =====
-- Runs of the ring.
use h.Base.{
  ℕ, suc, ◌+◌, ◌≤◌, ◌<◌, ◌≡◌, refl, inl, true, some, List, [], ◌∷◌, ◌++◌, length, take-nil, ap, ◌∙◌,
  ◌-◌, min, zero, take, arith,
}
use h.Base.Words.{u32_mod}
use h.Base.Yields.{Yields}
use h.Trace.{Ring, zeros, empty_ring, get_free_space, ring_write, ring_read, print_until_zero}
use h.Trace.Valid.{ahead, IsValid, contents, spaces_lem, length-zeros, empty_ring-IsValid}
use h.Trace.Write.{ring_write_lem}
use h.Trace.Read.Pieces.{Reads}
use h.Trace.Read.{ring_read_lem}
use h.Trace.Print.{Prints, print_until_zero_lem}
use h.Trace.Line.{Formats, trace, trace_lem}

-- A ring of eight bytes that holds two, across the end of the memory.
abbrev small_ring : Ring
small_ring = record {
  size = 8;
  start = 66 ∷ 0 ∷ 0 ∷ 0 ∷ 0 ∷ 0 ∷ 0 ∷ 65 ∷ [];
  read_pos = 7;
  read_reverse = 0;
  write_pos = 1;
  write_reverse = 1;
}

small_ring-IsValid : IsValid small_ring
small_ring-IsValid = record {
  storage = refl;
  some_room = omega arith;
  small = omega arith;
  read_in = omega arith;
  write_in = omega arith;
  turns = omega arith;
  turn = ahead refl (omega arith);
}

ring_write_lem_example :
    IsValid (ring_write small_ring (67 ∷ 68 ∷ []))
    × (contents (ring_write small_ring (67 ∷ 68 ∷ [])) ≡ 65 ∷ 66 ∷ 67 ∷ 68 ∷ [])
    × ((ring_write small_ring (67 ∷ 68 ∷ [])).size ≡ 8)
unfolding contents get_free_space
ring_write_lem_example =
    ring_write_lem small_ring (67 ∷ 68 ∷ []) small_ring-IsValid (omega arith) (omega arith)

ring_read_lem_example : Yields (Reads small_ring 5) (ring_read small_ring 5)
unfolding contents
ring_read_lem_example =
    ring_read_lem small_ring 5 small_ring-IsValid (omega arith)
      ((λ e. absurd (omega arith)), ((λ e. absurd (omega arith)), tt))

-- The first line in the ring of the program.
abbrev first_ring : Ring
first_ring = ring_write (empty_ring 4096) (65 ∷ [])

empty_room : (size : ℕ) → 0 < size → size + size < u32_mod → 1 ≤ get_free_space (empty_ring size)
empty_room size pos small =
    let (valid, empty) = empty_ring-IsValid size pos small in
    let spaces = spaces_lem (empty_ring size) valid in
    omega (arith, spaces.0, spaces.1, ap length empty)

first_ring_lem : IsValid first_ring × (contents first_ring ≡ 65 ∷ []) × (first_ring.size ≡ 4096)
first_ring_lem =
    let (valid, empty) = empty_ring-IsValid 4096 (omega arith) (omega arith) in
    let (written, held, size) =
      ring_write_lem (empty_ring 4096) (65 ∷ []) valid (omega arith)
        (empty_room 4096 (omega arith) (omega arith)) in
    (written, held ∙ ap (λ r. r ++ (65 ∷ [])) empty, size)

print_until_zero_lem_example : Yields (Prints first_ring) (print_until_zero 2 true first_ring)
print_until_zero_lem_example =
    print_until_zero_lem 2 true first_ring (first_ring_lem.0) (omega (arith, first_ring_lem.2))
      (rw (first_ring_lem.1) ((λ e. absurd (omega arith)), tt))
      (omega (arith, ap length first_ring_lem.1)) (inl (omega (arith, ap length first_ring_lem.1)))

-- A `vsnprintf` that formats one letter.
abbrev one_letter : ℕ → List ℕ × ℕ
one_letter zero = ([], 1)
one_letter (suc zero) = (0 ∷ [], 1)
one_letter (suc (suc n)) = (66 ∷ 0 ∷ zeros n, 1)

one_letter-length : (room : ℕ) → length (one_letter room).0 ≡ room
one_letter-length zero = refl
one_letter-length (suc zero) = refl
one_letter-length (suc (suc n)) = omega (arith, length-zeros n)

one_letter-result : (room : ℕ) → (one_letter room).1 ≡ 1
one_letter-result zero = refl
one_letter-result (suc zero) = refl
one_letter-result (suc (suc n)) = refl

one_letter-put :
    (room : ℕ)
    → 0 < room
    → take (suc (min (room - 1) 1)) (one_letter room).0 ≡ take (room - 1) (66 ∷ []) ++ (0 ∷ [])
one_letter-put zero pos = absurd (omega arith)
one_letter-put (suc zero) pos = refl
one_letter-put (suc (suc n)) pos =
    let more : suc (suc n) - 1 ≡ suc n = omega arith in
    let one : min (suc n) 1 ≡ 1 = omega arith in rw (more, one, take-nil n) refl

one_letter-Formats : Formats (66 ∷ []) one_letter
one_letter-Formats = record {
  result = one_letter-result;
  buffer = one_letter-length;
  put = one_letter-put;
}

trace_lem_example : trace true 2 2 (65 ∷ []) one_letter ≡ some (65 ∷ 66 ∷ [])
trace_lem_example =
    trace_lem 2 2 (65 ∷ []) (66 ∷ []) one_letter one_letter-Formats (omega arith) (omega arith)
      (omega arith)
