-- ===== src/Trace/Line.antt =====
-- src/trace.c: `trace` and `trace_args`, which make the string that goes into the ring. What
-- `sprintf` and `vsnprintf` of the C library do is a parameter.
use h.Base.{
  ℕ, zero, suc, ◌+◌, ◌-◌, ◌≤◌, ◌<◌, min, ◌≡◌, refl, sym, ap, ◌∙◌, inl, inr, Bool, true, false,
  Bool-cases, Option, none, some, List, [], ◌∷◌, ◌++◌, length, take, take-append, take-length, ltb,
  ◌==◌, if◌then◌else◌, arith,
}
use h.Trace.{trace_line_max_size}

-- `trace_args` with the `output` there: what it hands to `async_ring_buf_write`, if anything. `stamp`
-- is what `get_timestamp_str` printed; `vsnprintf`, given the room, tells what stands in the rest
-- of the buffer behind the call, and its result as a `size_t`.
pub trace_args : List ℕ → (ℕ → List ℕ × ℕ) → Option (List ℕ)
trace_args stamp vsnprintf =
    let room = trace_line_max_size - length stamp in
    let (text, result) = vsnprintf room in
    let len = length stamp + (if ltb room result then room else result) in
    if length stamp == 0 then none else if ltb 0 len then some (take len (stamp ++ text)) else none

-- `trace`, with whether there is an `output`, its level, and the level of the call.
pub trace : Bool → (min_level level : ℕ) → List ℕ → (ℕ → List ℕ × ℕ) → Option (List ℕ)
trace false min_level level stamp vsnprintf = none
trace true min_level level stamp vsnprintf =
    if ltb level min_level then none else trace_args stamp vsnprintf

-- `vsnprintf`, as its standard documents it: the result is the length of the formatted text, and the
-- buffer gets as much of it as fits before a zero.
pub record Formats (text : List ℕ) (vsnprintf : ℕ → List ℕ × ℕ) : Type 0 where
  pub result : (room : ℕ) → (vsnprintf room).1 ≡ length text
  pub buffer : (room : ℕ) → length (vsnprintf room).0 ≡ room
  pub put :
      (room : ℕ)
      → 0 < room
      → take (suc (min (room - 1) (length text))) (vsnprintf room).0
        ≡ take (room - 1) text ++ (0 ∷ [])

-- The string for the ring: all of the text, or what fits, with the zero behind it.
abbrev pub line : List ℕ → List ℕ → List ℕ
line stamp text =
    if ltb (length stamp + length text) trace_line_max_size
    then stamp ++ text
    else stamp ++ (take (trace_line_max_size - length stamp - 1) text ++ (0 ∷ []))

take-append-all : (n : ℕ) (s t : List ℕ) → take (length s + n) (s ++ t) ≡ s ++ take n t
take-append-all n [] t = ap (λ k. take k t) {x = 0 + n} {y = n} (omega arith)
take-append-all n (c ∷ s) t =
    ap (λ k. take k (c ∷ (s ++ t))) {x = suc (length s) + n} {y = suc (length s + n)} (omega arith)
    ∙ ap (λ r. c ∷ r) (take-append-all n s t)

take-take : (n : ℕ) (s : List ℕ) → take n (take (suc n) s) ≡ take n s
take-take zero s = refl
take-take (suc n) [] = refl
take-take (suc n) (c ∷ s) = ap (λ r. c ∷ r) (take-take n s)

take-suc-append :
    (n : ℕ) (s t : List ℕ) → take (suc n) s ≡ t ++ (0 ∷ []) → length t ≡ n → take n s ≡ t
take-suc-append n s t e len =
    sym (take-take n s)
    ∙ ap (take n) e
    ∙ take-append n t (0 ∷ []) (omega (arith, len))
    ∙ take-length n t (omega (arith, len))

all_of :
    (stamp text : List ℕ) (vsnprintf : ℕ → List ℕ × ℕ)
    → Formats text vsnprintf
    → length stamp + length text < trace_line_max_size
    → take
        (length stamp + length text)
        (stamp ++ (vsnprintf (trace_line_max_size - length stamp)).0)
      ≡ stamp ++ text
all_of stamp text vsnprintf formats fits =
    let room = trace_line_max_size - length stamp in
    let buffer = (vsnprintf room).0 in
    take-append-all (length text) stamp buffer
    ∙ ap (λ r. stamp ++ r)
        (take-suc-append (length text) buffer text
          (ap (λ n. take n buffer) {x = suc (length text)} {y = suc (min (room - 1) (length text))}
              (omega arith)
            ∙ formats.put room (omega arith)
            ∙ ap (λ r. r ++ (0 ∷ [])) (take-length (room - 1) text (omega arith)))
          refl)

part_of :
    (stamp text : List ℕ) (vsnprintf : ℕ → List ℕ × ℕ)
    → Formats text vsnprintf
    → length stamp < trace_line_max_size
    → trace_line_max_size ≤ length stamp + length text
    → take
        (length stamp + (trace_line_max_size - length stamp))
        (stamp ++ (vsnprintf (trace_line_max_size - length stamp)).0)
      ≡ stamp ++ (take (trace_line_max_size - length stamp - 1) text ++ (0 ∷ []))
part_of stamp text vsnprintf formats short long =
    let room = trace_line_max_size - length stamp in
    let buffer = (vsnprintf room).0 in
    take-append-all room stamp buffer
    ∙ ap (λ r. stamp ++ r)
        (ap (λ n. take n buffer) {x = room} {y = suc (min (room - 1) (length text))} (omega arith)
          ∙ formats.put room (omega arith))

-- A call whose level is not below the output's, with a stamp that leaves room in the buffer, writes
-- the stamp with all of the text where both are shorter than 4096 together; else it writes 4096
-- bytes, the last of which is the zero of `vsnprintf`.
pub trace_lem :
    (min_level level : ℕ) (stamp text : List ℕ) (vsnprintf : ℕ → List ℕ × ℕ)
    → Formats text vsnprintf
    → min_level ≤ level
    → 0 < length stamp
    → length stamp < trace_line_max_size
    → trace true min_level level stamp vsnprintf ≡ some (line stamp text)
unfolding trace trace_args
trace_lem min_level level stamp text vsnprintf formats shown pos short =
    let room = trace_line_max_size - length stamp in
    let no_less : ltb level min_level ≡ false = ground arith in
    let some_stamp : (length stamp == 0) ≡ false = ground arith in
    rw (no_less, some_stamp, formats.result room)
      (elim (Bool-cases (ltb (length stamp + length text) trace_line_max_size)) [
        | inl fits ↦
            let inside : ltb room (length text) ≡ false = ground arith in
            let held : ltb 0 (length stamp + length text) ≡ true = ground arith in
            rw (fits, inside, held) (ap some (all_of stamp text vsnprintf formats (ground arith)))
        | inr long ↦
            let cut : (if ltb room (length text) then room else length text) ≡ room =
              ground arith in
            let held : ltb 0 (length stamp + room) ≡ true = ground arith in
            rw (long, cut, held)
              (ap some (part_of stamp text vsnprintf formats short (ground arith)))
      ])
