-- ===== src/Trace/System/Flow.antt =====
-- What every step of the two threads keeps of the ring and of what went through it.
use h.Base.{
  ℕ, ◌≤◌, ◌<◌, ◌≡◌, sym, ap, ◌∙◌, Bool, some, List, ◌++◌, append_assoc, length, length-append,
  arith,
}
use mathlib.Core.Path.{subst}
use h.Base.Yields.{Yields-value}
use h.Trace.{Ring, trace_line_max_size, get_free_space, ring_write, print_round}
use h.Trace.Valid.{IsValid, contents, spaces_lem}
use h.Trace.Write.{ring_write_lem}
use h.Trace.Strings.{NoZero, NoZero-append}
use h.Trace.Print.{Round, print_round_lem}
use h.Trace.System.{Worker, Writer, idle, posting, polling, ready, stopping, System}

-- What the writer knows of its string.
abbrev pub Fits : Ring → Writer → Type 0
Fits b idle = Unit
Fits b posting = Unit
Fits b stopping = Unit
Fits b (polling m) = NoZero m × (length m < b.size)
Fits b (ready m) = NoZero m × (length m < b.size) × (length m ≤ get_free_space b)

Fits-grow :
    (b b' : Ring) (w : Writer)
    → b'.size ≡ b.size
    → get_free_space b ≤ get_free_space b'
    → Fits b w
    → Fits b' w
Fits-grow b b' idle e more fits = tt
Fits-grow b b' posting e more fits = tt
Fits-grow b b' stopping e more fits = tt
Fits-grow b b' (polling m) e more fits = (fits.0, omega (arith, fits.1))
Fits-grow b b' (ready m) e more fits = (fits.0, omega (arith, fits.1), omega (arith, fits.2))

-- What holds of the ring and of what went through it.
pub record Flow (s : System) : Type 0 where
  pub valid : IsValid s.ring
  pub big : trace_line_max_size ≤ s.ring.size
  pub whole : NoZero (contents s.ring)
  pub all : s.output ++ contents s.ring ≡ s.sent
  pub fits : Fits s.ring s.writer

pub print_Round :
    {s : System} {cycle : Bool} {r : List ℕ × Bool × Ring}
    → Flow s
    → print_round cycle s.ring ≡ some r
    → Round cycle s.ring r
print_Round {s} {cycle} flow e =
    Yields-value (print_round_lem cycle s.ring flow.valid flow.big flow.whole) e

pub Round-Flow :
    (s : System) {cycle again : Bool} {out : List ℕ} {b : Ring} (w : Worker)
    → Flow s
    → Round cycle s.ring (out, again, b)
    → Flow (record s { ring = b; output = s.output ++ out; worker = w })
Round-Flow s {out = out} {b} w flow round =
    let before = spaces_lem s.ring flow.valid in
    let after = spaces_lem b round.valid in
    record {
      valid = round.valid;
      big = omega (arith, flow.big, round.size);
      whole = round.whole;
      all = append_assoc s.output out (contents b) ∙ ap (λ r. s.output ++ r) round.kept ∙ flow.all;
      fits =
          Fits-grow s.ring b s.writer round.size
            (omega (
              arith,
              before.0,
              before.1,
              after.0,
              after.1,
              round.size,
              ap length round.kept,
              length-append out (contents b),
            ))
            flow.fits;
    }

pub write-Flow :
    (s : System) {m : List ℕ}
    → Flow s
    → s.writer ≡ ready m
    → Flow (record s { ring = ring_write s.ring m; sent = s.sent ++ m; writer = posting })
write-Flow s {m} flow w =
    let (clean, short, room) = subst (Fits s.ring) w flow.fits in
    let (valid, held, size) = ring_write_lem s.ring m flow.valid short room in
    record {
      valid = valid;
      big = omega (arith, flow.big, size);
      whole = rw held (NoZero-append (contents s.ring) m flow.whole clean);
      all =
          ap (λ r. s.output ++ r) held
          ∙ sym (append_assoc s.output (contents s.ring) m)
          ∙ ap (λ r. r ++ m) flow.all;
      fits = tt;
    }

pub Flow-writer :
    (s : System) (w : Writer) (sem : ℕ) (exit : Bool)
    → Flow s
    → Fits s.ring w
    → Flow (record s { writer = w; sem = sem; exit = exit })
Flow-writer s w sem exit flow fits = record {
  valid = flow.valid;
  big = flow.big;
  whole = flow.whole;
  all = flow.all;
  fits = fits;
}

pub Flow-worker :
    (s : System) (w : Worker) (sem : ℕ) → Flow s → Flow (record s { worker = w; sem = sem })
Flow-worker s w sem flow = record {
  valid = flow.valid;
  big = flow.big;
  whole = flow.whole;
  all = flow.all;
  fits = flow.fits;
}
