-- ===== src/ProtoWatch/Send.antt =====
-- `proto_watch_write_directly`: it ends, and no byte is lost, repeated or moved.
use h.Base.{
  ℕ, zero, suc, ◌+◌, ◌-◌, ◌≤◌, ◌<◌, ◌≡◌, ◌≢◌, refl, sym, ap, ◌∙◌, inl, inr, false, Option, List, [],
  ◌++◌, append_assoc, append-nil, arith, length, take, drop, Bool-cases, ◌==◌, ltb, length-take,
  take-split, drop-drop,
}
use h.Base.Words.{u32_mod, add_u32, sub_u32}
use h.Base.Yields.{Yields, yields, Yields-weaken}
use h.Errno.{Errno, Code, ok, minus, eagain, eintr}
use h.MemBlock.{MemBlock, rest}
use h.ProtoWatch.{
  SendResult, sent, failed, Socket, offered, Progress, after_send, send_error, write_loop,
  write_directly,
}

-- A block whose offset lies within its size.
pub record Fits (mb : MemBlock) : Type 0 where
  pub within : mb.offset ≤ mb.size
  pub small : mb.size < u32_mod

-- `send` takes no more than it is offered.
abbrev pub TakesAtMost : {Net : Type 0} → (Net → List ℕ → SendResult × Net) → Type 0
TakesAtMost {Net} send =
    (net : Net) (bytes : List ℕ) (n : ℕ) → (send net bytes).0 ≡ sent n → n ≤ length bytes

-- What a write has done to a block on a socket.
pub record Written {Net : Type 0} (s : Socket Net) (mb : MemBlock)
    (r : Code × MemBlock × Socket Net) : Type 0 where
  pub same_block : r.1 ≡ record mb { offset = r.1.offset }
  pub fits : Fits r.1
  pub forward : mb.offset ≤ r.1.offset
  pub stream : r.2.wire ++ rest r.1 ≡ s.wire ++ rest mb
  pub complete : r.0 ≡ ok → r.1.offset ≡ mb.size

took-stream :
    {Net : Type 0} (s : Socket Net) (mb : MemBlock) (left n : ℕ)
    → Fits mb
    → left ≡ mb.size - mb.offset
    → n ≤ left
    → (s.wire ++ take n (offered mb left)) ++ rest (record mb { offset = add_u32 mb.offset n })
      ≡ s.wire ++ rest mb
took-stream s mb left n fits e le =
    let off : add_u32 mb.offset n ≡ mb.offset + n = omega arith in
    let len : mb.size - (mb.offset + n) ≡ left - n = omega arith in
    append_assoc s.wire (take n (offered mb left))
      (rest (record mb { offset = add_u32 mb.offset n }))
    ∙ ap (λ r. s.wire ++ r)
        (rw (off, len, ← drop-drop n mb.offset mb.bytes, ← e)
          (sym (take-split n left (drop mb.offset mb.bytes) le)))

-- A write that goes on from where another stopped.
Written-trans :
    {Net : Type 0} {s s' : Socket Net} {mb : MemBlock} {r : Progress Net} (o : ℕ)
    → mb.offset ≤ o
    → s'.wire ++ rest (record mb { offset = o }) ≡ s.wire ++ rest mb
    → Written s' (record mb { offset = o }) r
    → Written s mb r
Written-trans o le stream w = record {
  same_block = w.same_block;
  fits = w.fits;
  forward = omega (arith, w.forward);
  stream = w.stream ∙ stream;
  complete = w.complete;
}

-- A write that stops where it is.
Written-stop :
    {Net : Type 0} {s s' : Socket Net} {mb : MemBlock} (c : Code)
    → Fits mb
    → s'.wire ≡ s.wire
    → (c ≡ ok → mb.offset ≡ mb.size)
    → Written s mb (c, mb, s')
Written-stop {mb} c fits e done = record {
  same_block = refl;
  fits = fits;
  forward = omega arith;
  stream = ap (λ r. r ++ rest mb) e;
  complete = done;
}

send_error-ne-ok : (e : Errno) → send_error e ≢ ok
unfolding send_error
send_error-ne-ok eintr h = cc
send_error-ne-ok _ h = cc

module _ {Net : Type 0} (again : Socket Net → MemBlock → ℕ → Option (Progress Net)) (s : Socket Net)
    (mb : MemBlock) (left : ℕ) (fits : Fits mb) (e : left ≡ mb.size - mb.offset) where
  after_send-Written :
      (answer : SendResult × Net)
      → ((n : ℕ) → answer.0 ≡ sent n → n ≤ left)
      → ((s' : Socket Net) (mb' : MemBlock) (left' : ℕ)
          → Fits mb'
          → left' ≡ mb'.size - mb'.offset
          → left' < left
          → Yields (Written s' mb') (again s' mb' left'))
      → Yields (Written s mb) (after_send again s mb left answer)
  unfolding after_send
  after_send-Written (failed err, net) law ih =
      yields (Written-stop (send_error err) fits refl λ h. absurd (send_error-ne-ok err h))
  after_send-Written (sent n, net) law ih = elim (Bool-cases (n == 0)) [
    | inl none_taken ↦ rw none_taken (yields (Written-stop (minus eagain) fits refl λ h. cc))
    | inr taken ↦
        let le = law n refl in
        rw taken (
          Yields-weaken
            (ih _ (record mb { offset = add_u32 mb.offset n }) (sub_u32 left n) (ground arith)
              (ground arith) (ground arith))
            λ r w.
              Written-trans (add_u32 mb.offset n) (ground arith) (took-stream s mb left n fits e le)
                w)
  ]

module _ {Net : Type 0} (send : Net → List ℕ → SendResult × Net) (law : TakesAtMost send) where
  write_loop-Written :
      (rounds : ℕ) (s : Socket Net) (mb : MemBlock) (left : ℕ)
      → Fits mb
      → left ≡ mb.size - mb.offset
      → left < rounds
      → Yields (Written s mb) (write_loop send rounds s mb left)
  unfolding write_loop
  write_loop-Written zero s mb left fits e fuel = absurd (omega arith)
  write_loop-Written (suc k) s mb left fits e fuel = elim (Bool-cases (left == 0)) [
    | inl all ↦ rw (all, write_loop) (yields (Written-stop ok fits refl λ h. ground arith))
    | inr more ↦
        rw (more, write_loop)
          (after_send-Written (write_loop send k) s mb left fits e (send s.net (offered mb left))
            (λ n h.
              omega (
                arith,
                law s.net (offered mb left) n h,
                length-take left (drop mb.offset mb.bytes),
              ))
            λ s' mb' left' fits' e' lt. write_loop-Written k s' mb' left' fits' e' (omega arith))
  ]

  -- On a block whose offset lies within its size, `proto_watch_write_directly` ends. The bytes that
  -- `send` has taken, with the rest of the block behind them, stay the same sequence; only the
  -- offset changes, it does not go back, and 0 is returned only where it has reached the size.
  pub write_directly_lem :
      (s : Socket Net) (mb : MemBlock) → Fits mb → Yields (Written s mb) (write_directly send s mb)
  unfolding write_directly
  write_directly_lem s mb fits =
      let left = sub_u32 mb.size mb.offset in
      let in_range : ltb mb.size mb.offset ≡ false = ground arith in
      rw in_range (write_loop-Written (suc left) s mb left fits (omega arith) (omega arith))

-- A block that has gone out stands whole behind what was sent before.
pub Written-ok :
    {Net : Type 0} {s : Socket Net} {mb : MemBlock} {r : Progress Net}
    → Written s mb r
    → r.0 ≡ ok
    → r.2.wire ≡ s.wire ++ rest mb
Written-ok {s} {mb} {r} w done =
    let empty : r.1.size - r.1.offset ≡ 0 =
      omega (arith, ap (λ b. b.size) w.same_block, w.complete done) in
    let nothing : rest r.1 ≡ [] = rw empty in
    sym (append-nil r.2.wire) ∙ ap (λ l. r.2.wire ++ l) (sym nothing) ∙ w.stream
