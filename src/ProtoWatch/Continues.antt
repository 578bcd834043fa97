-- ===== src/ProtoWatch/Continues.antt =====
-- The parts of `__proto_watch_write_pending`: taking the next block, and what follows its write.
use h.Base.{
  ◌<◌, ◌≡◌, refl, sym, ap, ◌∙◌, false, Option, none, some, List, [], ◌∷◌, ◌++◌, append_assoc, arith,
}
use h.Base.Yields.{Yields, yields}
use h.Errno.{ok}
use h.MemBlock.{MemBlock, rest}
use h.ProtoWatch.{Watch, Progress, next_block, keep_block, drop_block}
use h.ProtoWatch.Send.{Fits, Written, Written-ok}
use h.ProtoWatch.Valid.{queued, stream, held, accounted, IsValid}

-- What one part of the work does to a watch: the same bytes, the same blocks, and the rest alone.
pub record Continues {Net : Type 0} (w w' : Watch Net) : Type 0 where
  pub valid : IsValid w'
  pub same_stream : stream w' ≡ stream w
  pub same_blocks : accounted w' ≡ accounted w
  pub same_killed : w'.killed ≡ w.killed
  pub same_connecting : w'.connecting ≡ w.connecting

module _ {Net : Type 0} where
  pub Continues-trans : {a b c : Watch Net} → Continues a b → Continues b c → Continues a c
  Continues-trans p q = record {
    valid = q.valid;
    same_stream = q.same_stream ∙ p.same_stream;
    same_blocks = q.same_blocks ∙ p.same_blocks;
    same_killed = q.same_killed ∙ p.same_killed;
    same_connecting = q.same_connecting ∙ p.same_connecting;
  }

  -- The next block stands in `write_buffer`, and nothing is lost on the way.
  pub record Next (w : Watch Net) (r : MemBlock × Watch Net) : Type 0 where
    pub continues : Continues w r.1
    pub in_buffer : r.1.write_buffer ≡ some r.0
    pub fits : Fits r.0
    pub fewer : held r.1 ≡ held w
    pub same_write : r.1.ev_write ≡ w.ev_write

  at_queue : Watch Net → Option MemBlock → List MemBlock → Watch Net
  at_queue w b l = record w { write_buffer = b; backlog = l }

  next_block-at :
      (w : Watch Net) (b : Option MemBlock) (l : List MemBlock)
      → IsValid (at_queue w b l)
      → 0 < held (at_queue w b l)
      → Yields (Next (at_queue w b l)) (next_block (at_queue w b l))
  unfolding next_block at_queue
  next_block-at w (some mb) l v more = yields (record {
    continues = record {
      valid = v;
      same_stream = refl;
      same_blocks = refl;
      same_killed = refl;
      same_connecting = refl;
    };
    in_buffer = refl;
    fits = v.buffer_fits;
    fewer = refl;
    same_write = refl;
  })
  next_block-at w none [] v more = absurd (omega arith)
  next_block-at w none (mb ∷ l) v more = yields (record {
    continues = record {
      valid = record {
        sized = ground (arith, v.backlog_fits);
        bounded = ground (arith, v.backlog_fits);
        buffer_fits = v.backlog_fits.0;
        backlog_fits = v.backlog_fits.1;
        wakes = λ h. v.wakes refl;
        connects = v.connects;
      };
      same_stream = refl;
      same_blocks = omega arith;
      same_killed = refl;
      same_connecting = refl;
    };
    in_buffer = refl;
    fits = v.backlog_fits.0;
    fewer = omega arith;
    same_write = refl;
  })

  pub next_block-Next : (w : Watch Net) → IsValid w → 0 < held w → Yields (Next w) (next_block w)
  unfolding at_queue
  next_block-Next w = next_block-at w w.write_buffer w.backlog

  next_block-none-at :
      (w : Watch Net) (b : Option MemBlock) (l : List MemBlock)
      → held (at_queue w b l) ≡ 0
      → (next_block (at_queue w b l) ≡ none) × (b ≡ none) × (l ≡ [])
  unfolding next_block at_queue
  next_block-none-at w (some mb) l e = absurd (omega arith)
  next_block-none-at w none [] e = (refl, refl, refl)
  next_block-none-at w none (mb ∷ l) e = absurd (omega arith)

  pub next_block-none :
      (w : Watch Net)
      → held w ≡ 0
      → (next_block w ≡ none) × (w.write_buffer ≡ none) × (w.backlog ≡ [])
  unfolding at_queue
  next_block-none w = next_block-none-at w w.write_buffer w.backlog

  -- Where the block has gone out it is freed, else it stays in `write_buffer`.
  pub keep_block-Continues :
      {w : Watch Net} {mb : MemBlock} {r : Progress Net}
      → IsValid w
      → w.write_buffer ≡ some mb
      → Written w.socket mb r
      → Continues w (keep_block w r.1 r.2)
  keep_block-Continues {w} {mb} {r} v there wr = record {
    valid = record {
      sized = v.sized;
      bounded = v.bounded;
      buffer_fits = wr.fits;
      backlog_fits = v.backlog_fits;
      wakes = λ h. v.wakes (ground arith);
      connects = v.connects;
    };
    same_stream = rw there (
        sym (append_assoc r.2.wire (rest r.1) (queued w.backlog))
        ∙ ap (λ b. b ++ queued w.backlog) wr.stream
        ∙ append_assoc w.socket.wire (rest mb) (queued w.backlog));
    same_blocks = ground arith;
    same_killed = refl;
    same_connecting = refl;
  }

  pub drop_block-Continues :
      {w : Watch Net} {mb : MemBlock} {r : Progress Net}
      → IsValid w
      → w.write_buffer ≡ some mb
      → Written w.socket mb r
      → r.0 ≡ ok
      → Continues w (drop_block w r.1 r.2)
  drop_block-Continues {w} {mb} {r} v there wr done = record {
    valid = record {
      sized = v.sized;
      bounded = v.bounded;
      buffer_fits = tt;
      backlog_fits = v.backlog_fits;
      wakes = λ h. v.wakes (ground arith);
      connects = v.connects;
    };
    same_stream = rw there (
        ap (λ b. b ++ queued w.backlog) (Written-ok wr done)
        ∙ append_assoc w.socket.wire (rest mb) (queued w.backlog));
    same_blocks = ground arith;
    same_killed = refl;
    same_connecting = refl;
  }

  -- With nothing left EV_WRITE comes off.
  pub stop-Continues :
      {w : Watch Net}
      → IsValid w
      → w.connecting ≡ false
      → w.write_buffer ≡ none
      → w.backlog ≡ []
      → Continues w (record w { ev_write = false })
  stop-Continues v calm no_buffer no_backlog = record {
    valid = record {
      sized = v.sized;
      bounded = v.bounded;
      buffer_fits = v.buffer_fits;
      backlog_fits = v.backlog_fits;
      wakes = λ h. ground arith;
      connects = λ h. ground arith;
    };
    same_stream = refl;
    same_blocks = refl;
    same_killed = refl;
    same_connecting = refl;
  }
