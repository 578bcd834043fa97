-- ===== src/ProtoWatch/Wrote.antt =====
-- The branches of `proto_watch_write_mb`: a killed watch, a direct write, and the queue.
use h.Base.{
  ℕ, suc, ◌+◌, ◌≤◌, ◌<◌, ◌≡◌, ◌≢◌, refl, sym, ap, ◌∙◌, inl, inr, Bool, true, false, ◌&&◌,
  Bool-cases, none, some, List, [], ◌∷◌, ◌++◌, append_assoc, append-nil, arith, length,
  length-append, ltb, ◌==◌,
}
use h.Base.Words.{u32_mod, add_u32}
use h.Errno.{Code, ok, minus, eagain, ekilled, is_eagain}
use h.MemBlock.{MemBlock, rest}
use h.ProtoWatch.{
  Watch, Progress, max_backlog_size, is_none, is_empty, adjust_loop, adjust_window, enqueue,
  after_direct,
}
use h.ProtoWatch.Send.{Fits, Written, Written-ok}
use h.ProtoWatch.Valid.{
  queued, buffered, stream, accounted, AllFit-append, queued-append, total_size-append, IsValid,
}
use h.ProtoWatch.Window.{Thinned, Thinned-all, FirstFresh, adjust_loop-IsAdjusted}

-- The bytes of a watch whose backlog is `kept`.
abbrev pub stream_of : {Net : Type 0} → Watch Net → List MemBlock → List ℕ
stream_of w kept = w.socket.wire ++ (buffered w.write_buffer ++ queued kept)

-- What a call does with a block. `kept` is the backlog left by the window.
pub record Wrote {Net : Type 0} (w : Watch Net) (mb : MemBlock) (r : Code × Watch Net)
    : Type 0 where
  pub valid : IsValid r.1
  pub blocks : accounted r.1 ≡ suc (accounted w)
  pub kept : List MemBlock
  pub dropped : List MemBlock
  pub thinned : Thinned mb.seq w.window_size w.backlog kept dropped
  pub unwindowed : w.window_size ≡ 0 → dropped ≡ []
  pub fresh : w.killed ≡ false → 0 < w.window_size → FirstFresh mb.seq w.window_size kept
  pub taken : r.0 ≡ ok → stream r.1 ≡ stream_of w kept ++ rest mb
  pub refused : r.0 ≡ minus eagain → stream r.1 ≡ stream_of w kept
  pub broken : r.0 ≢ ok → (lost : List ℕ) × (stream r.1 ++ lost ≡ stream_of w kept ++ rest mb)

module _ {Net : Type 0} {w : Watch Net} {mb : MemBlock} (v : IsValid w) where
  pub killed-Wrote : w.killed ≡ true → Wrote w mb (minus ekilled, record w { freed = mb ∷ w.freed })
  killed-Wrote dead = record {
    valid = record {
      sized = v.sized;
      bounded = v.bounded;
      buffer_fits = v.buffer_fits;
      backlog_fits = v.backlog_fits;
      wakes = v.wakes;
      connects = v.connects;
    };
    blocks = omega arith;
    kept = w.backlog;
    dropped = [];
    thinned = Thinned-all mb.seq w.window_size w.backlog;
    unwindowed = λ h. refl;
    fresh = λ alive. cc;
    taken = λ h. cc;
    refused = λ h. refl;
    broken = λ h. (rest mb, refl);
  }

  -- A write on a watch with nothing queued.
  module _ {r : Progress Net} (no_buffer : w.write_buffer ≡ none) (no_backlog : w.backlog ≡ [])
      (wr : Written w.socket mb r) where
    idle : stream_of w w.backlog ≡ w.socket.wire
    idle = rw (no_buffer, no_backlog) (append-nil w.socket.wire)

    blocked-Wrote :
        Wrote w mb (ok, record w { socket = r.2; write_buffer = some r.1; ev_write = true })
    blocked-Wrote = record {
      valid = record {
        sized = v.sized;
        bounded = v.bounded;
        buffer_fits = wr.fits;
        backlog_fits = v.backlog_fits;
        wakes = λ h. refl;
        connects = λ h. refl;
      };
      blocks = ground arith;
      kept = w.backlog;
      dropped = [];
      thinned = Thinned-all mb.seq w.window_size w.backlog;
      unwindowed = λ h. refl;
      fresh = λ alive on. rw no_backlog tt;
      taken = λ h.
          ap (λ l. r.2.wire ++ (rest r.1 ++ queued l)) no_backlog
          ∙ ap (λ l. r.2.wire ++ l) (append-nil (rest r.1))
          ∙ wr.stream
          ∙ ap (λ l. l ++ rest mb) (sym idle);
      refused = λ h. cc;
      broken = λ h. absurd (h refl);
    }

    finished-Wrote :
        is_eagain r.0 ≡ false → Wrote w mb (r.0, record w { socket = r.2; freed = r.1 ∷ w.freed })
    finished-Wrote other =
        let out : r.2.wire ++ (buffered w.write_buffer ++ queued w.backlog) ≡ r.2.wire =
          rw (no_buffer, no_backlog) (append-nil r.2.wire) in
        record {
          valid = record {
            sized = v.sized;
            bounded = v.bounded;
            buffer_fits = v.buffer_fits;
            backlog_fits = v.backlog_fits;
            wakes = v.wakes;
            connects = v.connects;
          };
          blocks = omega arith;
          kept = w.backlog;
          dropped = [];
          thinned = Thinned-all mb.seq w.window_size w.backlog;
          unwindowed = λ h. refl;
          fresh = λ alive on. rw no_backlog tt;
          taken = λ h. out ∙ Written-ok wr h ∙ ap (λ l. l ++ rest mb) (sym idle);
          refused = λ h. ground arith;
          broken = λ h. (
            rest r.1,
            ap (λ l. l ++ rest r.1) out ∙ wr.stream ∙ ap (λ l. l ++ rest mb) (sym idle),
          );
        }

    pub after_direct-Wrote : Wrote w mb (after_direct w r)
    after_direct-Wrote = elim (Bool-cases (is_eagain r.0)) [
      | inl blocked ↦ rw blocked blocked-Wrote
      | inr other ↦ rw other (finished-Wrote other)
    ]

-- What the window leaves of a watch.
record Trim {Net : Type 0} (w : Watch Net) (seq : ℕ) (w' : Watch Net) : Type 0 where
  dropped : List MemBlock
  thinned : Thinned seq w.window_size w.backlog w'.backlog dropped
  unwindowed : w.window_size ≡ 0 → dropped ≡ []
  fresh : 0 < w.window_size → FirstFresh seq w.window_size w'.backlog
  valid : IsValid w'
  blocks : accounted w' ≡ accounted w
  same_stream : stream w' ≡ stream_of w w'.backlog

empty_shrinks :
    (b : Bool) (kept l : List MemBlock)
    → length kept ≤ length l
    → (b && is_empty kept) ≡ false
    → (b && is_empty l) ≡ false
empty_shrinks false kept l le h = refl
empty_shrinks true (x ∷ kept) [] le h = absurd (omega arith)
empty_shrinks true [] l le h = cc
empty_shrinks true (x ∷ kept) (y ∷ l) le h = refl

adjust_window-Trim :
    {Net : Type 0} (w : Watch Net) (seq : ℕ) → IsValid w → Trim w seq (adjust_window w seq)
unfolding adjust_window
adjust_window-Trim w seq v = elim (Bool-cases (w.window_size == 0)) [
  | inl off ↦
      rw (off, adjust_window)
        (record {
          dropped = [];
          thinned = Thinned-all seq w.window_size w.backlog;
          unwindowed = λ h. refl;
          fresh = λ set. ground arith;
          valid = v;
          blocks = refl;
          same_stream = refl;
        })
  | inr on ↦
      let r = adjust_loop seq w.window_size w.backlog w.backlog_size in
      let adjusted =
        adjust_loop-IsAdjusted seq w.window_size 0 w.backlog w.backlog_size v.backlog_fits
          (omega (arith, v.sized)) v.bounded in
      rw (on, adjust_window)
        (record {
          dropped = r.1;
          thinned = adjusted.thinned;
          unwindowed = λ h. ground arith;
          fresh = λ set. adjusted.fresh;
          valid = record {
            sized = omega (arith, adjusted.sized);
            bounded = omega (arith, adjusted.sized, adjusted.smaller, v.sized, v.bounded);
            buffer_fits = v.buffer_fits;
            backlog_fits = adjusted.fits;
            wakes = λ h. v.wakes (
                empty_shrinks (is_none w.write_buffer) r.0 w.backlog
                  (omega (arith, adjusted.accounted)) h);
            connects = v.connects;
          };
          blocks = omega (arith, adjusted.accounted, length-append r.1 w.freed);
          same_stream = refl;
        })
]

queued_last :
    (sent_bytes buffer : List ℕ) (l : List MemBlock) (mb : MemBlock)
    → sent_bytes ++ (buffer ++ queued (l ++ mb ∷ []))
      ≡ (sent_bytes ++ (buffer ++ queued l)) ++ rest mb
queued_last sent_bytes buffer l mb =
    rw (queued-append l (mb ∷ [])) (simp (append_assoc, append-nil))

-- A block at the end of the queue, or turned away.
module _ {Net : Type 0} {w : Watch Net} {mb : MemBlock} (fits : Fits mb)
    (small : mb.size + max_backlog_size < u32_mod) where
  pub enqueue-Wrote : IsValid w → Wrote w mb (enqueue w mb)
  unfolding enqueue
  enqueue-Wrote v =
      let w' = adjust_window w mb.seq in
      let t = adjust_window-Trim w mb.seq v in
      let same = t.same_stream in
      elim (Bool-cases (ltb max_backlog_size (add_u32 w'.backlog_size mb.size))) [
        | inl full ↦ rw full (record {
          valid = record {
            sized = t.valid.sized;
            bounded = t.valid.bounded;
            buffer_fits = t.valid.buffer_fits;
            backlog_fits = t.valid.backlog_fits;
            wakes = t.valid.wakes;
            connects = t.valid.connects;
          };
          blocks = omega (arith, t.blocks);
          kept = w'.backlog;
          dropped = t.dropped;
          thinned = t.thinned;
          unwindowed = t.unwindowed;
          fresh = λ alive. t.fresh;
          taken = λ h. cc;
          refused = λ h. same;
          broken = λ h. (rest mb, ap (λ l. l ++ rest mb) same);
        })
        | inr room ↦ rw room (record {
          valid = record {
            sized =
                ground
                  (arith, t.valid.sized, t.valid.bounded, total_size-append w'.backlog (mb ∷ []));
            bounded = ground (arith, t.valid.bounded);
            buffer_fits = t.valid.buffer_fits;
            backlog_fits = AllFit-append w'.backlog (mb ∷ []) t.valid.backlog_fits (fits, tt);
            wakes = λ h. refl;
            connects = λ h. refl;
          };
          blocks = omega (arith, t.blocks, length-append w'.backlog (mb ∷ []));
          kept = w'.backlog;
          dropped = t.dropped;
          thinned = t.thinned;
          unwindowed = t.unwindowed;
          fresh = λ alive. t.fresh;
          taken = λ h.
              queued_last w'.socket.wire (buffered w'.write_buffer) w'.backlog mb
              ∙ ap (λ l. l ++ rest mb) same;
          refused = λ h. cc;
          broken = λ h. absurd (h refl);
        })
      ]
