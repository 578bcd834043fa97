-- ===== src/ProtoWatch/Window.antt =====
-- `proto_watch_adjust_window`: which blocks of the backlog it frees.
use h.Base.{
  ℕ, ◌+◌, ◌≤◌, ◌<◌, ◌≡◌, refl, inl, inr, true, false, Bool-cases, List, [], ◌∷◌, ◌++◌, arith,
  length, leb, leb→le, ◌==◌, if◌then◌else◌,
}
use h.Base.Words.{sub_u32}
use h.MemBlock.{MemBlock, is_dropable}
use h.ProtoWatch.{Watch, Adjusted, adjust_loop, adjust_window, max_backlog_size}
use h.ProtoWatch.Valid.{total_size, AllFit, IsValid}

-- The blocks `freed` taken out of a backlog, each of them dropable and farther from `seq` than the
-- window reaches (in sequence numbers modulo 2 ^ 32); the others are kept in their order.
pub data Thinned (seq window : ℕ) : List MemBlock → List MemBlock → List MemBlock → Type 0 where
  nothing : Thinned seq window [] [] []
  keep :
      {mb : MemBlock} {l kept freed : List MemBlock}
      → Thinned seq window l kept freed
      → Thinned seq window (mb ∷ l) (mb ∷ kept) freed
  free :
      {mb : MemBlock} {l kept freed : List MemBlock}
      → is_dropable mb ≡ true
      → window < sub_u32 seq mb.seq
      → Thinned seq window l kept freed
      → Thinned seq window (mb ∷ l) kept (mb ∷ freed)

pub Thinned-all : (seq window : ℕ) (l : List MemBlock) → Thinned seq window l l []
Thinned-all seq window [] = nothing
Thinned-all seq window (mb ∷ l) = keep (Thinned-all seq window l)

-- The first dropable block of a backlog lies within the window.
abbrev pub FirstFresh : ℕ → ℕ → List MemBlock → Type 0
FirstFresh seq window [] = Unit
FirstFresh seq window (mb ∷ l) =
    if is_dropable mb then sub_u32 seq mb.seq ≤ window else FirstFresh seq window l

-- What the walk does to the rest of a backlog, behind blocks of size `passed`.
pub record IsAdjusted (seq window passed : ℕ) (l : List MemBlock) (r : Adjusted) : Type 0 where
  pub thinned : Thinned seq window l r.0 r.1
  pub fresh : FirstFresh seq window r.0
  pub sized : r.2 ≡ passed + total_size r.0
  pub smaller : total_size r.0 ≤ total_size l
  pub fits : AllFit r.0
  pub accounted : length r.0 + length r.1 ≡ length l

pub adjust_loop-IsAdjusted :
    (seq window passed : ℕ) (l : List MemBlock) (size : ℕ)
    → AllFit l
    → size ≡ passed + total_size l
    → size ≤ max_backlog_size
    → IsAdjusted seq window passed l (adjust_loop seq window l size)
unfolding adjust_loop
adjust_loop-IsAdjusted seq window passed [] size fits e small = record {
  thinned = nothing;
  fresh = tt;
  sized = e;
  smaller = omega arith;
  fits = tt;
  accounted = refl;
}
adjust_loop-IsAdjusted seq window passed (mb ∷ l) size fits e small =
    elim (Bool-cases (is_dropable mb)) [
      | inl dropable ↦ elim (Bool-cases (leb (sub_u32 seq mb.seq) window)) [
        | inl near ↦
            rw (dropable, adjust_loop, near)
              (record {
                thinned = Thinned-all seq window (mb ∷ l);
                fresh = rw dropable (leb→le _ _ near);
                sized = e;
                smaller = omega arith;
                fits = fits;
                accounted = omega arith;
              })
        | inr far ↦
            let ih =
              adjust_loop-IsAdjusted seq window passed l (sub_u32 size mb.size) fits.1
                (ground arith) (ground arith) in
            rw (dropable, adjust_loop, far)
              (record {
                thinned = free dropable (ground arith) ih.thinned;
                fresh = ih.fresh;
                sized = ih.sized;
                smaller = omega (arith, ih.smaller);
                fits = ih.fits;
                accounted = omega (arith, ih.accounted);
              })
      ]
      | inr fixed ↦
          let ih =
            adjust_loop-IsAdjusted seq window (passed + mb.size) l size fits.1 (omega arith)
              small in
          rw (fixed, adjust_loop)
            (record {
              thinned = keep ih.thinned;
              fresh = rw fixed ih.fresh;
              sized = omega (arith, ih.sized);
              smaller = omega (arith, ih.smaller);
              fits = (fits.0, ih.fits);
              accounted = omega (arith, ih.accounted);
            })
    ]

-- With a window set, `proto_watch_adjust_window` frees from the backlog dropable blocks that lie
-- behind the window and no others, keeps the order of those left, the first dropable one of which
-- lies within the window, and keeps the account of their sizes and of the blocks.
pub adjust_window_lem :
    {Net : Type 0} (w : Watch Net) (seq : ℕ)
    → IsValid w
    → 0 < w.window_size
    → (dropped : List MemBlock) × IsAdjusted seq w.window_size 0 w.backlog
        ((adjust_window w seq).backlog, dropped, (adjust_window w seq).backlog_size)
      × ((adjust_window w seq).freed ≡ dropped ++ w.freed)
unfolding adjust_window
adjust_window_lem w seq v on =
    let r = adjust_loop seq w.window_size w.backlog w.backlog_size in
    let off : (w.window_size == 0) ≡ false = ground arith in
    rw off (
      r.1,
      adjust_loop-IsAdjusted seq w.window_size 0 w.backlog w.backlog_size v.backlog_fits
          (omega (arith, v.sized)) v.bounded,
      refl,
    )
