-- ===== src/Trace/Read/Cuts.antt =====
-- Cutting lists of bytes for `async_ring_buf_read` of src/trace.c.
use h.Base.{
  ℕ, ◌+◌, ◌≤◌, ◌≡◌, refl, sym, ap, ◌∙◌, inl, inr, Bool-cases, List, length, take, drop, leb,
  if◌then◌else◌, arith, length-take, length-drop, take-append, take-length, drop-length,
  drop-append, take-append-drop,
}

-- Cutting by a number or by as much of it as there is.
unfoldable pub capped : ℕ → ℕ → ℕ
capped n used = if leb n used then n else used

pub take-capped : (n used : ℕ) (s : List ℕ) → used ≡ length s → take (capped n used) s ≡ take n s
unfolding capped
take-capped n used s e = elim (Bool-cases (leb n used)) [
  | inl less ↦ rw less refl
  | inr more ↦ rw more (take-length used s (omega arith) ∙ sym (take-length n s (ground arith)))
]

pub drop-capped : (n used : ℕ) (s : List ℕ) → used ≡ length s → drop (capped n used) s ≡ drop n s
unfolding capped
drop-capped n used s e = elim (Bool-cases (leb n used)) [
  | inl less ↦ rw less refl
  | inr more ↦ rw more (drop-length used s (omega arith) ∙ sym (drop-length n s (ground arith)))
]

pub capped-le : (n used : ℕ) → (capped n used ≤ used) × (capped n used ≤ n)
unfolding capped
capped-le n used = ground arith

-- A cut inside a cut.
pub take-drop-take :
    (k r w : ℕ) (s : List ℕ)
    → r + k ≤ w
    → w ≤ length s
    → take k (drop r s) ≡ take k (drop r (take w s))
take-drop-take k r w s h le =
    let front = length-take w s in
    ap (λ x. take k (drop r x)) (sym (take-append-drop w s))
    ∙ ap (take k) (drop-append r (take w s) (drop w s) (omega (arith, front)))
    ∙ take-append k (drop r (take w s)) (drop w s) (omega (arith, front, length-drop r (take w s)))
