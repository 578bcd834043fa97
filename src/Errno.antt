-- ===== src/Errno.antt =====
-- The error codes of include/h6_def.h and <errno.h> that the sources tell apart, and what a
-- function that returns `0` or `-errno` returns.
use h.Base.{ℕ, Bool, true, false, ◌≡◌, ◌⊎◌, inl, inr, refl}

pub data Errno : Type 0 where
  eagain einval ekilled eexist econnreset eintr einprogress eperm enomem : Errno
  other : ℕ → Errno

-- `0`, or the negation of an error number.
pub data Code : Type 0 where
  ok : Code
  minus : Errno → Code

abbrev pub is_ok : Code → Bool
is_ok ok = true
is_ok (minus e) = false

abbrev pub is_eagain : Code → Bool
is_eagain (minus eagain) = true
is_eagain _ = false

abbrev pub is_econnreset : Code → Bool
is_econnreset (minus econnreset) = true
is_econnreset _ = false

pub Code-cases : (c : Code) → (c ≡ ok) ⊎ ((e : Errno) × (c ≡ minus e))
Code-cases ok = inl refl
Code-cases (minus e) = inr (e, refl)
