-- ===== src/Listener/Valid.antt =====
-- A set of listeners with its members, and the lock around the operations.
use h.Base.{ℕ, ◌<◌, ◌≡◌, refl, sym, ◌∙◌, Bool, true, false, Option, some, List, [], ◌∷◌}
use h.Links.Apart.{Apart}
use h.Links.Joins.{IsRing}
use h.Client.{done, put}
use h.Client.Valid.{put-other}
use h.Listener.{Listener, Listeners, lock_set, unlock_set}

-- The members of a set are alive.
pub data Members (listeners : ℕ → Option Listener) : List ℕ → Type 0 where
  no_more : Members listeners []
  member :
      {x : ℕ} {l : Listener} {xs : List ℕ}
      → listeners x ≡ some l
      → 0 < l.ref_count
      → Members listeners xs
      → Members listeners (x ∷ xs)

pub Members-put :
    {listeners : ℕ → Option Listener} {xs : List ℕ} (p : ℕ) (o : Option Listener)
    → Apart p xs
    → Members listeners xs
    → Members (put p o listeners) xs
Members-put p o apart no_more = no_more
Members-put {listeners} p o apart (member {x = x} alive pos rest) =
    member (put-other p o listeners x (λ e. apart.0 (sym e)) ∙ alive) pos
      (Members-put p o apart.1 rest)

-- A set that is allocated and whose lock is free, with its members, the newest first.
pub record IsLsnSet (w : Listeners) (set : ℕ) (refs : ℕ) (xs : List ℕ) : Type 0 where
  pub ring : IsRing w.links set xs
  pub free : w.sets set ≡ some (refs, false)
  pub members : Members w.listeners xs

pub lock_set_lem :
    {set refs : ℕ} (w : Listeners)
    → w.sets set ≡ some (refs, false)
    → lock_set set w ≡ done (record w { sets = put set (some (refs, true)) w.sets })
unfolding lock_set
lock_set_lem w e = rw e refl

pub unlock_set_lem :
    {set refs : ℕ} {held : Bool} (w : Listeners)
    → w.sets set ≡ some (refs, held)
    → unlock_set set w ≡ done (record w { sets = put set (some (refs, false)) w.sets })
unfolding unlock_set
unlock_set_lem w e = rw e refl
