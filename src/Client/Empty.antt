-- ===== src/Client/Empty.antt =====
-- `client_set_kill_unref` of a set without members.
use h.Base.{
  ℕ, suc, ◌-◌, ◌<◌, ◌≡◌, refl, inl, inr, true, false, Bool-cases, none, some, [], ◌==◌,
  if◌then◌else◌, arith,
}
use h.Links.Joins.{end-next, IsRing}
use h.Client.{
  World, done, put, client_set_kill_unref, client_set_self_kill, client_set_unref, kill_members,
  lock, unlock,
}
use h.Client.Valid.{put-same}

-- The memory after the owner of the set has let go of it.
abbrev pub released : World → ℕ → ℕ → World
released w set refs = record w {
  sets =
      put set (if refs == 1 then none else some (refs - 1, false))
        (put set (some (refs, false)) (put set (some (refs, true)) w.sets));
}

pub client_set_kill_unref-empty :
    (w : World) (rounds set refs : ℕ)
    → IsRing w.links set []
    → w.sets set ≡ some (refs, false)
    → 0 < refs
    → client_set_kill_unref (suc rounds) set w ≡ done (released w set refs)
unfolding client_set_kill_unref client_set_self_kill client_set_unref kill_members lock unlock
client_set_kill_unref-empty w rounds set refs ring free pos =
    let back : (w.links.next set == set) ≡ true = ground (arith, end-next ring.joins) in
    let real : (set == 0) ≡ false = ground (arith, ring.real.0) in
    let counted : (refs == 0) ≡ false = ground arith in
    let locked = put-same set (some (refs, true)) w.sets in
    let unlocked = put-same set (some (refs, false)) (put set (some (refs, true)) w.sets) in
    rw (free, back)
      (rw (back, locked)
        (rw (real, unlocked, counted, back)
          (elim (Bool-cases (refs == 1)) [
            | inl final ↦ rw final refl
            | inr shared ↦ rw shared refl
          ])))
