-- ===== src/Client/Kill.antt =====
-- `client_kill_unref` and `client_set_kill_unref`.
use h.Base.{
  ℕ, suc, ◌≡◌, ◌≢◌, refl, ap, ◌∙◌, inl, inr, true, false, Bool-cases, none, some, List, [], ◌∷◌,
  ◌==◌, arith,
}
use h.Base.Yields.{Yields-some}
use h.Links.Joins.{end-next, first-next, IsRing}
use h.Links.Remove.{list_del_lem}
use h.Client.{
  Client, kill_call, World, Outcome, deadlock, fault, ◌>>=◌, put, has, call, lock, client_set_del,
  self_kill, client_kill, client_kill_unref, kill_members, client_set_self_kill, client_set_unref,
  client_set_kill_unref,
}
use h.Client.Ends.{Ends, ends}
use h.Client.Valid.{put-same, Members-at, IsClientSet, lock_lem}
use h.Client.Members.{client_set_del_lem}

self_kill-deadlock :
    (w : World) (p cs refs : ℕ) (o : Client)
    → w.clients p ≡ some o
    → o.cs ≡ cs
    → 0 ≢ cs
    → w.sets cs ≡ some (refs, true)
    → self_kill p w ≡ deadlock
unfolding self_kill client_set_del lock
self_kill-deadlock w p cs refs o alive knows real held =
    let some_set : (cs == 0) ≡ false = ground arith in rw (alive, knows, some_set, held) refl

kill-deadlock :
    (w : World) (p cs refs : ℕ) (o : Client)
    → w.clients p ≡ some o
    → o.cs ≡ cs
    → 0 ≢ cs
    → w.sets cs ≡ some (refs, true)
    → client_kill_unref p w ≡ deadlock
unfolding client_kill_unref client_kill
kill-deadlock w p cs refs o alive knows real held =
    rw alive (elim (Bool-cases (has (λ k. k.kill) o.ops)) [
      | inl calls ↦
          rw calls
            (rw (self_kill-deadlock (call (kill_call p) w) p cs refs o alive knows real held) refl)
      | inr silent ↦ rw silent (rw (self_kill-deadlock w p cs refs o alive knows real held) refl)
    ])

-- The first round of the loop, while the lock is held.
kill_members-deadlock :
    (w : World) (rounds cs refs x : ℕ) (o : Client) (xs : List ℕ)
    → IsRing w.links cs (x ∷ xs)
    → w.sets cs ≡ some (refs, true)
    → w.clients x ≡ some o
    → o.cs ≡ cs
    → kill_members (suc rounds) cs (w.links.next cs) (w.links.next (w.links.next cs)) w ≡ deadlock
unfolding kill_members
kill_members-deadlock w rounds cs refs x o xs ring held alive knows =
    let other : (x == cs) ≡ false = ground (arith, ring.distinct.0.0) in
    let (m, e, left) = Yields-some (list_del_lem w.links cs x [] xs ring) in
    rw (first-next ring.joins, other, e)
      (rw (kill-deadlock (record w { links = m }) x cs refs o alive knows ring.real.0 held) refl)

-- `client_set_kill_unref` of a set with a member, all of them added by `client_set_add`, never
-- returns: it kills the member while it holds the lock that `client_set_del` takes.
pub client_set_kill_unref-deadlock :
    (w : World) (rounds cs refs x : ℕ) (xs : List ℕ)
    → IsClientSet w cs refs (x ∷ xs)
    → client_set_kill_unref (suc rounds) cs w ≡ deadlock
unfolding client_set_kill_unref client_set_self_kill
client_set_kill_unref-deadlock w rounds cs refs x xs valid =
    let ((o, alive, knows, pos), others) = Members-at x [] xs valid.members in
    rw (lock_lem w valid.free) (
      rw
        (kill_members-deadlock (record w { sets = put cs (some (refs, true)) w.sets }) rounds cs
          refs x o xs valid.ring (put-same cs _ w.sets) alive knows)
        refl)

self_kill-stale :
    (w : World) (p cs : ℕ) (o : Client)
    → w.clients p ≡ some o
    → o.cs ≡ cs
    → 0 ≢ cs
    → w.sets cs ≡ none
    → self_kill p w ≡ fault
unfolding self_kill client_set_del lock
self_kill-stale w p cs o alive knows real freed =
    let some_set : (cs == 0) ≡ false = ground arith in rw (alive, knows, some_set, freed) refl

-- `client_kill_unref` of a client whose pointer to a set was not reset, where that set is freed.
kill-stale :
    (w : World) (p cs : ℕ) (o : Client)
    → w.clients p ≡ some o
    → o.cs ≡ cs
    → 0 ≢ cs
    → w.sets cs ≡ none
    → client_kill_unref p w ≡ fault
unfolding client_kill_unref client_kill
kill-stale w p cs o alive knows real freed = rw alive (elim (Bool-cases (has (λ k. k.kill) o.ops)) [
  | inl calls ↦
      rw calls (rw (self_kill-stale (call (kill_call p) w) p cs o alive knows real freed) refl)
  | inr silent ↦ rw silent (rw (self_kill-stale w p cs o alive knows real freed) refl)
])

Ends-fault {ℓ} :
    {A : Type ℓ} {Post : A → Type 0} {o : Outcome A} (f : A → Outcome World)
    (g : World → Outcome World)
    → Ends Post o
    → ((a : A) → Post a → (f a >>= g) ≡ fault)
    → (o >>= f >>= g) ≡ fault
Ends-fault f g (ends p) next = next _ p

after_del :
    (w : World) (cs c : ℕ) (o : Client)
    → IsClientSet w cs 1 []
    → w.clients c ≡ some o
    → o.cs ≡ cs
    → (client_set_unref cs w >>= client_kill_unref c) ≡ fault
unfolding client_set_unref
after_del w cs c o valid alive knows =
    let some_set : (cs == 0) ≡ false = ground (arith, valid.ring.real.0) in
    let empty : (w.links.next cs == cs) ≡ true = ground (arith, end-next valid.ring.joins) in
    rw (some_set, valid.free, empty)
      (kill-stale (record w { sets = put cs none w.sets }) c cs o alive knows valid.ring.real.0
        (put-same cs none w.sets))

-- A client that `client_set_del` takes out of its set keeps the pointer to it: once the set's last
-- reference is dropped, killing the client reads the freed set's lock.
pub client_set_del-stale :
    (w : World) (cs c : ℕ)
    → IsClientSet w cs 1 (c ∷ [])
    → client_set_del cs c w >>= client_set_unref cs >>= client_kill_unref c ≡ fault
client_set_del-stale w cs c valid =
    let ((o, alive, knows, pos), others) = Members-at c [] [] valid.members in
    Ends-fault (client_set_unref cs) (client_kill_unref c) (client_set_del_lem w cs 1 c [] [] valid)
      (λ r removed. after_del r cs c o removed.set (ap (λ f. f c) removed.clients ∙ alive) knows)
